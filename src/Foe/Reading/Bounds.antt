-- ===== src/Foe/Reading/Bounds.antt =====
-- What `ecx_FOEread` does to the buffer, whatever the slave sends.
use e_rob_soem_linux.Base.{
  ℕ, zero, suc, ◌+◌, ◌≤◌, ◌<◌, ◌≡◌, refl, Bool-cases, inl, inr, ◌∙◌, arith, Bool, true, Option,
  none, some, Bytes, length, length-take, get_or, drop, read_at, write_at, length-write_at,
  get_or-write_at_above,
}
use e_rob_soem_linux.Base.Int.{ℤ, is_positive}
use e_rob_soem_linux.Task.Yields.{Yields, Ends, pure-Yields, if-Yields, >>=-Yields}
use e_rob_soem_linux.Mailbox.Channel.{Channel, Answers}
use e_rob_soem_linux.Foe.{packet_number, packet_size, max_data, file_request, progress}
use e_rob_soem_linux.Foe.Reading.{
  FileRead, is_next, take_packet, read_packet, read_packets, foe_read,
}

-- The file that came up to now lies in the buffer of `size` bytes, and the bytes behind it are those of `p₀`.
pub record Holds (size : ℕ) (p₀ : Bytes) (v : FileRead) : Type 0 where
  pub read_lem : v.dataread ≤ v.psize
  pub psize_lem : v.psize ≤ size
  pub length_lem : length v.p ≡ length p₀
  pub behind : (j d : ℕ) → v.dataread ≤ j → get_or v.p j d ≡ get_or p₀ j d

pub progress-Ends :
    {S : Type 0} (hook : Option (ℕ → ℕ → S → S)) (number size : ℕ)
    → Ends (progress hook number size)
unfolding progress
progress-Ends none number size = record { at = λ s. (_, refl, tt) }
progress-Ends (some hook) number size = record { at = λ s. (_, refl, tt) }

-- A packet that fits is stored behind the others.
stored :
    (size : ℕ) (p₀ mbx : Bytes) (v : FileRead) (wkc : ℤ) (number : ℕ) (out : Bytes)
    → Holds size p₀ v
    → v.dataread + packet_size mbx ≤ size
    → Holds size p₀ (record {
      wkc = wkc;
      psize = v.dataread + packet_size mbx;
      prevpacket = number;
      dataread = v.dataread + packet_size mbx;
      p = write_at v.p v.dataread (read_at mbx 12 (packet_size mbx));
      out = out;
    })
stored size p₀ mbx v wkc number out h fits = record {
  read_lem = omega arith;
  psize_lem = fits;
  length_lem = length-write_at v.p v.dataread (read_at mbx 12 (packet_size mbx)) ∙ h.length_lem;
  behind = λ j d le.
      get_or-write_at_above v.p v.dataread (read_at mbx 12 (packet_size mbx)) j d
        (omega (arith, length-take (packet_size mbx) (drop 12 mbx)))
      ∙ h.behind j d (omega arith);
}

-- A round stores nothing or a packet; the next round follows only a full one.
record Round (size maxdata : ℕ) (p₀ : Bytes) (v : FileRead) (r : Bool × FileRead) : Type 0 where
  holds : Holds size p₀ r.1
  full : r.0 ≡ true → r.1.dataread ≡ v.dataread + maxdata

is_next-fits :
    (size : ℕ) (mbx : Bytes) (v : FileRead)
    → is_next size mbx v ≡ true
    → v.dataread + packet_size mbx ≤ size
is_next-fits size mbx v e = ground arith

module _ {S : Type 0} (ch : Channel S) (answers : Answers ch) (hook : Option (ℕ → ℕ → S → S))
    (size maxdata : ℕ) (p₀ : Bytes) where
  take_packet-Yields :
      (mbx : Bytes) (v : FileRead)
      → Holds size p₀ v
      → v.dataread + packet_size mbx ≤ size
      → Yields (Round size maxdata p₀ v) (take_packet ch hook maxdata mbx v)
  unfolding take_packet
  take_packet-Yields mbx v h fits = >>=-Yields _ _ answers.counts (λ cnt _.
      >>=-Yields _ _ (answers.sends _ _) (λ wkc _. >>=-Yields _ _ (progress-Ends hook _ _) (λ _ _.
        pure-Yields _ (record {
          holds = stored size p₀ mbx v wkc (packet_number mbx) _ h fits;
          full = λ e. ground arith;
        }))))

  read_packet-Yields :
      (timeout : ℕ) (v : FileRead)
      → Holds size p₀ v
      → Yields (Round size maxdata p₀ v) (read_packet ch hook maxdata timeout size v)
  unfolding read_packet
  read_packet-Yields timeout v h = >>=-Yields _ _ (answers.receives _ _) (λ got _.
      if-Yields (is_positive got.0) _ _
        (λ yes.
          if-Yields (is_next size got.1 v) _ _
            (λ next. take_packet-Yields got.1 v h (is_next-fits size got.1 v next))
            (λ other. pure-Yields _ (record {
              holds = record {
                read_lem = omega arith;
                psize_lem = omega (arith, h.read_lem, h.psize_lem);
                length_lem = h.length_lem;
                behind = h.behind;
              };
              full = λ e. cc e;
            })))
        (λ lost. pure-Yields _ (record {
          holds = record {
            read_lem = h.read_lem;
            psize_lem = h.psize_lem;
            length_lem = h.length_lem;
            behind = h.behind;
          };
          full = λ e. cc e;
        })))

  -- A round for each full packet that fits into the buffer, and one more, are enough.
  read_packets-Yields :
      (fuel timeout : ℕ) (v : FileRead)
      → 0 < maxdata
      → size < v.dataread + fuel
      → Holds size p₀ v
      → Yields (Holds size p₀) (read_packets ch hook maxdata fuel timeout size v)
  unfolding read_packets
  read_packets-Yields zero timeout v room enough h = absurd (omega (arith, h.read_lem, h.psize_lem))
  read_packets-Yields (suc fuel) timeout v room enough h = record {
    at = λ s.
        let (r, e, round) = (read_packet-Yields timeout v h).at s in
        elim (Bool-cases r.0.0) [
          | inl goes_on ↦
              let (r', e', holds) =
                (read_packets-Yields fuel timeout r.0.1 room (omega (arith, round.full goes_on))
                    round.holds).at
                  r.1 in
              (r', rw (e, goes_on, read_packets) e', holds)
          | inr ends ↦ ((r.0.1, r.1), rw (e, ends, read_packets) refl, round.holds)
        ];
  }

-- `ecx_FOEread` comes to an end, whatever the slave sends, and stays inside the buffer: the size that it
-- gives is at most the buffer's, what it has read is at most that size, and the bytes behind what it has
-- read are those from before. The channel's operations come to an end, the slave's mailbox is larger than
-- the headers, and a round for each byte of the buffer and one more are enough.
pub foe_read-Holds :
    {S : Type 0} (ch : Channel S) (answers : Answers ch) (hook : Option (ℕ → ℕ → S → S))
    (fuel mbx_l : ℕ) (filename : Bytes) (password psize : ℕ) (p : Bytes) (timeout : ℕ) (s : S)
    → 12 < mbx_l
    → mbx_l < 65536
    → psize < fuel
    → (r : FileRead × S) × (foe_read ch hook fuel mbx_l filename password psize p timeout s
        ≡ some r)
      × Holds psize p r.0
unfolding foe_read
foe_read-Holds ch answers hook fuel mbx_l filename password psize p timeout s room word enough =
    let first : ℤ → ℕ → FileRead = λ wkc cnt. record {
      wkc = wkc;
      psize = psize;
      prevpacket = 0;
      dataread = 0;
      p = p;
      out = file_request 1 mbx_l filename password cnt;
    } in
    let begin : (wkc : ℤ) (cnt : ℕ) → Holds psize p (first wkc cnt) = λ wkc cnt. record {
      read_lem = omega arith;
      psize_lem = omega arith;
      length_lem = refl;
      behind = λ j d le. refl;
    } in
    let whole : Yields (Holds psize p)
        (foe_read ch hook fuel mbx_l filename password psize p timeout) =
      >>=-Yields _ _ (answers.receives _ _) (λ old _. >>=-Yields _ _ answers.counts (λ cnt _.
        >>=-Yields _ _ (answers.sends _ _) (λ wkc _.
          if-Yields (is_positive wkc) _ _
            (λ sent.
              read_packets-Yields ch answers hook psize (max_data mbx_l) p fuel timeout
                (first wkc cnt) (omega arith) (omega arith) (begin wkc cnt))
            (λ lost. pure-Yields _ (begin wkc cnt))))) in
    whole.at s
