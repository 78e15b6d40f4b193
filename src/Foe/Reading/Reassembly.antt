-- ===== src/Foe/Reading/Reassembly.antt =====
-- What `ecx_FOEread` makes of the packets of a slave that follows the protocol. There is no hook.
use e_rob_soem_linux.Base.{
  ℕ, zero, suc, ◌+◌, ◌%◌, ◌^◌, ◌≤◌, ◌<◌, ◌≡◌, refl, sym, ap, ◌∙◌, arith, Bool, true, false, List,
  [], ◌∷◌, ◌++◌, none, some, ◌&&◌, ◌==◌, append-nil, append_assoc, Bytes, get16, concat, length,
  length-append, take-append, drop, read_at, write_at, write_at-append, write_at-nil,
}
use e_rob_soem_linux.Base.Int.{ℤ, is_positive}
use e_rob_soem_linux.Task.{◌>>=◌}
use e_rob_soem_linux.Mailbox.Channel.{Channel, clear_mbx}
use e_rob_soem_linux.Foe.{
  is_foe, opcode, packet_number, packet_size, max_data, file_request, foe_packet, progress,
}
use e_rob_soem_linux.Foe.Reading.{
  FileRead, is_next, take_packet, read_packet, read_packets, foe_read,
}
use e_rob_soem_linux.Foe.Writing.Rounds.{Sent}

-- A data packet `number` with the data `d`.
pub record Packet (number : ℕ) (d mbx : Bytes) : Type 0 where
  pub foe : (is_foe mbx && opcode mbx == 3) ≡ true
  pub number_lem : packet_number mbx ≡ number
  pub size_lem : get16 mbx 0 ≡ 6 + length d
  pub rest : Bytes
  pub data_lem : drop 12 mbx ≡ d ++ rest

module _ {S : Type 0} (ch : Channel S) (timeout maxdata : ℕ) where
  -- The slave sends the packets `ds` with the numbers that follow `number`, and takes the acknowledgement of
  -- each of them. All are full but the last one, which is shorter and may be empty.
  pub data Sends : ℕ → Bytes → S → List Bytes → S → Type 0 where
    last :
        {s t u : S} (number : ℕ) (out d mbx : Bytes) (wkc : ℤ)
        → length d < maxdata
        → ch.receive clear_mbx timeout s ≡ some ((wkc, mbx), t)
        → is_positive wkc ≡ true
        → Packet ((number + 1) % 2 ^ 32) d mbx
        → Sent ch (foe_packet 4 out (packet_number mbx) []) t u
        → Sends number out s (d ∷ []) u
    more :
        {s t u w : S} {ds : List Bytes} (number : ℕ) (out d mbx : Bytes) (wkc : ℤ)
        → length d ≡ maxdata
        → ch.receive clear_mbx timeout s ≡ some ((wkc, mbx), t)
        → is_positive wkc ≡ true
        → Packet ((number + 1) % 2 ^ 32) d mbx
        → (x : Sent ch (foe_packet 4 out (packet_number mbx) []) t u)
        → Sends (packet_number mbx) (foe_packet 4 out (packet_number mbx) [] x.cnt) u ds w
        → Sends number out s (d ∷ ds) w

  -- A packet that is stored and acknowledged.
  packet_taken :
      (size : ℕ) (d mbx : Bytes) (wkc : ℤ) (v : FileRead) (s t u : S)
      → packet_size mbx ≡ length d
      → is_next size mbx v ≡ true
      → ch.receive clear_mbx timeout s ≡ some ((wkc, mbx), t)
      → is_positive wkc ≡ true
      → (x : Sent ch (foe_packet 4 v.out (packet_number mbx) []) t u)
      → read_packet ch none maxdata timeout size v s
        ≡ some (
          (
            (length d == maxdata) && true,
            record {
              wkc = x.wkc;
              psize = v.dataread + length d;
              prevpacket = packet_number mbx;
              dataread = v.dataread + length d;
              p = write_at v.p v.dataread (read_at mbx 12 (length d));
              out = foe_packet 4 v.out (packet_number mbx) [] x.cnt;
            },
          ),
          u,
        )
  unfolding read_packet take_packet progress ◌>>=◌
  packet_taken size d mbx wkc v s t u sized next e positive x =
      rw
        (
          e, positive, next, x.count_lem, x.send_lem, sized, x.send_positive, read_packet,
          take_packet, progress, ◌>>=◌,
        )
        refl

  one_more :
      (fuel size : ℕ) (v v' : FileRead) (s t : S) (full : Bool)
      → full ≡ true
      → read_packet ch none maxdata timeout size v s ≡ some ((full, v'), t)
      → read_packets ch none maxdata (suc fuel) timeout size v s
        ≡ read_packets ch none maxdata fuel timeout size v' t
  unfolding read_packets
  one_more fuel size v v' s t full goes_on e = rw (e, goes_on, read_packets) refl

  over :
      (fuel size : ℕ) (v v' : FileRead) (s t : S) (full : Bool)
      → full ≡ false
      → read_packet ch none maxdata timeout size v s ≡ some ((full, v'), t)
      → read_packets ch none maxdata (suc fuel) timeout size v s ≡ some (v', t)
  unfolding read_packets
  over fuel size v v' s t full ends e = rw (e, ends, read_packets) refl

  -- A packet that fits into the buffer.
  fits_next :
      (size : ℕ) (d mbx : Bytes) (v : FileRead)
      → (f : Packet ((v.prevpacket + 1) % 2 ^ 32) d mbx) → length d < 65530
      → v.dataread + length d ≤ size
      → (packet_size mbx ≡ length d) × (is_next size mbx v ≡ true)
  fits_next size d mbx v f small fits =
      let sized : packet_size mbx ≡ length d = omega (arith, f.size_lem) in
      (sized, ground (arith, sized, f.foe, f.number_lem))

  -- The bytes that the packet adds to those of `done`.
  added :
      (p₀ done d rest mbx : Bytes) (v : FileRead)
      → v.p ≡ write_at p₀ 0 done
      → v.dataread ≡ length done
      → drop 12 mbx ≡ d ++ rest
      → write_at v.p v.dataread (read_at mbx 12 (length d)) ≡ write_at p₀ 0 (done ++ d)
  added p₀ done d rest mbx v bytes count data_lem =
      let at : v.dataread ≡ 0 + length done = omega (arith, count) in
      rw (bytes, at, data_lem, take-append d rest) (write_at-append p₀ 0 done d)

  read_packets-Sends :
      (fuel size : ℕ) (p₀ done : Bytes) (v : FileRead) (s t : S) (ds : List Bytes)
      → maxdata < 65530
      → Sends v.prevpacket v.out s ds t
      → length ds ≤ fuel
      → length (done ++ concat ds) ≤ size
      → v.p ≡ write_at p₀ 0 done
      → v.dataread ≡ length done
      → (r : FileRead) × (read_packets ch none maxdata fuel timeout size v s ≡ some (r, t))
        × (is_positive r.wkc ≡ true)
        × (r.p ≡ write_at p₀ 0 (done ++ concat ds))
        × (r.psize ≡ length (done ++ concat ds))
  read_packets-Sends fuel size p₀ done v s t [] word fs enough fits bytes count = elim fs [ ]
  read_packets-Sends zero size p₀ done v s t (d ∷ ds) word fs enough fits bytes count =
      absurd (omega arith)
  read_packets-Sends (suc fuel) size p₀ done v s t (_ ∷ []) word
        (last _ _ d mbx wkc short e positive f x) enough fits bytes count =
      let whole = ap (λ l. done ++ l) (append-nil d) in
      let room : v.dataread + length d ≤ size =
        omega (arith, ap length whole, length-append done d, count) in
      let (sized, next) = fits_next size d mbx v f (omega arith) room in
      let ends : ((length d == maxdata) && true) ≡ false = ground arith in
      (
        _,
        over fuel size v _ s t ((length d == maxdata) && true) ends
            (packet_taken size d mbx wkc v s _ t sized next e positive x),
        x.send_positive,
        added p₀ done d f.rest mbx v bytes count f.data_lem ∙ ap (write_at p₀ 0) (sym whole),
        omega (arith, ap length whole, length-append done d, count),
      )
  read_packets-Sends (suc fuel) size p₀ done v s t (_ ∷ ds) word
        (more {u = u} _ _ d mbx wkc full e positive f x fs) enough fits bytes count =
      let whole = append_assoc done d (concat ds) in
      let both = length-append done d in
      let room : v.dataread + length d ≤ size =
        omega (arith, ap length whole, length-append (done ++ d) (concat ds), both, count) in
      let (sized, next) = fits_next size d mbx v f (omega arith) room in
      let goes_on : ((length d == maxdata) && true) ≡ true = ground arith in
      let (r, go, sent, bytes', count') =
        read_packets-Sends fuel size p₀ (done ++ d) _ u t ds word fs (omega arith)
          (omega (arith, ap length whole)) (added p₀ done d f.rest mbx v bytes count f.data_lem)
          (omega (arith, both, count)) in
      (
        r,
        one_more fuel size v _ s u ((length d == maxdata) && true) goes_on
              (packet_taken size d mbx wkc v s _ u sized next e positive x)
            ∙ go,
        sent,
        bytes' ∙ ap (write_at p₀ 0) whole,
        count' ∙ ap length whole,
      )

-- `ecx_FOEread` puts the packets of a slave that follows the protocol together: it returns a positive
-- working counter, the buffer starts with their data, in order, and nothing behind that changes, and the
-- size that it gives is that of the data. The slave takes the request, sends these packets, all full but the
-- last one, and takes the acknowledgements. The data fit into the buffer, the slave's mailbox is larger
-- than the headers, the application has set no hook, and a round for each packet is enough.
pub foe_read-Sends :
    {S : Type 0} (ch : Channel S) (fuel mbx_l : ℕ) (filename : Bytes) (password psize : ℕ)
    (p : Bytes) (timeout : ℕ) (s o t u : S) (old : ℤ × Bytes) (ds : List Bytes)
    → 12 < mbx_l
    → mbx_l < 65536
    → ch.receive clear_mbx 0 s ≡ some (old, o)
    → (x : Sent ch (file_request 1 mbx_l filename password) o t)
    → Sends ch timeout (max_data mbx_l) 0 (file_request 1 mbx_l filename password x.cnt) t ds u
    → length ds ≤ fuel
    → length (concat ds) ≤ psize
    → (r : FileRead) × (foe_read ch none fuel mbx_l filename password psize p timeout s
        ≡ some (r, u))
      × (is_positive r.wkc ≡ true)
      × (r.p ≡ write_at p 0 (concat ds))
      × (r.psize ≡ length (concat ds))
unfolding foe_read ◌>>=◌
foe_read-Sends ch fuel mbx_l filename password psize p timeout s o t u old ds room word emptied x fs
      enough fits =
    let v : FileRead = record {
      wkc = x.wkc;
      psize = psize;
      prevpacket = 0;
      dataread = 0;
      p = p;
      out = file_request 1 mbx_l filename password x.cnt;
    } in
    let (r, e, positive, bytes, count) =
      read_packets-Sends ch timeout (max_data mbx_l) fuel psize p [] v t u ds (omega arith) fs
        enough fits (sym (write_at-nil p 0)) refl in
    let opens : foe_read ch none fuel mbx_l filename password psize p timeout s
        ≡ read_packets ch none (max_data mbx_l) fuel timeout psize v t =
      rw (emptied, x.count_lem, x.send_lem, x.send_positive, foe_read, ◌>>=◌) refl in
    (r, opens ∙ e, positive, bytes, count)
