-- ===== src/Foe/Writing/Rounds.antt =====
-- One round of `ecx_FOEwrite` with a slave that acknowledges what it gets. There is no hook.
use e_rob_soem_linux.Base.{
  ℕ, suc, ◌+◌, ◌-◌, ◌%◌, ◌^◌, ◌≡◌, refl, ap, ◌∙◌, arith, true, false, none, some, ◌&&◌, ◌||◌, ltb,
  ◌==◌, min, Bytes, read_at,
}
use e_rob_soem_linux.Base.Int.{ℤ, is_positive}
use e_rob_soem_linux.Task.{◌>>=◌}
use e_rob_soem_linux.Mailbox.Channel.{Channel, ec_timeouttxm, clear_mbx}
use e_rob_soem_linux.Foe.{is_foe, opcode, packet_number, foe_packet, progress}
use e_rob_soem_linux.Foe.Writing.{
  FileWrite, send_packet, take_acknowledge, write_packet, write_packets,
}

module _ {S : Type 0} (ch : Channel S) where
  -- The slave takes the mailbox `req` for the next counter.
  pub record Sent (req : ℕ → Bytes) (s t : S) : Type 0 where
    pub cnt : ℕ
    pub wkc : ℤ
    pub counted : S
    pub count_lem : ch.count s ≡ some (cnt, counted)
    pub send_lem : ch.send (req cnt) ec_timeouttxm counted ≡ some (wkc, t)
    pub send_positive : is_positive wkc ≡ true

  -- The slave acknowledges the packet `number`.
  pub record Acknowledged (timeout number : ℕ) (s t : S) : Type 0 where
    pub wkc : ℤ
    pub mbx : Bytes
    pub receive_lem : ch.receive clear_mbx timeout s ≡ some ((wkc, mbx), t)
    pub receive_positive : is_positive wkc ≡ true
    pub foe : (is_foe mbx && opcode mbx == 4) ≡ true
    pub number_lem : (packet_number mbx == number) ≡ true

module _ {S : Type 0} (ch : Channel S) (timeout maxdata : ℕ) where
  send_packet_lem :
      (p d : Bytes) (size : ℕ) (v : FileWrite) (t u : S)
      → (x : Sent ch (foe_packet 3 v.out ((v.sendpacket + 1) % 2 ^ 32) d) t u)
      → send_packet ch none maxdata p size d v t
        ≡ some (
          (
            true,
            record {
              wkc = x.wkc;
              sendpacket = (v.sendpacket + 1) % 2 ^ 32;
              left = v.left - size;
              hp = v.hp + size;
              segmentdata = size;
              dofinalzero = v.left - size == 0 && size == maxdata;
              out = foe_packet 3 v.out ((v.sendpacket + 1) % 2 ^ 32) d x.cnt;
            },
          ),
          u,
        )
  unfolding send_packet ◌>>=◌
  send_packet_lem p d size v t u x =
      rw (x.count_lem, x.send_lem, x.send_positive, send_packet, ◌>>=◌) refl

  -- The packet that follows an acknowledgement.
  pub goes_on_round :
      (p d : Bytes) (size : ℕ) (v : FileWrite) (s t u : S)
      → min v.left maxdata ≡ size
      → Acknowledged ch timeout v.sendpacket s t
      → (x : Sent ch (foe_packet 3 v.out ((v.sendpacket + 1) % 2 ^ 32) d) t u)
      → (ltb 0 size || v.dofinalzero) ≡ true
      → read_at p v.hp size ≡ d
      → write_packet ch none maxdata p timeout v s
        ≡ some (
          (
            true,
            record {
              wkc = x.wkc;
              sendpacket = (v.sendpacket + 1) % 2 ^ 32;
              left = v.left - size;
              hp = v.hp + size;
              segmentdata = size;
              dofinalzero = v.left - size == 0 && size == maxdata;
              out = foe_packet 3 v.out ((v.sendpacket + 1) % 2 ^ 32) d x.cnt;
            },
          ),
          u,
        )
  unfolding write_packet take_acknowledge progress ◌>>=◌
  goes_on_round p d size v s t u fits a x goes_on piece =
      let v' : FileWrite = record v { wkc = a.wkc } in
      let opens : write_packet ch none maxdata p timeout v s
          ≡ send_packet ch none maxdata p size (read_at p v.hp size) v' t =
        rw
          (
            a.receive_lem, a.receive_positive, a.foe, a.number_lem, fits, goes_on, write_packet,
            take_acknowledge, progress, ◌>>=◌,
          )
          refl in
      opens
      ∙ ap (λ q. send_packet ch none maxdata p size q v' t) piece
      ∙ send_packet_lem p d size v' t u x

  -- Nothing follows the acknowledgement of the last packet.
  pub all_sent :
      (p : Bytes) (v : FileWrite) (s t : S)
      → (a : Acknowledged ch timeout v.sendpacket s t) → v.left ≡ 0
      → v.dofinalzero ≡ false
      → write_packet ch none maxdata p timeout v s ≡ some ((false, record v { wkc = a.wkc }), t)
  unfolding write_packet take_acknowledge progress ◌>>=◌
  all_sent p v s t a nothing over =
      let stops : (ltb 0 (min v.left maxdata) || v.dofinalzero) ≡ false = ground arith in
      rw
        (
          a.receive_lem, a.receive_positive, a.foe, a.number_lem, stops, write_packet,
          take_acknowledge, progress, ◌>>=◌,
        )
        refl

  pub one_more :
      (fuel : ℕ) (p : Bytes) (v v' : FileWrite) (s t : S)
      → write_packet ch none maxdata p timeout v s ≡ some ((true, v'), t)
      → write_packets ch none maxdata p (suc fuel) timeout v s
        ≡ write_packets ch none maxdata p fuel timeout v' t
  unfolding write_packets
  one_more fuel p v v' s t e = rw (e, write_packets) refl

  pub over :
      (fuel : ℕ) (p : Bytes) (v v' : FileWrite) (s t : S)
      → write_packet ch none maxdata p timeout v s ≡ some ((false, v'), t)
      → write_packets ch none maxdata p (suc fuel) timeout v s ≡ some (v', t)
  unfolding write_packets
  over fuel p v v' s t e = rw (e, write_packets) refl
