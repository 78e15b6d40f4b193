-- ===== src/Foe/Writing/Delivery.antt =====
-- What `ecx_FOEwrite` sends to a slave that follows the protocol, and to one that is busy. There is no hook.
use e_rob_soem_linux.Base.{
  ℕ, suc, ◌+◌, ◌%◌, ◌^◌, ◌<◌, ◌≡◌, refl, ◌∙◌, true, List, [], ◌∷◌, none, some, Bytes, length,
}
use e_rob_soem_linux.Base.Int.{ℤ, is_positive}
use e_rob_soem_linux.Task.{◌>>=◌}
use e_rob_soem_linux.Mailbox.Channel.{Channel, clear_mbx}
use e_rob_soem_linux.Foe.{is_foe, opcode, max_data, file_request, foe_packet}
use e_rob_soem_linux.Foe.Writing.{FileWrite, write_packet, write_packets, foe_write}
use e_rob_soem_linux.Foe.Writing.Rounds.{Sent, Acknowledged}

module _ {S : Type 0} (ch : Channel S) (timeout maxdata : ℕ) where
  -- The slave takes the packets `ds` that follow `number`, and acknowledges each of them. All are full but
  -- the last one, which is shorter and may be empty.
  pub data Delivers : ℕ → Bytes → S → List Bytes → S → Type 0 where
    last :
        {s t u w : S} (number : ℕ) (out d : Bytes)
        → length d < maxdata
        → Acknowledged ch timeout number s t
        → Sent ch (foe_packet 3 out ((number + 1) % 2 ^ 32) d) t u
        → Acknowledged ch timeout ((number + 1) % 2 ^ 32) u w
        → Delivers number out s (d ∷ []) w
    more :
        {s t u w : S} {ds : List Bytes} (number : ℕ) (out d : Bytes)
        → length d ≡ maxdata
        → Acknowledged ch timeout number s t
        → (x : Sent ch (foe_packet 3 out ((number + 1) % 2 ^ 32) d) t u)
        → Delivers ((number + 1) % 2 ^ 32) (foe_packet 3 out ((number + 1) % 2 ^ 32) d x.cnt) u ds w
        → Delivers number out s (d ∷ ds) w

-- The mailboxes are emptied, and the request is sent.
foe_write_opens :
    {S : Type 0} (ch : Channel S) (fuel mbx_l : ℕ) (filename : Bytes) (password psize : ℕ)
    (p : Bytes) (timeout : ℕ) (s o t : S) (old : ℤ × Bytes)
    → ch.receive clear_mbx 0 s ≡ some (old, o)
    → (x : Sent ch (file_request 2 mbx_l filename password) o t)
    → let first : FileWrite = record {
      wkc = x.wkc;
      sendpacket = 0;
      left = psize;
      hp = 0;
      segmentdata = 0;
      dofinalzero = true;
      out = file_request 2 mbx_l filename password x.cnt;
    } in
      foe_write ch none fuel mbx_l filename password psize p timeout s
      ≡ write_packets ch none (max_data mbx_l) p fuel timeout first t
unfolding foe_write ◌>>=◌
foe_write_opens ch fuel mbx_l filename password psize p timeout s o t old emptied x =
    rw (emptied, x.count_lem, x.send_lem, x.send_positive, foe_write, ◌>>=◌) refl

-- A slave that answers the request with BUSY ends `ecx_FOEwrite`: it returns the positive working counter
-- of the answer, and all of the file is left. The application has set no hook.
pub foe_write_busy :
    {S : Type 0} (ch : Channel S) (fuel mbx_l : ℕ) (filename : Bytes) (password psize : ℕ)
    (p mbx : Bytes) (timeout : ℕ) (s o t u : S) (old : ℤ × Bytes) (wkc : ℤ)
    → ch.receive clear_mbx 0 s ≡ some (old, o)
    → Sent ch (file_request 2 mbx_l filename password) o t
    → ch.receive clear_mbx timeout t ≡ some ((wkc, mbx), u)
    → is_positive wkc ≡ true
    → is_foe mbx ≡ true
    → opcode mbx ≡ 6
    → (w : FileWrite) × (foe_write ch none (suc fuel) mbx_l filename password psize p timeout s
        ≡ some (w, u))
      × (w.wkc ≡ wkc)
      × (w.left ≡ psize)
unfolding write_packets write_packet ◌>>=◌
foe_write_busy ch fuel mbx_l filename password psize p mbx timeout s o t u old wkc emptied x got
      positive foe busy =
    (
      record {
        wkc = wkc;
        sendpacket = 0;
        left = psize;
        hp = 0;
        segmentdata = 0;
        dofinalzero = true;
        out = file_request 2 mbx_l filename password x.cnt;
      },
      foe_write_opens ch (suc fuel) mbx_l filename password psize p timeout s o t old emptied x
          ∙ rw (got, positive, foe, busy, write_packets, write_packet, ◌>>=◌) refl,
      refl,
      refl,
    )
