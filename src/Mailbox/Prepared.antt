-- ===== src/Mailbox/Prepared.antt =====
-- A slave that gives answers prepared beforehand, whatever it is asked.
use e_rob_soem_linux.Base.{ℕ, zero, suc, refl, true, List, [], ◌∷◌, some, Bytes}
use e_rob_soem_linux.Base.Int.{ℤ, pos}
use e_rob_soem_linux.Mailbox.Channel.{Channel, Answers}

-- The answers that are left; a mailbox is read only by a call that waits for it.
abbrev pop : ℕ → List Bytes → (ℤ × Bytes) × List Bytes
pop timeout [] = ((pos 0, []), [])
pop zero (m ∷ ms) = ((pos 0, []), m ∷ ms)
pop (suc timeout) (m ∷ ms) = ((pos 1, m), ms)

abbrev pub prepared : Channel (List Bytes)
prepared = record {
  count = λ s. some (5, s);
  send = λ mbx timeout s. some (pos 1, s);
  receive = λ mbx timeout s. some (pop timeout s);
  sdo_error = λ index subindex code s. some (tt, s);
  packet_error = λ index subindex code s. some (tt, s);
  soe_error = λ idn code s. some (tt, s);
  empty = λ timeout s. some (true, s);
}

pub prepared-Answers : Answers prepared
prepared-Answers = record {
  counts = record { at = λ s. (_, refl, tt) };
  sends = λ mbx timeout. record { at = λ s. (_, refl, tt) };
  receives = λ buf timeout. record { at = λ s. (_, refl, tt) };
  reports_sdo = λ index subindex code. record { at = λ s. (_, refl, tt) };
  reports_packet = λ index subindex code. record { at = λ s. (_, refl, tt) };
  reports_soe = λ idn code. record { at = λ s. (_, refl, tt) };
  looks = λ timeout. record { at = λ s. (_, refl, tt) };
}
