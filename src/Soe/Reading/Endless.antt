-- ===== src/Soe/Reading/Endless.antt =====
-- The loop of `ecx_SoEread`, when the slave never sends a last fragment.
use e_rob_soem_linux.Base.{ℕ, zero, suc, ◌≡◌, refl, true, none, some, Bytes}
use e_rob_soem_linux.Base.Int.{ℤ, is_positive}
use e_rob_soem_linux.Task.{◌>>=◌}
use e_rob_soem_linux.Mailbox.Channel.{Channel, clear_mbx}
use e_rob_soem_linux.Soe.{is_answer, incomplete}
use e_rob_soem_linux.Soe.Reading.{SoeRead, copy_fragment, read_answer, read_answers}

-- A slave that goes on with marking its answers as incomplete keeps `ecx_SoEread` in its loop for ever,
-- also when the buffer is full: no number of rounds ends it. `Stays` are states of the master and the
-- slave in which the next receiving gives such an answer and leads to such a state again; the loop
-- starts in one of them.
pub read_answers_diverges :
    {S : Type 0} (ch : Channel S) (Stays : S → Type 0) (drive flags idn timeout fuel size : ℕ)
    (v : SoeRead) (s : S)
    → ((t : S)
        → Stays t
        → (r : (ℤ × Bytes) × S) × (ch.receive clear_mbx timeout t ≡ some r)
          × (is_positive r.0.0 ≡ true)
          × (is_answer 2 drive flags r.0.1 ≡ true)
          × (incomplete r.0.1 ≡ true)
          × Stays r.1)
    → Stays s
    → read_answers ch drive flags idn timeout fuel size v s ≡ none
unfolding read_answers read_answer ◌>>=◌
read_answers_diverges ch Stays drive flags idn timeout zero size v s endless now = refl
read_answers_diverges ch Stays drive flags idn timeout (suc fuel) size v s endless now =
    let (r, e, positive, answer, goes_on, next) = endless s now in
    rw (e, positive, answer, goes_on, read_answers, read_answer, ◌>>=◌)
      (read_answers_diverges ch Stays drive flags idn timeout fuel size
        (copy_fragment size r.0.0 r.0.1 v) r.1 endless next)
