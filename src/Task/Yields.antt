-- ===== src/Task/Yields.antt =====
-- Steps that come to an end from every state, with what their result satisfies: one rule for each way
-- to build a step.
use e_rob_soem_linux.Base.{◌≡◌, refl, Bool, true, false, some, if◌then◌else◌}
use e_rob_soem_linux.Task.{Task, pure, ◌>>=◌}

pub record Yields {S A : Type 0} (P : A → Type 0) (m : Task S A) : Type 0 where
  pub at : (s : S) → (r : A × S) × (m s ≡ some r) × P r.0

-- A step that ends.
abbrev pub Ends : {S A : Type 0} → Task S A → Type 0
Ends m = Yields (λ a. Unit {0}) m

module _ {S A : Type 0} {P : A → Type 0} where
  pub pure-Yields : (a : A) → P a → Yields P (pure {S = S} a)
  pure-Yields a p = record { at = λ s. ((a, s), refl, p) }

  pub if-Yields :
      (b : Bool) (m k : Task S A)
      → (b ≡ true → Yields P m)
      → (b ≡ false → Yields P k)
      → Yields P (if b then m else k)
  if-Yields true m k h j = h refl
  if-Yields false m k h j = j refl

  pub >>=-Yields :
      {B : Type 0} {Q : B → Type 0} (m : Task S B) (f : B → Task S A)
      → Yields Q m
      → ((b : B) → Q b → Yields P (f b))
      → Yields P (m >>= f)
  unfolding ◌>>=◌
  >>=-Yields m f h k = record {
    at = λ s.
        let (r, e, q) = h.at s in let (r', e', p) = (k r.0 q).at r.1 in (r', rw (e, ◌>>=◌) e', p);
  }
