-- ===== src/Task/Ensures.antt =====
-- What the result of a step satisfies if it comes to an end: one rule for each way to build a step.
use e_rob_soem_linux.Base.{
  ℕ, subst, zero, suc, ◌≡◌, Bool, true, false, some, if◌then◌else◌, Bool-cases, Option-cases, inl,
  inr, refl,
}
use e_rob_soem_linux.Task.{Task, pure, ◌>>=◌, poll, attempt}

pub record Ensures {S A : Type 0} (P : A → Type 0) (m : Task S A) : Type 0 where
  pub at : (s : S) (r : A × S) → m s ≡ some r → P r.0

module _ {S A : Type 0} {P : A → Type 0} where
  pub pure-Ensures : (a : A) → P a → Ensures P (pure {S = S} a)
  pure-Ensures a p = record { at = λ s r e. subst P (cc e) p }

  pub if-Ensures :
      (b : Bool) (m k : Task S A)
      → (b ≡ true → Ensures P m)
      → (b ≡ false → Ensures P k)
      → Ensures P (if b then m else k)
  if-Ensures true m k h j = h refl
  if-Ensures false m k h j = j refl

  pub >>=-Ensures :
      {B : Type 0} {Q : B → Type 0} (m : Task S B) (f : B → Task S A)
      → Ensures Q m
      → ((b : B) → Q b → Ensures P (f b))
      → Ensures P (m >>= f)
  unfolding ◌>>=◌
  >>=-Ensures m f h k = record {
    at = λ s r e. elim (Option-cases (m s)) [
      | inl stop ↦ cc (rw (stop, ◌>>=◌) at e)
      | inr (q, go) ↦ (k q.0 (h.at s q go)).at q.1 r (rw (go, ◌>>=◌) at e)
    ];
  }

  pub poll-Ensures :
      (fuel : ℕ) (ok : A → Bool) (body : Task S A) (late : Task S Bool)
      → Ensures P body
      → Ensures P (poll fuel ok body late)
  unfolding poll
  poll-Ensures zero ok body late h = record { at = λ s r e. cc e }
  poll-Ensures (suc fuel) ok body late h = record {
    at = λ s r e. elim (Option-cases (body s)) [
      | inl stop ↦ cc (rw (stop, poll) at e)
      | inr (q, go) ↦ elim (Bool-cases (ok q.0)) [
        | inl done ↦ subst P (cc (rw (go, done, poll) at e)) (h.at s q go)
        | inr more ↦ elim (Option-cases (late q.1)) [
          | inl stop ↦ cc (rw (go, more, stop, poll) at e)
          | inr (w, looked) ↦ elim (Bool-cases w.0) [
            | inl over ↦ subst P (cc (rw (go, more, looked, over, poll) at e)) (h.at s q go)
            | inr early ↦
                (poll-Ensures fuel ok body late h).at w.1 r
                  (rw (go, more, looked, early, poll) at e)
          ]
        ]
      ]
    ];
  }

  pub attempt-Ensures :
      (retries : ℕ) (ok : A → Bool) (body : Task S A)
      → Ensures P body
      → Ensures P (attempt retries ok body)
  unfolding attempt
  attempt-Ensures zero ok body h = h
  attempt-Ensures (suc retries) ok body h =
      let more = attempt-Ensures retries ok body h in
      >>=-Ensures body (λ a. if ok a then pure a else attempt retries ok body) h
        (λ a p.
          if-Ensures (ok a) (pure a) (attempt retries ok body) (λ t. pure-Ensures a p) (λ f. more))

-- Nothing is needed of a result that the rest does not look at.
pub any-Ensures : {S A : Type 0} (m : Task S A) → Ensures (λ a. Unit {0}) m
any-Ensures m = record { at = λ s r e. tt }
