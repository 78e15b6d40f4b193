-- ===== src/Task/Keeps.antt =====
-- What a step gives and leaves, when it starts in a state with a property and comes to an end: one rule
-- for each way to build a step.
use e_rob_soem_linux.Base.{
  ℕ, subst, zero, suc, ◌≡◌, Bool, true, false, some, if◌then◌else◌, Bool-cases, Option-cases, inl,
  inr, refl, ap,
}
use e_rob_soem_linux.Task.{Task, pure, ◌>>=◌, poll, attempt}

-- From `I` the step gives a result with `P`, and a state with `I` again.
pub record Keeps {S A : Type 0} (I : S → Type 0) (P : A → Type 0) (m : Task S A) : Type 0 where
  pub at : (s : S) (r : A × S) → I s → m s ≡ some r → P r.0 × I r.1

module _ {S : Type 0} (I : S → Type 0) {A : Type 0} {P : A → Type 0} where
  pub pure-Keeps : (a : A) → P a → Keeps I P (pure {S = S} a)
  pure-Keeps a p = record { at = λ s r i e. (subst P (cc e) p, subst I (cc e) i) }

  pub if-Keeps :
      (b : Bool) (m k : Task S A)
      → (b ≡ true → Keeps I P m)
      → (b ≡ false → Keeps I P k)
      → Keeps I P (if b then m else k)
  if-Keeps true m k h j = h refl
  if-Keeps false m k h j = j refl

  pub >>=-Keeps :
      {B : Type 0} {Q : B → Type 0} (m : Task S B) (f : B → Task S A)
      → Keeps I Q m
      → ((b : B) → Q b → Keeps I P (f b))
      → Keeps I P (m >>= f)
  unfolding ◌>>=◌
  >>=-Keeps m f h k = record {
    at = λ s r i e. elim (Option-cases (m s)) [
      | inl stop ↦ cc (rw (stop, ◌>>=◌) at e)
      | inr (q, go) ↦ let (p, i') = h.at s q i go in (k q.0 p).at q.1 r i' (rw (go, ◌>>=◌) at e)
    ];
  }

  pub poll-Keeps :
      (fuel : ℕ) (ok : A → Bool) (body : Task S A) (late : Task S Bool)
      → Keeps I P body
      → Keeps I (λ b. Unit {0}) late
      → Keeps I P (poll fuel ok body late)
  unfolding poll
  poll-Keeps zero ok body late h k = record { at = λ s r i e. cc e }
  poll-Keeps (suc fuel) ok body late h k = record {
    at = λ s r i e. elim (Option-cases (body s)) [
      | inl stop ↦ cc (rw (stop, poll) at e)
      | inr (q, go) ↦
          let (p, i') = h.at s q i go in
          elim (Bool-cases (ok q.0)) [
            | inl done ↦
                let same : q ≡ r = cc (rw (go, done, poll) at e) in
                (
                  subst P (ap (λ (x : A × S). x.0) same) p,
                  subst I (ap (λ (x : A × S). x.1) same) i',
                )
            | inr more ↦ elim (Option-cases (late q.1)) [
              | inl stop ↦ cc (rw (go, more, stop, poll) at e)
              | inr (w, looked) ↦
                  let i'' = (k.at q.1 w i' looked).1 in
                  elim (Bool-cases w.0) [
                    | inl over ↦
                        let same : (q.0, w.1) ≡ r = cc (rw (go, more, looked, over, poll) at e) in
                        (
                          subst P (ap (λ (x : A × S). x.0) same) p,
                          subst I (ap (λ (x : A × S). x.1) same) i'',
                        )
                    | inr early ↦
                        (poll-Keeps fuel ok body late h k).at w.1 r i''
                          (rw (go, more, looked, early, poll) at e)
                  ]
            ]
          ]
    ];
  }

  pub attempt-Keeps :
      (retries : ℕ) (ok : A → Bool) (body : Task S A)
      → Keeps I P body
      → Keeps I P (attempt retries ok body)
  unfolding attempt
  attempt-Keeps zero ok body h = h
  attempt-Keeps (suc retries) ok body h =
      let more = attempt-Keeps retries ok body h in
      >>=-Keeps body (λ a. if ok a then pure a else attempt retries ok body) h
        (λ a p.
          if-Keeps (ok a) (pure a) (attempt retries ok body) (λ t. pure-Keeps a p) (λ f. more))
