-- ===== src/Task/Timed.antt =====
-- Steps that always come to an end, after which the clock is not earlier: one rule for each way to
-- build a step. `time` is the clock's time at a state.
use e_rob_soem_linux.Base.{
  ℕ, zero, suc, ◌+◌, ◌-◌, ◌≤◌, ◌<◌, ◌≡◌, refl, arith, Bool, true, false, some, if◌then◌else◌, Bytes,
  Bool-cases, inl, inr,
}
use e_rob_soem_linux.Base.Int.{ℤ, is_positive}
use e_rob_soem_linux.Osal.{Time, Os, IsClock}
use e_rob_soem_linux.Nic.{get_index}
use e_rob_soem_linux.Datagram.{Cmd, aprd, fprd, apwr, fpwr, setup_datagram}
use e_rob_soem_linux.Link.{Net, start, expired}
use e_rob_soem_linux.Link.Total.{
  Deadline, start-Deadline, not_expired, expired_us, start_us, sr_confirm_returns,
}
use e_rob_soem_linux.Primitives.{
  request, read_with, write_with, fetch, release, aprd_op, apwr_op, fprd_op, fpwr_op,
}
use e_rob_soem_linux.Task.{
  Task, pure, gets, modify, ◌>>=◌, poll, attempt, timer, is_late, sleep, late_or_sleep, read_fp,
  write_fp, read_ap, write_ap,
}

-- Started at `from` or later, `m` comes to an end.
pub record IsTimed {S A : Type 0} (time : S → ℕ) (from : ℕ) (m : Task S A) : Type 0 where
  pub at : (s : S) → from ≤ time s → (r : A × S) × (m s ≡ some r) × (time s ≤ time r.1)

-- A step that looks at the clock, and finds it late if it is past `d`.
pub record EndsBy {S : Type 0} (time : S → ℕ) (d : ℕ) (late : Task S Bool) : Type 0 where
  pub at :
      (s : S)
      → (r : Bool × S) × (late s ≡ some r) × (time s < time r.1) × (r.0 ≡ false → time s < d)

module _ {S : Type 0} {time : S → ℕ} {from : ℕ} where
  pub pure-IsTimed : {A : Type 0} (a : A) → IsTimed time from (pure a)
  pure-IsTimed a = record { at = λ s fr. ((a, s), refl, omega arith) }

  pub gets-IsTimed : {A : Type 0} (f : S → A) → IsTimed time from (gets f)
  gets-IsTimed f = record { at = λ s fr. ((f s, s), refl, omega arith) }

  pub if-IsTimed :
      {A : Type 0} (b : Bool) (m k : Task S A)
      → IsTimed time from m
      → IsTimed time from k
      → IsTimed time from (if b then m else k)
  if-IsTimed true m k h j = h
  if-IsTimed false m k h j = j

  pub >>=-IsTimed :
      {A B : Type 0} (m : Task S A) (f : A → Task S B)
      → IsTimed time from m
      → ((a : A) → IsTimed time from (f a))
      → IsTimed time from (m >>= f)
  unfolding ◌>>=◌
  >>=-IsTimed m f h k = record {
    at = λ s fr.
        let (r, e, t) = h.at s fr in
        let (q, e', t') = (k r.0).at r.1 (omega (arith, t)) in
        (q, rw (e, ◌>>=◌) e', omega (arith, t, t'));
  }

  pub attempt-IsTimed :
      {A : Type 0} (retries : ℕ) (ok : A → Bool) (body : Task S A)
      → IsTimed time from body
      → IsTimed time from (attempt retries ok body)
  unfolding attempt
  attempt-IsTimed zero ok body h = h
  attempt-IsTimed (suc retries) ok body h =
      let more = attempt-IsTimed retries ok body h in
      >>=-IsTimed body (λ a. if ok a then pure a else attempt retries ok body) h
        (λ a. if-IsTimed (ok a) (pure a) (attempt retries ok body) (pure-IsTimed a) more)

  poll_ends :
      {A : Type 0} (fuel : ℕ) (ok : A → Bool) (body : Task S A) (late : Task S Bool) (d : ℕ) (s : S)
      → IsTimed time from body
      → EndsBy time d late
      → from ≤ time s
      → d - time s < fuel
      → (r : A × S) × (poll fuel ok body late s ≡ some r) × (time s ≤ time r.1)
  unfolding poll
  poll_ends zero ok body late d s h l fr f = absurd (omega arith)
  poll_ends (suc fuel) ok body late d s h l fr f =
      let (r, e, t) = h.at s fr in
      let (q, e', t', before) = l.at r.1 in
      elim (Bool-cases (ok r.0)) [
        | inl done ↦ (r, rw (e, done, poll) refl, t)
        | inr going ↦ elim (Bool-cases q.0) [
          | inl over ↦ ((r.0, q.1), rw (e, going, e', over, poll) refl, omega (arith, t, t'))
          | inr early ↦
              let (p, e'', t'') =
                poll_ends fuel ok body late d q.1 h l (omega (arith, t, t'))
                  (omega (arith, t, t', before early)) in
              (p, rw (e, going, e', early, poll) e'', omega (arith, t, t', t''))
        ]
      ]

  -- A loop ends once the clock is past `from + timeout`.
  pub poll-IsTimed :
      {A : Type 0} (timeout : ℕ) (ok : A → Bool) (body : Task S A) (late : Task S Bool)
      → IsTimed time from body
      → EndsBy time (from + timeout) late
      → IsTimed time from (poll (suc timeout) ok body late)
  poll-IsTimed timeout ok body late h l = record {
    at = λ s fr. poll_ends (suc timeout) ok body late (from + timeout) s h l fr (omega (arith, fr));
  }

  -- A step after reading the clock, with what the reading was.
  pub modify-IsTimed : (f : S → S) → ((s : S) → time s ≤ time (f s)) → IsTimed time from (modify f)
  modify-IsTimed f h = record { at = λ s fr. ((tt, f s), refl, h s) }

module _ {W : Type 0} (os : Os W) (us : W → ℕ) (clock : IsClock os us) where
  -- The time at which the world of a port is.
  abbrev pub net_time : Net W → ℕ
  net_time n = us n.world

  pub timer-IsTimed : {from : ℕ} (timeout : ℕ) → IsTimed net_time from (timer os timeout)
  unfolding timer
  timer-IsTimed timeout = record {
    at = λ n fr. (start os timeout n, refl, start_us os us clock timeout n);
  }

  pub is_late-IsTimed : {from : ℕ} (stop : Time) → IsTimed net_time from (is_late os stop)
  unfolding is_late
  is_late-IsTimed stop = record {
    at = λ n fr. (expired os stop n, refl, omega (arith, expired_us os us clock stop n));
  }

  pub sleep-IsTimed : {from : ℕ} (usec : ℕ) → IsTimed net_time from (sleep os usec)
  unfolding sleep
  sleep-IsTimed usec = record { at = λ n fr. (_, refl, clock.sleep_keeps n.world usec) }

  pub read_with_returns :
      (c : Cmd) (adp ado size : ℕ) (d : Bytes) (timeout : ℕ) (n : Net W)
      → (r : ℤ × Bytes × Net W) × (read_with os c adp ado size d timeout n ≡ some r)
        × (net_time n ≤ net_time r.2)
  unfolding read_with
  read_with_returns c adp ado size d timeout n =
      let idx = (get_index n.port).0 in
      let p = setup_datagram (get_index n.port).1 idx (request c adp ado size d) in
      let (r, e, t) =
        sr_confirm_returns os us clock (suc timeout) 2001 idx timeout (record n { port = p })
          (omega arith) (omega arith) in
      (
        (r.0, (if is_positive r.0 then fetch r.1 idx size d else d), release idx r.1),
        rw (e, read_with) refl,
        t,
      )

  pub write_with_returns :
      (c : Cmd) (adp ado size : ℕ) (d : Bytes) (timeout : ℕ) (n : Net W)
      → (r : ℤ × Bytes × Net W) × (write_with os c adp ado size d timeout n ≡ some r)
        × (net_time n ≤ net_time r.2)
  unfolding write_with
  write_with_returns c adp ado size d timeout n =
      let idx = (get_index n.port).0 in
      let p = setup_datagram (get_index n.port).1 idx (request c adp ado size d) in
      let (r, e, t) =
        sr_confirm_returns os us clock (suc timeout) 2001 idx timeout (record n { port = p })
          (omega arith) (omega arith) in
      ((r.0, d, release idx r.1), rw (e, write_with) refl, t)

  pub read_fp-IsTimed :
      {from : ℕ} (adp ado size : ℕ) (buf : Bytes) (timeout : ℕ)
      → IsTimed net_time from (read_fp os adp ado size buf timeout)
  unfolding read_fp fprd_op
  read_fp-IsTimed adp ado size buf timeout = record {
    at = λ n fr.
        let (r, e, t) = read_with_returns fprd adp ado size buf timeout n in
        (((r.0, r.1), r.2), rw (e, read_fp, fprd_op) refl, t);
  }

  pub read_ap-IsTimed :
      {from : ℕ} (adp ado size : ℕ) (buf : Bytes) (timeout : ℕ)
      → IsTimed net_time from (read_ap os adp ado size buf timeout)
  unfolding read_ap aprd_op
  read_ap-IsTimed adp ado size buf timeout = record {
    at = λ n fr.
        let (r, e, t) = read_with_returns aprd adp ado size buf timeout n in
        (((r.0, r.1), r.2), rw (e, read_ap, aprd_op) refl, t);
  }

  pub write_fp-IsTimed :
      {from : ℕ} (adp ado size : ℕ) (buf : Bytes) (timeout : ℕ)
      → IsTimed net_time from (write_fp os adp ado size buf timeout)
  unfolding write_fp fpwr_op
  write_fp-IsTimed adp ado size buf timeout = record {
    at = λ n fr.
        let (r, e, t) = write_with_returns fpwr adp ado size buf timeout n in
        ((r.0, r.2), rw (e, write_fp, fpwr_op) refl, t);
  }

  pub write_ap-IsTimed :
      {from : ℕ} (adp ado size : ℕ) (buf : Bytes) (timeout : ℕ)
      → IsTimed net_time from (write_ap os adp ado size buf timeout)
  unfolding write_ap apwr_op
  write_ap-IsTimed adp ado size buf timeout = record {
    at = λ n fr.
        let (r, e, t) = write_with_returns apwr adp ado size buf timeout n in
        ((r.0, r.2), rw (e, write_ap, apwr_op) refl, t);
  }

  -- A loop whose timer was started before runs out of it: `d` is the end of its timeout.
  pub is_late-EndsBy :
      (stop : Time) (d : ℕ) → Deadline os us clock stop d → EndsBy net_time d (is_late os stop)
  unfolding is_late
  is_late-EndsBy stop d dl = record {
    at = λ n. (
      expired os stop n,
      refl,
      expired_us os us clock stop n,
      not_expired os us clock stop d n dl,
    );
  }

  pub late_or_sleep-EndsBy :
      (usec : ℕ) (stop : Time) (d : ℕ)
      → EndsBy net_time d (is_late os stop)
      → EndsBy net_time d (late_or_sleep os usec stop)
  unfolding late_or_sleep sleep ◌>>=◌
  late_or_sleep-EndsBy usec stop d h = record {
    at = λ n.
        let (r, e, t, before) = h.at n in
        let slept : Net W = record r.1 { world = os.sleep r.1.world usec } in
        elim (Bool-cases r.0) [
          | inl over ↦ ((true, r.1), rw (e, over, late_or_sleep, ◌>>=◌) refl, t, λ f. cc f)
          | inr early ↦ (
            (false, slept),
            rw (e, early, late_or_sleep, ◌>>=◌, sleep) refl,
            omega (arith, t, clock.sleep_keeps r.1.world usec),
            λ f. before early,
          )
        ];
  }

  -- The timer of a block: it starts at some time `t`, and its timeout ends at `t + timeout`.
  pub timer->>=-IsTimed :
      {from : ℕ} {A : Type 0} (timeout : ℕ) (f : Time → Task (Net W) A)
      → ((stop : Time) (t : ℕ)
          → from ≤ t
          → EndsBy net_time (t + timeout) (is_late os stop)
          → IsTimed net_time t (f stop))
      → IsTimed net_time from (timer os timeout >>= f)
  unfolding timer ◌>>=◌
  timer->>=-IsTimed timeout f k = record {
    at = λ n fr.
        let stop = (start os timeout n).0 in
        let later = start_us os us clock timeout n in
        let ends =
          is_late-EndsBy stop (us n.world + timeout) (start-Deadline os us clock timeout n) in
        let (r, e, t) = (k stop (us n.world) fr ends).at (start os timeout n).1 later in
        (r, e, omega (arith, t, later));
  }

pub ruleset timed_rules = (pure-IsTimed, gets-IsTimed, if-IsTimed, >>=-IsTimed, attempt-IsTimed)
