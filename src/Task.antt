-- ===== src/Task.antt =====
-- What the functions above the primitives are built of: steps on a state that may run out of fuel,
-- the loops `do … while (… && !osal_timer_is_expired(&timer))` and
-- `do … while (… && (cnt++ < EC_DEFAULTRETRIES))`, the timer of osal.c and the primitives of
-- soem/ethercatbase.c as such steps.
pub mod Timed
pub mod Yields
pub mod Ensures
pub mod Keeps
use e_rob_soem_linux.Base.{
  ℕ, zero, suc, ◌+◌, Bool, true, false, Option, none, some, if◌then◌else◌, Bytes, le16,
}
use e_rob_soem_linux.Base.Int.{ℤ, is_positive}
use e_rob_soem_linux.Osal.{Time, Os}
use e_rob_soem_linux.Link.{Net, start, expired, ec_timeoutret}
use e_rob_soem_linux.Primitives.{Answer, aprd_op, apwr_op, fprd_op, fpwr_op, brd_op, bwr_op}

abbrev pub Task : Type 0 → Type 0 → Type 0
Task S A = S → Option (A × S)

module _ {S A : Type 0} where
  abbrev pub pure : A → Task S A
  pure a s = some (a, s)

  abbrev pub gets : (S → A) → Task S A
  gets f s = some (f s, s)

module _ {S A B : Type 0} where
  infixl 5 ◌>>=◌ ◌>>◌
  unfoldable pub ◌>>=◌ : Task S A → (A → Task S B) → Task S B
  ◌>>=◌ m f s = elim (m s) [ none ↦ none | some (a, s') ↦ f a s' ]

  abbrev pub ◌>>◌ : Task S A → Task S B → Task S B
  m >> k = m >>= λ _. k

abbrev pub modify : {S : Type 0} → (S → S) → Task S (Unit {0})
modify f s = some (tt, f s)

module _ {S A : Type 0} where
  -- `do { a = body } while (!ok(a) && !late())`
  unfoldable pub poll : ℕ → (A → Bool) → Task S A → Task S Bool → Task S A
  poll zero ok body late s = none
  poll (suc fuel) ok body late s = elim (body s) [
    | none ↦ none
    | some (a, s₁) ↦ elim (ok a) [
      | true ↦ some (a, s₁)
      | false ↦ elim (late s₁) [
        | none ↦ none
        | some (over, s₂) ↦ elim over [ true ↦ some (a, s₂) | false ↦ poll fuel ok body late s₂ ]
      ]
    ]
  ]

  -- `do { a = body } while (!ok(a) && (cnt++ < retries))`
  unfoldable pub attempt : ℕ → (A → Bool) → Task S A → Task S A
  attempt zero ok body = body
  attempt (suc retries) ok body =
      let again = attempt retries ok body in body >>= λ a. if ok a then pure a else again

-- EC_DEFAULTRETRIES
abbrev pub default_retries : ℕ
default_retries = 3

-- EC_LOCALDELAY
abbrev pub ec_localdelay : ℕ
ec_localdelay = 200

-- EC_TIMEOUTRET3
abbrev pub timeoutret3 : ℕ
timeoutret3 = 6000

abbrev answer : {W : Type 0} → Answer W → Option ((ℤ × Bytes) × Net W)
answer none = none
answer (some (wkc, buf, n)) = some ((wkc, buf), n)

abbrev written : {W : Type 0} → Answer W → Option (ℤ × Net W)
written none = none
written (some (wkc, buf, n)) = some (wkc, n)

module _ {W : Type 0} (os : Os W) where
  -- `osal_timer_start`
  unfoldable pub timer : ℕ → Task (Net W) Time
  timer timeout n = some (start os timeout n)

  -- `osal_timer_is_expired`
  unfoldable pub is_late : Time → Task (Net W) Bool
  is_late stop n = some (expired os stop n)

  -- `osal_usleep`
  unfoldable pub sleep : ℕ → Task (Net W) (Unit {0})
  sleep usec n = some (tt, record n { world = os.sleep n.world usec })

  -- `!osal_timer_is_expired(&timer)`, and a pause before the next round of the loop.
  unfoldable pub late_or_sleep : ℕ → Time → Task (Net W) Bool
  late_or_sleep usec stop =
      is_late stop >>= λ over. if over then pure true else (sleep usec >> pure false)

  unfoldable pub read_fp : ℕ → ℕ → ℕ → Bytes → ℕ → Task (Net W) (ℤ × Bytes)
  read_fp adp ado size buf timeout n = answer (fprd_op os adp ado size buf timeout n)

  unfoldable pub write_fp : ℕ → ℕ → ℕ → Bytes → ℕ → Task (Net W) ℤ
  write_fp adp ado size buf timeout n = written (fpwr_op os adp ado size buf timeout n)

  unfoldable pub read_ap : ℕ → ℕ → ℕ → Bytes → ℕ → Task (Net W) (ℤ × Bytes)
  read_ap adp ado size buf timeout n = answer (aprd_op os adp ado size buf timeout n)

  unfoldable pub write_ap : ℕ → ℕ → ℕ → Bytes → ℕ → Task (Net W) ℤ
  write_ap adp ado size buf timeout n = written (apwr_op os adp ado size buf timeout n)
