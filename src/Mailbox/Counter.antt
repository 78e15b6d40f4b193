-- ===== src/Mailbox/Counter.antt =====
-- The mailbox counter runs through 1 to 7.
use e_rob_soem_linux.Base.{ℕ, zero, suc, ◌+◌, ◌≤◌, ◌<◌, ◌≡◌, ◌≢◌, ◌⊎◌, inl, arith}
use e_rob_soem_linux.Mailbox.{next_mbxcnt}

-- The counter after `n` messages.
unfoldable pub after : ℕ → ℕ → ℕ
after zero cnt = cnt
after (suc n) cnt = after n (next_mbxcnt cnt)

after_closed :
    (n cnt : ℕ)
    → 1 ≤ cnt
    → cnt ≤ 7
    → n ≤ 7
    → ((cnt + n ≤ 7) × (after n cnt ≡ cnt + n)) ⊎ ((7 < cnt + n) × (after n cnt + 7 ≡ cnt + n))
unfolding next_mbxcnt after
after_closed zero cnt h k b = inl (omega arith, omega arith)
after_closed (suc n) cnt h k b =
    ground (arith, after_closed n (next_mbxcnt cnt) (ground arith) (ground arith) (omega arith))

-- From every counter up to 7, `ec_nextmbxcnt` gives another one, from 1 to 7, and a counter from 1
-- to 7 comes back after seven messages and not before.
pub next_mbxcnt_cycles :
    (cnt n : ℕ)
    → 1 ≤ cnt
    → cnt ≤ 7
    → 1 ≤ n
    → n < 7
    → (1 ≤ next_mbxcnt cnt) × (next_mbxcnt cnt ≤ 7) × (after 7 cnt ≡ cnt) × (after n cnt ≢ cnt)
unfolding next_mbxcnt
next_mbxcnt_cycles cnt n h k a b =
    ground (arith, after_closed 7 cnt h k (omega arith), after_closed n cnt h k (omega arith))
