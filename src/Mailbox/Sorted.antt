-- ===== src/Mailbox/Sorted.antt =====
-- What the caller of `ecx_mbxreceive` gets.
use e_rob_soem_linux.Base.{
  ℕ, true, false, some, ◌≡◌, refl, subst, ◌&&◌, if◌then◌else◌, ltb, leb, ◌==◌, Bytes, arith,
  Bool-cases, Option-cases, inl, inr,
}
use e_rob_soem_linux.Base.Int.{ℤ, pos, is_positive}
use e_rob_soem_linux.Osal.{Time, Os}
use e_rob_soem_linux.Slaves.{Slave}
use e_rob_soem_linux.Task.Ensures.{
  Ensures, pure-Ensures, if-Ensures, >>=-Ensures, poll-Ensures, any-Ensures,
}
use e_rob_soem_linux.Mailbox.Receiving.{
  Station, Hooks, mbx_type, is_emergency, is_fragment, is_available, sort_mailbox, read_mailbox,
  mbx_receive, receive_mailbox, ec_timeout, ec_maxmbx,
}

-- A mailbox that is handed over is neither an error mailbox nor an emergency.
pub IsSorted : ℤ × Bytes → Type 0
IsSorted (wkc, mbx) =
    is_positive wkc ≡ true
    → (mbx_type mbx == 0) ≡ false × (mbx_type mbx == 3 && is_emergency mbx) ≡ false

pub IsSorted-none : (mbx : Bytes) (wkc : ℤ) → is_positive wkc ≡ false → IsSorted (wkc, mbx)
unfolding IsSorted
IsSorted-none mbx wkc n y = cc

IsSorted-other :
    (mbx : Bytes) (wkc : ℤ)
    → (mbx_type mbx == 0) ≡ false
    → (mbx_type mbx == 3 && is_emergency mbx) ≡ false
    → IsSorted (wkc, mbx)
unfolding IsSorted
IsSorted-other mbx wkc p q y = (p, q)

not_positive : (wkc : ℤ) → is_positive (if is_positive wkc then ec_timeout else wkc) ≡ false
not_positive wkc = ground arith

module _ {W : Type 0} (os : Os W) (hooks : Hooks W) (slave : ℕ) (s : Slave) where
  sort_mailbox-Ensures :
      (wkc : ℤ) (mbx : Bytes) → Ensures IsSorted (sort_mailbox os hooks slave s wkc mbx)
  unfolding sort_mailbox
  sort_mailbox-Ensures wkc mbx = record {
    at = λ m r e. elim (Bool-cases (mbx_type mbx == 0)) [
      | inl failed ↦
          subst IsSorted (cc (rw (failed, sort_mailbox) at e)) (IsSorted-none mbx (pos 0) refl)
      | inr fine ↦ elim (Bool-cases (mbx_type mbx == 3)) [
        | inl canopen ↦ elim (Bool-cases (is_emergency mbx)) [
          | inl alarm ↦
              subst IsSorted (cc (rw (fine, canopen, alarm, sort_mailbox) at e))
                (IsSorted-none mbx (pos 0) refl)
          | inr answer ↦
              subst IsSorted (cc (rw (fine, canopen, answer, sort_mailbox) at e))
                (IsSorted-other mbx wkc fine (rw (canopen, answer)))
        ]
        | inr other ↦ elim (Bool-cases (mbx_type mbx == 2 && is_fragment mbx)) [
          | inl frag ↦ elim (Option-cases hooks.eoe) [
            | inl alone ↦
                subst IsSorted (cc (rw (fine, other, frag, alone, sort_mailbox) at e))
                  (IsSorted-other mbx wkc fine (rw other))
            | inr (hook, given) ↦
                let (handled, w) = hook slave mbx m.net.world in
                subst IsSorted (cc (rw (fine, other, frag, given, sort_mailbox) at e))
                  (IsSorted-other mbx (if handled then pos 0 else wkc) fine (rw other))
          ]
          | inr plain ↦
              subst IsSorted (cc (rw (fine, other, plain, sort_mailbox) at e))
                (IsSorted-other mbx wkc fine (rw other))
        ]
      ]
    ];
  }

  read_mailbox-Ensures :
      (timeout : ℕ) (stop : Time) → Ensures IsSorted (read_mailbox os hooks slave s timeout stop)
  unfolding read_mailbox
  read_mailbox-Ensures timeout stop = >>=-Ensures _ _ (any-Ensures _) (λ old t.
      >>=-Ensures _ _ (any-Ensures _) (λ q t. >>=-Ensures _ _ (any-Ensures _) (λ u t.
        if-Ensures (is_positive q.0) _ _ (λ y. sort_mailbox-Ensures q.0 q.1)
          (λ n.
            >>=-Ensures _ _ (any-Ensures _) (λ u t. pure-Ensures q (IsSorted-none q.1 q.0 n))))))

  mbx_receive-Ensures : (timeout : ℕ) → Ensures IsSorted (mbx_receive os hooks slave s timeout)
  unfolding mbx_receive
  mbx_receive-Ensures timeout = >>=-Ensures _ _ (any-Ensures _) (λ stop t.
      >>=-Ensures _ _ (any-Ensures _) (λ first t. >>=-Ensures _ _ (any-Ensures _) (λ mbx t.
        if-Ensures (is_available first) _ _
          (λ y. poll-Ensures _ _ _ _ (read_mailbox-Ensures timeout stop))
          (λ n. pure-Ensures _ (IsSorted-none mbx _ (not_positive first.0))))))

  receive_mailbox-Ensures :
      (timeout : ℕ) → Ensures IsSorted (receive_mailbox os hooks slave s timeout)
  unfolding receive_mailbox
  receive_mailbox-Ensures timeout = >>=-Ensures _ _ (any-Ensures _) (λ mbx t.
      if-Ensures (ltb 0 s.mbx_rl && leb s.mbx_rl ec_maxmbx) _ _ (λ y. mbx_receive-Ensures timeout)
        (λ n. pure-Ensures _ (IsSorted-none mbx (pos 0) refl)))

  -- When `ecx_mbxreceive` returns with a positive working counter, the mailbox it hands to the
  -- caller is neither a mailbox error nor a CANopen emergency.
  receive_mailbox_sorted :
      (timeout : ℕ) (m m' : Station W) (wkc : ℤ) (mbx : Bytes)
      → receive_mailbox os hooks slave s timeout m ≡ some ((wkc, mbx), m')
      → is_positive wkc ≡ true
      → (mbx_type mbx == 0) ≡ false × (mbx_type mbx == 3 && is_emergency mbx) ≡ false
  unfolding IsSorted
  receive_mailbox_sorted timeout m m' wkc mbx e y =
      (receive_mailbox-Ensures timeout).at m ((wkc, mbx), m') e y
