-- ===== src/Link/Routing.antt =====
-- Which buffers a received frame may touch.
use e_rob_soem_linux.Base.{
  ℕ, ◌≡◌, ◌≢◌, ◌⊎◌, refl, sym, ap, ◌∙◌, arith, Bool, true, false, not, ==_iff, [], ltb, ◌==◌,
  Bool-cases, inl, inr, Bytes, get_or, get_or-set_ne, ◌&&◌,
}
use e_rob_soem_linux.Base.Int.{is_negative}
use e_rob_soem_linux.Nic.{BufState, tx, rcvd, complete, is_tx, Port, bufstat, max_buf}
use e_rob_soem_linux.Link.{stack_of, store_frame, frame_index, is_ecat, take_frame}

-- The receive buffer of an index, and what goes with it.
abbrev pub Slot : Type 0
Slot = Bytes × BufState × ℕ

abbrev pub slot : Port → Bool → ℕ → Slot
slot p second j = let s = stack_of p second in (get_or s.rxbuf j [], bufstat s j, get_or s.rxsa j 0)

store_frame_other :
    (p : Port) (second : Bool) (i j : ℕ) (b : BufState)
    → i ≢ j
    → slot (store_frame p second i b) second j ≡ slot p second j
unfolding store_frame
store_frame_other p true i j b ne = rw (
  get_or-set_ne p.secondary.rxbuf i j _ [] ne,
  get_or-set_ne p.secondary.rxbufstat i j b complete ne,
  get_or-set_ne p.secondary.rxsa i j _ 0 ne,
)
store_frame_other p false i j b ne = rw (
  get_or-set_ne p.primary.rxbuf i j _ [] ne,
  get_or-set_ne p.primary.rxbufstat i j b complete ne,
  get_or-set_ne p.primary.rxsa i j _ 0 ne,
)

store_frame_stacks :
    (p : Port) (second : Bool) (i : ℕ) (b : BufState)
    → stack_of (store_frame p second i b) (not second) ≡ stack_of p (not second)
unfolding store_frame
store_frame_stacks p true i b = refl
store_frame_stacks p false i b = refl

abbrev pub stat_at : Port → Bool → ℕ → BufState
stat_at p second j = bufstat (stack_of p second) j

-- The stored slots, by the tests of `take_frame`.
data Stored (p : Port) (idx : ℕ) (second : Bool) : Port → Type 0 where
  nothing : Stored p idx second p
  requested : frame_index p second ≡ idx → Stored p idx second (store_frame p second idx complete)
  waiting :
      is_tx (stat_at p second (frame_index p second)) ≡ true
      → Stored p idx second (store_frame p second (frame_index p second) rcvd)

take_frame-Stored :
    (p : Port) (idx : ℕ) (second : Bool) → Stored p idx second (take_frame p idx second).1
unfolding take_frame
take_frame-Stored p idx second = elim (Bool-cases (is_ecat p second)) [
  | inr other ↦ rw other nothing
  | inl ecat ↦ elim (Bool-cases (frame_index p second == idx)) [
    | inl same ↦ rw (ecat, same) (requested ((==_iff _ _).0 same))
    | inr differ ↦
        elim (Bool-cases
          (ltb (frame_index p second) max_buf && is_tx (stat_at p second (frame_index p second)))) [
            | inl waits ↦ rw (ecat, differ, waits) (waiting (ground arith))
            | inr idle ↦ rw (ecat, differ, idle) nothing
          ]
  ]
]

Stored-slot :
    (p : Port) (idx : ℕ) (second : Bool) (j : ℕ) {q : Port}
    → Stored p idx second q
    → (frame_index p second ≢ j) ⊎ ((idx ≢ j) × (stat_at p second j ≢ tx))
    → slot q second j ≡ slot p second j
Stored-slot p idx second j nothing h = refl
Stored-slot p idx second j (requested e) h =
    store_frame_other p second idx j complete (ground arith)
Stored-slot p idx second j (waiting t) h =
    store_frame_other p second (frame_index p second) j rcvd
      (λ same. elim h [ inl ne ↦ ne same | inr (_, not_tx) ↦ not_tx (waits-tx same) ])
  where
    is_tx→eq : (b : BufState) → is_tx b ≡ true → b ≡ tx
    is_tx→eq b e = ground arith

    waits-tx : frame_index p second ≡ j → stat_at p second j ≡ tx
    waits-tx same =
        is_tx→eq (stat_at p second j) (ap (λ k. is_tx (stat_at p second k)) (sym same) ∙ t)

Stored-stacks :
    (p : Port) (idx : ℕ) (second : Bool) {q : Port}
    → Stored p idx second q
    → stack_of q (not second) ≡ stack_of p (not second)
Stored-stacks p idx second nothing = refl
Stored-stacks p idx second (requested e) = store_frame_stacks p second idx complete
Stored-stacks p idx second (waiting t) = store_frame_stacks p second (frame_index p second) rcvd

-- A received frame changes the receive buffer, state and source address of no index but the one
-- that it carries, and of that one only if it is the requested index or waits for an answer; the
-- other stack is not touched at all.
pub take_frame_routes :
    (p : Port) (idx : ℕ) (second : Bool)
    → ((j : ℕ)
        → (frame_index p second ≢ j) ⊎ ((idx ≢ j) × (stat_at p second j ≢ tx))
        → slot (take_frame p idx second).1 second j ≡ slot p second j)
      × (stack_of (take_frame p idx second).1 (not second) ≡ stack_of p (not second))
take_frame_routes p idx second = (
  λ j h. Stored-slot p idx second j (take_frame-Stored p idx second) h,
  Stored-stacks p idx second (take_frame-Stored p idx second),
)

-- A working counter comes only from an EtherCAT frame that carries the requested index.
pub take_frame_answers :
    (p : Port) (idx : ℕ) (second : Bool)
    → is_negative (take_frame p idx second).0 ≡ false
    → (is_ecat p second ≡ true) × (frame_index p second ≡ idx)
unfolding take_frame
take_frame_answers p idx second h = elim (Bool-cases (is_ecat p second)) [
  | inr other ↦ cc (rw other at h)
  | inl ecat ↦ elim (Bool-cases (frame_index p second == idx)) [
    | inl same ↦ (ecat, (==_iff _ _).0 same)
    | inr differ ↦
        elim (Bool-cases
          (ltb (frame_index p second) max_buf && is_tx (stat_at p second (frame_index p second)))) [
            | inl waits ↦ cc (rw (ecat, differ, waits) at h)
            | inr idle ↦ cc (rw (ecat, differ, idle) at h)
          ]
  ]
]
