-- ===== src/IndexStack/Fifo.antt =====
-- The index stack is a queue: what was pushed is pulled once, in the order of pushing.
use e_rob_soem_linux.Base.{
  ℕ, zero, suc, ◌+◌, ◌-◌, ◌≤◌, ◌<◌, ◌≡◌, ◌≢◌, refl, sym, ap, ap₂, ◌∙◌, arith, List, [], ◌∷◌, ◌++◌,
  none, append-nil, append_assoc, lt→ltb, le→ltb, some, length, length-set, get_or-set,
  get_or-set_ne, take,
}
use e_rob_soem_linux.IndexStack.{
  IndexStack, Entry, entry_at, max_buf, push_index, pull_index, clear_index,
}

pub record IsValid (s : IndexStack) : Type 0 where
  pub pushed_in : s.pushed ≤ max_buf
  pub order : s.pulled ≤ s.pushed
  pub idx_places : length s.idx ≡ max_buf
  pub data_ptr_places : length s.data_ptr ≡ max_buf
  pub len_places : length s.len ≡ max_buf
  pub dc_offset_places : length s.dc_offset ≡ max_buf

abbrev pub push : Entry → IndexStack → IndexStack
push e s = push_index e.idx e.data_ptr e.len e.dc_offset s

pub push-IsValid : (e : Entry) (s : IndexStack) → IsValid s → IsValid (push e s)
unfolding push_index
push-IsValid e s v = ground (
  arith,
  length-set s.idx s.pushed e.idx,
  length-set s.data_ptr s.pushed e.data_ptr,
  length-set s.len s.pushed e.len,
  length-set s.dc_offset s.pushed e.dc_offset,
)

pub clear_index-IsValid : (s : IndexStack) → IsValid s → IsValid (clear_index s)
unfolding clear_index
clear_index-IsValid s v = ground arith

pub pull_index-IsValid : (s : IndexStack) → IsValid s → IsValid (pull_index s).1
unfolding pull_index
pull_index-IsValid s v = ground arith

-- The `n` entries from place `i` on.
abbrev pub entries : IndexStack → ℕ → ℕ → List Entry
entries s i zero = []
entries s i (suc n) = entry_at s i ∷ entries s (i + 1) n

-- The entries that wait to be pulled, the next one first.
abbrev pub pending : IndexStack → List Entry
pending s = entries s s.pulled (s.pushed - s.pulled)

entry_at-push_below :
    (e : Entry) (s : IndexStack) (i : ℕ) → i < s.pushed → entry_at (push e s) i ≡ entry_at s i
unfolding push_index
entry_at-push_below e s i h =
    let ne : s.pushed ≢ i = omega arith in
    ground (
      arith,
      get_or-set_ne s.idx s.pushed i e.idx 0 ne,
      get_or-set_ne s.data_ptr s.pushed i e.data_ptr 0 ne,
      get_or-set_ne s.len s.pushed i e.len 0 ne,
      get_or-set_ne s.dc_offset s.pushed i e.dc_offset 0 ne,
    )

entry_at-push_top :
    (e : Entry) (s : IndexStack) → IsValid s → s.pushed < max_buf → entry_at (push e s) s.pushed ≡ e
unfolding push_index
entry_at-push_top e s v h = ground (
  arith,
  get_or-set s.idx s.pushed s.pushed e.idx 0 (omega arith),
  get_or-set s.data_ptr s.pushed s.pushed e.data_ptr 0 (omega arith),
  get_or-set s.len s.pushed s.pushed e.len 0 (omega arith),
  get_or-set s.dc_offset s.pushed s.pushed e.dc_offset 0 (omega arith),
)

entries-push :
    (e : Entry) (s : IndexStack) (i n : ℕ)
    → IsValid s
    → s.pushed < max_buf
    → i + n ≡ s.pushed
    → entries (push e s) i (suc n) ≡ entries s i n ++ (e ∷ [])
entries-push e s i zero v h k =
    let j : i ≡ s.pushed = omega arith in rw j (ap (λ x. x ∷ []) (entry_at-push_top e s v h))
entries-push e s i (suc n) v h k =
    ap₂ ◌∷◌ (entry_at-push_below e s i (omega arith)) (entries-push e s (i + 1) n v h (omega arith))

pub push_fields :
    (e : Entry) (s : IndexStack)
    → s.pushed < max_buf
    → ((push e s).pushed ≡ suc s.pushed) × ((push e s).pulled ≡ s.pulled)
unfolding push_index
push_fields e s h = ground arith

-- With a free place `ecx_pushindex` puts the entry behind those that wait.
pub push-pending :
    (e : Entry) (s : IndexStack)
    → IsValid s
    → s.pushed < max_buf
    → pending (push e s) ≡ pending s ++ (e ∷ [])
push-pending e s v h =
    let f = push_fields e s h in
    let n : (push e s).pushed - (push e s).pulled ≡ suc (s.pushed - s.pulled) = omega (arith, f) in
    ap₂ (λ i k. entries (push e s) i k) f.1 n
    ∙ entries-push e s s.pulled (s.pushed - s.pulled) v h (omega arith)

-- The loop of a receiver: pull until the stack is empty; the fuel bounds the rounds.
pub drain : ℕ → IndexStack → List Entry
drain zero s = []
drain (suc fuel) s = elim (pull_index s).0 [
  | none ↦ []
  | some i ↦ entry_at s i ∷ drain fuel (pull_index s).1
]

pub push_all : List Entry → IndexStack → IndexStack
push_all [] s = s
push_all (e ∷ es) s = push_all es (push e s)

-- Pulling changes only the counter, so the entries stay where they are.
pub entries-pull :
    (s : IndexStack) (i n : ℕ) → entries (record s { pulled = s.pulled + 1 }) i n ≡ entries s i n
entries-pull s i zero = refl
entries-pull s i (suc n) = ap (λ l. entry_at s i ∷ l) (entries-pull s (i + 1) n)

pub pull_waiting :
    (s : IndexStack)
    → s.pulled < s.pushed
    → pull_index s ≡ (some s.pulled, record s { pulled = s.pulled + 1 })
unfolding pull_index
pull_waiting s h = rw (lt→ltb s.pulled s.pushed h)

pub pull_empty : (s : IndexStack) → s.pushed ≤ s.pulled → pull_index s ≡ (none, s)
unfolding pull_index
pull_empty s h = rw (le→ltb s.pulled s.pushed h)

-- With more rounds of fuel than entries the loop pulls all that wait.
drain-pending :
    (fuel n : ℕ) (s : IndexStack)
    → s.pulled + n ≡ s.pushed
    → n < fuel
    → drain fuel s ≡ entries s s.pulled n
unfolding drain
drain-pending zero n s e h = absurd (omega arith)
drain-pending (suc fuel) zero s e h = rw (pull_empty s (omega arith), drain) refl
drain-pending (suc fuel) (suc n) s e h =
    rw (pull_waiting s (omega arith), drain)
      (rw (pull_waiting s (omega arith)) (
        ap (λ l. entry_at s s.pulled ∷ l)
          (drain-pending fuel n (record s { pulled = s.pulled + 1 }) (omega arith) (omega arith)
            ∙ entries-pull s (s.pulled + 1) n)))

push_when_full : (e : Entry) (s : IndexStack) → max_buf ≤ s.pushed → push e s ≡ s
unfolding push_index
push_when_full e s h = rw (le→ltb s.pushed max_buf h)

push_all-full : (es : List Entry) (s : IndexStack) → max_buf ≤ s.pushed → push_all es s ≡ s
unfolding push_all
push_all-full [] s h = refl
push_all-full (e ∷ es) s h = rw (push_when_full e s h) (push_all-full es s h)

push_all-IsValid : (es : List Entry) (s : IndexStack) → IsValid s → IsValid (push_all es s)
unfolding push_all
push_all-IsValid [] s v = v
push_all-IsValid (e ∷ es) s v = push_all-IsValid es (push e s) (push-IsValid e s v)

push_all-pending :
    (es : List Entry) (room : ℕ) (s : IndexStack)
    → IsValid s
    → s.pushed + room ≡ max_buf
    → pending (push_all es s) ≡ pending s ++ take room es
unfolding push_all
push_all-pending [] zero s v h = rw append-nil
push_all-pending [] (suc room) s v h = rw append-nil
push_all-pending (e ∷ es) zero s v h =
    ap pending (push_all-full (e ∷ es) s (omega arith)) ∙ sym (append-nil (pending s))
push_all-pending (e ∷ es) (suc room) s v h =
    let f = push_fields e s (omega arith) in
    push_all-pending es room (push e s) (push-IsValid e s v) (omega (arith, f))
    ∙ ap (λ l. l ++ take room es) (push-pending e s v (omega arith))
    ∙ append_assoc (pending s) (e ∷ []) (take room es)

-- After `ecx_clearindex`, entries that are pushed in turn are pulled in the same order, the first
-- 16 of them, and 17 calls of `ecx_pullindex` always reach the end of the stack.
pub push_all-drain :
    (s : IndexStack) (es : List Entry)
    → IsValid s
    → drain 17 (push_all es (clear_index s)) ≡ take 16 es
push_all-drain s es v =
    let c = clear_index s in
    let cv = clear_index-IsValid s v in
    let t = push_all es c in
    let tv = push_all-IsValid es c cv in
    drain-pending 17 (t.pushed - t.pulled) t (omega (arith, tv.order)) (omega (arith, tv))
    ∙ push_all-pending es 16 c cv (cleared s)
    ∙ rw (pending-clear s) refl
  where
    cleared : (s : IndexStack) → (clear_index s).pushed + 16 ≡ max_buf
    cleared s = unfold clear_index in refl

    pending-clear : (s : IndexStack) → pending (clear_index s) ≡ []
    pending-clear s = unfold clear_index in refl
