-- ===== src/ErrorList/Ring.antt =====
-- The ring of `ec_eringt` holds the queue of its unread errors.
use e_rob_soem_linux.Base.{
  ◌↔◌, ℕ, zero, suc, ◌+◌, ◌-◌, ◌%◌, ◌≤◌, ◌<◌, ◌≡◌, refl, sym, ap, ap₂, ◌∙◌, arith, Bool, true,
  false, List, [], ◌∷◌, ◌++◌, Option, none, some, length, get_or, set, length-set, get_or-set,
  get_or-set_ne, if◌then◌else◌, ◌==◌, Bool-cases, inl, inr, drop,
}
use e_rob_soem_linux.ErrorList.{
  Error, Ering, max_elist, blank, next, push_error, pop_error, is_error,
}
use e_rob_soem_linux.ErrorList.Queue
use e_rob_soem_linux.ErrorList.Queue.{Op, put, get}

pub record IsValid (l : Ering) : Type 0 where
  pub head_in : l.head ≤ max_elist
  pub tail_in : l.tail ≤ max_elist
  pub places : length l.error ≡ max_elist + 1
  pub flagged : l.ecaterror ≡ false → l.head ≡ l.tail

-- The `n` errors from place `i` on, going round.
abbrev pub window : List Error → ℕ → ℕ → List Error
window buf i zero = []
window buf i (suc n) = get_or buf i blank ∷ window buf (next i) n

-- How many errors are unread.
abbrev pub unread : Ering → ℕ
unread l = (l.head + 65 - l.tail) % 65

abbrev pub contents : Ering → List Error
contents l = window l.error l.tail (unread l)

pub length-window : (buf : List Error) (i n : ℕ) → length (window buf i n) ≡ n
length-window buf i zero = refl
length-window buf i (suc n) = ap suc (length-window buf (next i) n)

-- A write to a place beyond the window leaves the window as it is.
window-set :
    (buf : List Error) (i j n : ℕ) (e : Error)
    → i ≤ 64
    → j ≤ 64
    → n ≤ (j + 65 - i) % 65
    → window (set buf j e) i n ≡ window buf i n
window-set buf i j zero e hi hj h = refl
window-set buf i j (suc n) e hi hj h =
    ap₂ ◌∷◌ (get_or-set_ne buf j i e blank (omega arith))
      (window-set buf (next i) j n e (ground arith) hj (ground arith))

window-snoc :
    (buf : List Error) (i n : ℕ)
    → i ≤ 64
    → window buf i (suc n) ≡ window buf i n ++ (get_or buf ((i + n) % 65) blank ∷ [])
window-snoc buf i zero hi = let e : (i + 0) % 65 ≡ i = omega arith in rw e
window-snoc buf i (suc n) hi =
    ap (λ l. get_or buf i blank ∷ l)
      (window-snoc buf (next i) n (ground arith)
        ∙ ap (λ k. window buf (next i) n ++ (get_or buf k blank ∷ [])) (ground arith))

-- The window that a write to its end gives.
window-push :
    (buf : List Error) (i j n : ℕ) (e : Error)
    → i ≤ 64
    → n ≤ 64
    → j ≡ (i + n) % 65
    → j < length buf
    → window (set buf j e) i (suc n) ≡ window buf i n ++ (e ∷ [])
window-push buf i j n e hi hn hj hl =
    window-snoc (set buf j e) i n hi
    ∙ ap₂ (λ w x. w ++ (x ∷ [])) (window-set buf i j n e hi (omega arith) (omega arith))
        (ground (arith, get_or-set buf j ((i + n) % 65) e blank hl))

pub push_error-IsValid : (e : Error) (l : Ering) → IsValid l → IsValid (push_error e l)
unfolding push_error
push_error-IsValid e l v = ground (arith, length-set l.error l.head (record e { signal = true }))

pub pop_error-IsValid : (l : Ering) → IsValid l → IsValid (pop_error l).2
unfolding pop_error
pop_error-IsValid l v =
    let cleared = record (get_or l.error l.tail blank) { signal = false } in
    ground (arith, length-set l.error l.tail cleared)

module _ (e : Error) (l : Ering) (v : IsValid l) where
  fields_room :
      unread l < 64 → ((push_error e l).tail ≡ l.tail) × (unread (push_error e l) ≡ suc (unread l))
  unfolding push_error
  fields_room h = ground arith

  fields_full :
      unread l ≡ 64 → ((push_error e l).tail ≡ next l.tail) × (unread (push_error e l) ≡ 64)
  unfolding push_error
  fields_full h = ground arith

drop-window :
    (buf : List Error) (i n m : ℕ) → n ≡ suc m → drop 1 (window buf i n) ≡ window buf (next i) m
drop-window buf i n m h = rw h

push_room :
    (e : Error) (l : Ering)
    → IsValid l
    → unread l < 64
    → contents (push_error e l) ≡ contents l ++ (record e { signal = true } ∷ [])
unfolding push_error
push_room e l v h =
    let f = fields_room e l v h in
    ap₂ (λ i n. window (push_error e l).error i n) f.0 f.1
    ∙ window-push l.error l.tail l.head (unread l) (record e { signal = true }) v.tail_in
        (omega arith) (omega arith) (omega arith)

push_full :
    (e : Error) (l : Ering)
    → IsValid l
    → unread l ≡ 64
    → contents (push_error e l) ≡ drop 1 (contents l) ++ (record e { signal = true } ∷ [])
unfolding push_error
push_full e l v h =
    let f = fields_full e l v h in
    let e' = record e { signal = true } in
    ap₂ (λ i n. window (push_error e l).error i n) f.0 f.1
    ∙ window-push l.error (next l.tail) l.head 63 e' (ground arith) (omega arith) (ground arith)
        (omega arith)
    ∙ ap (λ w. w ++ (e' ∷ [])) (sym (drop-window l.error l.tail (unread l) 63 h))

-- `ecx_pusherror` adds the error at the end, marked as signalled, and gives up the oldest one when
-- 64 are unread.
push_error-contents :
    (e : Error) (l : Ering) → IsValid l → contents (push_error e l) ≡ Queue.push e (contents l)
unfolding Queue.push
push_error-contents e l v = elim (Bool-cases (unread l == 64)) [
  | inl full ↦ rw (length-window, full) (push_full e l v (ground arith))
  | inr room ↦ rw (length-window, room) (push_room e l v (ground arith))
]

-- What a client sees of `ecx_poperror`: `*Ec` counts only where TRUE is returned.
abbrev pub reply : Bool × Error × Ering → Option Error
reply (not_empty, ec, l) = if not_empty then some ec else none

pop_empty :
    (l : Ering)
    → IsValid l
    → (l.head == l.tail) ≡ true
    → (reply (pop_error l), contents (pop_error l).2) ≡ Queue.pop (contents l)
unfolding pop_error Queue.pop
pop_empty l v e = let u : (l.head + 65 - l.tail) % 65 ≡ 0 = ground arith in rw (e, u) refl

pop_busy :
    (l : Ering)
    → IsValid l
    → (l.head == l.tail) ≡ false
    → (reply (pop_error l), contents (pop_error l).2) ≡ Queue.pop (contents l)
unfolding pop_error Queue.pop
pop_busy l v e =
    let m = (l.head + 65 - next l.tail) % 65 in
    let u : (l.head + 65 - l.tail) % 65 ≡ suc m = ground arith in
    let cleared = record (get_or l.error l.tail blank) { signal = false } in
    rw (e, u)
      (ap (λ w. (some (get_or l.error l.tail blank), w))
        (window-set l.error (next l.tail) l.tail m cleared (ground arith) v.tail_in (ground arith)))

-- `ecx_poperror` gives the oldest error and leaves the others; on an empty list it gives FALSE.
pop_error-contents :
    (l : Ering)
    → IsValid l
    → (reply (pop_error l), contents (pop_error l).2) ≡ Queue.pop (contents l)
pop_error-contents l v = elim (Bool-cases (l.head == l.tail)) [
  | inl e ↦ pop_empty l v e
  | inr e ↦ pop_busy l v e
]

-- The calls of a client on the ring.
unfoldable pub run : Ering → List Op → List (Option Error)
run l [] = []
run l (put e ∷ ops) = run (push_error e l) ops
run l (get ∷ ops) = let r = pop_error l in reply r ∷ run r.2 ops

-- No sequence of pushes and pops tells a well-formed ring from the queue of its unread errors.
pub run_refines : (l : Ering) (ops : List Op) → IsValid l → run l ops ≡ Queue.run (contents l) ops
unfolding run Queue.run
run_refines l [] v = refl
run_refines l (put e ∷ ops) v =
    run_refines (push_error e l) ops (push_error-IsValid e l v)
    ∙ ap (λ q. Queue.run q ops) (push_error-contents e l v)
run_refines l (get ∷ ops) v =
    ap (λ rest. reply (pop_error l) ∷ rest)
      (run_refines (pop_error l).2 ops (pop_error-IsValid l v))
    ∙ ap (λ p. p.0 ∷ Queue.run p.1 ops) (pop_error-contents l v)

-- `ecx_iserror` answers whether an error is unread, and the flag `ecaterror` is never down while
-- one is.
pub is_error_iff :
    (l : Ering)
    → IsValid l
    → ((is_error l ≡ false) ↔ (contents l ≡ [])) × (l.ecaterror ≡ false → contents l ≡ [])
unfolding is_error
is_error_iff l v = ((to_empty, of_empty), λ f. empty (v.flagged f))
  where
    empty : l.head ≡ l.tail → contents l ≡ []
    empty e = let u : (l.head + 65 - l.tail) % 65 ≡ 0 = ground arith in rw u refl

    to_empty : is_error l ≡ false → contents l ≡ []
    to_empty h = empty (ground arith)

    of_empty : contents l ≡ [] → is_error l ≡ false
    of_empty h = let u = ap length h in ground (arith, length-window l.error l.tail (unread l), u)
