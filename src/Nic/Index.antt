-- ===== src/Nic/Index.antt =====
-- ecx_getindex hands out an unused frame index whenever there is one.
use e_rob_soem_linux.Base.{
  ℕ, zero, suc, ◌+◌, ◌-◌, ◌%◌, ◌<◌, ◌≡◌, ◌≢◌, refl, ap, sym, ◌∙◌, get_or-set_self, arith, true,
  false, List, length, get_or, set, length-set, get_or-set, get_or-set_ne, Bool-cases, inl, inr,
}
use e_rob_soem_linux.Nic.{
  BufState, empty, alloc, is_empty, complete, Port, max_buf, bufstat, set_buf_stat, next_idx,
  find_unused, get_index,
}

-- The arrays have their sizes, and the last index given out is one of theirs.
pub record IsValid (p : Port) : Type 0 where
  pub last_in : p.lastidx < max_buf
  pub primary_places : length p.primary.rxbufstat ≡ max_buf
  pub secondary_places : length p.secondary.rxbufstat ≡ max_buf

find_unused-lt : (n : ℕ) (stats : List BufState) (idx : ℕ) → idx < 16 → find_unused n stats idx < 16
unfolding find_unused
find_unused-lt zero stats idx h = h
find_unused-lt (suc n) stats idx h = ground (arith, find_unused-lt n stats (next_idx idx))

-- Whatever the buffers' states, the index is one of theirs.
pub get_index-lt : (p : Port) → (get_index p).0 < 16
unfolding get_index
get_index-lt p = find_unused-lt 16 p.primary.rxbufstat (next_idx p.lastidx) (ground arith)

is_empty→eq : (b : BufState) → is_empty b ≡ true → b ≡ empty
is_empty→eq b h = ground arith

idx_ne :
    (idx i : ℕ) (stats : List BufState)
    → get_or stats i complete ≡ empty
    → is_empty (get_or stats idx complete) ≡ false
    → idx ≢ i
idx_ne idx i stats e h same = cc (ap (λ k. get_or stats k complete) same)

-- An unused index `i` lies `(i + 16 - idx) % 16` steps ahead, so as many rounds find one.
find_unused-IsEmpty :
    (n : ℕ) (stats : List BufState) (idx i : ℕ)
    → idx < 16
    → i < 16
    → get_or stats i complete ≡ empty
    → (i + 16 - idx) % 16 < n
    → get_or stats (find_unused n stats idx) complete ≡ empty
unfolding find_unused
find_unused-IsEmpty zero stats idx i h hi e d = absurd (omega arith)
find_unused-IsEmpty (suc n) stats idx i h hi e d =
    elim (Bool-cases (is_empty (get_or stats idx complete))) [
      | inl here ↦ rw here (is_empty→eq (get_or stats idx complete) here)
      | inr not_here ↦ rw not_here (
          find_unused-IsEmpty n stats (next_idx idx) i (ground arith) hi e
            (let ne = idx_ne idx i stats e not_here in ground (arith, ne)))
    ]

next_idx-eq-mod : (i : ℕ) → i < 16 → next_idx i ≡ (i + 1) % 16
next_idx-eq-mod i h = ground arith

find_unused_none :
    (n : ℕ) (stats : List BufState) (idx : ℕ)
    → idx < 16
    → ((i : ℕ) → i < 16 → get_or stats i complete ≢ empty)
    → find_unused n stats idx ≡ (idx + n) % 16
unfolding find_unused
find_unused_none zero stats idx h none_free = omega arith
find_unused_none (suc n) stats idx h none_free =
    ground (arith, none_free idx, find_unused_none n stats (next_idx idx) (ground arith) none_free)

-- If an index is unused, `ecx_getindex` gives one that was: it is within the arrays, becomes
-- `alloc`, is the new `lastidx`, and no other index changes its state. In redundant mode the
-- second stack marks the same index.
pub get_index_unused :
    (p : Port) (i : ℕ)
    → IsValid p
    → i < max_buf
    → bufstat p.primary i ≡ empty
    → let (idx, p') = get_index p in
      (idx < max_buf)
      × (bufstat p.primary idx ≡ empty)
      × (bufstat p'.primary idx ≡ alloc)
      × (p'.lastidx ≡ idx)
      × ((j : ℕ) → idx ≢ j → bufstat p'.primary j ≡ bufstat p.primary j)
      × (p.redundant ≡ true → bufstat p'.secondary idx ≡ alloc)
      × IsValid p'
unfolding get_index
get_index_unused p i v h e =
    let stats = p.primary.rxbufstat in
    let start = next_idx p.lastidx in
    let idx = find_unused 16 stats start in
    let lt = find_unused-lt 16 stats start (ground arith) in
    let len = length-set stats idx alloc in
    let len' = length-set p.secondary.rxbufstat idx alloc in
    (
      lt,
      find_unused-IsEmpty 16 stats start i (ground arith) h e (omega arith),
      ground (arith, get_or-set stats idx idx alloc complete (omega arith)),
      refl,
      λ j ne. get_or-set_ne stats idx j alloc complete ne,
      λ r. ground (arith, get_or-set p.secondary.rxbufstat idx idx alloc complete (omega arith)),
      ground (arith, lt, len, len'),
    )

-- If every index is in use, `ecx_getindex` still gives one: the index after the last one given,
-- whatever that buffer was waiting for.
pub get_index_exhausted :
    (p : Port)
    → IsValid p
    → ((i : ℕ) → i < max_buf → bufstat p.primary i ≢ empty)
    → ((get_index p).0 ≡ (p.lastidx + 1) % max_buf)
      × (bufstat (get_index p).1.primary ((p.lastidx + 1) % max_buf) ≡ alloc)
unfolding get_index
get_index_exhausted p v all_used =
    let stats = p.primary.rxbufstat in
    let start = next_idx p.lastidx in
    let idx = find_unused 16 stats start in
    let e = find_unused_none 16 stats start (ground arith) all_used in
    let st = next_idx-eq-mod p.lastidx v.last_in in
    let same : idx ≡ (p.lastidx + 1) % 16 = omega (arith, e, st) in
    (
      same,
      ap (λ k. get_or (set stats idx alloc) k complete) (sym same)
          ∙ get_or-set_self stats idx alloc complete (omega (arith, e, st, v)),
    )

-- `ecx_setbufstat` with EC_BUF_EMPTY makes an index available again, on both stacks in redundant
-- mode, and touches no other.
pub set_buf_stat_releases :
    (p : Port) (i : ℕ)
    → IsValid p
    → i < max_buf
    → (bufstat (set_buf_stat p i empty).primary i ≡ empty)
      × (p.redundant ≡ true → bufstat (set_buf_stat p i empty).secondary i ≡ empty)
      × ((j : ℕ) → i ≢ j → bufstat (set_buf_stat p i empty).primary j ≡ bufstat p.primary j)
      × IsValid (set_buf_stat p i empty)
unfolding set_buf_stat
set_buf_stat_releases p i v h = (
  ground (arith, get_or-set p.primary.rxbufstat i i empty complete (omega arith)),
  λ r. ground (arith, get_or-set p.secondary.rxbufstat i i empty complete (omega arith)),
  λ j ne. get_or-set_ne p.primary.rxbufstat i j empty complete ne,
  ground (arith, length-set p.primary.rxbufstat i empty, length-set p.secondary.rxbufstat i empty),
)
