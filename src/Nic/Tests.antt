-- ===== src/Nic/Tests.antt =====
-- The frame indices of a concrete port.
use e_rob_soem_linux.Base.{
  ℕ, zero, suc, get_or, ◌+◌, ◌%◌, ◌<◌, ◌≡◌, ◌≢◌, refl, arith, true, replicate, set,
}
use e_rob_soem_linux.Base.Int.{pos}
use e_rob_soem_linux.Nic.{
  BufState, empty, alloc, tx, complete, Stack, Port, max_buf, bufstat, get_index,
}
use e_rob_soem_linux.Nic.Index.{IsValid, get_index_unused, get_index_exhausted}

abbrev pub stack : BufState → Stack
stack b = record {
  rxbuf = replicate 16 (replicate 64 0);
  rxbufstat = replicate 16 b;
  rxsa = replicate 16 0;
  tempbuf = replicate 64 0;
}

-- A redundant port with all frame indices in one state.
abbrev pub port : BufState → Port
port b = record {
  primary = stack b;
  secondary = stack b;
  redundant = true;
  txbuf = replicate 16 (replicate 64 0);
  txbuflength = replicate 16 0;
  txbuf2 = replicate 64 0;
  txbuflength2 = 28;
  tempinbufs = pos 0;
  lastidx = 15;
}

pub port-IsValid : (b : BufState) → IsValid (port b)
port-IsValid b = record { last_in = omega arith; primary_places = refl; secondary_places = refl }

-- All indices but 3 wait for an answer.
abbrev one_left : Port
one_left =
    let p = port tx in
    let s = p.primary in record p { primary = record s { rxbufstat = set s.rxbufstat 3 empty } }

one_left-IsValid : IsValid one_left
one_left-IsValid = record { last_in = omega arith; primary_places = refl; secondary_places = refl }

get_index_unused_example :
    let (idx, p') = get_index one_left in
    (idx < max_buf)
    × (bufstat one_left.primary idx ≡ empty)
    × (bufstat p'.primary idx ≡ alloc)
    × (p'.lastidx ≡ idx)
    × ((j : ℕ) → idx ≢ j → bufstat p'.primary j ≡ bufstat one_left.primary j)
    × (one_left.redundant ≡ true → bufstat p'.secondary idx ≡ alloc)
    × IsValid p'
get_index_unused_example = get_index_unused one_left 3 one_left-IsValid (omega arith) refl

none_empty : (n i : ℕ) → get_or (replicate n tx) i complete ≢ empty
none_empty zero i = ground arith
none_empty (suc n) zero = ground arith
none_empty (suc n) (suc i) = none_empty n i

get_index_exhausted_example :
    ((get_index (port tx)).0 ≡ ((port tx).lastidx + 1) % max_buf)
    × (bufstat (get_index (port tx)).1.primary (((port tx).lastidx + 1) % max_buf) ≡ alloc)
get_index_exhausted_example =
    get_index_exhausted (port tx) (port-IsValid tx) (λ i h. none_empty 16 i)
