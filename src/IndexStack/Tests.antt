-- ===== src/IndexStack/Tests.antt =====
-- The index stack at concrete entries.
use e_rob_soem_linux.Base.{◌≡◌, refl, arith, List, [], ◌∷◌, replicate, take}
use e_rob_soem_linux.IndexStack.{IndexStack, Entry, clear_index}
use e_rob_soem_linux.IndexStack.Fifo.{IsValid, drain, push_all, push_all-drain}

abbrev used : IndexStack
used = record {
  pushed = 3;
  pulled = 1;
  idx = replicate 16 9;
  data_ptr = replicate 16 9;
  len = replicate 16 9;
  dc_offset = replicate 16 9;
}

used-IsValid : IsValid used
used-IsValid = record {
  pushed_in = omega arith;
  order = omega arith;
  idx_places = refl;
  data_ptr_places = refl;
  len_places = refl;
  dc_offset_places = refl;
}

abbrev two : List Entry
two =
    record { idx = 4; data_ptr = 1000; len = 32; dc_offset = 0 }
    ∷ record { idx = 5; data_ptr = 1032; len = 8; dc_offset = 0 }
    ∷ []

push_all-drain_example : drain 17 (push_all two (clear_index used)) ≡ take 16 two
push_all-drain_example = push_all-drain used two used-IsValid
