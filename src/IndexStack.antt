-- ===== src/IndexStack.antt =====
-- `ec_idxstackT` of soem/ethercatmain.h and `ecx_pushindex`, `ecx_pullindex`, `ecx_clearindex`:
-- which frames of a process data cycle are under way, and where their data belong.
pub mod Fifo
mod Tests
use e_rob_soem_linux.Base.{ℕ, ◌+◌, List, Option, none, some, if◌then◌else◌, ltb, set, get_or}

abbrev pub max_buf : ℕ
max_buf = 16

-- The four arrays have `max_buf` places; a data pointer is the offset of its byte in the IO map.
pub record IndexStack : Type 0 where
  pub pushed : ℕ
  pub pulled : ℕ
  pub idx : List ℕ
  pub data_ptr : List ℕ
  pub len : List ℕ
  pub dc_offset : List ℕ

unfoldable pub push_index : ℕ → ℕ → ℕ → ℕ → IndexStack → IndexStack
push_index idx data_ptr len dco s =
    if ltb s.pushed max_buf
    then record s {
      idx = set s.idx s.pushed idx;
      data_ptr = set s.data_ptr s.pushed data_ptr;
      len = set s.len s.pushed len;
      dc_offset = set s.dc_offset s.pushed dco;
      pushed = s.pushed + 1;
    }
    else s

-- `none` is the -1 that says the stack is empty.
unfoldable pub pull_index : IndexStack → Option ℕ × IndexStack
pull_index s =
    if ltb s.pulled s.pushed then (some s.pulled, record s { pulled = s.pulled + 1 }) else (none, s)

unfoldable pub clear_index : IndexStack → IndexStack
clear_index s = record s { pushed = 0; pulled = 0 }

-- The entry at a place.
pub record Entry : Type 0 where
  pub idx : ℕ
  pub data_ptr : ℕ
  pub len : ℕ
  pub dc_offset : ℕ

abbrev pub entry_at : IndexStack → ℕ → Entry
entry_at s i = record {
  idx = get_or s.idx i 0;
  data_ptr = get_or s.data_ptr i 0;
  len = get_or s.len i 0;
  dc_offset = get_or s.dc_offset i 0;
}
