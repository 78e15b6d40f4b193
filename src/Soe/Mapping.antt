-- ===== src/Soe/Mapping.antt =====
-- `ecx_readIDNmap` of soem/ethercatsoe.c. The buffers `SoEmapping` and `SoEattribute` are not set before
-- they are read into; what they hold then are arguments.
use e_rob_soem_linux.Base.{
  ℕ, zero, suc, ◌+◌, ◌*◌, ◌/◌, ◌%◌, ◌^◌, Bool, ◌&&◌, not, ◌||◌, if◌then◌else◌, ltb, leb, ◌==◌,
  Bytes, get_or, get16,
}
use e_rob_soem_linux.Base.Int.{is_positive}
use e_rob_soem_linux.Task.{Task, pure, ◌>>=◌}
use e_rob_soem_linux.Mailbox.Channel.{Channel}
use e_rob_soem_linux.Soe.Reading.{soe_read}

-- EC_TIMEOUTRXM
abbrev ec_timeoutrxm : ℕ
ec_timeoutrxm = 700000

-- The two sizes in bits, and the buffers.
pub record IdnMap : Type 0 where
  pub osize : ℕ
  pub isize : ℕ
  pub mapping : Bytes
  pub attribute : Bytes

-- `(int)8 << SoEattribute.length`
abbrev length_bits : Bytes → ℕ
length_bits attribute = 8 * 2 ^ (get_or attribute 2 0 % 4)

abbrev is_list : Bytes → Bool
is_list attribute = get_or attribute 2 0 / 4 % 2 == 1

module _ {S : Type 0} (ch : Channel S) (fuel drive : ℕ) where
  -- The loop over the entries of a mapping, of which `count` are left.
  unfoldable pub add_lengths : ℕ → ℕ → Bytes → ℕ → Bytes → Task S (ℕ × Bytes)
  add_lengths zero itemcount mapping size attribute = pure (size, attribute)
  add_lengths (suc count) itemcount mapping size attribute = do
    r ← soe_read ch drive 4 (get16 mapping (4 + 2 * itemcount)) ec_timeoutrxm fuel 4 attribute
    let size' =
        if is_positive r.wkc && not (is_list r.p) then (size + length_bits r.p) % 2 ^ 32 else size
    add_lengths count (itemcount + 1) mapping size' r.p

  -- A mapping is read, and the lengths of its entries are added to `size`.
  unfoldable pub add_mapping : ℕ → ℕ → Bytes → Bytes → Task S (ℕ × Bytes × Bytes)
  add_mapping idn size mapping attribute = do
    r ← soe_read ch drive 0x40 idn ec_timeoutrxm fuel 132 mapping
    let entries = get16 r.p 0 / 2
    if is_positive r.wkc && leb 4 r.psize && ltb 0 entries && leb entries 64
        then (do
          (size', attribute') ← add_lengths entries 0 r.p ((size + 16) % 2 ^ 32) attribute
          pure (size', r.p, attribute'))
        else pure (size, r.p, attribute)

  -- The outputs (EC_IDN_MDTCONFIG) and the inputs (EC_IDN_ATCONFIG) of a drive.
  unfoldable pub add_drive : IdnMap → Task S IdnMap
  add_drive v = do
    (osize, mapping, attribute) ← add_mapping 24 v.osize v.mapping v.attribute
    (isize, mapping', attribute') ← add_mapping 16 v.isize mapping attribute
    pure (record { osize = osize; isize = isize; mapping = mapping'; attribute = attribute' })

module _ {S : Type 0} (ch : Channel S) (fuel : ℕ) where
  -- `count` drives from `drive` on.
  unfoldable pub add_drives : ℕ → ℕ → IdnMap → Task S IdnMap
  add_drives zero drive v = pure v
  add_drives (suc count) drive v = add_drive ch fuel drive v >>= λ w. add_drives count (drive + 1) w

  -- `ecx_readIDNmap` for EC_SOE_MAX_DRIVES drives: its result, and the sizes.
  unfoldable pub read_idn_map : Bytes → Bytes → Task S (ℕ × IdnMap)
  read_idn_map mapping attribute = do
    v ← add_drives 8 0 (record { osize = 0; isize = 0; mapping = mapping; attribute = attribute })
    pure (if ltb 0 v.isize || ltb 0 v.osize then 1 else 0, v)
