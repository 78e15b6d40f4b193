-- ===== src/Sii.antt =====
-- The slave information in an EEPROM, soem/ethercatmain.c: the byte cache of `ecx_siigetbyte`, and
-- the functions that read the sections through it. An address is the bit pattern of the uint16 (or
-- int16) that holds it.
pub mod Cache
pub mod Find
pub mod Sections
pub mod Pdo
mod Tests
use e_rob_soem_linux.Base.{
  ℕ, zero, suc, ◌+◌, ◌-◌, ◌*◌, ◌/◌, ◌%◌, Bool, true, false, List, [], ◌∷◌, Option, none, some, ◌&&◌,
  ◌||◌, not, if◌then◌else◌, ltb, leb, ◌==◌, Bytes, get_or, set, replicate,
}

abbrev pub u16 : ℕ → ℕ
u16 n = n % 65536

abbrev pub u8 : ℕ → ℕ
u8 n = n % 256

-- What the section readers use: a byte of the EEPROM, whether EEPROM control was with the PDI
-- (`eep_pdi`), and giving it back (`ecx_eeprom2pdi`).
pub record Reader (S : Type 0) : Type 0 where
  pub getbyte : ℕ → S → ℕ × S
  pub eep_pdi : S → Bool
  pub to_pdi : S → S

-- The result of a search, which is 0 where the section was not found.
abbrev pub Search : Type 0 → Type 0
Search S = Option (ℕ × S)

abbrev pub sii_start : ℕ
sii_start = 0x40

module _ {S : Type 0} (io : Reader S) where
  -- `p = ecx_siigetbyte(a++); p += ecx_siigetbyte(a++) << 8;`
  abbrev pub word : ℕ → S → ℕ × S
  word a s =
      let (lo, s₁) = io.getbyte (u16 a) s in
      let (hi, s₂) = io.getbyte (u16 (a + 1)) s₁ in (u16 (lo + 256 * hi), s₂)

  -- `if (eectl) ecx_eeprom2pdi(context, slave);` with the `eectl` of the start.
  abbrev pub restore : Bool → S → S
  restore eectl s = if eectl then io.to_pdi s else s

  -- The loop of `ecx_siifind`, `a` standing behind the category `p`.
  unfoldable pub find_loop : ℕ → ℕ → ℕ → ℕ → S → Option (ℕ × ℕ × S)
  find_loop zero cat a p s = none
  find_loop (suc fuel) cat a p s = elim (p == cat || p == 0xffff) [
    | true ↦ some (a, p, s)
    | false ↦
        let (len, s₁) = word a s in
        let a' = u16 (a + 2 + 2 * len) in
        let (p', s₂) = word a' s₁ in find_loop fuel cat (u16 (a' + 2)) p' s₂
  ]

  unfoldable pub sii_find : ℕ → ℕ → S → Search S
  sii_find fuel cat s =
      let eectl = io.eep_pdi s in
      let a = 2 * sii_start in
      let (p, s₁) = word a s in
      elim (find_loop fuel cat (a + 2) p s₁) [
        | none ↦ none
        | some (a', p', s₂) ↦ some ((if p' == cat then a' else 0), restore eectl s₂)
      ]
