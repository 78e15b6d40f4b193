-- ===== src/Sii/Sections.antt =====
-- The readers of the sections in soem/ethercatmain.c: `ecx_siistring`, `ecx_siiFMMU`, `ecx_siiSM`,
-- `ecx_siiSMnext` and `ecx_siiPDO`, with the structs of soem/ethercatmain.h that they fill. The
-- first fuel is that of `ecx_siifind`. The readers use the parent's names.
use e_rob_soem_linux.Base.{
  ℕ, zero, suc, ◌+◌, ◌-◌, ◌*◌, ◌/◌, true, false, List, [], ◌∷◌, ◌++◌, Option, none, some,
  if◌then◌else◌, ltb, leb, Bytes, get_or, set, replicate, min, write_at,
}
use e_rob_soem_linux.Sii.{u16, u8, Reader, word, restore, sii_find}

-- `ec_eepromFMMUt`
pub record Fmmu : Type 0 where
  pub startpos : ℕ
  pub nfmmu : ℕ
  pub fmmu0 : ℕ
  pub fmmu1 : ℕ
  pub fmmu2 : ℕ
  pub fmmu3 : ℕ

-- `ec_eepromSMt`
pub record SyncManager : Type 0 where
  pub startpos : ℕ
  pub nsm : ℕ
  pub ph_start : ℕ
  pub plength : ℕ
  pub creg : ℕ
  pub sreg : ℕ
  pub activate : ℕ
  pub pdictrl : ℕ

-- `ec_eepromPDOt`
pub record Pdo : Type 0 where
  pub startpos : ℕ
  pub size : ℕ
  pub npdo : ℕ
  pub index : List ℕ
  pub sync_m : List ℕ
  pub bit_size : List ℕ
  pub sm_bitsize : List ℕ

abbrev pub max_eepdo : ℕ
max_eepdo = 0x200

abbrev pub max_sm : ℕ
max_sm = 8

abbrev pub max_name : ℕ
max_name = 40

module _ {S : Type 0} (io : Reader S) where
  abbrev byte : ℕ → S → ℕ × S
  byte a s = io.getbyte (u16 a) s

  -- The strings in front of the requested one: from `ba` on, `k` of them.
  unfoldable pub skip_strings : ℕ → ℕ → S → ℕ × S
  skip_strings zero ba s = (ba, s)
  skip_strings (suc k) ba s = let (l, s') = byte ba s in skip_strings k (u16 (ba + 1 + l)) s'

  -- `k` characters from `ba` on.
  unfoldable pub copy_string : ℕ → ℕ → S → Bytes × S
  copy_string zero ba s = ([], s)
  copy_string (suc k) ba s =
      let (x, s') = byte ba s in
      let (rest, s'') = copy_string k (u16 (ba + 1)) s' in (x ∷ rest, s'')

  -- The requested string, of which EC_MAXNAME characters are copied.
  abbrev string_section : ℕ → ℕ → S → Bytes × S
  string_section sn ba s =
      let (n, s₁) = byte ba s in
      let (last, s₂) = skip_strings (sn - 1) (u16 (ba + 1)) s₁ in
      let (l, s₃) = byte last s₂ in
      let (name, s₄) = copy_string (min l max_name) (u16 (last + 1)) s₃ in
      if leb sn n then (if ltb 0 sn then (name, s₄) else ([], s₁)) else ([], s₁)

  -- `ecx_siistring`: the buffer of the caller with the string in it.
  unfoldable pub sii_string : ℕ → Bytes → ℕ → S → Option (Bytes × S)
  sii_string fuel str sn s =
      let eectl = io.eep_pdi s in
      elim (sii_find io fuel 10 s) [
        | none ↦ none
        | some (a, s₁) ↦
            let (name, s₂) = string_section sn (u16 (a + 2)) s₁ in
            some (
              if ltb 0 a
              then (write_at str 0 (name ++ (0 ∷ [])), restore io eectl s₂)
              else (str, restore io eectl s₁))
      ]

  -- The section `start > 0` of `ecx_siiFMMU`.
  abbrev fmmu_section : ℕ → S → Fmmu × S
  fmmu_section start s =
      let (w, s₁) = word io start s in
      let nfmmu = u8 (2 * u8 w) in
      let (f0, s₂) = byte (start + 2) s₁ in
      let (f1, s₃) = byte (start + 3) s₂ in
      let (f2, s₄) = byte (start + 4) s₃ in
      let (f3, s₅) = byte (start + 5) s₄ in
      let two : Fmmu = record {
        startpos = start;
        nfmmu = nfmmu;
        fmmu0 = f0;
        fmmu1 = f1;
        fmmu2 = 0;
        fmmu3 = 0;
      } in
      if ltb 2 nfmmu then (record two { fmmu2 = f2; fmmu3 = f3 }, s₅) else (two, s₃)

  -- `ecx_siiFMMU`, whose result is the field `nfmmu`.
  unfoldable pub sii_fmmu : ℕ → S → Option (Fmmu × S)
  sii_fmmu fuel s =
      let eectl = io.eep_pdi s in
      elim (sii_find io fuel 40 s) [
        | none ↦ none
        | some (start, s₁) ↦
            let (f, s₂) = fmmu_section start s₁ in
            let no_fmmu : Fmmu = record {
              startpos = start;
              nfmmu = 0;
              fmmu0 = 0;
              fmmu1 = 0;
              fmmu2 = 0;
              fmmu3 = 0;
            } in
            some (if ltb 0 start then (f, restore io eectl s₂) else (no_fmmu, restore io eectl s₁))
      ]

  -- The eight bytes of one sync manager, from `a` on.
  abbrev sm_entry : ℕ → SyncManager → S → SyncManager × S
  sm_entry a sm s =
      let (ph_start, s₁) = word io a s in
      let (plength, s₂) = word io (a + 2) s₁ in
      let (creg, s₃) = byte (a + 4) s₂ in
      let (sreg, s₄) = byte (a + 5) s₃ in
      let (activate, s₅) = byte (a + 6) s₄ in
      let (pdictrl, s₆) = byte (a + 7) s₅ in
      (
        record sm {
          ph_start = ph_start;
          plength = plength;
          creg = creg;
          sreg = sreg;
          activate = activate;
          pdictrl = pdictrl;
        },
        s₆,
      )

  -- `ecx_siiSM`, whose result is the field `nsm`.
  unfoldable pub sii_sm : ℕ → SyncManager → S → Option (SyncManager × S)
  sii_sm fuel sm s =
      let eectl = io.eep_pdi s in
      elim (sii_find io fuel 41 s) [
        | none ↦ none
        | some (start, s₁) ↦
            let (w, s₂) = word io start s₁ in
            let (found, s₃) =
              sm_entry (start + 2) (record sm { startpos = start; nsm = u8 (w / 4) }) s₂ in
            some (
              if ltb 0 start
              then (found, restore io eectl s₃)
              else (record sm { startpos = start; nsm = 0 }, restore io eectl s₁))
      ]

  -- `ecx_siiSMnext`
  unfoldable pub sii_sm_next : SyncManager → ℕ → S → ℕ × SyncManager × S
  sii_sm_next sm n s =
      let eectl = io.eep_pdi s in
      let (next, s₁) = sm_entry (u16 (sm.startpos + 2 + n * 8)) sm s in
      if ltb n sm.nsm then (1, next, restore io eectl s₁) else (0, sm, restore io eectl s)

  -- The entries of one PDO: eight bytes each, of which the sixth is a bit length.
  unfoldable pub pdo_entries : ℕ → ℕ → ℕ → S → ℕ × S
  pdo_entries zero a bits s = (bits, s)
  pdo_entries (suc e) a bits s =
      let (b, s') = byte (a + 5) s in pdo_entries e (u16 (a + 8)) (u16 (bits + b)) s'

  -- One round of the loop of `ecx_siiPDO` on the address `a`, the counter `c` and `Size`.
  abbrev pub pdo_round : ℕ → ℕ → ℕ → Pdo → S → ℕ × ℕ × ℕ × Pdo × S
  pdo_round a c total p s =
      let n = p.npdo + 1 in
      let (index, s₁) = word io a s in
      let (e, s₂) = byte (a + 2) s₁ in
      let (sm, s₃) = byte (a + 3) s₂ in
      let (bits, s₄) = pdo_entries e (u16 (a + 8)) 0 s₃ in
      let c' = if leb (max_eepdo - 1) n then p.size else u16 (c + 3 + 4 * e + 1) in
      let p₁ : Pdo = record p {
        npdo = n;
        index = set p.index n index;
        sync_m = set p.sync_m n sm;
        bit_size = set p.bit_size n 0;
      } in
      let p₂ : Pdo = record p₁ {
        bit_size = set p₁.bit_size n bits;
        sm_bitsize = set p.sm_bitsize sm (u16 (get_or p.sm_bitsize sm 0 + bits));
      } in
      if ltb sm max_sm
      then (u16 (a + 8 + 8 * e), c', u16 (total + bits), p₂, s₄)
      else (u16 (a + 8 + 8 * e), c', total, p₁, s₃)

  -- The loop, which goes on while `c < PDO->Length`; its fuel bounds the rounds.
  unfoldable pub pdo_loop : ℕ → ℕ → ℕ → ℕ → Pdo → S → Option (ℕ × Pdo × S)
  pdo_loop zero a c total p s = none
  pdo_loop (suc fuel) a c total p s =
      let (a', c', total', p', s') = pdo_round a c total p s in
      elim (ltb c' p'.size) [
        | true ↦ pdo_loop fuel a' c' total' p' s'
        | false ↦ some (total', p', s')
      ]

  -- `ecx_siiPDO`: the mapping size and the struct.
  unfoldable pub sii_pdo : ℕ → ℕ → Pdo → ℕ → S → Option (ℕ × Pdo × S)
  sii_pdo fuel rounds p t s =
      let eectl = io.eep_pdi s in
      elim (sii_find io fuel (50 + (if ltb 1 t then 1 else t)) s) [
        | none ↦ none
        | some (start, s₁) ↦
            let p₀ : Pdo = record p {
              startpos = start;
              size = 0;
              npdo = 0;
              index = set p.index 1 0;
              sm_bitsize = replicate max_sm 0;
            } in
            let (w, s₂) = word io start s₁ in
            elim (ltb 0 start) [
              | false ↦ some (0, p₀, restore io eectl s₁)
              | true ↦ elim (pdo_loop rounds (u16 (start + 2)) 1 0 (record p₀ { size = w }) s₂) [
                | none ↦ none
                | some (total, p', s') ↦ some (total, p', restore io eectl s')
              ]
            ]
      ]
