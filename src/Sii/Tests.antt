-- ===== src/Sii/Tests.antt =====
-- Concrete EEPROMs.
use e_rob_soem_linux.Base.{
  ℕ, get_or, sym, ◌∙◌, length-replicate, get_or-replicate, ◌<◌, ◌≤◌, ◌+◌, ◌*◌, ◌%◌, ◌≡◌, refl,
  arith, Bool, true, false, ◌∷◌, [], Bytes, length, replicate, if◌then◌else◌, ltb, ◌==◌, inl, some,
  none,
}
use e_rob_soem_linux.Sii.{sii_find}
use e_rob_soem_linux.Sii.Sections.{Pdo, max_eepdo, pdo_loop}
use e_rob_soem_linux.Sii.Pdo.{pdo_loop_total}
use e_rob_soem_linux.Sii.Cache.{
  Cache, Eeprom, max_eepbuf, sii_getbyte, IsCoherent, ReadsImage, sii_getbyte_lem,
}
use e_rob_soem_linux.Sii.Find.{reader, word_at, Walk, here, over, sii_find-Walk, sii_find_diverges}

-- A section of category 10 with one word, and behind it one of category 41.
abbrev image : ℕ → ℕ
image a = if a == 128 then 10 else if a == 130 then 1 else if a == 134 then 41 else 0

walk : Walk image 41 134 128 1
walk = over (omega arith) (omega arith) refl (omega arith) here

sii_find-Walk_example :
    sii_find (reader image) 2 41 tt ≡ some ((if word_at image 134 == 41 then 134 + 2 else 0), tt)
sii_find-Walk_example = sii_find-Walk image 41 134 1 2 walk (omega arith) (inl refl)

-- A section of category 10 with 0xfffe words.
abbrev endless : ℕ → ℕ
endless a = if a == 128 then 10 else if a == 130 then 0xfe else if a == 131 then 0xff else 0

sii_find_diverges_example : sii_find (reader endless) 1000 41 tt ≡ none
sii_find_diverges_example = sii_find_diverges endless 41 1000 (omega arith) (omega arith) refl

-- Each slave's EEPROM counts up, from the slave's number on.
abbrev counting : ℕ → ℕ → ℕ
counting slave a = (slave + a) % 256

-- Slave 1 answers with eight bytes; the others with four, behind which stand zeros.
abbrev answer : Bool → ℕ → ℕ → Bytes
answer eight slave a =
    counting slave a
    ∷ counting slave (a + 1)
    ∷ counting slave (a + 2)
    ∷ counting slave (a + 3)
    ∷ (if eight then counting slave (a + 4) else 0)
    ∷ (if eight then counting slave (a + 5) else 0)
    ∷ (if eight then counting slave (a + 6) else 0)
    ∷ (if eight then counting slave (a + 7) else 0)
    ∷ []

abbrev eeprom : Eeprom (Unit {0})
eeprom = record {
  eight_byte = λ slave. slave == 1;
  read = λ slave a w. (answer (slave == 1) slave (2 * a), w);
}

answer_lem :
    (eight : Bool) (slave a k : ℕ)
    → k < (if eight then 8 else 4)
    → ((if eight then 8 else 4) ≤ length (answer eight slave a))
      × (get_or (answer eight slave a) k 0 ≡ counting slave (a + k))
answer_lem true slave a k h = ground arith
answer_lem false slave a k h = ground arith

eeprom-ReadsImage : ReadsImage eeprom counting
eeprom-ReadsImage slave a w k h = answer_lem (slave == 1) slave (2 * a) k h

abbrev cold : Cache
cold = record { esislave = 0; esimap = replicate max_eepbuf false; esibuf = replicate max_eepbuf 0 }

cold-IsCoherent : IsCoherent eeprom counting cold
cold-IsCoherent = record {
  map_places = length-replicate max_eepbuf false;
  buf_places = length-replicate {A = ℕ} max_eepbuf 0;
  marked = λ i m. cc (sym (get_or-replicate max_eepbuf false i) ∙ m);
}

sii_getbyte_lem_example :
    let (b, c', w') = sii_getbyte eeprom 2 0x83 cold tt in
    (b ≡ (if ltb 0x83 max_eepbuf then counting 2 0x83 else 0xff)) × IsCoherent eeprom counting c'
sii_getbyte_lem_example =
    sii_getbyte_lem eeprom counting eeprom-ReadsImage 2 0x83 cold tt cold-IsCoherent
      (inl (omega arith))

abbrev no_pdo : Pdo
no_pdo = record {
  startpos = 134;
  size = 8;
  npdo = 0;
  index = replicate 512 0;
  sync_m = replicate 512 0;
  bit_size = replicate 512 0;
  sm_bitsize = replicate 8 0;
}

pdo_loop_total_example :
    (r : ℕ × Pdo × Unit {0}) × (pdo_loop (reader image) 511 136 1 0 no_pdo tt ≡ some r)
    × (r.1.npdo < max_eepdo)
pdo_loop_total_example =
    pdo_loop_total (reader image) 511 136 1 0 no_pdo tt (omega arith) (omega arith)
