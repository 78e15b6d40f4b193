-- ===== src/Sii/Find.antt =====
-- Which section ecx_siifind finds, and an EEPROM image on which it never ends.
use e_rob_soem_linux.Base.{
  ℕ, zero, suc, ◌+◌, ◌*◌, ◌<◌, ◌≡◌, ◌≢◌, ◌⊎◌, refl, ap₂, ◌∙◌, arith, true, false, none, some, ◌==◌,
  ◌||◌, if◌then◌else◌, inl, inr,
}
use e_rob_soem_linux.Sii.{Reader, u16, find_loop, sii_find}

-- An EEPROM that is read without effect: a byte at each address.
abbrev pub reader : (ℕ → ℕ) → Reader (Unit {0})
reader image = record { getbyte = λ a s. (image a, s); eep_pdi = λ s. false; to_pdi = λ s. s }

abbrev pub word_at : (ℕ → ℕ) → ℕ → ℕ
word_at image a = u16 (image (u16 a) + 256 * image (u16 (a + 1)))

-- A walk over `n` sections from the category word at `a` to the word at `b`, none of them of the
-- category `cat`, none of them the end mark, and all of it below 32768.
pub data Walk (image : ℕ → ℕ) (cat : ℕ) (b : ℕ) : ℕ → ℕ → Type 0 where
  here : Walk image cat b b zero
  over :
      {a n c : ℕ}
      → word_at image a ≢ cat
      → word_at image a ≢ 0xffff
      → c ≡ a + 4 + 2 * word_at image (a + 2)
      → c < 32768
      → Walk image cat b c n
      → Walk image cat b a (suc n)

found :
    (image : ℕ → ℕ) (cat fuel a : ℕ)
    → (word_at image a ≡ cat) ⊎ (word_at image a ≡ 0xffff)
    → find_loop (reader image) (suc fuel) cat (a + 2) (word_at image a) tt
      ≡ some (a + 2, word_at image a, tt)
unfolding find_loop
found image cat fuel a h =
    let stop : (word_at image a == cat || word_at image a == 0xffff) ≡ true = stops h in
    rw (stop, find_loop) refl
  where
    stops :
        (word_at image a ≡ cat) ⊎ (word_at image a ≡ 0xffff)
        → (word_at image a == cat || word_at image a == 0xffff) ≡ true
    stops (inl e) = ground arith
    stops (inr e) = ground arith

-- The address of the section behind the one whose category word is at `a`.
abbrev pub next_section : (ℕ → ℕ) → ℕ → ℕ
next_section image a = u16 (a + 2 + 2 + 2 * word_at image (a + 2))

passed_over :
    (image : ℕ → ℕ) (cat fuel a : ℕ)
    → word_at image a ≢ cat
    → word_at image a ≢ 0xffff
    → find_loop (reader image) (suc fuel) cat (a + 2) (word_at image a) tt
      ≡ find_loop
          (reader image)
          fuel
          cat
          (u16 (next_section image a + 2))
          (word_at image (next_section image a))
          tt
unfolding find_loop
passed_over image cat fuel a ne nend =
    let goes : (word_at image a == cat || word_at image a == 0xffff) ≡ false = ground arith in
    rw (goes, find_loop) refl

find_loop-Walk :
    (image : ℕ → ℕ) (cat b a n fuel : ℕ)
    → Walk image cat b a n
    → n < fuel
    → (word_at image b ≡ cat) ⊎ (word_at image b ≡ 0xffff)
    → find_loop (reader image) fuel cat (a + 2) (word_at image a) tt
      ≡ some (b + 2, word_at image b, tt)
find_loop-Walk image cat b a n zero w h e = absurd (omega arith)
find_loop-Walk image cat b a n (suc fuel) here h e = found image cat fuel b e
find_loop-Walk image cat b a (suc n) (suc fuel) (over {c = c} ne nend eq small w) h e =
    let at_c : next_section image a ≡ c = omega arith in
    let after : u16 (next_section image a + 2) ≡ c + 2 = omega arith in
    passed_over image cat fuel a ne nend
    ∙ ap₂ (λ x y. find_loop (reader image) fuel cat x (word_at image y) tt) after at_c
    ∙ find_loop-Walk image cat b c n fuel w (omega arith) e

-- Where the sections of an EEPROM, from word address 0x40 on and below byte 32768, are walked to a
-- category word at `b` that is the searched category or the end mark 0xffff, and `fuel` exceeds the
-- number of sections passed over, ecx_siifind returns the address behind that category word if it
-- is the searched category, and 0 otherwise.
pub sii_find-Walk :
    (image : ℕ → ℕ) (cat b n fuel : ℕ)
    → Walk image cat b 128 n
    → n < fuel
    → (word_at image b ≡ cat) ⊎ (word_at image b ≡ 0xffff)
    → sii_find (reader image) fuel cat tt ≡ some ((if word_at image b == cat then b + 2 else 0), tt)
unfolding sii_find
sii_find-Walk image cat b n fuel w h e =
    rw (find_loop-Walk image cat b 128 n fuel w h e, sii_find) refl

no_fuel :
    (image : ℕ → ℕ) (cat : ℕ) → find_loop (reader image) zero cat 130 (word_at image 128) tt ≡ none
unfolding find_loop
no_fuel image cat = refl

stuck :
    (image : ℕ → ℕ) (cat fuel : ℕ)
    → word_at image 128 ≢ cat
    → word_at image 128 ≢ 0xffff
    → word_at image 130 ≡ 0xfffe
    → find_loop (reader image) fuel cat 130 (word_at image 128) tt ≡ none
stuck image cat zero ne nend len = no_fuel image cat
stuck image cat (suc fuel) ne nend len =
    let same : next_section image 128 ≡ 128 = omega arith in
    let after : u16 (next_section image 128 + 2) ≡ 130 = omega arith in
    passed_over image cat fuel 128 ne nend
    ∙ ap₂ (λ x y. find_loop (reader image) fuel cat x (word_at image y) tt) after same
    ∙ stuck image cat fuel ne nend len

-- Where the first section is neither of the searched category nor the end mark, and its length is
-- 0xfffe words, ecx_siifind does not end: the loop runs out of any amount of fuel.
pub sii_find_diverges :
    (image : ℕ → ℕ) (cat fuel : ℕ)
    → word_at image 128 ≢ cat
    → word_at image 128 ≢ 0xffff
    → word_at image 130 ≡ 0xfffe
    → sii_find (reader image) fuel cat tt ≡ none
unfolding sii_find
sii_find_diverges image cat fuel ne nend len = rw (stuck image cat fuel ne nend len, sii_find) refl
