-- ===== src/Sii/Cache.antt =====
-- ecx_siigetbyte: one byte of a slave's EEPROM through the cache `esibuf` with its bitmap
-- `esimap`. The bitmap is the list of its 4096 bits. A store behind the end of either array, which
-- C makes in the memory that follows, is lost in the model.
use e_rob_soem_linux.Base.{
  ◌&&◌, get_or-take, get_or-replicate, length-replicate, get_or_past, ltb→lt, ℕ, zero, suc, ◌+◌,
  ◌-◌, ◌*◌, ◌/◌, ◌≤◌, ◌<◌, ◌≡◌, ◌↔◌, ◌⊎◌, refl, sym, ap, ap₂, ◌∙◌, arith, Bool, true, false, List,
  if◌then◌else◌, ltb, leb, ◌==◌, Bytes, get_or, set, replicate, write_at, take, length,
  get_or-set_ne, length-set, length-write_at, get_or-write_at_in, get_or-write_at_below,
  get_or-write_at_above, length-take, Bool-cases, inl, inr,
}

pub record Cache : Type 0 where
  pub esislave : ℕ
  pub esimap : List Bool
  pub esibuf : Bytes

abbrev pub max_eepbuf : ℕ
max_eepbuf = 4096

-- The slave's side: whether it answers with eight bytes, and the bytes that `ecx_readeepromFP`
-- reads at a word address, EEPROM control having been taken by `ecx_eeprom2master`.
pub record Eeprom (W : Type 0) : Type 0 where
  pub eight_byte : ℕ → Bool
  pub read : ℕ → ℕ → W → Bytes × W

-- The loop that sets the bits of the bytes just read, from the first one on.
unfoldable pub mark_bytes : ℕ → ℕ → List Bool → List Bool
mark_bytes zero i map = map
mark_bytes (suc n) i map = mark_bytes n (i + 1) (set map i true)

-- The cache map is cleared for another slave.
abbrev for_slave : ℕ → Cache → Cache
for_slave slave c =
    if slave == c.esislave
    then c
    else record c { esislave = slave; esimap = replicate max_eepbuf false }

module _ {W : Type 0} (e : Eeprom W) where
  -- Reading the words that hold the byte into the cache.
  unfoldable pub fill : ℕ → ℕ → Cache → W → Cache × W
  unfolding mark_bytes
  fill slave address c w =
      let at = address / 2 * 2 in
      let (bytes, w') = e.read slave (address / 2) w in
      let cnt = if e.eight_byte slave then 8 else 4 in
      (
        record c {
          esibuf = write_at c.esibuf at (take cnt bytes);
          esimap = mark_bytes cnt at c.esimap;
        },
        w',
      )

  unfoldable pub sii_getbyte : ℕ → ℕ → Cache → W → ℕ × Cache × W
  sii_getbyte slave address c w =
      let c₁ = for_slave slave c in
      let (c₂, w') = fill slave address c₁ w in
      if ltb address max_eepbuf
      then if get_or c₁.esimap address false
        then (get_or c₁.esibuf address 0, c₁, w)
        else (get_or c₂.esibuf address 0, c₂, w')
      else (0xff, c₁, w)

  -- Every byte that the map has marked is the EEPROM's.
  pub record IsCoherent (image : ℕ → ℕ → ℕ) (c : Cache) : Type 0 where
    pub map_places : length c.esimap ≡ max_eepbuf
    pub buf_places : length c.esibuf ≡ max_eepbuf
    pub marked : (i : ℕ) → get_or c.esimap i false ≡ true → get_or c.esibuf i 0 ≡ image c.esislave i

  -- How many bytes an answer of the slave holds.
  abbrev pub answer_size : ℕ → ℕ
  answer_size slave = if e.eight_byte slave then 8 else 4

  -- `ecx_readeepromFP` gives the bytes of an EEPROM that does not change: eight of them, or four for a
  -- slave with four-byte answers. Nothing is said of what stands behind those.
  abbrev pub ReadsImage : (ℕ → ℕ → ℕ) → Type 0
  ReadsImage image =
      (slave a : ℕ) (w : W) (k : ℕ)
      → k < answer_size slave
      → (answer_size slave ≤ length (e.read slave a w).0)
        × (get_or (e.read slave a w).0 k 0 ≡ image slave (2 * a + k))

-- The marked bits are those before and the new range.
get_or-mark_bytes :
    (n i : ℕ) (map : List Bool) (j : ℕ)
    → get_or (mark_bytes n i map) j false ≡ true
    → (get_or map j false ≡ true) ⊎ ((i ≤ j) × (j < i + n))
unfolding mark_bytes
get_or-mark_bytes zero i map j h = inl h
get_or-mark_bytes (suc n) i map j h = elim (get_or-mark_bytes n (i + 1) (set map i true) j h) [
  | inr (lo, hi) ↦ inr (omega arith, omega arith)
  | inl m ↦ elim (Bool-cases (i == j)) [
    | inl same ↦ inr (ground arith, ground arith)
    | inr differ ↦ inl (sym (get_or-set_ne map i j true false (ground arith)) ∙ m)
  ]
]

length-mark_bytes : (n i : ℕ) (map : List Bool) → length (mark_bytes n i map) ≡ length map
unfolding mark_bytes
length-mark_bytes zero i map = refl
length-mark_bytes (suc n) i map =
    length-mark_bytes n (i + 1) (set map i true) ∙ length-set map i true

marked_in : (map : List Bool) (j : ℕ) → get_or map j false ≡ true → j < length map
marked_in map j h = elim (Bool-cases (ltb j (length map))) [
  | inl lt ↦ ltb→lt j (length map) lt
  | inr ge ↦ cc (sym (get_or_past map j false (ground arith)) ∙ h)
]

module _ {W : Type 0} (e : Eeprom W) (image : ℕ → ℕ → ℕ) (reads : ReadsImage e image) where
  -- Coherence after the bytes from the even address `at` on have been stored and marked.
  stored-IsCoherent :
      (at cnt : ℕ) (c : Cache) (bytes : Bytes)
      → length (take cnt bytes) ≡ cnt
      → ((k : ℕ) → k < cnt → get_or bytes k 0 ≡ image c.esislave (at + k))
      → IsCoherent e image c
      → IsCoherent e image (record c {
        esibuf = write_at c.esibuf at (take cnt bytes);
        esimap = mark_bytes cnt at c.esimap;
      })
  stored-IsCoherent at cnt c bytes full same v = record {
    map_places = length-mark_bytes cnt at c.esimap ∙ v.map_places;
    buf_places = length-write_at c.esibuf at (take cnt bytes) ∙ v.buf_places;
    marked = λ i m. elim (Bool-cases (leb at i && ltb i (at + cnt))) [
      | inl inside ↦
          get_or-write_at_in c.esibuf at (take cnt bytes) i 0 (ground arith) (ground (arith, full))
            (omega (
              arith,
              marked_in (mark_bytes cnt at c.esimap) i m,
              length-mark_bytes cnt at c.esimap,
              v.map_places,
              v.buf_places,
            ))
          ∙ get_or-take cnt bytes (i - at) 0 (ground arith)
          ∙ same (i - at) (ground arith)
          ∙ ap (image c.esislave) (ground arith)
      | inr outside ↦ elim (get_or-mark_bytes cnt at c.esimap i m) [
        | inr (lo, hi) ↦ absurd (ground arith)
        | inl old ↦ unchanged i outside ∙ v.marked i old
      ]
    ];
  }
    where
      unchanged :
          (i : ℕ)
          → (leb at i && ltb i (at + cnt)) ≡ false
          → get_or (write_at c.esibuf at (take cnt bytes)) i 0 ≡ get_or c.esibuf i 0
      unchanged i out = elim (Bool-cases (ltb i at)) [
        | inl below ↦ get_or-write_at_below c.esibuf at (take cnt bytes) i 0 (ground arith)
        | inr above ↦ get_or-write_at_above c.esibuf at (take cnt bytes) i 0 (ground (arith, full))
      ]

  for_slave-IsCoherent :
      (slave : ℕ) (c : Cache)
      → IsCoherent e image c
      → IsCoherent e image (for_slave slave c) × ((for_slave slave c).esislave ≡ slave)
  for_slave-IsCoherent slave c v = elim (Bool-cases (slave == c.esislave)) [
    | inl same ↦ rw same (v, ground arith)
    | inr other ↦ rw other (cleared, refl)
  ]
    where
      cleared :
          IsCoherent e image (record c { esislave = slave; esimap = replicate max_eepbuf false })
      cleared = record {
        map_places = length-replicate max_eepbuf false;
        buf_places = v.buf_places;
        marked = λ i m. cc (sym (get_or-replicate max_eepbuf false i) ∙ m);
      }

  fill-IsCoherent :
      (slave address : ℕ) (c : Cache) (w : W)
      → c.esislave ≡ slave
      → IsCoherent e image c
      → IsCoherent e image (fill e slave address c w).0
  unfolding fill
  fill-IsCoherent slave address c w here v =
      let cnt : ℕ = answer_size e slave in
      let cnt-ge : 4 ≤ answer_size e slave = ground arith in
      let bytes = (e.read slave (address / 2) w).0 in
      stored-IsCoherent (address / 2 * 2) cnt c bytes
        (omega
          (arith, length-take cnt bytes, (reads slave (address / 2) w 0 (omega (arith, cnt-ge))).0))
        (λ k h. (reads slave (address / 2) w k h).1 ∙ ap₂ image (sym here) (omega arith)) v

  fill-byte :
      (slave address : ℕ) (c : Cache) (w : W)
      → address < max_eepbuf
      → IsCoherent e image c
      → get_or (fill e slave address c w).0.esibuf address 0 ≡ image slave address
  unfolding fill
  fill-byte slave address c w h v =
      let cnt : ℕ = answer_size e slave in
      let cnt-ge : 4 ≤ answer_size e slave = ground arith in
      let bytes = (e.read slave (address / 2) w).0 in
      let r = λ (k : ℕ) (b : k < cnt). reads slave (address / 2) w k b in
      get_or-write_at_in c.esibuf (address / 2 * 2) (take cnt bytes) address 0 (omega arith)
        (omega (arith, length-take cnt bytes, (r 0 (omega (arith, cnt-ge))).0, cnt-ge))
        (omega (arith, v.buf_places))
      ∙ get_or-take cnt bytes (address - address / 2 * 2) 0 (omega (arith, cnt-ge))
      ∙ (r (address - address / 2 * 2) (omega (arith, cnt-ge))).1
      ∙ ap (image slave) (omega arith)

  -- If the slave's EEPROM reads as a fixed image, in the eight bytes of an answer, or in the first four
  -- from a slave with four-byte answers, `ecx_siigetbyte` gives the image's byte at an address of the
  -- cache, cached or not and whichever slave was read before, and 0xff behind the cache; afterwards the
  -- cache again holds only bytes of the image. This leaves out the last addresses of the cache, where a
  -- store of a whole answer would go behind the end of the arrays.
  pub sii_getbyte_lem :
      (slave address : ℕ) (c : Cache) (w : W)
      → IsCoherent e image c
      → (address / 2 * 2 + answer_size e slave ≤ max_eepbuf) ⊎ (max_eepbuf ≤ address)
      → let (b, c', w') = sii_getbyte e slave address c w in
        (b ≡ (if ltb address max_eepbuf then image slave address else 0xff)) × IsCoherent e image c'
  unfolding sii_getbyte
  sii_getbyte_lem slave address c w v inside =
      let c₁ = for_slave slave c in
      let (v₁, here) = for_slave-IsCoherent slave c v in
      elim (Bool-cases (ltb address max_eepbuf)) [
        | inr out ↦ rw out (refl, v₁)
        | inl in_cache ↦ elim (Bool-cases (get_or c₁.esimap address false)) [
          | inl cached ↦
              rw (in_cache, cached) (v₁.marked address cached ∙ ap (λ s. image s address) here, v₁)
          | inr absent ↦
              rw (in_cache, absent)
                (
                  fill-byte slave address c₁ w (ltb→lt address max_eepbuf in_cache) v₁,
                  fill-IsCoherent slave address c₁ w here v₁,
                )
        ]
      ]

-- The bytes that a fill stores lie within `esibuf`, and its marks within `esimap`, unless the
-- address is one of the last: with eight-byte answers 4090 and above, with four-byte answers 4094
-- and above. There the C code writes behind the end of its arrays.
pub fill_overruns_iff :
    (address cnt : ℕ)
    → address < max_eepbuf
    → (cnt ≡ 8) ⊎ (cnt ≡ 4)
    → (max_eepbuf < address / 2 * 2 + cnt) ↔ (max_eepbuf + 2 ≤ address + cnt)
fill_overruns_iff address cnt h (inl e) = ground arith
fill_overruns_iff address cnt h (inr e) = ground arith
