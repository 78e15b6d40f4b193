-- ===== src/Base/Buffer.antt =====
-- Byte buffers: `memcpy` into and out of an array, and little-endian words.
use Prim.Native.Nat.{ℕ, zero, suc, ◌+◌, ◌-◌, ◌*◌, ◌/◌, ◌%◌, ◌<◌, ◌≤◌}
use mathlib.Core.Path.{◌≡◌, refl, ap}
use mathlib.Core.List.{List, [], ◌∷◌, ◌++◌}
use native.Mathlib.Omega.{arith}
use e_rob_soem_linux.Base.Lists.{length, get_or, take, drop}

abbrev pub Bytes : Type 0
Bytes = List ℕ

-- `memcpy(&buf[i], bs, len)`; what would fall past the end of the array is lost.
unfoldable pub write_at : Bytes → ℕ → Bytes → Bytes
write_at [] i bs = []
write_at (x ∷ xs) zero [] = x ∷ xs
write_at (x ∷ xs) zero (b ∷ bs) = b ∷ write_at xs zero bs
write_at (x ∷ xs) (suc i) bs = x ∷ write_at xs i bs

-- The `n` bytes from index `i` on.
abbrev pub read_at : Bytes → ℕ → ℕ → Bytes
read_at buf i n = take n (drop i buf)

pub length-write_at : (buf : Bytes) (i : ℕ) (bs : Bytes) → length (write_at buf i bs) ≡ length buf
unfolding write_at
length-write_at [] i bs = refl
length-write_at (x ∷ xs) zero [] = refl
length-write_at (x ∷ xs) zero (b ∷ bs) = ap suc (length-write_at xs zero bs)
length-write_at (x ∷ xs) (suc i) bs = ap suc (length-write_at xs i bs)

-- A byte inside the written range is the new one.
pub get_or-write_at_in :
    (buf : Bytes) (i : ℕ) (bs : Bytes) (j d : ℕ)
    → i ≤ j
    → j < i + length bs
    → j < length buf
    → get_or (write_at buf i bs) j d ≡ get_or bs (j - i) d
unfolding write_at
get_or-write_at_in [] i bs j d p q r = absurd (omega arith)
get_or-write_at_in (x ∷ xs) zero [] j d p q r = absurd (omega arith)
get_or-write_at_in (x ∷ xs) zero (b ∷ bs) zero d p q r = refl
get_or-write_at_in (x ∷ xs) zero (b ∷ bs) (suc j) d p q r =
    ground (arith, get_or-write_at_in xs zero bs j d (omega arith) (omega arith) (omega arith))
get_or-write_at_in (x ∷ xs) (suc i) bs zero d p q r = absurd (omega arith)
get_or-write_at_in (x ∷ xs) (suc i) bs (suc j) d p q r =
    ground (arith, get_or-write_at_in xs i bs j d (omega arith) (omega arith) (omega arith))

-- A byte below the written range is the old one.
pub get_or-write_at_below :
    (buf : Bytes) (i : ℕ) (bs : Bytes) (j d : ℕ)
    → j < i
    → get_or (write_at buf i bs) j d ≡ get_or buf j d
unfolding write_at
get_or-write_at_below [] i bs j d p = refl
get_or-write_at_below (x ∷ xs) zero bs j d p = absurd (omega arith)
get_or-write_at_below (x ∷ xs) (suc i) bs zero d p = refl
get_or-write_at_below (x ∷ xs) (suc i) bs (suc j) d p =
    get_or-write_at_below xs i bs j d (omega arith)

-- A byte above the written range is the old one.
pub get_or-write_at_above :
    (buf : Bytes) (i : ℕ) (bs : Bytes) (j d : ℕ)
    → i + length bs ≤ j
    → get_or (write_at buf i bs) j d ≡ get_or buf j d
unfolding write_at
get_or-write_at_above [] i bs j d p = refl
get_or-write_at_above (x ∷ xs) zero [] j d p = refl
get_or-write_at_above (x ∷ xs) zero (b ∷ bs) zero d p = absurd (omega arith)
get_or-write_at_above (x ∷ xs) zero (b ∷ bs) (suc j) d p =
    get_or-write_at_above xs zero bs j d (omega arith)
get_or-write_at_above (x ∷ xs) (suc i) bs zero d p = absurd (omega arith)
get_or-write_at_above (x ∷ xs) (suc i) bs (suc j) d p =
    get_or-write_at_above xs i bs j d (omega arith)

-- What was written is read back.
pub read_at-write_at :
    (buf : Bytes) (i : ℕ) (bs : Bytes)
    → i + length bs ≤ length buf
    → read_at (write_at buf i bs) i (length bs) ≡ bs
unfolding write_at
read_at-write_at [] i [] h = refl
read_at-write_at [] i (b ∷ bs) h = absurd (omega arith)
read_at-write_at (x ∷ xs) zero [] h = refl
read_at-write_at (x ∷ xs) zero (b ∷ bs) h =
    ap (λ l. b ∷ l) (read_at-write_at-zero xs bs (omega arith))
  where
    read_at-write_at-zero :
        (xs bs : Bytes) → length bs ≤ length xs → take (length bs) (write_at xs zero bs) ≡ bs
    read_at-write_at-zero [] [] h = refl
    read_at-write_at-zero [] (b ∷ bs) h = absurd (omega arith)
    read_at-write_at-zero (x ∷ xs) [] h = refl
    read_at-write_at-zero (x ∷ xs) (b ∷ bs) h =
        ap (λ l. b ∷ l) (read_at-write_at-zero xs bs (omega arith))
read_at-write_at (x ∷ xs) (suc i) bs h = read_at-write_at xs i bs (omega arith)

-- A word on a little-endian host, where `htoes` and `etohs` are the identity.
abbrev pub le16 : ℕ → Bytes
le16 w = (w % 256) ∷ (w / 256 % 256) ∷ []

abbrev pub get16 : Bytes → ℕ → ℕ
get16 buf i = get_or buf i 0 + 256 * get_or buf (i + 1) 0

-- The words of the headers are read back as they were written.
pub get16-write_at :
    (buf : Bytes) (i w : ℕ) → i + 2 ≤ length buf → w < 65536 → get16 (write_at buf i (le16 w)) i ≡ w
get16-write_at buf i w h k =
    ground
      (arith, get_or-write_at_in buf i (le16 w) i 0, get_or-write_at_in buf i (le16 w) (i + 1) 0)

-- Pieces put together.
abbrev pub concat : List Bytes → Bytes
concat [] = []
concat (d ∷ ds) = d ++ concat ds

-- Nothing is written.
pub write_at-nil : (buf : Bytes) (i : ℕ) → write_at buf i [] ≡ buf
unfolding write_at
write_at-nil [] i = refl
write_at-nil (x ∷ xs) zero = refl
write_at-nil (x ∷ xs) (suc i) = ap (λ l. x ∷ l) (write_at-nil xs i)

-- Two writes, the second one behind the first, are one.
pub write_at-append :
    (buf : Bytes) (i : ℕ) (ds es : Bytes)
    → write_at (write_at buf i ds) (i + length ds) es ≡ write_at buf i (ds ++ es)
unfolding write_at
write_at-append [] i ds es = refl
write_at-append (x ∷ xs) zero [] es = refl
write_at-append (x ∷ xs) zero (d ∷ ds) es =
    let e : 0 + suc (length ds) ≡ suc (0 + length ds) = omega arith in
    rw e (ap (λ l. d ∷ l) (write_at-append xs zero ds es))
write_at-append (x ∷ xs) (suc i) ds es =
    let e : suc i + length ds ≡ suc (i + length ds) = omega arith in
    rw e (ap (λ l. x ∷ l) (write_at-append xs i ds es))

-- A write at the start keeps what is behind it.
pub write_at-zero :
    (buf bs : Bytes) → length bs ≤ length buf → write_at buf zero bs ≡ bs ++ drop (length bs) buf
unfolding write_at
write_at-zero [] [] h = refl
write_at-zero [] (b ∷ bs) h = absurd (omega arith)
write_at-zero (x ∷ xs) [] h = refl
write_at-zero (x ∷ xs) (b ∷ bs) h = ap (λ l. b ∷ l) (write_at-zero xs bs (omega arith))

-- Double words.
abbrev pub le32 : ℕ → Bytes
le32 w = (w % 256) ∷ (w / 256 % 256) ∷ (w / 65536 % 256) ∷ (w / 16777216 % 256) ∷ []

abbrev pub get32 : Bytes → ℕ → ℕ
get32 buf i = get16 buf i + 65536 * get16 buf (i + 2)
