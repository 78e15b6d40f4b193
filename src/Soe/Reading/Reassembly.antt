-- ===== src/Soe/Reading/Reassembly.antt =====
-- What `ecx_SoEread` makes of the fragments of a slave.
use e_rob_soem_linux.Base.{
  ℕ, zero, suc, ◌+◌, ◌-◌, ◌≤◌, ◌<◌, ◌≡◌, refl, sym, ap, ap₂, ◌∙◌, arith, Bool, true, false,
  Bool-cases, inl, inr, List, [], ◌∷◌, ◌++◌, some, append-nil, append_assoc, leb, min, Bytes, get16,
  concat, length, length-append, length-take, take, drop, write_at, write_at-append, write_at-nil,
}
use e_rob_soem_linux.Base.Int.{ℤ, is_positive}
use e_rob_soem_linux.Task.{◌>>=◌}
use e_rob_soem_linux.Mailbox.Channel.{Channel, ec_timeouttxm, clear_mbx}
use e_rob_soem_linux.Soe.{is_answer, incomplete}
use e_rob_soem_linux.Soe.Reading.{
  SoeRead, read_request, copy_fragment, read_answer, read_answers, soe_read,
}

module _ {A : Type 0} where
  take_nothing : (n : ℕ) → take {A = A} n [] ≡ []
  take_nothing zero = refl
  take_nothing (suc n) = refl

  -- The first elements of two lists.
  take_two : (n : ℕ) (xs ys : List A) → take n (xs ++ ys) ≡ take n xs ++ take (n - length xs) ys
  take_two n [] ys = ap₂ (λ l k. l ++ take k ys) (sym (take_nothing n)) (omega arith)
  take_two zero (x ∷ xs) ys = let e : 0 ≡ 0 - suc (length xs) = omega arith in ap (λ k. take k ys) e
  take_two (suc n) (x ∷ xs) ys =
      let e : n - length xs ≡ suc n - suc (length xs) = omega arith in
      ap (λ l. x ∷ l) (take_two n xs ys ∙ ap (λ k. take n xs ++ take k ys) e)

  take_within : (n : ℕ) (xs ys : List A) → n ≤ length xs → take n (xs ++ ys) ≡ take n xs
  take_within zero xs ys le = refl
  take_within (suc n) [] ys le = absurd (omega arith)
  take_within (suc n) (x ∷ xs) ys le = ap (λ l. x ∷ l) (take_within n xs ys (omega arith))

  take_whole : (n : ℕ) (xs : List A) → length xs ≤ n → take n xs ≡ xs
  take_whole n [] le = take_nothing n
  take_whole zero (x ∷ xs) le = absurd (omega arith)
  take_whole (suc n) (x ∷ xs) le = ap (λ l. x ∷ l) (take_whole n xs (omega arith))

-- A mailbox that answers with the data `d`.
pub record Fragment (drive flags : ℕ) (goes_on : Bool) (d mbx : Bytes) : Type 0 where
  pub answer : is_answer 2 drive flags mbx ≡ true
  pub goes_on_lem : incomplete mbx ≡ goes_on
  pub size_lem : get16 mbx 0 ≡ 4 + length d
  pub rest : Bytes
  pub data_lem : drop 10 mbx ≡ d ++ rest

-- The buffer `p₀` of `size` bytes holds what fits of `done`.
record Got (size : ℕ) (p₀ done : Bytes) (v : SoeRead) : Type 0 where
  total : v.totalsize ≡ min size (length done)
  pointer : length done ≤ size → v.bp ≡ length done
  bytes : v.p ≡ write_at p₀ 0 (take size done)

-- The bytes of a fragment that are copied.
copied :
    (size : ℕ) (wkc : ℤ) (d rest mbx : Bytes) (v : SoeRead)
    → v.totalsize ≤ size
    → get16 mbx 0 ≡ 4 + length d
    → drop 10 mbx ≡ d ++ rest
    → ((copy_fragment size wkc mbx v).totalsize ≡ min size (v.totalsize + length d))
      × ((copy_fragment size wkc mbx v).p ≡ write_at v.p v.bp (take (size - v.totalsize) d))
      × (v.totalsize + length d ≤ size → (copy_fragment size wkc mbx v).bp ≡ v.bp + length d)
unfolding copy_fragment
copied size wkc d rest mbx v below size_lem data_lem =
    let sized : get16 mbx 0 - 4 ≡ length d = omega (arith, size_lem) in
    elim (Bool-cases (leb (v.totalsize + length d) size)) [
      | inl fits ↦
          let within : v.totalsize + length d ≤ size = ground arith in
          (
            rw (sized, fits, copy_fragment) (omega arith),
            rw (sized, fits, data_lem, copy_fragment)
                (ap (write_at v.p v.bp) (
                  take_within (length d) d rest (omega arith)
                  ∙ take_whole (length d) d (omega arith)
                  ∙ sym (take_whole (size - v.totalsize) d (omega arith)))),
            λ le. rw (sized, fits, copy_fragment) refl,
          )
      | inr large ↦
          let beyond : size < v.totalsize + length d = ground arith in
          let part : length d - (v.totalsize + length d - size) ≡ size - v.totalsize =
            omega arith in
          (
            rw (sized, large, copy_fragment) (omega arith),
            rw (sized, large, part, data_lem, copy_fragment)
                (ap (write_at v.p v.bp) (take_within (size - v.totalsize) d rest (omega arith))),
            λ le. absurd (omega arith),
          )
    ]

copy_fragment-Got :
    (size : ℕ) (p₀ done d rest mbx : Bytes) (wkc : ℤ) (v : SoeRead)
    → Got size p₀ done v
    → get16 mbx 0 ≡ 4 + length d
    → drop 10 mbx ≡ d ++ rest
    → Got size p₀ (done ++ d) (copy_fragment size wkc mbx v)
copy_fragment-Got size p₀ done d rest mbx wkc v got size_lem data_lem =
    let (total, bytes, pointer) =
      copied size wkc d rest mbx v (omega (arith, got.total)) size_lem data_lem in
    let both = length-append done d in
    record {
      total = omega (arith, got.total, total, both);
      pointer =
          λ le. pointer (omega (arith, got.total)) ∙ omega (arith, got.pointer (omega arith), both);
      bytes = bytes ∙ elim (Bool-cases (leb (length done) size)) [
        | inl fits ↦
            let within : length done ≤ size = ground arith in
            let cut : length (take size done) ≡ length done =
              omega (arith, length-take size done) in
            let at : v.bp ≡ 0 + length (take size done) = omega (arith, got.pointer within) in
            let room : size - v.totalsize ≡ size - length done = omega (arith, got.total) in
            ap₂ (λ q k. write_at q v.bp (take k d)) got.bytes room
            ∙ ap (λ i. write_at (write_at p₀ 0 (take size done)) i (take (size - length done) d)) at
            ∙ write_at-append p₀ 0 (take size done) (take (size - length done) d)
            ∙ ap (write_at p₀ 0) (sym (take_two size done d))
        | inr large ↦
            let beyond : size < length done = ground arith in
            let room : size - v.totalsize ≡ 0 = omega (arith, got.total) in
            ap (λ k. write_at v.p v.bp (take k d)) room
            ∙ write_at-nil v.p v.bp
            ∙ got.bytes
            ∙ ap (write_at p₀ 0) (sym (take_within size done d (omega arith)))
      ];
    }

module _ {S : Type 0} (ch : Channel S) (drive flags idn timeout : ℕ) where
  -- The slave sends the fragments `ds`, all of them incomplete but the last one.
  pub data Fragments : S → List Bytes → S → Type 0 where
    last :
        {s t : S} (d mbx : Bytes) (wkc : ℤ)
        → Fragment drive flags false d mbx
        → ch.receive clear_mbx timeout s ≡ some ((wkc, mbx), t)
        → is_positive wkc ≡ true
        → Fragments s (d ∷ []) t
    more :
        {s t u : S} {ds : List Bytes} (d mbx : Bytes) (wkc : ℤ)
        → Fragment drive flags true d mbx
        → ch.receive clear_mbx timeout s ≡ some ((wkc, mbx), t)
        → is_positive wkc ≡ true
        → Fragments t ds u
        → Fragments s (d ∷ ds) u

  taken :
      (fuel size : ℕ) (d mbx : Bytes) (wkc : ℤ) (v : SoeRead) (s t : S)
      → Fragment drive flags true d mbx
      → ch.receive clear_mbx timeout s ≡ some ((wkc, mbx), t)
      → is_positive wkc ≡ true
      → read_answers ch drive flags idn timeout (suc fuel) size v s
        ≡ read_answers ch drive flags idn timeout fuel size (copy_fragment size wkc mbx v) t
  unfolding read_answers read_answer ◌>>=◌
  taken fuel size d mbx wkc v s t f e positive =
      rw (e, positive, f.answer, f.goes_on_lem, read_answers, read_answer, ◌>>=◌) refl

  ended :
      (fuel size : ℕ) (d mbx : Bytes) (wkc : ℤ) (v : SoeRead) (s t : S)
      → Fragment drive flags false d mbx
      → ch.receive clear_mbx timeout s ≡ some ((wkc, mbx), t)
      → is_positive wkc ≡ true
      → let v' : SoeRead = copy_fragment size wkc mbx v in
        read_answers ch drive flags idn timeout (suc fuel) size v s
        ≡ some (record v' { psize = v'.totalsize }, t)
  unfolding read_answers read_answer ◌>>=◌
  ended fuel size d mbx wkc v s t f e positive =
      rw (e, positive, f.answer, f.goes_on_lem, read_answers, read_answer, ◌>>=◌) refl

  read_answers-Fragments :
      (fuel size : ℕ) (p₀ done : Bytes) (v : SoeRead) (s t : S) (ds : List Bytes)
      → Fragments s ds t
      → length ds ≤ fuel
      → Got size p₀ done v
      → (r : SoeRead) × (read_answers ch drive flags idn timeout fuel size v s ≡ some (r, t))
        × (r.p ≡ write_at p₀ 0 (take size (done ++ concat ds)))
        × (r.psize ≡ min size (length (done ++ concat ds)))
  read_answers-Fragments fuel size p₀ done v s t [] fs enough got = elim fs [ ]
  read_answers-Fragments zero size p₀ done v s t (d ∷ ds) fs enough got = absurd (omega arith)
  read_answers-Fragments (suc fuel) size p₀ done v s t (_ ∷ []) (last d mbx wkc f e positive) enough
        got =
      let g = copy_fragment-Got size p₀ done d f.rest mbx wkc v got f.size_lem f.data_lem in
      let same = ap (λ l. done ++ l) (sym (append-nil d)) in
      (
        _,
        ended fuel size d mbx wkc v s t f e positive,
        g.bytes ∙ ap (λ l. write_at p₀ 0 (take size l)) same,
        g.total ∙ ap (λ l. min size (length l)) same,
      )
  read_answers-Fragments (suc fuel) size p₀ done v s t (_ ∷ ds)
        (more {t = u} d mbx wkc f e positive fs) enough got =
      let g = copy_fragment-Got size p₀ done d f.rest mbx wkc v got f.size_lem f.data_lem in
      let (r, go, bytes, total) =
        read_answers-Fragments fuel size p₀ (done ++ d) (copy_fragment size wkc mbx v) u t ds fs
          (omega arith) g in
      let same = append_assoc done d (concat ds) in
      (
        r,
        taken fuel size d mbx wkc v s u f e positive ∙ go,
        bytes ∙ ap (λ l. write_at p₀ 0 (take size l)) same,
        total ∙ ap (λ l. min size (length l)) same,
      )

-- `ecx_SoEread` puts the fragments of a slave that follows the protocol together: the buffer starts with
-- as much of them as fits, in order, and nothing behind that changes, and the size that it gives is the
-- smaller one of the buffer's and the fragments' together. The slave takes the request and sends these
-- fragments, and a round for each of them is enough.
pub soe_read-Fragments :
    {S : Type 0} (ch : Channel S) (drive flags idn timeout fuel psize cnt : ℕ) (p : Bytes)
    (s o c t u : S) (old : ℤ × Bytes) (wkc : ℤ) (ds : List Bytes)
    → ch.receive clear_mbx 0 s ≡ some (old, o)
    → ch.count o ≡ some (cnt, c)
    → ch.send (read_request drive flags idn cnt) ec_timeouttxm c ≡ some (wkc, t)
    → is_positive wkc ≡ true
    → Fragments ch drive flags idn timeout t ds u
    → length ds ≤ fuel
    → (r : SoeRead) × (soe_read ch drive flags idn timeout fuel psize p s ≡ some (r, u))
      × (r.p ≡ write_at p 0 (take psize (concat ds)))
      × (r.psize ≡ min psize (length (concat ds)))
unfolding soe_read ◌>>=◌
soe_read-Fragments ch drive flags idn timeout fuel psize cnt p s o c t u old wkc ds emptied counted
      sent positive fs enough =
    let v : SoeRead = record { wkc = wkc; psize = psize; totalsize = 0; bp = 0; p = p } in
    let got : Got psize p [] v = record {
      total = omega arith;
      pointer = λ le. refl;
      bytes = sym (ap (write_at p 0) (take_nothing psize) ∙ write_at-nil p 0);
    } in
    let (r, e, bytes, total) =
      read_answers-Fragments ch drive flags idn timeout fuel psize p [] v t u ds fs enough got in
    let opens : soe_read ch drive flags idn timeout fuel psize p s
        ≡ read_answers ch drive flags idn timeout fuel psize v t =
      rw (emptied, counted, sent, positive, soe_read, ◌>>=◌) refl in
    (r, opens ∙ e, bytes, total)
