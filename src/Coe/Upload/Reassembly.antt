-- ===== src/Coe/Upload/Reassembly.antt =====
-- What `ecx_SDOread` makes of the answers of a slave that follows the protocol.
use e_rob_soem_linux.Base.{
  ℕ, zero, suc, ◌+◌, ◌-◌, ◌*◌, ◌/◌, ◌%◌, ◌^◌, ◌≤◌, ◌<◌, ◌≡◌, refl, ap, ap₂, ◌∙◌, arith, bit_xor,
  Bool, true, false, List, [], ◌∷◌, ◌++◌, some, if◌then◌else◌, ltb, leb, ◌==◌, Bool-cases, inl, inr,
  Bytes, get16, ◌&&◌, concat, length, length-append, drop, take-append, write_at, read_at,
  write_at-append, append-nil,
}
use e_rob_soem_linux.Base.Int.{ℤ, is_positive}
use e_rob_soem_linux.Task.{◌>>=◌}
use e_rob_soem_linux.Mailbox.Channel.{Channel, Exchange, clear_mbx}
use e_rob_soem_linux.Coe.{mbx_length, command, ldata, is_response}
use e_rob_soem_linux.Coe.Upload.{
  SdoRead, Segments, upload_segment_request, upload_request, is_segment, is_last_segment,
  segment_size, take_segment, read_segment, read_segments, read_normal, read_response, sdo_read,
}

-- An SDO response in a mailbox: its length, the counter, the command and what follows that.
abbrev pub reply : ℕ → ℕ → ℕ → Bytes → Bytes
reply len cnt cmd bs =
    (len % 256) ∷ (len / 256 % 256) ∷ 0 ∷ 0 ∷ 0 ∷ (3 + cnt * 16) ∷ 0 ∷ 0x30 ∷ cmd ∷ bs

-- A segment with the data `d`, in a mailbox that has `rest` behind it.
abbrev pub middle_segment : ℕ → ℕ → Bytes → Bytes → Bytes
middle_segment toggle cnt d rest = reply (length d + 3) cnt (16 * toggle) (d ++ rest)

-- The last segment has at least seven bytes; of less data it counts the unused bytes.
abbrev pub last_segment : ℕ → ℕ → Bytes → Bytes → Bytes
last_segment toggle cnt d rest =
    if ltb (length d) 7
    then reply 10 cnt (16 * toggle + 2 * (7 - length d) + 1) (d ++ rest)
    else reply (length d + 3) cnt (16 * toggle + 1) (d ++ rest)

segment_data :
    (d rest : Bytes) (mbx : Bytes) (n : ℕ)
    → n ≡ length d
    → drop 9 mbx ≡ d ++ rest
    → read_at mbx 9 n ≡ d
segment_data d rest mbx n size data_lem = rw (size, data_lem) (take-append d rest)

-- How a segment with the data `d` is read.
record Carries (d rest mbx : Bytes) (last : Bool) : Type 0 where
  segment : is_segment mbx ≡ true
  ends : is_last_segment mbx ≡ last
  size : segment_size mbx ≡ length d
  bytes : drop 9 mbx ≡ d ++ rest

module _ (toggle cnt : ℕ) (d rest : Bytes) (fits : length d < 65533) (t : toggle < 2) where
  middle-Carries : Carries d rest (middle_segment toggle cnt d rest) false
  middle-Carries = record {
    segment = ground arith;
    ends = ground arith;
    size = ground arith;
    bytes = refl;
  }

  last-Carries : Carries d rest (last_segment toggle cnt d rest) true
  last-Carries = elim (Bool-cases (ltb (length d) 7)) [
    | inl short ↦
        rw short
          record { segment = ground arith; ends = ground arith; size = ground arith; bytes = refl }
    | inr long ↦
        rw long
          record { segment = ground arith; ends = ground arith; size = ground arith; bytes = refl }
  ]

module _ {S : Type 0} (ch : Channel S) (index subindex timeout : ℕ) where
  -- The slave answers to segment requests, the first one with `toggle`, with the segments `ds`.
  pub data Uploads : ℕ → S → List Bytes → S → Type 0 where
    last :
        {s t : S} (toggle bit cnt : ℕ) (d rest : Bytes)
        → length d < 65533
        → bit < 2
        → Exchange ch timeout
            (upload_segment_request toggle index subindex)
            s
            (last_segment bit cnt d rest)
            t
        → Uploads toggle s (d ∷ []) t
    more :
        {s t u : S} {ds : List Bytes} (toggle bit cnt : ℕ) (d rest : Bytes)
        → length d < 65533
        → bit < 2
        → Exchange ch timeout
            (upload_segment_request toggle index subindex)
            s
            (middle_segment bit cnt d rest)
            t
        → Uploads (bit_xor toggle 0x10) t ds u
        → Uploads toggle s (d ∷ ds) u

  -- A segment adds its data.
  read_segment_lem :
      (r : SdoRead) (hp toggle : ℕ) (s t : S) (d rest mbx : Bytes) (over : Bool)
      → Exchange ch timeout (upload_segment_request toggle index subindex) s mbx t
      → Carries d rest mbx over
      → (r' : SdoRead) × (hp' : ℕ) × (read_segment ch index subindex timeout
            (record { out = r; hp = hp; toggle = toggle })
            s
          ≡ some ((over, record { out = r'; hp = hp'; toggle = bit_xor toggle 0x10 }), t))
        × (r'.p ≡ write_at r.p hp d)
        × (r'.psize ≡ (r.psize + length d) % 2 ^ 32)
        × (is_positive r'.wkc ≡ true)
        × (hp' ≡ (if over then hp else hp + length d))
  unfolding read_segment take_segment ◌>>=◌
  read_segment_lem r hp toggle s t d rest mbx over x c =
      let s' : Segments = record {
        out = record r { wkc = x.wkc' };
        hp = hp;
        toggle = bit_xor toggle 0x10;
      } in
      let taken = (take_segment mbx s').1 in
      let data_lem = segment_data d rest mbx (segment_size mbx) c.size c.bytes in
      (
        taken.out,
        taken.hp,
        rw
            (
              x.count_lem, x.send_lem, x.send_positive, x.receive_lem, x.receive_positive,
              c.segment, c.ends, read_segment, ◌>>=◌,
            )
            refl,
        ap (write_at r.p hp) data_lem,
        ap (λ n. (r.psize + n) % 2 ^ 32) c.size,
        x.receive_positive,
        ap (λ (b : Bool). if b then hp else hp + segment_size mbx) c.ends
            ∙ ap (λ n. if over then hp else hp + n) c.size,
      )

  -- The segments are put together in order.
  read_segments-Uploads :
      (fuel : ℕ) (r : SdoRead) (hp toggle : ℕ) (s t : S) (ds : List Bytes)
      → Uploads toggle s ds t
      → length ds ≤ fuel
      → r.psize + length (concat ds) < 2 ^ 32
      → (r' : SdoRead) × (read_segments ch index subindex timeout fuel
            (record { out = r; hp = hp; toggle = toggle })
            s
          ≡ some (r', t))
        × (r'.p ≡ write_at r.p hp (concat ds))
        × (r'.psize ≡ r.psize + length (concat ds))
        × (is_positive r'.wkc ≡ true)
  unfolding read_segments
  read_segments-Uploads fuel r hp toggle s t [] up enough small = elim up [ ]
  read_segments-Uploads zero r hp toggle s t (_ ∷ []) (last _ bit cnt d rest fits b x) enough
        small =
      absurd (omega arith)
  read_segments-Uploads zero r hp toggle s t (_ ∷ ds) (more _ bit cnt d rest fits b x up) enough
        small =
      absurd (omega arith)
  read_segments-Uploads (suc fuel) r hp toggle s t (_ ∷ []) (last _ bit cnt d rest fits b x) enough
        small =
      let mbx = last_segment bit cnt d rest in
      let (r', hp', e, bytes, size, positive, at) =
        read_segment_lem r hp toggle s t d rest mbx true x (last-Carries bit cnt d rest fits b) in
      (
        r',
        rw (e, read_segments) refl,
        rw (append-nil d) bytes,
        omega (arith, size, length-append d []),
        positive,
      )
  read_segments-Uploads (suc fuel) r hp toggle s t (_ ∷ ds)
        (more {t = u} _ bit cnt d rest fits b x up) enough small =
      let mbx = middle_segment bit cnt d rest in
      let (r', hp', e, bytes, size, positive, at) =
        read_segment_lem r hp toggle s u d rest mbx false x
          (middle-Carries bit cnt d rest fits b) in
      let n : length (d ++ concat ds) ≡ length d + length (concat ds) =
        length-append d (concat ds) in
      let (r'', e', bytes', size', positive') =
        read_segments-Uploads fuel r' hp' (bit_xor toggle 0x10) u t ds up (omega arith)
          (omega (arith, n, size)) in
      (
        r'',
        rw (e, read_segments) e',
        bytes'
            ∙ ap₂ (λ m i. write_at m i (concat ds)) bytes at
            ∙ write_at-append r.p hp d (concat ds),
        omega (arith, size', size, n),
        positive',
      )

-- The answer to an upload request: the object has `total` bytes, of which `d` are the first.
abbrev pub upload_response : ℕ → ℕ → ℕ → ℕ → Bytes → Bytes → Bytes
upload_response cnt index subindex total d rest = reply (length d + 10) cnt 0x41 (
    index % 256
    ∷ (index / 256 % 256)
    ∷ subindex
    ∷ (total % 256)
    ∷ (total / 256 % 256)
    ∷ (total / 65536 % 256)
    ∷ (total / 16777216 % 256)
    ∷ (d ++ rest))

module _ {S : Type 0} (ch : Channel S) (index subindex timeout : ℕ) (cnt total : ℕ) (d rest : Bytes)
    (total_small : total < 2 ^ 31) (fits : length d < 65526) (index_small : index < 65536) where
  upload_response-reads :
      let mbx = upload_response cnt index subindex total d rest in
      (is_response mbx && get16 mbx 9 == index ≡ true)
      × (command mbx / 2 % 2 == 1 ≡ false)
      × (ldata mbx ≡ total)
      × ((mbx_length mbx + 65536 - 10) % 65536 ≡ length d)
  upload_response-reads = (ground arith, ground arith, omega arith, omega arith)

  -- The first part is copied, and the segments follow.
  read_normal_opens :
      (fuel : ℕ) (r : SdoRead) (t : S)
      → total ≤ r.psize
      → length d < total
      → let first : SdoRead = record r { psize = length d; p = write_at r.p 0 d } in
        read_normal ch index subindex timeout fuel
          (upload_response cnt index subindex total d rest)
          r
          t
        ≡ read_segments ch index subindex timeout fuel
            (record { out = first; hp = length d; toggle = 0 })
            t
  unfolding read_normal
  read_normal_opens fuel r t room first_part =
      let (response, normal, sdolen, frame) = upload_response-reads in
      let signed : leb (2 ^ 31) total ≡ false = ground arith in
      let fit : leb total r.psize ≡ true = ground arith in
      let segmented : ltb (length d) total ≡ true = ground arith in
      let copied = take-append d rest in rw (sdolen, frame, signed, fit, segmented, copied) refl

  read_normal-segments :
      (fuel : ℕ) (r : SdoRead) (t u : S) (ds : List Bytes)
      → Uploads ch index subindex timeout 0 t ds u
      → length ds ≤ fuel
      → total ≤ r.psize
      → length d < total
      → length d + length (concat ds) ≡ total
      → is_positive r.wkc ≡ true
      → (r' : SdoRead) × (read_normal ch index subindex timeout fuel
            (upload_response cnt index subindex total d rest)
            r
            t
          ≡ some (r', u))
        × (r'.p ≡ write_at r.p 0 (d ++ concat ds))
        × (r'.psize ≡ total)
        × (is_positive r'.wkc ≡ true)
  read_normal-segments fuel r t u ds up enough room first_part whole positive =
      let first : SdoRead = record r { psize = length d; p = write_at r.p 0 d } in
      let (r', e, bytes, size, positive') =
        read_segments-Uploads ch index subindex timeout fuel first (length d) 0 t u ds up enough
          (omega (arith, whole)) in
      (
        r',
        read_normal_opens fuel r t room first_part ∙ e,
        bytes
            ∙ ap (λ i. write_at (write_at r.p 0 d) i (concat ds)) (omega arith)
            ∙ write_at-append r.p 0 d (concat ds),
        omega (arith, size, whole),
        positive',
      )

  -- `ecx_SDOread` of an object that the slave sends in segments: with a buffer that is large enough it
  -- returns a positive working counter, the object's size, and the object, its first part and the
  -- segments in order, at the start of the buffer. The slave answers each request as the protocol
  -- has it, and announces the size that its parts add up to; a round for each segment is enough.
  pub sdo_read-Uploads :
      (fuel : ℕ) (sub : ℕ) (ca : Bool) (psize : ℕ) (p : Bytes) (s o t u : S) (old : ℤ × Bytes)
      (ds : List Bytes)
      → (if ca && ltb 1 sub then 1 else sub) ≡ subindex
      → ch.receive clear_mbx 0 s ≡ some (old, o)
      → Exchange ch timeout
          (upload_request ca index subindex)
          o
          (upload_response cnt index subindex total d rest)
          t
      → Uploads ch index subindex timeout 0 t ds u
      → length ds ≤ fuel
      → total ≤ psize
      → length d < total
      → length d + length (concat ds) ≡ total
      → (r : SdoRead) × (sdo_read ch fuel index sub ca psize p timeout s ≡ some (r, u))
        × (r.p ≡ write_at p 0 (d ++ concat ds))
        × (r.psize ≡ total)
        × (is_positive r.wkc ≡ true)
  unfolding sdo_read read_response ◌>>=◌
  sdo_read-Uploads fuel sub ca psize p s o t u old ds same emptied x up enough room first_part
        whole =
      let r₀ : SdoRead = record { wkc = x.wkc'; psize = psize; p = p } in
      let (response, normal, sdolen, frame) = upload_response-reads in
      let (r, e, bytes, size, positive) =
        read_normal-segments fuel r₀ t u ds up enough room first_part whole x.receive_positive in
      let opens : sdo_read ch fuel index sub ca psize p timeout s
          ≡ read_normal ch index subindex timeout fuel
              (upload_response cnt index subindex total d rest) r₀ t =
        rw
          (
            emptied, x.count_lem, same, x.send_lem, x.send_positive, x.receive_lem,
            x.receive_positive, response, same, sdo_read, ◌>>=◌,
          )
          refl in
      (r, opens ∙ e, bytes, size, positive)
