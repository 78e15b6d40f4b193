-- ===== src/Datagram/Layout.antt =====
-- What the stores of ecx_setupdatagram and ecx_adddatagram leave in a frame.
use e_rob_soem_linux.Base.{
  ℕ, ◌+◌, ◌*◌, ◌≤◌, ◌<◌, ◌≡◌, refl, subst, ap, ap₂, ◌∙◌, arith, Bool, true, false, if◌then◌else◌,
  [], ◌∷◌, ◌++◌, Bytes, write_at, le16, get16, get_or, length, length-take, length-replicate,
  length-write_at, get_or-write_at_in, get_or-write_at_below, get_or-write_at_above, get16-write_at,
}
use e_rob_soem_linux.Datagram.{
  Cmd, nop, cmd_code, Request, datagram_data, setup_frame, add_frame, with_follows, put_datagram,
  aprd, fprd, brd, lrd,
}

-- A request whose fields have their C widths and whose payload has the stated size.
pub record IsWellFormed (r : Request) : Type 0 where
  pub adp_word : r.adp < 65536
  pub ado_word : r.ado < 65536
  pub payload_size : length r.payload ≡ r.size

pub length-datagram_data :
    (c : Cmd) (n : ℕ) (d : Bytes) → length d ≡ n → length (datagram_data c n d) ≡ n
unfolding datagram_data
length-datagram_data nop n d h = length-replicate n 0
length-datagram_data aprd n d h = length-replicate n 0
length-datagram_data fprd n d h = length-replicate n 0
length-datagram_data brd n d h = length-replicate n 0
length-datagram_data lrd n d h = length-replicate n 0
length-datagram_data _ n d h = omega (arith, length-take n d)

-- One datagram as it stands in a frame, its header's first byte (the command) at offset `at`.
pub record Holds (frame : Bytes) (at : ℕ) (idx : ℕ) (dlength : ℕ) (r : Request) : Type 0 where
  pub command : get_or frame at 0 ≡ cmd_code r.command
  pub index : get_or frame (at + 1) 0 ≡ idx
  pub adp : get16 frame (at + 2) ≡ r.adp
  pub ado : get16 frame (at + 4) ≡ r.ado
  pub dlen : get16 frame (at + 6) ≡ dlength
  pub payload :
      (j : ℕ)
      → j < r.size
      → get_or frame (at + 10 + j) 0 ≡ get_or (datagram_data r.command r.size r.payload) j 0
  pub wkc : get16 frame (at + 10 + r.size) ≡ 0

module _ (at idx dlength : ℕ) (r : Request) (frame : Bytes) (wf : IsWellFormed r) where
  abbrev head : Bytes
  head = cmd_code r.command ∷ idx ∷ (le16 r.adp ++ le16 r.ado ++ le16 dlength)

  abbrev body : Bytes
  body = datagram_data r.command r.size r.payload

  abbrev with_head : Bytes
  with_head = write_at frame at head

  abbrev with_body : Bytes
  with_body = write_at with_head (at + 10) body

  length-body : length body ≡ r.size
  length-body = length-datagram_data r.command r.size r.payload wf.payload_size

  -- A byte before the datagram is the old one.
  put_below : (j : ℕ) → j < at → get_or (put_datagram at idx dlength r frame) j 0 ≡ get_or frame j 0
  unfolding put_datagram
  put_below j h =
      get_or-write_at_below with_body (at + 10 + r.size) (0 ∷ 0 ∷ []) j 0 (omega arith)
      ∙ get_or-write_at_below with_head (at + 10) body j 0 (omega arith)
      ∙ get_or-write_at_below frame at head j 0 h

  -- A byte behind the datagram is the old one.
  put_above :
      (j : ℕ)
      → at + 12 + r.size ≤ j
      → get_or (put_datagram at idx dlength r frame) j 0 ≡ get_or frame j 0
  unfolding put_datagram
  put_above j h =
      get_or-write_at_above with_body (at + 10 + r.size) (0 ∷ 0 ∷ []) j 0 (omega arith)
      ∙ get_or-write_at_above with_head (at + 10) body j 0 (omega (arith, length-body))
      ∙ get_or-write_at_above frame at head j 0 (omega arith)

  length-put : length (put_datagram at idx dlength r frame) ≡ length frame
  unfolding put_datagram
  length-put =
      length-write_at with_body (at + 10 + r.size) (0 ∷ 0 ∷ [])
      ∙ length-write_at with_head (at + 10) body
      ∙ length-write_at frame at head

  module _ (fits : at + 12 + r.size ≤ length frame) where
    -- A byte of the stored header is not touched by the later stores.
    put_header :
        (j : ℕ) → j < 8 → get_or (put_datagram at idx dlength r frame) (at + j) 0 ≡ get_or head j 0
    unfolding put_datagram
    put_header j h =
        get_or-write_at_below with_body (at + 10 + r.size) (0 ∷ 0 ∷ []) (at + j) 0 (omega arith)
        ∙ get_or-write_at_below with_head (at + 10) body (at + j) 0 (omega arith)
        ∙ get_or-write_at_in frame at head (at + j) 0 (omega arith) (omega arith) (omega arith)
        ∙ ap (λ k. get_or head k 0) (omega arith)

    put_data :
        (j : ℕ)
        → j < r.size
        → get_or (put_datagram at idx dlength r frame) (at + 10 + j) 0 ≡ get_or body j 0
    unfolding put_datagram
    put_data j h =
        get_or-write_at_below with_body (at + 10 + r.size) (0 ∷ 0 ∷ []) (at + 10 + j) 0
          (omega arith)
        ∙ get_or-write_at_in with_head (at + 10) body (at + 10 + j) 0 (omega arith)
            (omega (arith, length-body)) (omega (arith, length-write_at frame at head))
        ∙ ap (λ k. get_or body k 0) (omega arith)

    put_wkc :
        (j : ℕ)
        → j < 2
        → get_or (put_datagram at idx dlength r frame) (at + 10 + r.size + j) 0
          ≡ get_or (0 ∷ 0 ∷ []) j 0
    unfolding put_datagram
    put_wkc j h =
        get_or-write_at_in with_body (at + 10 + r.size) (0 ∷ 0 ∷ []) (at + 10 + r.size + j) 0
          (omega arith) (omega arith)
          (omega (arith, length-write_at frame at head, length-write_at with_head (at + 10) body))
        ∙ ap (λ k. get_or (0 ∷ 0 ∷ []) k 0) (omega arith)

    put_datagram-Holds :
        dlength < 65536 → Holds (put_datagram at idx dlength r frame) at idx dlength r
    put_datagram-Holds dl = record {
      command = ground (arith, put_header 0 (omega arith));
      index = put_header 1 (omega arith);
      adp = ground (arith, wf, put_header 2 (omega arith), put_header 3 (omega arith));
      ado = ground (arith, wf, put_header 4 (omega arith), put_header 5 (omega arith));
      dlen = ground (arith, dl, put_header 6 (omega arith), put_header 7 (omega arith));
      payload = put_data;
      wkc = ground (arith, put_wkc 0 (omega arith), put_wkc 1 (omega arith));
    }

pub setup_frame-Holds :
    (idx : ℕ) (r : Request) (frame : Bytes)
    → IsWellFormed r
    → r.size ≤ 1490
    → 28 + r.size ≤ length frame
    → Holds (setup_frame idx r frame) 16 idx r.size r
      × (get16 (setup_frame idx r frame) 14 ≡ 0x1000 + 12 + r.size)
      × ((j : ℕ) → j < 14 → get_or (setup_frame idx r frame) j 0 ≡ get_or frame j 0)
unfolding setup_frame
setup_frame-Holds idx r frame wf small fits =
    let e = le16 (0x1000 + 12 + r.size) in
    let f = write_at frame 14 e in
    let len = length-write_at frame 14 e in
    (
      put_datagram-Holds 16 idx r.size r f wf (omega (arith, len)) (omega arith),
      ap₂ (λ a b. a + 256 * b) (put_below 16 idx r.size r f wf 14 (omega arith))
            (put_below 16 idx r.size r f wf 15 (omega arith))
          ∙ get16-write_at frame 14 (0x1000 + 12 + r.size) (omega arith) (omega arith),
      λ j h.
          put_below 16 idx r.size r f wf j (omega arith) ∙ get_or-write_at_below frame 14 e j 0 h,
    )

-- Both keep the length of the buffer.
pub length-setup_frame :
    (idx : ℕ) (r : Request) (frame : Bytes)
    → IsWellFormed r
    → length (setup_frame idx r frame) ≡ length frame
unfolding setup_frame
length-setup_frame idx r frame wf =
    let e = le16 (0x1000 + 12 + r.size) in
    length-put 16 idx r.size r (write_at frame 14 e) wf ∙ length-write_at frame 14 e

pub length-add_frame :
    (prev idx : ℕ) (more : Bool) (r : Request) (frame : Bytes)
    → IsWellFormed r
    → length (add_frame prev idx more r frame) ≡ length frame
unfolding add_frame
length-add_frame prev idx more r frame wf =
    let f₁ = write_at frame 14 (le16 (get16 frame 14 + 12 + r.size)) in
    let w = le16 (with_follows (get16 f₁ 22)) in
    length-put prev idx (if more then with_follows r.size else r.size) r (write_at f₁ 22 w) wf
    ∙ length-write_at f₁ 22 w
    ∙ length-write_at frame 14 (le16 (get16 frame 14 + 12 + r.size))

-- A datagram's bytes in another frame that agrees on them, but for a new `dlength`.
pub Holds-transfer :
    (f g : Bytes) (at idx d d' : ℕ) (r : Request)
    → ((j : ℕ) → j < 6 → get_or g (at + j) 0 ≡ get_or f (at + j) 0)
    → get16 g (at + 6) ≡ d'
    → ((j : ℕ) → j < r.size + 2 → get_or g (at + 10 + j) 0 ≡ get_or f (at + 10 + j) 0)
    → Holds f at idx d r
    → Holds g at idx d' r
Holds-transfer f g at idx d d' r hd dl bd h = record {
  command = ground (arith, hd 0 (omega arith), h.command);
  index = hd 1 (omega arith) ∙ h.index;
  adp = ground (arith, hd 2 (omega arith), hd 3 (omega arith), h.adp);
  ado = ground (arith, hd 4 (omega arith), hd 5 (omega arith), h.ado);
  dlen = dl;
  payload = λ j k. bd j (omega arith) ∙ h.payload j k;
  wkc = ground (arith, bd r.size (omega arith), bd (r.size + 1) (omega arith), h.wkc);
}

-- The two words of the first header that `ecx_adddatagram` changes before it stores the second.
module _ (frame : Bytes) (el dl : ℕ) (fits : 24 ≤ length frame) where
  abbrev with_el : Bytes
  with_el = write_at frame 14 (le16 el)

  abbrev with_dl : Bytes
  with_dl = write_at with_el 22 (le16 dl)

  length-with_dl : length with_dl ≡ length frame
  length-with_dl = length-write_at with_el 22 (le16 dl) ∙ length-write_at frame 14 (le16 el)

  with_dl_between : (j : ℕ) → 16 ≤ j → j < 22 → get_or with_dl j 0 ≡ get_or frame j 0
  with_dl_between j h k =
      get_or-write_at_below with_el 22 (le16 dl) j 0 k
      ∙ get_or-write_at_above frame 14 (le16 el) j 0 (omega arith)

  with_dl_behind : (j : ℕ) → 24 ≤ j → get_or with_dl j 0 ≡ get_or frame j 0
  with_dl_behind j h =
      get_or-write_at_above with_el 22 (le16 dl) j 0 (omega arith)
      ∙ get_or-write_at_above frame 14 (le16 el) j 0 (omega arith)

  get16-with_dl_el : el < 65536 → get16 with_dl 14 ≡ el
  get16-with_dl_el h =
      ap₂ (λ a b. a + 256 * b) (get_or-write_at_below with_el 22 (le16 dl) 14 0 (omega arith))
        (get_or-write_at_below with_el 22 (le16 dl) 15 0 (omega arith))
      ∙ get16-write_at frame 14 el (omega arith) h

  get16-with_dl_dl : dl < 65536 → get16 with_dl 22 ≡ dl
  get16-with_dl_dl h =
      get16-write_at with_el 22 dl (omega (arith, length-write_at frame 14 (le16 el))) h

  -- The `dlength` that is read after `elength` was written is the old one.
  get16-with_el : get16 with_el 22 ≡ get16 frame 22
  get16-with_el =
      ap₂ (λ a b. a + 256 * b) (get_or-write_at_above frame 14 (le16 el) 22 0 (omega arith))
        (get_or-write_at_above frame 14 (le16 el) 23 0 (omega arith))

-- `ecx_adddatagram` on a long enough frame that holds one datagram of `ecx_setupdatagram` (so that
-- `txbuflength` is 28 + its size): the first datagram stays, with the flag that another follows;
-- the second stands behind it with its own fields, and with the flag exactly if `more` is set;
-- `elength` counts both, and the ethernet header stays as it was.
pub add_frame-Holds :
    (idx : ℕ) (more : Bool) (r₁ r₂ : Request) (frame : Bytes)
    → IsWellFormed r₂
    → r₁.size + r₂.size ≤ 1478
    → 40 + r₁.size + r₂.size ≤ length frame
    → Holds frame 16 idx r₁.size r₁
    → get16 frame 14 ≡ 0x1000 + 12 + r₁.size
    → let out = add_frame (28 + r₁.size) idx more r₂ frame in
      Holds out 16 idx (0x8000 + r₁.size) r₁
      × Holds out (28 + r₁.size) idx (if more then 0x8000 + r₂.size else r₂.size) r₂
      × (get16 out 14 ≡ 0x1000 + 12 + r₁.size + (12 + r₂.size))
      × ((j : ℕ) → j < 14 → get_or out j 0 ≡ get_or frame j 0)
unfolding add_frame
add_frame-Holds idx more r₁ r₂ frame wf small fits first el = (
  Holds-transfer frame out 16 idx r₁.size (0x8000 + r₁.size) r₁
      (λ j h.
        below (16 + j) (omega arith)
        ∙ with_dl_between frame el' dl' short (16 + j) (omega arith) (omega arith))
      (ap₂ (λ a b. a + 256 * b) (below 22 (omega arith)) (below 23 (omega arith))
        ∙ get16-with_dl_dl frame el' dl' short (omega arith)
        ∙ dl-eq)
      (λ j h.
        below (26 + j) (omega arith) ∙ with_dl_behind frame el' dl' short (26 + j) (omega arith))
      first,
  subst (λ d. Holds out at idx d r₂) (flagged more)
      (put_datagram-Holds at idx dl₂ r₂ f wf (omega (arith, length-with_dl frame el' dl' short))
        (omega (arith, flagged more, word more))),
  ap₂ (λ a b. a + 256 * b) (below 14 (omega arith)) (below 15 (omega arith))
      ∙ get16-with_dl_el frame el' dl' short (omega arith)
      ∙ omega arith,
  λ j h.
      below j (omega arith)
      ∙ get_or-write_at_below (write_at frame 14 (le16 el')) 22 (le16 dl') j 0 (omega arith)
      ∙ get_or-write_at_below frame 14 (le16 el') j 0 h,
)
  where
    at : ℕ
    at = 28 + r₁.size

    el' : ℕ
    el' = get16 frame 14 + 12 + r₂.size

    dl' : ℕ
    dl' = with_follows (get16 (write_at frame 14 (le16 el')) 22)

    dl₂ : ℕ
    dl₂ = if more then with_follows r₂.size else r₂.size

    flagged :
        (b : Bool)
        → (if b then with_follows r₂.size else r₂.size) ≡ (if b then 0x8000 + r₂.size else r₂.size)
    flagged true = omega arith
    flagged false = refl

    word : (b : Bool) → (if b then 0x8000 + r₂.size else r₂.size) < 65536
    word true = omega arith
    word false = omega arith

    f : Bytes
    f = write_at (write_at frame 14 (le16 el')) 22 (le16 dl')

    out : Bytes
    out = add_frame at idx more r₂ frame

    short : 24 ≤ length frame
    short = omega arith

    dl-eq : dl' ≡ 0x8000 + r₁.size
    dl-eq = omega (arith, get16-with_el frame el' dl' short, first.dlen)

    below : (j : ℕ) → j < at → get_or out j 0 ≡ get_or f j 0
    below j h = put_below at idx dl₂ r₂ f wf j h
