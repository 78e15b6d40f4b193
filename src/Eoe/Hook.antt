-- ===== src/Eoe/Hook.antt =====
-- `ecx_EOEreadfragment` of soem/ethercateoe.c, by which a hook puts a frame together from the mailboxes
-- that `ecx_mbxreceive` hands to it.
use e_rob_soem_linux.Base.{
  ℕ, ◌+◌, ◌-◌, ◌%◌, ◌≤◌, ◌≡◌, refl, ap, ◌∙◌, arith, Bool, true, false, not, ◌&&◌, ◌||◌,
  if◌then◌else◌, ltb, leb, ◌==◌, Bool-cases, inl, inr, Bytes, length, length-take, length-write_at,
  get_or, get16, drop, read_at, write_at, get_or-write_at_above,
}
use e_rob_soem_linux.Base.Int.{ℤ, pos}
use e_rob_soem_linux.Eoe.{
  invalid_rx_data, packet_error, is_eoe, is_last, has_time, fragment_no, offset_of, frame_no,
}

-- The variables that the function is given pointers to, and the buffer.
pub record Reading : Type 0 where
  pub fragmentno : ℕ
  pub framesize : ℕ
  pub frameoffset : ℕ
  pub frameno : ℕ
  pub psize : ℕ
  pub p : Bytes

abbrev pub reset : Reading → Reading
reset r = record {
  fragmentno = 0;
  framesize = 0;
  frameoffset = 0;
  frameno = 0;
  psize = r.psize;
  p = r.p;
}

-- The data are stored if they fit the frame and the buffer.
unfoldable pub keep_data : Bytes → Reading → Reading
keep_data mbx r =
    let size = (get16 mbx 0 + 65536 - 4) % 65536 in
    let stored : Reading = record r {
      fragmentno = (r.fragmentno + 1) % 256;
      frameoffset = (r.frameoffset + size) % 65536;
      p = write_at r.p r.frameoffset (read_at mbx 10 size);
    } in
    if leb (r.frameoffset + size) r.framesize && leb (r.frameoffset + size) r.psize
    then stored
    else r

-- After the last fragment the size of the frame is known.
unfoldable pub close_frame : Bytes → Reading → ℤ × Reading
close_frame mbx r =
    let psize = if has_time mbx then (r.frameoffset + 65536 - 4) % 65536 else r.frameoffset in
    if is_last mbx then (pos 1, record (reset r) { psize = psize }) else (pos 0, r)

-- A fragment with the number that was expected, or the first one of a frame.
unfoldable pub next_fragment : Bytes → Reading → ℤ × Reading
next_fragment mbx r =
    let new : Reading = record r {
      framesize = offset_of mbx;
      frameoffset = 0;
      frameno = frame_no mbx;
    } in
    if r.fragmentno == 0
    then close_frame mbx (keep_data mbx new)
    else if not (r.frameno == frame_no mbx) || not (r.frameoffset == offset_of mbx)
    then (invalid_rx_data, reset r)
    else close_frame mbx (keep_data mbx r)

-- `ecx_EOEreadfragment`
unfoldable pub read_fragment : Bytes → Reading → ℤ × Reading
read_fragment mbx r =
    let other = not (r.fragmentno == fragment_no mbx) in
    let r₁ = if other && ltb 0 r.fragmentno then reset r else r in
    if not (is_eoe mbx)
    then (packet_error, r)
    else if other && ltb 0 (fragment_no mbx)
    then (invalid_rx_data, r₁)
    else next_fragment mbx r₁

-- What a call leaves alone: the buffer from `psize` on, and its length.
record Within (r r' : Reading) : Type 0 where
  in_frame : r'.frameoffset ≤ r'.framesize
  same_length : length r'.p ≡ length r.p
  above : (j : ℕ) → r.psize ≤ j → get_or r'.p j 0 ≡ get_or r.p j 0

keep_data-Within :
    (mbx : Bytes) (r : Reading) → r.frameoffset ≤ r.framesize → Within r (keep_data mbx r)
unfolding keep_data
keep_data-Within mbx r h =
    let size = (get16 mbx 0 + 65536 - 4) % 65536 in
    elim (Bool-cases
      (leb (r.frameoffset + size) r.framesize && leb (r.frameoffset + size) r.psize)) [
        | inl fits ↦ rw fits record {
          in_frame = ground arith;
          same_length = length-write_at r.p r.frameoffset (read_at mbx 10 size);
          above = λ j k.
              let short = length-take size (drop 10 mbx) in
              let room : r.frameoffset + size ≤ r.psize = ground arith in
              get_or-write_at_above r.p r.frameoffset (read_at mbx 10 size) j 0
                (omega (arith, short, room));
        }
        | inr large ↦ rw large record { in_frame = h; same_length = refl; above = λ j k. refl }
      ]

close_frame-Within : (mbx : Bytes) (r s : Reading) → Within r s → Within r (close_frame mbx s).1
unfolding close_frame
close_frame-Within mbx r s w = elim (Bool-cases (is_last mbx)) [
  | inl end ↦ rw end record { in_frame = omega arith; same_length = w.same_length; above = w.above }
  | inr more ↦ rw more w
]

reset-Within : (r s : Reading) → Within r s → Within r (reset s)
reset-Within r s w = record { in_frame = omega arith; same_length = w.same_length; above = w.above }

self-Within :
    (r s : Reading) → s.frameoffset ≤ s.framesize → s.p ≡ r.p → s.psize ≡ r.psize → Within r s
self-Within r s h same size = record {
  in_frame = h;
  same_length = ap length same;
  above = λ j k. ap (λ b. get_or b j 0) same;
}

if-Within :
    (r : Reading) (b : Bool) (x y : ℤ × Reading)
    → Within r x.1
    → Within r y.1
    → Within r (if b then x else y).1
if-Within r true x y w v = w
if-Within r false x y w v = v

-- With data kept, and the frame closed, after a change that leaves the buffer alone.
stored-Within :
    (mbx : Bytes) (r s : Reading)
    → s.frameoffset ≤ s.framesize
    → s.p ≡ r.p
    → s.psize ≡ r.psize
    → Within r (close_frame mbx (keep_data mbx s)).1
stored-Within mbx r s h same size =
    let w = keep_data-Within mbx s h in
    close_frame-Within mbx r (keep_data mbx s) (record {
      in_frame = w.in_frame;
      same_length = w.same_length ∙ ap length same;
      above = λ j k. w.above j (omega (arith, size)) ∙ ap (λ b. get_or b j 0) same;
    })

next_fragment-Within :
    (mbx : Bytes) (r s : Reading)
    → s.frameoffset ≤ s.framesize
    → s.p ≡ r.p
    → s.psize ≡ r.psize
    → Within r (next_fragment mbx s).1
unfolding next_fragment
next_fragment-Within mbx r s h same size =
    let new : Reading = record s {
      framesize = offset_of mbx;
      frameoffset = 0;
      frameno = frame_no mbx;
    } in
    let old = self-Within r s h same size in
    if-Within r (s.fragmentno == 0) _ _ (stored-Within mbx r new (omega arith) same size) (
      if-Within r (not (s.frameno == frame_no mbx) || not (s.frameoffset == offset_of mbx)) _ _
        (reset-Within r s old) (stored-Within mbx r s h same size))

next_or_reset-Within :
    (mbx : Bytes) (r : Reading) (b c : Bool)
    → r.frameoffset ≤ r.framesize
    → let r₁ = if b then reset r else r in
      Within r (if c then (invalid_rx_data, r₁) else next_fragment mbx r₁).1
next_or_reset-Within mbx r true c h =
    if-Within r c _ _ (reset-Within r r (self-Within r r h refl refl))
      (next_fragment-Within mbx r (reset r) (omega arith) refl refl)
next_or_reset-Within mbx r false c h =
    if-Within r c _ _ (self-Within r r h refl refl) (next_fragment-Within mbx r r h refl refl)

-- Whatever mailbox `ecx_EOEreadfragment` is given, it writes only below `psize` in the buffer, and
-- the frame's offset stays within the size that the frame announced.
pub read_fragment_within :
    (mbx : Bytes) (r : Reading)
    → r.frameoffset ≤ r.framesize
    → let r' = (read_fragment mbx r).1 in
      (r'.frameoffset ≤ r'.framesize)
      × (length r'.p ≡ length r.p)
      × ((j : ℕ) → r.psize ≤ j → get_or r'.p j 0 ≡ get_or r.p j 0)
unfolding read_fragment
read_fragment_within mbx r h =
    let other = not (r.fragmentno == fragment_no mbx) in
    let w =
      if-Within r (not (is_eoe mbx)) (packet_error, r) _ (self-Within r r h refl refl)
        (next_or_reset-Within mbx r (other && ltb 0 r.fragmentno) (other && ltb 0 (fragment_no mbx))
          h) in
    (w.in_frame, w.same_length, w.above)
