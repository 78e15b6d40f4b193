-- ===== src/Eoe/Fragment.antt =====
-- A fragment as the receiver reads it.
use e_rob_soem_linux.Base.{
  ℕ, ◌+◌, ◌*◌, ◌/◌, ◌%◌, ◌≤◌, ◌<◌, ◌≡◌, refl, ap, ◌∙◌, arith, Bool, true, false, ◌++◌,
  if◌then◌else◌, ltb, leb, ◌==◌, Bytes, length, take-append, read_at, write_at,
}
use e_rob_soem_linux.Base.Int.{pos}
use e_rob_soem_linux.Eoe.{
  Rx, Verdict, finished, going, is_eoe, port_of, is_last, has_time, fragment_no, offset_of,
  frame_no, data_size, fragment, store_fragment, take_fragment,
}

-- A word in its two bytes, and the three fields of `frameinfo2`.
word_bytes : (n : ℕ) → n < 65536 → n % 256 + 256 * (n / 256 % 256) ≡ n
word_bytes n h = omega arith

module _ (a b c : ℕ) (a_small : a < 64) (b_small : b < 64) (c_small : c < 16) where
  first_field : (a + b * 64 + c * 4096) % 64 ≡ a
  first_field = omega arith

  second_field : (a + b * 64 + c * 4096) / 64 % 64 ≡ b
  second_field = omega arith

  third_field : (a + b * 64 + c * 4096) / 4096 % 16 ≡ c
  third_field = omega arith

  fields_fit : a + b * 64 + c * 4096 < 65536
  fields_fit = omega arith

-- The fields of a mailbox with the fragment number `nr` at `offset` of a frame of `psize` bytes.
pub record Reads (mbx : Bytes) (last : Bool) (port psize nr frameno offset : ℕ) (d : Bytes)
    : Type 0 where
  pub eoe : is_eoe mbx ≡ true
  pub lasts : is_last mbx ≡ last
  pub no_time : has_time mbx ≡ false
  pub same_port : port_of mbx ≡ port
  pub same_no : fragment_no mbx ≡ nr
  pub same_offset : offset_of mbx ≡ (if ltb 0 nr then offset / 32 else (psize + 31) / 32) * 32
  pub same_frame : frame_no mbx ≡ frameno % 16
  pub size : data_size mbx ≡ length d
  pub bytes : read_at mbx 10 (length d) ≡ d

module _ (last : Bool) (port psize nr frameno offset : ℕ) (d rest : Bytes) (port_small : port < 16)
    (nr_small : nr < 64) (psize_small : psize ≤ 2016) (inside : offset + length d ≤ psize) where
  pub fragment-Reads :
      Reads
        (fragment last port psize nr frameno offset d 1 ++ rest)
        last
        port
        psize
        nr
        frameno
        offset
        d
  fragment-Reads =
      let blocks = if ltb 0 nr then offset / 32 else (psize + 31) / 32 in
      let blocks_small : blocks < 64 = ground arith in
      let info = nr % 64 + blocks % 64 * 64 + frameno % 16 * 4096 in
      let a_small : nr % 64 < 64 = omega arith in
      let b_small : blocks % 64 < 64 = omega arith in
      let c_small : frameno % 16 < 16 = omega arith in
      let word =
        word_bytes info
          (fields_fit (nr % 64) (blocks % 64) (frameno % 16) a_small b_small c_small) in
      record {
        eoe = refl;
        lasts = ground arith;
        no_time = ground arith;
        same_port = ground arith;
        same_no = rw word (
            first_field (nr % 64) (blocks % 64) (frameno % 16) a_small b_small c_small
            ∙ omega arith);
        same_offset = rw word (
            ap (λ n. n * 32)
              (second_field (nr % 64) (blocks % 64) (frameno % 16) a_small b_small c_small
                ∙ omega (arith, blocks_small)));
        same_frame =
            rw word (third_field (nr % 64) (blocks % 64) (frameno % 16) a_small b_small c_small);
        size = omega arith;
        bytes = take-append d rest;
      }

-- What the receiver is left with after a fragment, and what comes of it.
abbrev pub stored : ℕ → ℕ → ℕ → Bytes → Bytes → Rx
stored nr frameno offset d p = record {
  fragmentno = nr + 1;
  frameno = frameno % 16;
  offset = offset + length d;
  p = write_at p offset d;
}

abbrev pub verdict : Bool → ℕ → ℕ → ℕ → Bytes → Bytes → Verdict
verdict last nr frameno offset d p =
    let rx = stored nr frameno offset d p in
    if last then finished (pos (offset + length d)) rx else going rx

-- The fragment that is stored next.
module _ (mbx : Bytes) (last : Bool) (port psize nr frameno offset : ℕ) (d : Bytes)
    (r : Reads mbx last port psize nr frameno offset d) (buffersize : ℕ)
    (inside : offset + length d ≤ psize) (room : (psize + 31) / 32 * 32 ≤ buffersize)
    (nr_small : nr < 64) where
  store_fragment_lem :
      (p : Bytes)
      → store_fragment buffersize mbx
          (record { fragmentno = nr; frameno = frameno % 16; offset = offset; p = p })
        ≡ verdict last nr frameno offset d p
  unfolding store_fragment
  store_fragment_lem p =
      let fits : leb (offset + length d) buffersize ≡ true = ground arith in
      let next : (nr + 1) % 256 ≡ nr + 1 = omega arith in
      rw (r.size, r.bytes, fits, r.lasts, r.no_time, next, store_fragment) refl

  pub take_fragment_first :
      (p : Bytes) (fr : ℕ)
      → nr ≡ 0
      → take_fragment port buffersize mbx
          (record { fragmentno = nr; frameno = fr; offset = offset; p = p })
        ≡ verdict last nr frameno offset d p
  unfolding take_fragment
  take_fragment_first p fr zero_no =
      let first : (nr == 0) ≡ true = ground arith in
      let blocks : ltb 0 nr ≡ false = ground arith in
      let fits : ltb buffersize ((psize + 31) / 32 * 32) ≡ false = ground arith in
      let same : (nr == nr) ≡ true = ground arith in
      let home : (port == port) ≡ true = ground arith in
      rw
        (
          r.eoe, r.same_no, same, first, r.same_offset, blocks, fits, r.same_port, home,
          r.same_frame, take_fragment,
        )
        (store_fragment_lem p)

  pub take_fragment_next :
      (p : Bytes)
      → 0 < nr
      → offset % 32 ≡ 0
      → take_fragment port buffersize mbx
          (record { fragmentno = nr; frameno = frameno % 16; offset = offset; p = p })
        ≡ verdict last nr frameno offset d p
  unfolding take_fragment
  take_fragment_next p later whole =
      let first : (nr == 0) ≡ false = ground arith in
      let blocks : ltb 0 nr ≡ true = ground arith in
      let same : (nr == nr) ≡ true = ground arith in
      let at : (offset == offset / 32 * 32) ≡ true = ground arith in
      let frame : (frameno % 16 == frameno % 16) ≡ true = ground arith in
      rw
        (
          r.eoe, r.same_no, same, first, r.same_frame, frame, r.same_offset, blocks, at,
          take_fragment,
        )
        (store_fragment_lem p)
