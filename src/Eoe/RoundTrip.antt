-- ===== src/Eoe/RoundTrip.antt =====
-- What `ecx_EOEsend` sends is what `ecx_EOErecv` receives.
use e_rob_soem_linux.Base.{
  ltb→lt, ℕ, zero, suc, ◌+◌, ◌-◌, ◌*◌, ◌/◌, ◌%◌, ◌≤◌, ◌<◌, ◌≡◌, ◌⊎◌, inl, inr, refl, sym, ap, ◌∙◌,
  arith, Bool, true, false, List, [], ◌∷◌, ◌++◌, some, if◌then◌else◌, ltb, ◌==◌, Bool-cases, Bytes,
  length, length-take, length-drop, length-write_at, take, drop, take-append, drop-drop, read_at,
  write_at, write_at-append, write_at-zero, append-nil, append_assoc,
}
use e_rob_soem_linux.Base.Int.{pos}
use e_rob_soem_linux.Task.{◌>>=◌}
use e_rob_soem_linux.Mailbox.Channel.{Channel, clear_mbx}
use e_rob_soem_linux.Eoe.{
  Tx, fragment, send_fragment, send_fragments, eoe_send, take_fragment, recv_fragments, eoe_recv,
}
use e_rob_soem_linux.Eoe.Fragment.{
  Reads, fragment-Reads, verdict, take_fragment_first, take_fragment_next,
}

-- A channel on which every mailbox that is sent comes back, in order.
abbrev pub loopback : Channel (List Bytes)
loopback = record {
  count = λ s. some (1, s);
  send = λ mbx timeout s. some (pos 1, s ++ (mbx ∷ []));
  receive =
      λ mbx timeout s. elim s [ [] ↦ some ((pos 0, mbx), []) | m ∷ ms ↦ some ((pos 1, m), ms) ];
  sdo_error = λ index subindex code s. some (tt, s);
  packet_error = λ index subindex code s. some (tt, s);
  soe_error = λ idn code s. some (tt, s);
  empty = λ timeout s. some (true, s);
}

-- The mailboxes with the bytes of `p` from an offset on, and a fragment number.
data Fragments (port frameno : ℕ) (p : Bytes) : ℕ → ℕ → List Bytes → Type 0 where
  last :
      (offset nr : ℕ) (d rest : Bytes)
      → nr < 64
      → offset + length d ≡ length p
      → drop offset p ≡ d
      → Fragments port frameno p offset nr
          ((fragment true port (length p) nr frameno offset d 1 ++ rest) ∷ [])
  more :
      {m : Bytes} {ms : List Bytes} (offset nr : ℕ) (d rest : Bytes)
      → nr < 64
      → length d % 32 ≡ 0
      → offset + length d ≤ length p
      → drop offset p ≡ d ++ drop (offset + length d) p
      → Fragments port frameno p (offset + length d) (nr + 1) (m ∷ ms)
      → Fragments port frameno p offset nr
          ((fragment false port (length p) nr frameno offset d 1 ++ rest) ∷ (m ∷ ms))

module _ (port timeout frameno buffersize : ℕ) (p : Bytes) (port_small : port < 16)
    (size_small : length p ≤ 2016) (room : (length p + 31) / 32 * 32 ≤ buffersize) where
  -- The receiver waits for the fragment `nr`: the first one, or another one of the frame.
  abbrev Waits : ℕ → ℕ → Type 0
  Waits nr fr = (nr ≡ 0) ⊎ ((0 < nr) × (fr ≡ frameno % 16))

  taken :
      (mbx : Bytes) (end : Bool) (nr fr offset : ℕ) (d q : Bytes)
      → Reads mbx end port (length p) nr frameno offset d
      → offset + length d ≤ length p
      → nr < 64
      → offset % 32 ≡ 0
      → Waits nr fr
      → take_fragment port buffersize mbx
          (record { fragmentno = nr; frameno = fr; offset = offset; p = q })
        ≡ verdict end nr frameno offset d q
  taken mbx end nr fr offset d q r inside nr_small whole (inl first) =
      take_fragment_first mbx end port (length p) nr frameno offset d r buffersize inside room
        nr_small q fr first
  taken mbx end nr fr offset d q r inside nr_small whole (inr (later, same)) = rw same (
      take_fragment_next mbx end port (length p) nr frameno offset d r buffersize inside room
        nr_small q later whole)

  recv_fragments-Fragments :
      (fuel nr fr offset : ℕ) (q m : Bytes) (ms : List Bytes)
      → Fragments port frameno p offset nr (m ∷ ms)
      → length ms < fuel
      → offset % 32 ≡ 0
      → Waits nr fr
      → recv_fragments loopback port timeout fuel buffersize
          (pos 1, m)
          (record { fragmentno = nr; frameno = fr; offset = offset; p = q })
          ms
        ≡ some ((pos 1, pos (length p), write_at q offset (drop offset p)), [])
  unfolding recv_fragments
  recv_fragments-Fragments zero nr fr offset q m ms fs enough whole w = absurd (omega arith)
  recv_fragments-Fragments (suc fuel) _ fr _ q _ _ (last offset nr d rest nr_small ends piece)
        enough whole w =
      let r =
        fragment-Reads true port (length p) nr frameno offset d rest port_small nr_small size_small
          (omega arith) in
      let mbx = fragment true port (length p) nr frameno offset d 1 ++ rest in
      rw
        (
          taken mbx true nr fr offset d q r (omega arith) nr_small whole w,
          ends,
          piece,
          recv_fragments,
        )
        refl
  recv_fragments-Fragments (suc fuel) _ fr _ q _ _
        (more {m} {ms} offset nr d rest nr_small block inside piece fs) enough whole w =
      let r =
        fragment-Reads false port (length p) nr frameno offset d rest port_small nr_small size_small
          inside in
      let mbx = fragment false port (length p) nr frameno offset d 1 ++ rest in
      let next =
        recv_fragments-Fragments fuel (nr + 1) (frameno % 16) (offset + length d)
          (write_at q offset d) m ms fs (omega arith) (omega arith) (inr (omega arith, refl)) in
      let whole_piece =
        write_at-append q offset d (drop (offset + length d) p)
        ∙ ap (write_at q offset) (sym piece) in
      rw (taken mbx false nr fr offset d q r inside nr_small whole w, recv_fragments)
        (next ∙ ap (λ b. some ((pos 1, pos (length p), b), [])) whole_piece)

-- The mailbox that is sent begins with the fragment.
sent : Bool → ℕ → ℕ → ℕ → ℕ → ℕ → Bytes → Bytes → Bytes
sent end port psize nr frameno offset d out =
    write_at out 0 (fragment end port psize nr frameno offset d 1)

sent_lem :
    (end : Bool) (port psize nr frameno offset : ℕ) (d out : Bytes)
    → length d + 10 ≤ length out
    → sent end port psize nr frameno offset d out
      ≡ fragment end port psize nr frameno offset d 1 ++ drop (length d + 10) out
unfolding sent
sent_lem end port psize nr frameno offset d out h =
    write_at-zero out (fragment end port psize nr frameno offset d 1) (omega arith)
    ∙ ap (λ n. fragment end port psize nr frameno offset d 1 ++ drop n out) ten
  where
    ten : length (fragment end port psize nr frameno offset d 1) ≡ length d + 10
    ten = omega arith

module _ (port timeout : ℕ) (p : Bytes) (frameno : ℕ) where
  -- The variables after a fragment.
  abbrev after : ℕ → ℕ → Bytes → Tx
  after offset nr out = record { offset = offset; fragmentno = nr; frameno = frameno; out = out }

  send_last :
      (offset nr f : ℕ) (out d : Bytes) (q : List Bytes)
      → (if ltb 0 nr then f else (f + 1) % 256) ≡ frameno
      → let m = sent true port (length p) nr frameno offset d out in
        send_fragment loopback port timeout true
          (length p)
          d
          (record { offset = offset; fragmentno = nr; frameno = f; out = out })
          q
        ≡ some ((pos 1, true, after offset nr m), q ++ (m ∷ []))
  unfolding send_fragment sent ◌>>=◌
  send_last offset nr f out d q e = rw e refl

  send_more :
      (offset nr f : ℕ) (out d : Bytes) (q : List Bytes)
      → (if ltb 0 nr then f else (f + 1) % 256) ≡ frameno
      → let m = sent false port (length p) nr frameno offset d out in
        send_fragment loopback port timeout false
          (length p)
          d
          (record { offset = offset; fragmentno = nr; frameno = f; out = out })
          q
        ≡ some ((pos 1, false, after (offset + length d) ((nr + 1) % 256) m), q ++ (m ∷ []))
  unfolding send_fragment sent ◌>>=◌
  send_more offset nr f out d q e = rw e refl

  -- The pieces of the frame.
  length-piece : (offset n : ℕ) → offset + n ≤ length p → length (read_at p offset n) ≡ n
  length-piece offset n h = omega (arith, length-take n (drop offset p), length-drop offset p)

  last_piece : (offset : ℕ) → drop offset p ≡ read_at p offset (length p - offset)
  last_piece offset =
      let xs = drop offset p in
      sym (
        ap (λ n. take n xs) (sym (length-drop offset p))
        ∙ ap (take (length xs)) (sym (append-nil xs))
        ∙ take-append xs [])

  take-drop : (n : ℕ) (xs : Bytes) → xs ≡ take n xs ++ drop n xs
  take-drop zero xs = refl
  take-drop (suc n) [] = refl
  take-drop (suc n) (x ∷ xs) = ap (λ l. x ∷ l) (take-drop n xs)

  -- What is left of the frame is sent in fragments.
  record Sends (fuel maxdata offset nr f : ℕ) (out : Bytes) (q : List Bytes) : Type 0 where
    m : Bytes
    ms : List Bytes
    v : Tx
    run :
        send_fragments loopback port timeout fuel maxdata
          (length p)
          p
          (record { offset = offset; fragmentno = nr; frameno = f; out = out })
          q
        ≡ some ((pos 1, v), q ++ (m ∷ ms))
    fragments : Fragments port frameno p offset nr (m ∷ ms)
    same_frame : v.frameno ≡ frameno

  send_fragments-Fragments :
      (fuel maxdata offset nr f : ℕ) (out : Bytes) (q : List Bytes)
      → 32 ≤ maxdata
      → maxdata ≤ 1476
      → length p ≤ 2016
      → length out ≡ 1486
      → offset % 32 ≡ 0
      → 32 * nr ≤ offset
      → offset ≤ length p
      → length p - offset < fuel
      → (if ltb 0 nr then f else (f + 1) % 256) ≡ frameno
      → Sends fuel maxdata offset nr f out q
  unfolding send_fragments sent
  send_fragments-Fragments zero maxdata offset nr f out q lo hi small room whole count inside enough
        e =
      absurd (omega arith)
  send_fragments-Fragments (suc fuel) maxdata offset nr f out q lo hi small room whole count inside
        enough e =
      let left = length p - offset in
      elim (Bool-cases (ltb maxdata left)) [
        | inr fits ↦
            let d = read_at p offset left in
            let size = length-piece offset left (omega arith) in
            let m = sent true port (length p) nr frameno offset d out in
            let all : (left == left) ≡ true = ground arith in
            record {
              m = fragment true port (length p) nr frameno offset d 1 ++ drop (length d + 10) out;
              ms = [];
              v = after offset nr m;
              run =
                  rw (← sent_lem true port (length p) nr frameno offset d out (ground arith))
                    (rw (fits, all, send_last offset nr f out d q e, send_fragments) refl);
              fragments =
                  last offset nr d (drop (length d + 10) out) (omega arith) (omega (arith, size))
                    (last_piece offset);
              same_frame = refl;
            }
        | inl cut ↦
            let n = maxdata / 32 * 32 in
            let d = read_at p offset n in
            let cut_lt = ltb→lt maxdata left cut in
            let size : length d ≡ n = length-piece offset n (omega (arith, cut_lt)) in
            let m = sent false port (length p) nr frameno offset d out in
            let part : (n == left) ≡ false = ground (arith, cut_lt) in
            let wrap : (nr + 1) % 256 ≡ nr + 1 = omega arith in
            let counted : (if ltb 0 (nr + 1) then frameno else (frameno + 1) % 256) ≡ frameno =
              ground arith in
            let rest =
              send_fragments-Fragments fuel maxdata (offset + length d) (nr + 1) frameno m
                (q ++ (m ∷ [])) lo hi small
                (length-write_at out 0 (fragment false port (length p) nr frameno offset d 1)
                  ∙ room)
                (omega (arith, size)) (omega (arith, size)) (omega (arith, size, cut_lt))
                (omega (arith, size, cut_lt)) counted in
            let begun =
              sent_lem false port (length p) nr frameno offset d out
                (omega (arith, size, cut_lt)) in
            let opens : send_fragments loopback port timeout (suc fuel) maxdata (length p) p
                  (record { offset = offset; fragmentno = nr; frameno = f; out = out }) q
                ≡ send_fragments loopback port timeout fuel maxdata (length p) p
                    (after (offset + length d) (nr + 1) m) (q ++ (m ∷ [])) =
              rw (cut, part, send_more offset nr f out d q e, wrap, send_fragments) refl in
            let here =
              fragment false port (length p) nr frameno offset d 1 ++ drop (length d + 10) out in
            record {
              m = here;
              ms = rest.m ∷ rest.ms;
              v = rest.v;
              run =
                  opens
                  ∙ rest.run
                  ∙ ap (λ l. some ((pos 1, rest.v), l)) (append_assoc q (m ∷ []) (rest.m ∷ rest.ms))
                  ∙ ap (λ b. some ((pos 1, rest.v), q ++ (b ∷ (rest.m ∷ rest.ms)))) begun;
              fragments =
                  more offset nr d (drop (length d + 10) out) (omega arith) (omega (arith, size))
                    (omega (arith, size, cut_lt))
                    (take-drop n (drop offset p)
                      ∙ ap (λ l. d ++ l)
                          (drop-drop offset n p ∙ ap (λ k. drop (offset + k) p) (sym size)))
                    rest.fragments;
              same_frame = rest.same_frame;
            }
      ]

-- A frame of up to 2016 bytes, sent by `ecx_EOEsend` through a mailbox with room for 32 bytes of it,
-- is received by `ecx_EOErecv` on the other side: where every mailbox arrives in order, the sending
-- ends with a positive working counter and the next frame number, and the receiver, with a buffer for
-- the frame rounded up to 32 bytes, gets the frame's size and its bytes at the start of its buffer,
-- and has read every mailbox. Fuel for each byte, and for each mailbox, is enough.
pub eoe_send-recv :
    (port timeout mbx_l frameno buffersize : ℕ) (p q : Bytes)
    → port < 16
    → 42 ≤ mbx_l
    → mbx_l ≤ 1486
    → length p ≤ 2016
    → (length p + 31) / 32 * 32 ≤ buffersize
    → (ms : List Bytes) × (eoe_send loopback port timeout
          (length p + 1)
          mbx_l
          frameno
          (length p)
          p
          []
        ≡ some ((pos 1, (frameno + 1) % 256), ms))
      × (eoe_recv loopback port timeout (length ms) buffersize q ms
          ≡ some ((pos 1, pos (length p), write_at q 0 p), []))
unfolding eoe_send eoe_recv ◌>>=◌
eoe_send-recv port timeout mbx_l frameno buffersize p q port_small lo hi small room =
    let next = (frameno + 1) % 256 in
    let sends =
      send_fragments-Fragments port timeout p next (length p + 1) (mbx_l - 10) 0 0 frameno clear_mbx
        [] (omega arith) (omega arith) small refl refl (omega arith) (omega arith) (omega arith)
        refl in
    let received =
      recv_fragments-Fragments port timeout next buffersize p port_small small room
        (suc (length sends.ms)) 0 0xff 0 q sends.m sends.ms sends.fragments (omega arith) refl
        (inl refl) in
    (sends.m ∷ sends.ms, rw (sends.run, sends.same_frame, eoe_send, ◌>>=◌) refl, received)
