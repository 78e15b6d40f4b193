-- ===== src/ProcessData/Reassembly.antt =====
-- The answers of the slaves are put together to the inputs in the process image.
use e_rob_soem_linux.Base.{
  ℕ, subst, zero, suc, ◌+◌, ◌-◌, ◌≤◌, ◌<◌, ◌≡◌, ◌⊎◌, refl, sym, ap, ap₂, ◌∙◌, arith, Bool, true,
  false, ◌||◌, List, [], ◌∷◌, some, if◌then◌else◌, ltb, Bytes, get_or, get16, length, read_at,
  write_at, write_at-append, write_at-nil, length-take, length-drop, drop, concat,
}
use e_rob_soem_linux.Base.Int.{pos}
use e_rob_soem_linux.Osal.{Os}
use e_rob_soem_linux.Datagram.{lrd, lrw, cmd_code, ec_headersize}
use e_rob_soem_linux.Link.{Net}
use e_rob_soem_linux.Primitives.{rx_frame, release}
use e_rob_soem_linux.IndexStack.{IndexStack, Entry, entry_at, clear_index}
use e_rob_soem_linux.IndexStack.Fifo.{IsValid, entries, pending, entries-pull, pull_empty}
use e_rob_soem_linux.ProcessData.{
  Bus, Received, take_inputs, wait, receive_loop, receive_processdata,
}
use e_rob_soem_linux.ProcessData.Receive.{received, after_frame, receive_step}

-- A received frame, with what `ecx_waitinframe` gives for it.
abbrev pub Answer : Type 0
Answer = ℕ × Bytes

-- The data of the frames, each for the size of its entry.
abbrev pub inputs : List Entry → List Answer → List Bytes
inputs [] rs = []
inputs (e ∷ es) [] = []
inputs (e ∷ es) ((wkc, rx) ∷ rs) = read_at rx ec_headersize e.len ∷ inputs es rs

-- The working counter of the process data in a frame: the last one, or that behind the data where the
-- frame has a second datagram.
abbrev pub own_wkc : Entry → Answer → ℕ
own_wkc e (wkc, rx) = if ltb 0 e.dc_offset then get16 rx (ec_headersize + e.len) else wkc

abbrev pub total_wkc : List Entry → List Answer → ℕ
total_wkc [] rs = 0
total_wkc (e ∷ es) [] = 0
total_wkc (e ∷ es) (a ∷ rs) = own_wkc e a + total_wkc es rs

-- The time in the second datagram of the first frame, if it has one.
abbrev pub time_of : List Entry → List Answer → Bytes → Bytes
time_of [] rs old = old
time_of (e ∷ es) [] old = old
time_of (e ∷ es) ((wkc, rx) ∷ rs) old = if ltb 0 e.dc_offset then read_at rx e.dc_offset 8 else old

module _ {W : Type 0} (os : Os W) (timeout : ℕ) where
  -- The frame of an entry arrives: a whole frame of LRD or LRW. The entry's data belong to `to`; only
  -- the `first` entry may have a second datagram.
  pub record Arrives (first : Bool) (to : ℕ) (e : Entry) (a : Answer) (n q : Net W) : Type 0 where
    pub waited : wait os e.idx timeout n ≡ some (pos a.0, q)
    pub frame : rx_frame q e.idx ≡ a.1
    pub is_read : (get_or a.1 2 0 ≡ cmd_code lrd) ⊎ (get_or a.1 2 0 ≡ cmd_code lrw)
    pub complete : ec_headersize + e.len ≤ length a.1
    pub placed : e.data_ptr ≡ to
    pub clock : first ≡ false → e.dc_offset ≡ 0

  -- The frames of all entries arrive, one after the other, and their data belong one behind the other.
  abbrev pub AllArrive : Bool → ℕ → List Entry → List Answer → Net W → Net W → Type 0
  AllArrive first to [] [] n t = n ≡ t
  AllArrive first to (e ∷ es) (a ∷ rs) n t =
      (q : Net W) × Arrives first to e a n q
      × AllArrive false (to + e.len) es rs (release e.idx q) t
  AllArrive first to [] (a ∷ rs) n t = ⊥
  AllArrive first to (e ∷ es) [] n t = ⊥

  take_inputs_arrived :
      (first : Bool) (to : ℕ) (e : Entry) (a : Answer) (n q : Net W) (r : Received)
      → Arrives first to e a n q
      → (first ≡ true → r.wkc ≡ 0)
      → let r' = take_inputs (rx_frame q e.idx) (pos a.0) e r in
        (r'.iomap ≡ write_at r.iomap to (read_at a.1 ec_headersize e.len))
        × (r'.wkc ≡ r.wkc + own_wkc e a)
        × (r'.valid ≡ true)
        × (r'.dc_time ≡ (if ltb 0 e.dc_offset then read_at a.1 e.dc_offset 8 else r.dc_time))
  unfolding take_inputs
  take_inputs_arrived true to e (wkc, rx) n q r arrived zero_wkc =
      let z = zero_wkc refl in rw (arrived.frame, arrived.placed) (ground (arith, arrived.is_read))
  take_inputs_arrived false to e (wkc, rx) n q r arrived zero_wkc =
      let z = arrived.clock refl in
      rw (arrived.frame, arrived.placed) (ground (arith, arrived.is_read))

  -- Only the first frame has a time.
  time_of_rest :
      (to : ℕ) (es : List Entry) (rs : List Answer) (n t : Net W)
      → AllArrive false to es rs n t
      → (old : Bytes) → time_of es rs old ≡ old
  time_of_rest to [] rs n t all old = refl
  time_of_rest to (e ∷ es) [] n t all old = refl
  time_of_rest to (e ∷ es) (a ∷ rs) n t (q, arrived, rest) old =
      let z = arrived.clock refl in ground arith

  -- What the loop has made of the frames `es` and `rs` that have arrived.
  record Puts (to : ℕ) (es : List Entry) (rs : List Answer) (wkc : ℕ) (valid : Bool) (b : Bus W)
      (t : Net W) (r : ℕ × Bool × Bus W) : Type 0 where
    counted : r.0 ≡ wkc + total_wkc es rs
    is_valid : r.1 ≡ (ltb 0 (length es) || valid)
    left : r.2.net ≡ t
    image : r.2.iomap ≡ write_at b.iomap to (concat (inputs es rs))
    time : r.2.dc_time ≡ time_of es rs b.dc_time

  -- One frame, and those that follow it.
  more-Puts :
      (first valid : Bool) (to wkc : ℕ) (es : List Entry) (a : Answer) (rs : List Answer)
      (b : Bus W) (q t : Net W) (r : ℕ × Bool × Bus W)
      → (first ≡ true → wkc ≡ 0)
      → let e = entry_at b.idxstack b.idxstack.pulled in
        let now = received os wkc valid b (pos a.0, q) in
        Arrives first to e a b.net q
        → AllArrive false (to + e.len) es rs (release e.idx q) t
        → Puts (to + e.len) es rs now.wkc now.valid (after_frame os wkc valid b (pos a.0, q)) t r
        → Puts to (e ∷ es) (a ∷ rs) wkc valid b t r
  more-Puts first valid to wkc es a rs b q t r fresh arrived others puts =
      let e = entry_at b.idxstack b.idxstack.pulled in
      let before : Received = record {
        iomap = b.iomap;
        dc_time = b.dc_time;
        wkc = wkc;
        valid = valid;
      } in
      let (image, count, ok, time) =
        take_inputs_arrived first to e a b.net q before arrived fresh in
      let bs = read_at a.1 ec_headersize e.len in
      let size : length bs ≡ e.len = omega (
        arith,
        length-take e.len (drop ec_headersize a.1),
        length-drop ec_headersize a.1,
        arrived.complete,
      ) in
      record {
        counted = puts.counted ∙ omega (arith, count);
        is_valid = puts.is_valid ∙ ground (arith, ok);
        left = puts.left;
        image =
            puts.image
            ∙ ap₂ (λ m k. write_at m (to + k) (concat (inputs es rs))) image (sym size)
            ∙ write_at-append b.iomap to bs (concat (inputs es rs));
        time = puts.time ∙ time_of_rest (to + e.len) es rs (release e.idx q) t others _ ∙ time;
      }

  receive_loop-Puts :
      (fuel k wkc to : ℕ) (valid first : Bool) (rs : List Answer) (b : Bus W) (t : Net W)
      → b.idxstack.pulled + k ≡ b.idxstack.pushed
      → k < fuel
      → (first ≡ true → wkc ≡ 0)
      → AllArrive first to (entries b.idxstack b.idxstack.pulled k) rs b.net t
      → (r : ℕ × Bool × Bus W) × (receive_loop os fuel timeout wkc valid b ≡ some r)
        × Puts to (entries b.idxstack b.idxstack.pulled k) rs wkc valid b t r
  unfolding receive_loop
  receive_loop-Puts zero k wkc to valid first rs b t e h fresh all = absurd (omega arith)
  receive_loop-Puts (suc fuel) zero wkc to valid first (a ∷ rs) b t e h fresh all = absurd all
  receive_loop-Puts (suc fuel) (suc k) wkc to valid first [] b t e h fresh all = absurd all
  receive_loop-Puts (suc fuel) zero wkc to valid first [] b t e h fresh all = (
    (wkc, valid, b),
    rw (pull_empty b.idxstack (omega arith), receive_loop)
        (rw (pull_empty b.idxstack (omega arith)) refl),
    record {
      counted = omega arith;
      is_valid = refl;
      left = all;
      image = sym (write_at-nil b.iomap to);
      time = refl;
    },
  )
  receive_loop-Puts (suc fuel) (suc k) wkc to valid first (a ∷ rs) b t e h fresh
        (q, arrived, rest) =
      let s = b.idxstack in
      let now = received os wkc valid b (pos a.0, q) in
      let later = entries-pull s (s.pulled + 1) k in
      let to' = to + (entry_at s s.pulled).len in
      let (r, e', puts) =
        receive_loop-Puts fuel k now.wkc to' now.valid false rs
          (after_frame os wkc valid b (pos a.0, q)) t (omega arith) (omega arith) (λ c. cc)
          (subst (λ es. AllArrive false to' es rs (release (entry_at s s.pulled).idx q) t)
            (sym later) rest) in
      (
        r,
        receive_step os fuel timeout wkc valid b (pos a.0, q) (omega arith) arrived.waited ∙ e',
        more-Puts first valid to wkc (entries s (s.pulled + 1) k) a rs b q t r fresh arrived rest (
            subst
              (λ es. Puts to' es rs now.wkc now.valid (after_frame os wkc valid b (pos a.0, q)) t r)
              later puts),
      )

  length-entries : (s : IndexStack) (i n : ℕ) → length (entries s i n) ≡ n
  length-entries s i zero = refl
  length-entries s i (suc n) = ap suc (length-entries s (i + 1) n)

  closed :
      (to : ℕ) (es : List Entry) (rs : List Answer) (b : Bus W) (t : Net W) (r : ℕ × Bool × Bus W)
      → receive_loop os 17 timeout 0 false b ≡ some r
      → 0 < length es
      → Puts to es rs 0 false b t r
      → receive_processdata os timeout b
        ≡ some (pos (total_wkc es rs), record r.2 { idxstack = clear_index r.2.idxstack })
  unfolding receive_processdata
  closed to es rs b t r e some_left puts =
      let valid : r.1 ≡ true = puts.is_valid ∙ ground arith in
      let count : r.0 ≡ total_wkc es rs = omega (arith, puts.counted) in
      rw (e, receive_processdata) (rw (valid, count) refl)

  -- `ecx_receive_processdata_group` puts the inputs together: when the frames of LRD or LRW that wait on
  -- the stack arrive whole, in order, and their entries lie one behind the other from `to` on, the image
  -- has the data of all frames from there on and is the same elsewhere; the result is the sum of the
  -- working counters of the process data, which is the first datagram's where the first frame has a
  -- second one, and then `DCtime` is the time in that one, and otherwise as before. The stack is empty
  -- afterwards, and each index was released after its frame.
  pub receive_processdata-Arrives :
      (to : ℕ) (rs : List Answer) (b : Bus W) (t : Net W)
      → IsValid b.idxstack
      → b.idxstack.pulled < b.idxstack.pushed
      → let es = pending b.idxstack in
        AllArrive true to es rs b.net t
        → (b' : Bus W) × (receive_processdata os timeout b ≡ some (pos (total_wkc es rs), b'))
          × (b'.iomap ≡ write_at b.iomap to (concat (inputs es rs)))
          × (b'.dc_time ≡ time_of es rs b.dc_time)
          × (pending b'.idxstack ≡ [])
          × (b'.net ≡ t)
  unfolding clear_index
  receive_processdata-Arrives to rs b t v some_left all =
      let s = b.idxstack in
      let (r, e, puts) =
        receive_loop-Puts 17 (s.pushed - s.pulled) 0 to false true rs b t (omega (arith, v.order))
          (omega (arith, v.pushed_in)) (λ c. refl) all in
      (
        record r.2 { idxstack = clear_index r.2.idxstack },
        closed to (pending s) rs b t r e
            (omega (arith, length-entries s s.pulled (s.pushed - s.pulled))) puts,
        puts.image,
        puts.time,
        refl,
        puts.left,
      )
