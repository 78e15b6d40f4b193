-- ===== src/ProcessData/Receive.antt =====
-- Receiving takes every frame that was sent, and writes to the image only where inputs belong.
use e_rob_soem_linux.Base.{
  ℕ, subst, zero, suc, ◌+◌, ◌-◌, ◌≤◌, ◌<◌, ◌≡◌, ◌⊎◌, refl, sym, ap, ◌∙◌, arith, Bool, false, List,
  [], ◌∷◌, some, if◌then◌else◌, Bytes, get_or, length, read_at, write_at, get_or-write_at_below,
  get_or-write_at_above, length-write_at, length-take, drop, inl, inr,
}
use e_rob_soem_linux.Base.Int.{ℤ, pos, negsuc}
use e_rob_soem_linux.Osal.{Os, IsClock}
use e_rob_soem_linux.Datagram.{ec_headersize}
use e_rob_soem_linux.Link.Total.{wait_in_frame_returns}
use e_rob_soem_linux.Link.{Net, ec_noframe}
use e_rob_soem_linux.Primitives.{rx_frame, release}
use e_rob_soem_linux.IndexStack.{Entry, entry_at, clear_index}
use e_rob_soem_linux.IndexStack.Fifo.{
  IsValid, entries, pending, entries-pull, pull_waiting, pull_empty,
}
use e_rob_soem_linux.ProcessData.{
  Bus, Received, take_inputs, wait, receive_loop, receive_processdata,
}

-- No entry has the place `j` among its inputs.
abbrev pub Outside : ℕ → List Entry → Type 0
Outside j [] = Unit {0}
Outside j (e ∷ es) = ((j < e.data_ptr) ⊎ (e.data_ptr + e.len ≤ j)) × Outside j es

image-outside :
    (m rx : Bytes) (e : Entry) (j : ℕ)
    → (j < e.data_ptr) ⊎ (e.data_ptr + e.len ≤ j)
    → get_or (write_at m e.data_ptr (read_at rx ec_headersize e.len)) j 0 ≡ get_or m j 0
image-outside m rx e j (inl below) =
    get_or-write_at_below m e.data_ptr (read_at rx ec_headersize e.len) j 0 below
image-outside m rx e j (inr above) =
    get_or-write_at_above m e.data_ptr (read_at rx ec_headersize e.len) j 0
      (omega (arith, length-take e.len (drop ec_headersize rx)))

take_inputs-outside :
    (rx : Bytes) (wkc : ℤ) (e : Entry) (r : Received) (j : ℕ)
    → (j < e.data_ptr) ⊎ (e.data_ptr + e.len ≤ j)
    → get_or (take_inputs rx wkc e r).iomap j 0 ≡ get_or r.iomap j 0
unfolding take_inputs
take_inputs-outside rx (negsuc k) e r j h = refl
take_inputs-outside rx (pos k) e r j h = ground (arith, image-outside r.iomap rx e j h)

length-take_inputs :
    (rx : Bytes) (wkc : ℤ) (e : Entry) (r : Received)
    → length (take_inputs rx wkc e r).iomap ≡ length r.iomap
unfolding take_inputs
length-take_inputs rx (negsuc k) e r = refl
length-take_inputs rx (pos k) e r =
    ground (arith, length-write_at r.iomap e.data_ptr (read_at rx ec_headersize e.len))

module _ {W : Type 0} (os : Os W) where
  -- What the frame of the next entry makes of the bus, and of `wkc` and `valid_wkc`.
  abbrev pub received : ℕ → Bool → Bus W → ℤ × Net W → Received
  received wkc valid b q =
      let e = entry_at b.idxstack b.idxstack.pulled in
      take_inputs (rx_frame q.1 e.idx) q.0 e
        (record { iomap = b.iomap; dc_time = b.dc_time; wkc = wkc; valid = valid })

  abbrev pub after_frame : ℕ → Bool → Bus W → ℤ × Net W → Bus W
  after_frame wkc valid b q =
      let s = b.idxstack in
      let r = received wkc valid b q in
      record b {
        net = release (entry_at s s.pulled).idx q.1;
        iomap = r.iomap;
        dc_time = r.dc_time;
        idxstack = record s { pulled = s.pulled + 1 };
      }

  pub receive_step :
      (fuel timeout wkc : ℕ) (valid : Bool) (b : Bus W) (q : ℤ × Net W)
      → b.idxstack.pulled < b.idxstack.pushed
      → wait os (entry_at b.idxstack b.idxstack.pulled).idx timeout b.net ≡ some q
      → receive_loop os (suc fuel) timeout wkc valid b
        ≡ receive_loop os fuel timeout
            (received wkc valid b q).wkc
            (received wkc valid b q).valid
            (after_frame wkc valid b q)
  unfolding receive_loop
  receive_step fuel timeout wkc valid b q h e =
      rw (pull_waiting b.idxstack h, receive_loop) (rw e (rw (pull_waiting b.idxstack h) refl))

module _ {W : Type 0} (os : Os W) (us : W → ℕ) (clock : IsClock os us) where
  -- The loop has taken the frames that waited.
  record Taken (j : ℕ) (b c : Bus W) : Type 0 where
    all : c.idxstack.pushed ≤ c.idxstack.pulled
    same_length : length c.iomap ≡ length b.iomap
    same_byte : Outside j (pending b.idxstack) → get_or c.iomap j 0 ≡ get_or b.iomap j 0

  after_frame-Taken :
      (j k wkc : ℕ) (valid : Bool) (b : Bus W) (q : ℤ × Net W) (c : Bus W)
      → b.idxstack.pulled + suc k ≡ b.idxstack.pushed
      → Taken j (after_frame os wkc valid b q) c
      → Taken j b c
  after_frame-Taken j k wkc valid b q c e t =
      let s = b.idxstack in
      let entry = entry_at s s.pulled in
      let rx = rx_frame q.1 entry.idx in
      let before : Received = record {
        iomap = b.iomap;
        dc_time = b.dc_time;
        wkc = wkc;
        valid = valid;
      } in
      let left : s.pushed - s.pulled ≡ suc k = omega arith in
      let left' : s.pushed - (s.pulled + 1) ≡ k = omega arith in
      record {
        all = t.all;
        same_length = t.same_length ∙ length-take_inputs rx q.0 entry before;
        same_byte = λ o.
            let here = subst (λ n. Outside j (entries s s.pulled n)) left o in
            let there =
              subst (Outside j)
                (sym (
                  ap (entries (record s { pulled = s.pulled + 1 }) (s.pulled + 1)) left'
                  ∙ entries-pull s (s.pulled + 1) k))
                here.1 in
            t.same_byte there ∙ take_inputs-outside rx q.0 entry before j here.0;
      }

  receive_loop-Taken :
      (j fuel k timeout wkc : ℕ) (valid : Bool) (b : Bus W)
      → b.idxstack.pulled + k ≡ b.idxstack.pushed
      → k < fuel
      → (r : ℕ × Bool × Bus W) × (receive_loop os fuel timeout wkc valid b ≡ some r) × Taken j b r.2
  unfolding receive_loop
  receive_loop-Taken j zero k timeout wkc valid b e h = absurd (omega arith)
  receive_loop-Taken j (suc fuel) zero timeout wkc valid b e h = (
    (wkc, valid, b),
    rw (pull_empty b.idxstack (omega arith), receive_loop)
        (rw (pull_empty b.idxstack (omega arith)) refl),
    record { all = omega arith; same_length = refl; same_byte = λ o. refl },
  )
  receive_loop-Taken j (suc fuel) (suc k) timeout wkc valid b e h =
      let (q, eq, t) =
        wait_in_frame_returns os us clock (suc timeout + 2001)
          (entry_at b.idxstack b.idxstack.pulled).idx timeout b.net (omega arith) (omega arith) in
      let (p, e', taken) =
        receive_loop-Taken j fuel k timeout (received os wkc valid b q).wkc
          (received os wkc valid b q).valid (after_frame os wkc valid b q) (omega arith)
          (omega arith) in
      (
        p,
        receive_step os fuel timeout wkc valid b q (omega arith) eq ∙ e',
        after_frame-Taken j k wkc valid b q p.2 e taken,
      )

  -- `ecx_receive_processdata_group` returns after the frames that wait on the stack, 16 at most, if the
  -- clock goes on; the stack is empty afterwards, the image keeps its length, and so does each of its bytes that lies in
  -- no waiting entry.
  pub receive_processdata_lem :
      (timeout j : ℕ) (b : Bus W)
      → IsValid b.idxstack
      → (r : ℤ × Bus W) × (receive_processdata os timeout b ≡ some r)
        × (pending r.1.idxstack ≡ [])
        × (length r.1.iomap ≡ length b.iomap)
        × (Outside j (pending b.idxstack) → get_or r.1.iomap j 0 ≡ get_or b.iomap j 0)
  unfolding receive_processdata clear_index
  receive_processdata_lem timeout j b v =
      let s = b.idxstack in
      let (r, e, t) =
        receive_loop-Taken j 17 (s.pushed - s.pulled) timeout 0 false b (omega (arith, v.order))
          (omega (arith, v.pushed_in)) in
      (
        ((if r.1 then pos r.0 else ec_noframe), record r.2 { idxstack = clear_index r.2.idxstack }),
        rw (e, receive_processdata) refl,
        refl,
        t.same_length,
        t.same_byte,
      )
