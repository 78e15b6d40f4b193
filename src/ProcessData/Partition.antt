-- ===== src/ProcessData/Partition.antt =====
-- The frames of LRW partition the process image.
use e_rob_soem_linux.Base.{
  ℕ, zero, suc, ◌+◌, ◌-◌, ◌%◌, ◌^◌, ◌≤◌, ◌<◌, ◌≡◌, refl, ap, ap₂, sym, subst, append-nil, read_at,
  ◌∙◌, arith, Bool, false, List, [], ◌∷◌, ◌++◌, map, if◌then◌else◌, ltb, ◌==◌, ◌&&◌, append_assoc,
  Bytes, length,
}
use e_rob_soem_linux.Osal.{Os}
use e_rob_soem_linux.Datagram.{lrw}
use e_rob_soem_linux.IndexStack.{IndexStack, Entry, max_buf}
use e_rob_soem_linux.IndexStack.Fifo.{IsValid, push-IsValid, push-pending, push_fields, pending}
use e_rob_soem_linux.ProcessData.{
  Group, Bus, segment, send_segment, send_loop, send_both, send_processdata,
}
use e_rob_soem_linux.ProcessData.Buffers.{IsRecord, HasBuffers}
use e_rob_soem_linux.ProcessData.Frames.{Carries}
use e_rob_soem_linux.ProcessData.Segments.{place, Fits, Sends, send_segment-Sends}

-- The lengths of `n` segments from the segment `i` on, and their sum.
abbrev pub lengths : ℕ → ℕ → Group → List ℕ
lengths zero i g = []
lengths (suc n) i g = segment g i ∷ lengths n (i + 1) g

abbrev pub sum : List ℕ → ℕ
sum [] = 0
sum (l ∷ ls) = l + sum ls

-- Segments that are not empty and have room in their frames.
abbrev pub AllFit : Bool → List ℕ → Type 0
AllFit first [] = Unit {0}
AllFit first (l ∷ ls) = (0 < l) × Fits first l × AllFit false ls

-- Pieces of these lengths that follow one another from `at` on: where each begins, and its length.
abbrev pub layout : ℕ → List ℕ → List (ℕ × ℕ)
layout at [] = []
layout at (l ∷ ls) = (at, l) ∷ layout (at + l) ls

-- Entries and frames that belong together, one after the other, from the offset `off` on: the bytes of
-- the image `m` behind `at`, at the logical addresses behind `base`.
abbrev pub AllCarry : ℕ → Bytes → Bytes → ℕ → ℕ → Bool → ℕ → List Entry → List Bytes → Type 0
AllCarry dcs time m base at first off [] [] = Unit {0}
AllCarry dcs time m base at first off (e ∷ es) (f ∷ fs) =
    Carries dcs time first ((base + off) % 2 ^ 32) (read_at m (at + off) e.len) e f
    × AllCarry dcs time m base at false (off + e.len) es fs
AllCarry dcs time m base at first off [] (f ∷ fs) = ⊥
AllCarry dcs time m base at first off (e ∷ es) [] = ⊥

-- What the frames of some segments leave.
pub record SendsAll {W : Type 0} (sent : W → List Bytes) (dcs base at to : ℕ) (first : Bool)
    (off : ℕ) (ls : List ℕ) (b b' : Bus W) : Type 0 where
  pub entries : List Entry
  pub frames : List Bytes
  pub waiting : pending b'.idxstack ≡ pending b.idxstack ++ entries
  pub places : map place entries ≡ layout (to + off) ls
  pub recorded : sent b'.net.world ≡ sent b.net.world ++ frames
  pub carried : AllCarry dcs b.dc_time b.iomap base at first off entries frames

none-SendsAll :
    {W : Type 0} (sent : W → List Bytes) (dcs base at to off : ℕ) (b : Bus W)
    → SendsAll sent dcs base at to false off [] b b
none-SendsAll sent dcs base at to off b = record {
  entries = [];
  frames = [];
  waiting = sym (append-nil (pending b.idxstack));
  places = refl;
  recorded = sym (append-nil (sent b.net.world));
  carried = tt;
}

-- One frame, and those that follow it.
more-SendsAll :
    {W : Type 0} (sent : W → List Bytes) (dcs base at to size : ℕ) (first : Bool) (off : ℕ)
    (ls : List ℕ) (b b' b'' : Bus W)
    → b.idxstack.pushed < max_buf
    → IsValid b.idxstack
    → Sends sent dcs first ((base + off) % 2 ^ 32) size (at + off) (to + off) b b'
    → SendsAll sent dcs base at to false (off + size) ls b' b''
    → SendsAll sent dcs base at to first off (size ∷ ls) b b''
more-SendsAll sent dcs base at to size first off ls b b' b'' room valid s r = record {
  entries = s.entry ∷ r.entries;
  frames = s.frame ∷ r.frames;
  waiting =
      r.waiting
      ∙ ap (λ l. l ++ r.entries) (ap pending s.pushed ∙ push-pending s.entry b.idxstack valid room)
      ∙ append_assoc (pending b.idxstack) (s.entry ∷ []) r.entries;
  places = ap₂ (λ (x : ℕ × ℕ) l. x ∷ l) s.placed (r.places ∙ ap (λ a. layout a ls) (omega arith));
  recorded =
      r.recorded
      ∙ ap (λ l. l ++ r.frames) s.recorded
      ∙ append_assoc (sent b.net.world) (s.frame ∷ []) r.frames;
  carried = (
    subst
        (λ k.
          Carries dcs b.dc_time first ((base + off) % 2 ^ 32) (read_at b.iomap (at + off) k) s.entry
            s.frame)
        (sym len) s.carries,
    subst (λ k. AllCarry dcs b.dc_time b.iomap base at false (off + k) r.entries r.frames) (sym len)
        (subst (λ t. AllCarry dcs t b.iomap base at false (off + size) r.entries r.frames)
          s.same_time
          (subst (λ m. AllCarry dcs b'.dc_time m base at false (off + size) r.entries r.frames)
            s.same_image r.carried)),
  );
}
  where
    len : s.entry.len ≡ size
    len = ap (λ (x : ℕ × ℕ). x.1) s.placed

-- Where the outgoing bytes of LRW begin, where the answers go, and how many bytes there are.
abbrev pub data_start : Group → ℕ
data_start g = if ltb 0 g.obytes then g.outputs else g.inputs

abbrev pub answer_start : Bool → Group → ℕ
answer_start overlap g = data_start g + (if overlap && ltb 0 g.obytes then g.obytes else 0)

abbrev pub transfer_size : Bool → Group → ℕ
transfer_size overlap g =
    if overlap then (if ltb g.ibytes g.obytes then g.obytes else g.ibytes) else g.obytes + g.ibytes

module _ {W : Type 0} (os : Os W) (sent : W → List Bytes) (seen : IsRecord os sent) (dcs : ℕ)
    (known : dcs < 65536) (g : Group) where
  send_loop-SendsAll :
      (total base at to more i off : ℕ) (first : Bool) (b : Bus W)
      → HasBuffers b.net.port
      → IsValid b.idxstack
      → b.idxstack.pushed + suc more ≤ max_buf
      → length b.dc_time ≡ 8
      → at + total ≤ length b.iomap
      → AllFit first (lengths (suc more) i g)
      → off + sum (lengths (suc more) i g) ≡ total
      → SendsAll sent dcs base at to first off
          (lengths (suc more) i g)
          b
          (send_loop os dcs lrw (λ j sent. segment g j) total base at to more i off first b)
  unfolding send_loop
  send_loop-SendsAll total base at to zero i off first b v valid room time inside fits all =
      let size = segment g i in
      let la = (base + off) % 2 ^ 32 in
      let b' = send_segment os dcs lrw first la size (at + off) (to + off) b in
      let s =
        send_segment-Sends os sent seen dcs known first la size (at + off) (to + off) b v
          (omega arith) (omega arith) time fits.1 in
      more-SendsAll sent dcs base at to size first off [] b b' b' (omega arith) valid s
        (none-SendsAll sent dcs base at to (off + size) b')
  send_loop-SendsAll total base at to (suc more) i off first b v valid room time inside fits all =
      let size = segment g i in
      let la = (base + off) % 2 ^ 32 in
      let b' = send_segment os dcs lrw first la size (at + off) (to + off) b in
      let s =
        send_segment-Sends os sent seen dcs known first la size (at + off) (to + off) b v
          (omega arith) (omega arith) time fits.1 in
      let valid' = subst IsValid (sym s.pushed) (push-IsValid s.entry b.idxstack valid) in
      let count : b'.idxstack.pushed ≡ suc b.idxstack.pushed =
        ap (λ (t : IndexStack). t.pushed) s.pushed
        ∙ (push_fields s.entry b.idxstack (omega arith)).0 in
      let going : (off + size == total) ≡ false = ground arith in
      let rest =
        send_loop-SendsAll total base at to more (i + 1) (off + size) false b' s.buffers valid'
          (omega (arith, count)) (ap length s.same_time ∙ time)
          (omega (arith, ap length s.same_image)) fits.2 (omega (arith, all)) in
      rw (going, send_loop)
        (more-SendsAll sent dcs base at to size first off (lengths (suc more) (i + 1) g) b b' _
          (omega arith) valid s rest)

  unblocked :
      (overlap : Bool) (n : ℕ) (b : Bus W)
      → g.block_lrw ≡ false
      → g.nsegments ≡ suc n
      → 0 < g.obytes + g.ibytes
      → send_processdata os dcs overlap g b ≡ (
        1,
        send_loop os dcs lrw
            (λ j sent. segment g j)
            (transfer_size overlap g)
            g.logstartaddr
            (data_start g)
            (answer_start overlap g)
            n
            0
            0
            g.hasdc
            b,
      )
  unfolding send_processdata send_both
  unblocked overlap n b allowed segs some_data =
      let more : g.nsegments - 1 ≡ n = omega arith in
      let test : (g.obytes + g.ibytes == 0) ≡ false = ground arith in simp (allowed, test, more)

  -- Where LRW is allowed, `ecx_send_processdata_group` and `ecx_send_overlap_processdata_group` send the
  -- process image in one frame for each segment and return 1. The frames that go out on the primary
  -- socket are, in order, one for each new entry of the stack: each holds LRW for the next bytes of the
  -- image, without a gap from its start on, at the logical address as far behind the group's; with
  -- distributed clocks the first one, and no other, also reads the system time of the slave `dcs`, and
  -- its entry has the place of that answer. The entries give the answers their places, one behind the
  -- other: where the bytes came from, or behind the outputs where the maps overlap. The stack has room;
  -- the segments are not empty, fit into their frames and add up to the bytes to be sent, which lie
  -- within the image; the transmit buffers have their sizes.
  pub send_processdata-SendsAll :
      (overlap : Bool) (n : ℕ) (b : Bus W)
      → HasBuffers b.net.port
      → IsValid b.idxstack
      → b.idxstack.pushed + suc n ≤ max_buf
      → length b.dc_time ≡ 8
      → g.block_lrw ≡ false
      → g.nsegments ≡ suc n
      → AllFit g.hasdc (lengths (suc n) 0 g)
      → sum (lengths (suc n) 0 g) ≡ transfer_size overlap g
      → data_start g + transfer_size overlap g ≤ length b.iomap
      → let (wkc, b') = send_processdata os dcs overlap g b in
        (wkc ≡ 1)
        × SendsAll sent dcs g.logstartaddr
            (data_start g)
            (answer_start overlap g)
            g.hasdc
            0
            (lengths (suc n) 0 g)
            b
            b'
  send_processdata-SendsAll overlap n b v valid room time allowed segs fits all inside =
      let some_data : 0 < g.obytes + g.ibytes = ground (arith, fits.0, all) in
      rw (unblocked overlap n b allowed segs some_data) (
        refl,
        send_loop-SendsAll (transfer_size overlap g) g.logstartaddr (data_start g)
            (answer_start overlap g) n 0 0 g.hasdc b v valid room time inside fits
            (omega (arith, all)),
      )
