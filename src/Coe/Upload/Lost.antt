-- ===== src/Coe/Upload/Lost.antt =====
-- The loop of `ecx_SDOread` over the segments, when the slave is lost on the way.
use e_rob_soem_linux.Base.{ℕ, zero, suc, ◌≡◌, refl, false, some, none, bit_xor, Bytes}
use e_rob_soem_linux.Base.Int.{ℤ, is_positive}
use e_rob_soem_linux.Task.{◌>>=◌}
use e_rob_soem_linux.Mailbox.Channel.{Channel, ec_timeouttxm}
use e_rob_soem_linux.Coe.Upload.{Segments, upload_segment_request, read_segment, read_segments}

module _ {S : Type 0} (ch : Channel S) (index subindex timeout : ℕ) where
  -- Once no mailbox reaches the slave any more, the loop of `ecx_SDOread` over the segments goes on
  -- for ever: no number of rounds ends it, as nothing in it looks at the working counter of a
  -- mailbox that was not sent.
  pub read_segments_diverges :
      (fuel : ℕ) (v : Segments) (s : S)
      → ((t : S) → (r : ℕ × S) × (ch.count t ≡ some r))
      → ((mbx : Bytes) (n : ℕ) (t : S)
          → (r : ℤ × S) × (ch.send mbx n t ≡ some r) × (is_positive r.0 ≡ false))
      → read_segments ch index subindex timeout fuel v s ≡ none
  unfolding read_segments read_segment ◌>>=◌
  read_segments_diverges zero v s counts lost = refl
  read_segments_diverges (suc fuel) v s counts lost =
      let (c, counted) = counts s in
      let (r, sent, zero_wkc) =
        lost (upload_segment_request v.toggle index subindex c.0) ec_timeouttxm c.1 in
      rw (counted, sent, zero_wkc, read_segments, read_segment, ◌>>=◌)
        (read_segments_diverges fuel
          (record { out = record v.out { wkc = r.0 }; hp = v.hp; toggle = bit_xor v.toggle 0x10 })
          r.1 counts lost)
