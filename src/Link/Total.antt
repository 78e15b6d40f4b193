-- ===== src/Link/Total.antt =====
-- The waiting loops of nicdrv.c end: each round reads the clock, so as many rounds as the timeout
-- has microseconds are enough.
use e_rob_soem_linux.Base.{
  ℕ, zero, suc, ◌+◌, ◌-◌, ◌≤◌, ◌<◌, ◌≡◌, refl, ap, arith, Bool, true, false, Option, some,
  if◌then◌else◌, ltb, Bool-cases, inl, inr, ◌&&◌, ◌||◌, ◌==◌, write_at, get_or, set, [],
}
use e_rob_soem_linux.Base.Int.{ℤ, pos, is_negative}
use e_rob_soem_linux.Osal.{Time, Os, IsClock, us_of, timer_is_expired}
use e_rob_soem_linux.Osal.Timer.{not_expired_lt}
use e_rob_soem_linux.Link.{
  Net, out_frame, out_dummy, out_frame_red, recv_pkt, in_frame, read_both, wait_both, wait_second,
  expired, start, resend, reroute, wait_in_frame_red, wait_in_frame, send_and_wait, retry,
  sr_confirm, ec_timeoutret, copy_second, copy_to_tx, be16, take_second, rx_prim, rx_sec,
  ec_noframe,
}

module _ {W : Type 0} (os : Os W) (us : W → ℕ) (clock : IsClock os us) where
  -- `d` is past every reading at which the timer is not expired.
  abbrev pub Deadline : Time → ℕ → Type 0
  Deadline stop d = (t : Time) → t.usec < 1000000 → timer_is_expired t stop ≡ false → us_of t < d

  pub start-Deadline :
      (timeout : ℕ) (n : Net W) → Deadline (start os timeout n).0 (us n.world + timeout)
  start-Deadline timeout n t small e = omega (
    arith,
    not_expired_lt (os.now n.world).0 t timeout (clock.usec_small n.world) small e,
    clock.reads n.world,
  )

  pub not_expired :
      (stop : Time) (d : ℕ) (n : Net W)
      → Deadline stop d
      → (expired os stop n).0 ≡ false
      → us n.world < d
  not_expired stop d n dl e =
      omega (arith, dl (os.now n.world).0 (clock.usec_small n.world) e, clock.reads n.world)

  recv_pkt_us : (second : Bool) (n : Net W) → us n.world ≤ us (recv_pkt os second n).1.world
  unfolding recv_pkt
  recv_pkt_us second n = clock.recv_keeps n.world second

  in_frame_us :
      (idx : ℕ) (second : Bool) (n : Net W) → us n.world ≤ us (in_frame os idx second n).1.world
  unfolding in_frame
  in_frame_us idx second n = ground (arith, recv_pkt_us second n)

  out_frame_us :
      (idx : ℕ) (second : Bool) (n : Net W) → us n.world ≤ us (out_frame os idx second n).1.world
  unfolding out_frame
  out_frame_us idx second n = clock.send_keeps n.world second _

  out_dummy_us : (idx : ℕ) (n : Net W) → us n.world ≤ us (out_dummy os idx n).world
  unfolding out_dummy
  out_dummy_us idx n = clock.send_keeps n.world true _

  out_frame_red_us : (idx : ℕ) (n : Net W) → us n.world ≤ us (out_frame_red os idx n).1.world
  unfolding out_frame_red
  out_frame_red_us idx n =
      let port = n.port in
      let frame = write_at (get_or port.txbuf idx []) 8 (be16 rx_prim) in
      let n₀ : Net W = record n { port = record port { txbuf = set port.txbuf idx frame } } in
      let n₁ = (out_frame os idx false n₀).1 in
      ground (arith, out_frame_us idx false n₀, out_dummy_us idx n₁)

  read_both_us :
      (idx : ℕ) (wkc wkc2 : ℤ) (n : Net W)
      → us n.world ≤ us (read_both os idx (wkc, wkc2, n)).2.world
  unfolding read_both
  read_both_us idx wkc wkc2 n = ground (
    arith,
    in_frame_us idx false n,
    in_frame_us idx true n,
    in_frame_us idx true (in_frame os idx false n).1,
  )

  -- A loop that has returned, and the clock was not put back.
  abbrev pub Returned : {A : Type 0} → W → (A → W) → Option A → Type 0
  Returned {A} w world o = (r : A) × (o ≡ some r) × (us w ≤ us (world r))

  pub expired_us : (stop : Time) (n : Net W) → us n.world < us (expired os stop n).1.world
  expired_us stop n = clock.advances n.world

  pub start_us : (timeout : ℕ) (n : Net W) → us n.world ≤ us (start os timeout n).1.world
  start_us timeout n = omega (arith, clock.advances n.world)

  wait_both_total :
      (fuel idx : ℕ) (stop : Time) (d : ℕ) (wkc wkc2 : ℤ) (n : Net W)
      → Deadline stop d
      → d - us n.world < fuel
      → Returned n.world
          (λ (r : ℤ × ℤ × Net W). r.2.world)
          (wait_both os fuel idx stop (wkc, wkc2, n))
  unfolding wait_both
  wait_both_total zero idx stop d wkc wkc2 n dl h = absurd (omega arith)
  wait_both_total (suc fuel) idx stop d wkc wkc2 n dl h =
      let s = read_both os idx (wkc, wkc2, n) in
      let more = read_both_us idx wkc wkc2 n in
      elim (Bool-cases (is_negative s.0 || is_negative s.1)) [
        | inr done ↦ (s, rw (done, wait_both), more)
        | inl going ↦ elim (Bool-cases (expired os stop s.2).0) [
          | inl late ↦ (
            (s.0, s.1, (expired os stop s.2).1),
            rw (going, late, wait_both),
            omega (arith, more, expired_us stop s.2),
          )
          | inr early ↦
              let next = (expired os stop s.2).1 in
              let rest =
                wait_both_total fuel idx stop d s.0 s.1 next dl
                  (omega (arith, more, expired_us stop s.2, not_expired stop d s.2 dl early)) in
              (
                rest.0,
                rw (going, early, wait_both) rest.1,
                omega (arith, more, expired_us stop s.2, rest.2),
              )
        ]
      ]

  wait_second_total :
      (fuel idx : ℕ) (stop : Time) (d : ℕ) (n : Net W)
      → Deadline stop d
      → d - us n.world < fuel
      → Returned n.world (λ (r : ℤ × Net W). r.1.world) (wait_second os fuel idx stop n)
  unfolding wait_second
  wait_second_total zero idx stop d n dl h = absurd (omega arith)
  wait_second_total (suc fuel) idx stop d n dl h =
      let s = in_frame os idx true n in
      let more = in_frame_us idx true n in
      elim (Bool-cases (is_negative s.0)) [
        | inr done ↦ (s, rw (done, wait_second), more)
        | inl going ↦ elim (Bool-cases (expired os stop s.1).0) [
          | inl late ↦ (
            (s.0, (expired os stop s.1).1),
            rw (going, late, wait_second),
            omega (arith, more, expired_us stop s.1),
          )
          | inr early ↦
              let next = (expired os stop s.1).1 in
              let rest =
                wait_second_total fuel idx stop d next dl
                  (omega (arith, more, expired_us stop s.1, not_expired stop d s.1 dl early)) in
              (
                rest.0,
                rw (going, early, wait_second) rest.1,
                omega (arith, more, expired_us stop s.1, rest.2),
              )
        ]
      ]

  take_second_us :
      (idx : ℕ) (wkc : ℤ) (r : ℤ × Net W) → (take_second os idx wkc r).1.world ≡ r.1.world
  take_second_us idx wkc (wkc2, n) = ground arith

  resend_total :
      (fuel idx : ℕ) (wkc : ℤ) (n : Net W)
      → ec_timeoutret < fuel
      → Returned n.world (λ (r : ℤ × Net W). r.1.world) (resend os fuel idx wkc n)
  unfolding resend
  resend_total fuel idx wkc n h =
      let n₁ = (start os ec_timeoutret n).1 in
      let n₂ = (out_frame os idx true n₁).1 in
      let stop = (start os ec_timeoutret n).0 in
      let a = start_us ec_timeoutret n in
      let b = out_frame_us idx true n₁ in
      let (r, e, c) =
        wait_second_total fuel idx stop (us n.world + 2000) n₂ (start-Deadline ec_timeoutret n)
          (omega (arith, a, b)) in
      (
        take_second os idx wkc r,
        rw (e, resend),
        rw (take_second_us idx wkc r) (omega (arith, a, b, c)),
      )

  reroute_total :
      (fuel idx : ℕ) (wkc wkc2 : ℤ) (n : Net W)
      → ec_timeoutret < fuel
      → Returned n.world (λ (r : ℤ × Net W). r.1.world) (reroute os fuel idx (wkc, wkc2, n))
  unfolding reroute
  reroute_total fuel idx wkc wkc2 n h =
      let primrx = if is_negative wkc then 0 else get_or n.port.primary.rxsa idx 0 in
      let secrx = if is_negative wkc2 then 0 else get_or n.port.secondary.rxsa idx 0 in
      let crossed = primrx == rx_sec && secrx == rx_prim in
      let wkc' = if crossed then wkc2 else wkc in
      let n' : Net W = if crossed then record n { port = copy_second os idx n.port } else n in
      let both_back = primrx == rx_prim && secrx == rx_sec in
      let p = if both_back then copy_to_tx os idx n'.port else n'.port in
      let same : n'.world ≡ n.world = same_world crossed n in
      elim (Bool-cases ((primrx == 0 && secrx == rx_sec) || both_back)) [
        | inl again ↦
            let (r, e, c) = resend_total fuel idx wkc' (record n' { port = p }) h in
            (r, rw (again, reroute) e, omega (arith, c, ap us same))
        | inr fine ↦ ((wkc', n'), rw (fine, reroute), omega (arith, ap us same))
      ]
    where
      same_world :
          (b : Bool) (n : Net W)
          → (if b then record n { port = copy_second os idx n.port } else n).world ≡ n.world
      same_world true n = refl
      same_world false n = refl

  wait_in_frame_red_total :
      (fuel idx : ℕ) (stop : Time) (d : ℕ) (n : Net W)
      → Deadline stop d
      → d - us n.world < fuel
      → ec_timeoutret < fuel
      → Returned n.world (λ (r : ℤ × Net W). r.1.world) (wait_in_frame_red os fuel idx stop n)
  unfolding wait_in_frame_red
  wait_in_frame_red_total fuel idx stop d n dl h k =
      let wkc2 = if n.port.redundant then ec_noframe else pos 0 in
      let (r, e, c) = wait_both_total fuel idx stop d ec_noframe wkc2 n dl h in
      elim (Bool-cases r.2.port.redundant) [
        | inr single ↦ ((r.0, r.2), rw (e, single, wait_in_frame_red), c)
        | inl redundant ↦
            let (q, e', c') = reroute_total fuel idx r.0 r.1 r.2 k in
            (q, rw (e, redundant, wait_in_frame_red) e', omega (arith, c, c'))
      ]

  pub wait_in_frame_returns :
      (fuel idx timeout : ℕ) (n : Net W)
      → timeout < fuel
      → ec_timeoutret < fuel
      → Returned n.world (λ (r : ℤ × Net W). r.1.world) (wait_in_frame os fuel idx timeout n)
  unfolding wait_in_frame
  wait_in_frame_returns fuel idx timeout n h k =
      let a = start_us timeout n in
      let (r, e, c) =
        wait_in_frame_red_total fuel idx (start os timeout n).0 (us n.world + timeout)
          (start os timeout n).1 (start-Deadline timeout n) (omega (arith, a)) k in
      (r, e, omega (arith, a, c))

  -- `ecx_waitinframe` returns: the timeout's microseconds, and EC_TIMEOUTRET, bound its polls.
  pub wait_in_frame_total :
      (fuel idx timeout : ℕ) (n : Net W)
      → timeout < fuel
      → ec_timeoutret < fuel
      → (r : ℤ × Net W) × (wait_in_frame os fuel idx timeout n ≡ some r)
  wait_in_frame_total fuel idx timeout n h k =
      let (r, e, c) = wait_in_frame_returns fuel idx timeout n h k in (r, e)

  send_and_wait_total :
      (fuel idx timeout : ℕ) (n : Net W)
      → ec_timeoutret < fuel
      → Returned n.world (λ (r : ℤ × Net W). r.1.world) (send_and_wait os fuel idx timeout n)
  unfolding send_and_wait
  send_and_wait_total fuel idx timeout n h =
      let t = if ltb timeout ec_timeoutret then timeout else ec_timeoutret in
      let t-le : t ≤ 2000 = ground arith in
      let n₁ = (out_frame_red os idx n).1 in
      let a = out_frame_red_us idx n in
      let b = start_us t n₁ in
      let (r, e, c) =
        wait_in_frame_red_total fuel idx (start os t n₁).0 (us n₁.world + t) (start os t n₁).1
          (start-Deadline t n₁) (omega (arith, b, t-le)) h in
      (r, e, omega (arith, a, b, c))

  retry_total :
      (rounds polls idx timeout : ℕ) (stop : Time) (d : ℕ) (n : Net W)
      → Deadline stop d
      → d - us n.world < rounds
      → ec_timeoutret < polls
      → Returned n.world (λ (r : ℤ × Net W). r.1.world) (retry os rounds polls idx timeout stop n)
  unfolding retry
  retry_total zero polls idx timeout stop d n dl h k = absurd (omega arith)
  retry_total (suc rounds) polls idx timeout stop d n dl h k =
      let (s, e, more) = send_and_wait_total polls idx timeout n k in
      let later = expired_us stop s.1 in
      elim (Bool-cases (is_negative s.0)) [
        | inr done ↦ (s, rw (e, done, retry), more)
        | inl going ↦ elim (Bool-cases (expired os stop s.1).0) [
          | inl late ↦ (
            (s.0, (expired os stop s.1).1),
            rw (e, going, late, retry),
            omega (arith, more, later),
          )
          | inr early ↦
              let next = (expired os stop s.1).1 in
              let rest =
                retry_total rounds polls idx timeout stop d next dl
                  (omega (arith, more, later, not_expired stop d s.1 dl early)) k in
              (rest.0, rw (e, going, early, retry) rest.1, omega (arith, more, later, rest.2))
        ]
      ]

  pub sr_confirm_returns :
      (rounds polls idx timeout : ℕ) (n : Net W)
      → timeout < rounds
      → ec_timeoutret < polls
      → Returned n.world (λ (r : ℤ × Net W). r.1.world) (sr_confirm os rounds polls idx timeout n)
  unfolding sr_confirm
  sr_confirm_returns rounds polls idx timeout n h k =
      let a = start_us timeout n in
      let (r, e, c) =
        retry_total rounds polls idx timeout (start os timeout n).0 (us n.world + timeout)
          (start os timeout n).1 (start-Deadline timeout n) (omega (arith, a)) k in
      (r, e, omega (arith, a, c))

  -- `ecx_srconfirm` returns, whatever is received, if the clock goes on from one reading to the next:
  -- one round of sending more than its timeout has microseconds is enough fuel, and for each of the two
  -- polling loops of a wait one round more than EC_TIMEOUTRET has.
  pub sr_confirm_total :
      (rounds polls idx timeout : ℕ) (n : Net W)
      → timeout < rounds
      → ec_timeoutret < polls
      → (r : ℤ × Net W) × (sr_confirm os rounds polls idx timeout n ≡ some r)
  sr_confirm_total rounds polls idx timeout n h k =
      let (r, e, c) = sr_confirm_returns rounds polls idx timeout n h k in (r, e)
