-- ===== src/Mailbox/Post/Total.antt =====
-- The operations of `Mailbox.Post` and the interface of `Mailbox.Channel`.
use e_rob_soem_linux.Base.{
  ℕ, zero, suc, ◌+◌, ◌-◌, ◌≤◌, ◌<◌, ◌≡◌, refl, arith, Bool, true, false, not, [], ◌∷◌, List, some,
  ◌&&◌, if◌then◌else◌, ltb, leb, Bool-cases, inl, inr, Bytes, get_or, length,
}
use e_rob_soem_linux.Base.Int.{ℤ, pos, is_positive}
use e_rob_soem_linux.Osal.{Time, Os, IsClock, timer_is_expired}
use e_rob_soem_linux.Link.{Net, start, ec_timeoutret}
use e_rob_soem_linux.Link.Total.{Deadline, start-Deadline, start_us}
use e_rob_soem_linux.Datagram.{fprd, fpwr}
use e_rob_soem_linux.Primitives.{fprd_op, fpwr_op}
use e_rob_soem_linux.Slaves.{Slave, Context, slave_at, no_slave, timeoutret3}
use e_rob_soem_linux.Task.Timed.{read_with_returns, write_with_returns}
use e_rob_soem_linux.Task.Yields.{Ends}
use e_rob_soem_linux.Mailbox.{
  is_full, reg_sm0stat, ec_localdelay, ec_maxmbx, empty_loop, mbx_empty, mbx_send,
}
use e_rob_soem_linux.Mailbox.Channel.{Answers}
use e_rob_soem_linux.Mailbox.Receiving.{Hooks}
use e_rob_soem_linux.Mailbox.Returns.{receive_mailbox_total}
use e_rob_soem_linux.Mailbox.Post.{Post, next_count, post, look, collect, report, channel}

module _ {W : Type 0} (os : Os W) (us : W → ℕ) (clock : IsClock os us) where
  empty_loop_returns :
      (fuel configadr timeout : ℕ) (stop : Time) (d : ℕ) (n : Net W)
      → Deadline os us clock stop d
      → d - us n.world < fuel
      → (r : Bool × Net W) × (empty_loop os fuel configadr timeout stop n ≡ some r)
  unfolding empty_loop fprd_op
  empty_loop_returns zero configadr timeout stop d n dl enough = absurd (omega arith)
  empty_loop_returns (suc fuel) configadr timeout stop d n dl enough =
      let (r, e, t) =
        read_with_returns os us clock fprd configadr reg_sm0stat 1 (0 ∷ []) ec_timeoutret n in
      let full = is_full (get_or r.1 0 0) in
      let w =
        if full && ltb ec_localdelay timeout then os.sleep r.2.world ec_localdelay else r.2.world in
      let slept : us r.2.world ≤ us w = elim (Bool-cases (full && ltb ec_localdelay timeout)) [
        | inl pause ↦ rw pause (clock.sleep_keeps r.2.world ec_localdelay)
        | inr go ↦ rw go (omega arith)
      ] in
      elim (Bool-cases (is_positive r.0 && not full)) [
        | inl free ↦ ((true, record r.2 { world = w }), rw (e, free, empty_loop, fprd_op) refl)
        | inr taken ↦ elim (Bool-cases (timer_is_expired (os.now w).0 stop)) [
          | inl over ↦ (
            (false, record r.2 { world = (os.now w).1 }),
            rw (e, taken, over, empty_loop, fprd_op) refl,
          )
          | inr early ↦
              let before = dl (os.now w).0 (clock.usec_small w) early in
              let next : Net W = record r.2 { world = (os.now w).1 } in
              let (q, e') =
                empty_loop_returns fuel configadr timeout stop d next dl
                  (omega (arith, before, clock.reads w, clock.advances w, slept, t)) in
              (q, rw (e, taken, early, empty_loop, fprd_op) e')
        ]
      ]

  mbx_empty_returns :
      (slave timeout : ℕ) (c : Context W)
      → (r : Bool × Net W) × (mbx_empty os (suc timeout) slave timeout c ≡ some r)
  unfolding mbx_empty
  mbx_empty_returns slave timeout c =
      empty_loop_returns (suc timeout) (slave_at c slave).configadr timeout
        (start os timeout c.net).0 (us c.net.world + timeout) (start os timeout c.net).1
        (start-Deadline os us clock timeout c.net)
        (omega (arith, start_us os us clock timeout c.net))

  mbx_send_returns :
      (slave timeout : ℕ) (mbx : Bytes) (c : Context W)
      → (r : ℤ × Net W) × (mbx_send os (suc timeout) slave mbx timeout c ≡ some r)
  unfolding mbx_send fpwr_op
  mbx_send_returns slave timeout mbx c =
      let s = slave_at c slave in
      let (r, e) = mbx_empty_returns slave timeout c in
      let (q, e', t) =
        write_with_returns os us clock fpwr s.configadr s.mbx_wo s.mbx_l mbx timeoutret3 r.1 in
      elim (Bool-cases (ltb 0 s.mbx_l && leb s.mbx_l ec_maxmbx)) [
        | inl fits ↦ elim (Bool-cases r.0) [
          | inl free ↦ ((q.0, q.2), rw (fits, e, free, e', mbx_send, fpwr_op) refl)
          | inr taken ↦ ((pos 0, r.1), rw (fits, e, taken, mbx_send) refl)
        ]
        | inr wrong ↦ ((pos 0, c.net), rw (wrong, mbx_send) refl)
      ]

module _ {W : Type 0} (os : Os W) (us : W → ℕ) (clock : IsClock os us) (hooks : Hooks W) (slave : ℕ)
    (slavelist : List Slave)
    (keeps : (hook : ℕ → Bytes → W → Bool × W)
      → hooks.eoe ≡ some hook
      → (mbx : Bytes) (w : W) → us w ≤ us (hook slave mbx w).1) where
  context : Post W → Context W
  context m = record {
    net = m.station.net;
    slavecount = length slavelist - 1;
    slavelist = slavelist;
  }

  post-Ends : (mbx : Bytes) (timeout : ℕ) → Ends (post os hooks slave slavelist mbx timeout)
  unfolding post context
  post-Ends mbx timeout = record {
    at = λ m.
        let (r, e) = mbx_send_returns os us clock slave timeout mbx (context m) in
        let s = m.station in
        ((r.0, record m { station = record s { net = r.1 } }), rw (e, post) refl, tt);
  }

  look-Ends : (timeout : ℕ) → Ends (look os hooks slave slavelist timeout)
  unfolding look context
  look-Ends timeout = record {
    at = λ m.
        let (r, e) = mbx_empty_returns os us clock slave timeout (context m) in
        let s = m.station in
        ((r.0, record m { station = record s { net = r.1 } }), rw (e, look) refl, tt);
  }

  collect-Ends : (buf : Bytes) (timeout : ℕ) → Ends (collect os hooks slave slavelist buf timeout)
  unfolding collect
  collect-Ends buf timeout = record {
    at = λ m.
        let s = m.station in
        let (r, e) =
          receive_mailbox_total os us clock hooks slave (get_or slavelist slave no_slave) keeps
            timeout (record s { mbx = buf }) in
        ((r.0, record m { station = r.1 }), rw (e, collect) refl, tt);
  }

  -- `ecx_mbxsend`, `ecx_mbxreceive`, `ecx_mbxempty`, the counter and the reports of errors are a channel
  -- whose operations come to an end, whatever the slave does, if the clock goes on and the hook for Ethernet
  -- frames does not put it back.
  pub channel-Answers : Answers (channel os hooks slave slavelist)
  unfolding channel next_count report
  channel-Answers = record {
    counts = record { at = λ m. (_, refl, tt) };
    sends = post-Ends;
    receives = collect-Ends;
    reports_sdo = λ index subindex code. record { at = λ m. (_, refl, tt) };
    reports_packet = λ index subindex code. record { at = λ m. (_, refl, tt) };
    reports_soe = λ idn code. record { at = λ m. (_, refl, tt) };
    looks = look-Ends;
  }
