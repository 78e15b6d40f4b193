-- ===== src/Mailbox/Returns.antt =====
-- `ecx_mbxreceive` comes to an end: each of its loops has the timer as a limit.
use e_rob_soem_linux.Base.{
  ℕ, ◌+◌, ◌/◌, ◌%◌, ◌≤◌, ◌≡◌, refl, arith, Bool, some, ◌&&◌, if◌then◌else◌, ltb, leb, ◌==◌, Bytes,
  Bool-cases, Option-cases, inl, inr, get_or, get16,
}
use e_rob_soem_linux.Base.Int.{ℤ, pos, is_positive}
use e_rob_soem_linux.Osal.{Time, Os, IsClock}
use e_rob_soem_linux.Link.{Net, start}
use e_rob_soem_linux.Slaves.{Slave}
use e_rob_soem_linux.Task.{Task, ◌>>=◌, timer, is_late, ec_localdelay}
use e_rob_soem_linux.Task.Timed.{
  IsTimed, EndsBy, net_time, pure-IsTimed, gets-IsTimed, modify-IsTimed, if-IsTimed, >>=-IsTimed,
  poll-IsTimed, is_late-EndsBy, read_fp-IsTimed, write_fp-IsTimed, sleep-IsTimed,
}
use e_rob_soem_linux.Link.Total.{start-Deadline, start_us}
use e_rob_soem_linux.ErrorList.{mbx_error_report, mbx_emergency_report}
use e_rob_soem_linux.Mailbox.Receiving.{
  Station, Hooks, mbx_type, is_emergency, is_fragment, is_available, on_net, read_status,
  request_repeat, sort_mailbox, read_mailbox, mbx_receive, receive_mailbox, ec_maxmbx,
}

module _ {W : Type 0} (os : Os W) (us : W → ℕ) (clock : IsClock os us) where
  abbrev station_time : Station W → ℕ
  station_time m = us m.net.world

  module _ {from : ℕ} where
    on_net-IsTimed :
        {A : Type 0} (k : Task (Net W) A)
        → IsTimed (net_time os us clock) from k
        → IsTimed station_time from (on_net k)
    on_net-IsTimed k h = record {
      at = λ m fr.
          let (r, e, t) = h.at m.net fr in ((r.0, record m { net = r.1 }), rw (e, on_net) refl, t);
    }

  on_net-EndsBy :
      (d : ℕ) (late : Task (Net W) Bool)
      → EndsBy (net_time os us clock) d late
      → EndsBy station_time d (on_net late)
  on_net-EndsBy d late h = record {
    at = λ m.
        let (r, e, t, before) = h.at m.net in
        ((r.0, record m { net = r.1 }), rw (e, on_net) refl, t, before);
  }

  -- The timer of a block.
  on_timer->>=-IsTimed :
      {from : ℕ} {A : Type 0} (timeout : ℕ) (f : Time → Task (Station W) A)
      → ((stop : Time) (t : ℕ)
          → EndsBy station_time (t + timeout) (on_net (is_late os stop))
          → IsTimed station_time t (f stop))
      → IsTimed station_time from (on_net (timer os timeout) >>= f)
  unfolding timer ◌>>=◌
  on_timer->>=-IsTimed timeout f k = record {
    at = λ m fr.
        let stop = (start os timeout m.net).0 in
        let later = start_us os us clock timeout m.net in
        let t = us m.net.world in
        let ends = on_net-EndsBy (t + timeout) _ (
          is_late-EndsBy os us clock stop (t + timeout)
            (start-Deadline os us clock timeout m.net)) in
        let (r, e, t') = (k stop t ends).at (record m { net = (start os timeout m.net).1 }) later in
        (r, e, omega (arith, t', later));
  }

  module _ (hooks : Hooks W) (slave : ℕ) (s : Slave) where
    read_status-IsTimed :
        (timeout old from : ℕ)
        → IsTimed station_time from (read_status os hooks slave s timeout old)
    unfolding read_status
    read_status-IsTimed timeout old from =
        >>=-IsTimed _ _ (on_net-IsTimed _ (read_fp-IsTimed os us clock _ _ _ _ _)) λ q.
          >>=-IsTimed _ _ (modify-IsTimed _ (λ m. omega arith)) λ u.
            >>=-IsTimed _ _
              (on_net-IsTimed _ (
                if-IsTimed (get16 q.1 0 / 8 % 2 == 0 && ltb ec_localdelay timeout) _ _
                  (sleep-IsTimed os us clock _) (pure-IsTimed tt)))
              λ v. pure-IsTimed _

    request_repeat-IsTimed :
        (timeout : ℕ) (stop : Time) (from : ℕ)
        → EndsBy station_time (from + timeout) (on_net (is_late os stop))
        → IsTimed station_time from (request_repeat os hooks slave s timeout stop)
    unfolding request_repeat
    request_repeat-IsTimed timeout stop from ends =
        >>=-IsTimed _ _ (modify-IsTimed _ (λ m. omega arith)) λ u.
          >>=-IsTimed _ _ (gets-IsTimed _) λ stat.
            >>=-IsTimed _ _ (on_net-IsTimed _ (write_fp-IsTimed os us clock _ _ _ _ _)) λ u.
              >>=-IsTimed _ _
                (poll-IsTimed timeout _ _ _
                  (on_net-IsTimed _ (read_fp-IsTimed os us clock _ _ _ _ _)) ends)
                λ v.
                  >>=-IsTimed _ _
                    (poll-IsTimed timeout is_available _ _
                      (>>=-IsTimed _ _ (gets-IsTimed _)
                        (λ old. read_status-IsTimed timeout old from))
                      ends)
                    λ w. pure-IsTimed tt

    module _
        (keeps : (hook : ℕ → Bytes → W → Bool × W)
          → hooks.eoe ≡ some hook
          → (mbx : Bytes) (w : W) → us w ≤ us (hook slave mbx w).1) where
      sort_mailbox-IsTimed :
          (wkc : ℤ) (mbx : Bytes) (from : ℕ)
          → IsTimed station_time from (sort_mailbox os hooks slave s wkc mbx)
      unfolding sort_mailbox
      sort_mailbox-IsTimed wkc mbx from = record {
        at = λ m fr. elim (Bool-cases (mbx_type mbx == 0)) [
          | inl failed ↦ (
            (
              (pos 0, mbx),
              record m {
                elist = mbx_error_report (hooks.wall m.net.world) slave (get16 mbx 8) m.elist;
              },
            ),
            rw (failed, sort_mailbox) refl,
            omega arith,
          )
          | inr fine ↦ elim (Bool-cases (mbx_type mbx == 3)) [
            | inl canopen ↦ elim (Bool-cases (is_emergency mbx)) [
              | inl alarm ↦ (
                (
                  (pos 0, mbx),
                  record m {
                    elist =
                        mbx_emergency_report (hooks.wall m.net.world) slave (get16 mbx 8)
                          (get_or mbx 10 0) (get_or mbx 11 0) (get16 mbx 12) (get16 mbx 14) m.elist;
                  },
                ),
                rw (fine, canopen, alarm, sort_mailbox) refl,
                omega arith,
              )
              | inr answer ↦
                  (((wkc, mbx), m), rw (fine, canopen, answer, sort_mailbox) refl, omega arith)
            ]
            | inr other ↦ elim (Bool-cases (mbx_type mbx == 2 && is_fragment mbx)) [
              | inl frag ↦ elim (Option-cases hooks.eoe) [
                | inl alone ↦
                    (((wkc, mbx), m), rw (fine, other, frag, alone, sort_mailbox) refl, omega arith)
                | inr (hook, given) ↦
                    let (handled, w) = hook slave mbx m.net.world in
                    let net : Net W = record m.net { world = w } in
                    (
                      (((if handled then pos 0 else wkc), mbx), record m { net = net }),
                      rw (fine, other, frag, given, sort_mailbox) refl,
                      keeps hook given mbx m.net.world,
                    )
              ]
              | inr plain ↦
                  (((wkc, mbx), m), rw (fine, other, plain, sort_mailbox) refl, omega arith)
            ]
          ]
        ];
      }

      read_mailbox-IsTimed :
          (timeout : ℕ) (stop : Time) (from : ℕ)
          → EndsBy station_time (from + timeout) (on_net (is_late os stop))
          → IsTimed station_time from (read_mailbox os hooks slave s timeout stop)
      unfolding read_mailbox
      read_mailbox-IsTimed timeout stop from ends = >>=-IsTimed _ _ (gets-IsTimed _) λ old.
          >>=-IsTimed _ _ (on_net-IsTimed _ (read_fp-IsTimed os us clock _ _ _ _ _)) λ q.
            >>=-IsTimed _ _ (modify-IsTimed _ (λ m. omega arith)) λ u.
              if-IsTimed (is_positive q.0) _ _ (sort_mailbox-IsTimed q.0 q.1 from) (
                >>=-IsTimed _ _ (request_repeat-IsTimed timeout stop from ends)
                  (λ v. pure-IsTimed q))

      mbx_receive-IsTimed :
          (timeout from : ℕ) → IsTimed station_time from (mbx_receive os hooks slave s timeout)
      unfolding mbx_receive
      mbx_receive-IsTimed timeout from = on_timer->>=-IsTimed timeout _ λ stop t ends.
          >>=-IsTimed _ _
            (poll-IsTimed timeout is_available _ _ (read_status-IsTimed timeout 0 t) ends)
            λ first. >>=-IsTimed _ _ (gets-IsTimed _) λ mbx.
              if-IsTimed (is_available first) _ _
                (poll-IsTimed timeout (λ r. is_positive r.0) _ _
                  (read_mailbox-IsTimed timeout stop t ends) ends)
                (pure-IsTimed _)

      receive_mailbox-IsTimed :
          (timeout from : ℕ) → IsTimed station_time from (receive_mailbox os hooks slave s timeout)
      unfolding receive_mailbox
      receive_mailbox-IsTimed timeout from = >>=-IsTimed _ _ (gets-IsTimed _) λ mbx.
          if-IsTimed (ltb 0 s.mbx_rl && leb s.mbx_rl ec_maxmbx) _ _
            (mbx_receive-IsTimed timeout from) (pure-IsTimed _)

      -- `ecx_mbxreceive` returns whatever the slave answers, if the clock goes on and the hook for
      -- Ethernet frames does not put it back: none of its four loops runs out of fuel.
      pub receive_mailbox_total :
          (timeout : ℕ) (m : Station W)
          → (r : (ℤ × Bytes) × Station W) × (receive_mailbox os hooks slave s timeout m ≡ some r)
      receive_mailbox_total timeout m =
          let (r, e, t) = (receive_mailbox-IsTimed timeout 0).at m (omega arith) in (r, e)
