-- ===== src/Mailbox/Post.antt =====
-- The mailbox of one slave as the protocols see it: the interface of `Mailbox.Channel`, filled by the
-- functions of soem/ethercatmain.c.
pub mod Total
use e_rob_soem_linux.Base.{ℕ, suc, Bool, ◌-◌, List, none, some, Bytes, get_or, length}
use e_rob_soem_linux.Base.Int.{ℤ}
use e_rob_soem_linux.Osal.{Os}
use e_rob_soem_linux.ErrorList.{Ering, sdo_error_report, packet_error_report, soe_error_report}
use e_rob_soem_linux.Slaves.{Slave, Context, no_slave}
use e_rob_soem_linux.Task.{Task}
use e_rob_soem_linux.Mailbox.{next_mbxcnt, mbx_empty, mbx_send}
use e_rob_soem_linux.Mailbox.Channel.{Channel}
use e_rob_soem_linux.Mailbox.Receiving.{Station, Hooks, receive_mailbox}

-- The state: what `ecx_mbxreceive` works on, and the slave's `mbx_cnt`.
pub record Post (W : Type 0) : Type 0 where
  pub station : Station W
  pub mbx_cnt : ℕ

module _ {W : Type 0} (os : Os W) (hooks : Hooks W) (slave : ℕ) (slavelist : List Slave) where
  -- `ec_nextmbxcnt` of the slave's counter, which becomes the new one.
  unfoldable pub next_count : Task (Post W) ℕ
  next_count m = some (next_mbxcnt m.mbx_cnt, record m { mbx_cnt = next_mbxcnt m.mbx_cnt })

  -- `ecx_mbxsend` with enough fuel.
  unfoldable pub post : Bytes → ℕ → Task (Post W) ℤ
  post mbx timeout m =
      let c : Context W = record {
        net = m.station.net;
        slavecount = length slavelist - 1;
        slavelist = slavelist;
      } in
      elim (mbx_send os (suc timeout) slave mbx timeout c) [
        | none ↦ none
        | some (wkc, n) ↦
            let s = m.station in some (wkc, record m { station = record s { net = n } })
      ]

  -- `ecx_mbxempty` with enough fuel.
  unfoldable pub look : ℕ → Task (Post W) Bool
  look timeout m =
      let c : Context W = record {
        net = m.station.net;
        slavecount = length slavelist - 1;
        slavelist = slavelist;
      } in
      elim (mbx_empty os (suc timeout) slave timeout c) [
        | none ↦ none
        | some (is_free, n) ↦
            let s = m.station in some (is_free, record m { station = record s { net = n } })
      ]

  -- `ecx_mbxreceive` into a buffer.
  unfoldable pub collect : Bytes → ℕ → Task (Post W) (ℤ × Bytes)
  collect buf timeout m =
      let s = m.station in
      elim (receive_mailbox os hooks slave (get_or slavelist slave no_slave) timeout
        (record s { mbx = buf })) [
          | none ↦ none
          | some (r, s') ↦ some (r, record m { station = s' })
        ]

  unfoldable pub report : (Ering → Ering) → Task (Post W) (Unit {0})
  report f m = let s = m.station in some (tt, record m { station = record s { elist = f s.elist } })

  pub channel : Channel (Post W)
  channel = record {
    count = next_count;
    send = post;
    receive = collect;
    sdo_error = λ index subindex code m.
        report (sdo_error_report (hooks.wall m.station.net.world) slave index subindex code) m;
    packet_error = λ index subindex code m.
        report (packet_error_report (hooks.wall m.station.net.world) slave index subindex code) m;
    soe_error =
        λ idn code m. report (soe_error_report (hooks.wall m.station.net.world) slave idn code) m;
    empty = look;
  }
