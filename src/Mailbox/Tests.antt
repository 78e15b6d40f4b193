-- ===== src/Mailbox/Tests.antt =====
-- The mailbox counter at concrete values, and receiving from a slave that does not answer.
use e_rob_soem_linux.Base.{◌≡◌, [], ◌∷◌, ℕ, false, none, some, Bytes, replicate}
use e_rob_soem_linux.Base.Int.{ℤ}
use e_rob_soem_linux.Osal.Tests.{silent, silent-IsClock}
use e_rob_soem_linux.ErrorList.{Ering, blank}
use e_rob_soem_linux.Nic.Tests.{port}
use e_rob_soem_linux.Nic.{Port, empty}
use e_rob_soem_linux.Slaves.{Slave}
use e_rob_soem_linux.Mailbox.Channel.{Answers}
use e_rob_soem_linux.Mailbox.Post.{channel}
use e_rob_soem_linux.Mailbox.Post.Total.{channel-Answers}
use e_rob_soem_linux.Mailbox.Receiving.{Station, Hooks, receive_mailbox}
use e_rob_soem_linux.Mailbox.Returns.{receive_mailbox_total}

-- A slave with mailboxes of 16 bytes.
abbrev slave : Slave
slave = record {
  state = 4;
  alstatuscode = 0;
  configadr = 0x1001;
  eep_pdi = false;
  mbx_l = 16;
  mbx_wo = 0x1000;
  mbx_rl = 16;
  mbx_ro = 0x1080;
}

abbrev empty_list : Ering
empty_list = record { head = 0; tail = 0; error = replicate 65 blank; ecaterror = false }

-- A port without redundancy.
abbrev single : Port
single = let p = port empty in record p { redundant = false }

abbrev station : {W : Type 0} → W → Station W
station w = record {
  net = record { port = single; world = w };
  elist = empty_list;
  mbx = replicate 16 0;
  smstat = 0;
}

abbrev hookless : {W : Type 0} → (W → ℕ) → Hooks W
hookless time = record { wall = λ w. record { sec = time w; usec = 0 }; eoe = none }

receive_mailbox_total_example :
    (r : (ℤ × Bytes) × Station ℕ) × (receive_mailbox silent
        (hookless λ w. w)
        1
        slave
        20000
        (station 0)
      ≡ some r)
receive_mailbox_total_example =
    receive_mailbox_total silent (λ w. w) silent-IsClock (hookless λ w. w) 1 slave
      (λ hook given mbx w. cc given) 20000 (station 0)

-- The slave's mailbox as the protocols see it.
channel-Answers_example : Answers (channel silent (hookless λ w. w) 0 (slave ∷ []))
channel-Answers_example =
    channel-Answers silent (λ w. w) silent-IsClock (hookless λ w. w) 0 (slave ∷ [])
      (λ hook given mbx w. cc given)
