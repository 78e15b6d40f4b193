-- ===== src/Slaves/Tests.antt =====
-- The states of two slaves that do not answer.
use e_rob_soem_linux.Base.{ℕ, ◌≡◌, arith, true, false, [], ◌∷◌, some}
use e_rob_soem_linux.Osal.Tests.{silent, silent-IsClock}
use e_rob_soem_linux.Link.Tests.{net}
use e_rob_soem_linux.Slaves.{Context, read_state}
use e_rob_soem_linux.Slaves.Reading.{read_state_total}

abbrev context : Context ℕ
context = record {
  net = net;
  slavecount = 2;
  slavelist =
      record {
        state = 0;
        alstatuscode = 0;
        configadr = 0;
        eep_pdi = false;
        mbx_l = 128;
        mbx_wo = 0x1000;
        mbx_rl = 128;
        mbx_ro = 0x1080;
      }
      ∷ record {
        state = 8;
        alstatuscode = 0;
        configadr = 0x1001;
        eep_pdi = true;
        mbx_l = 128;
        mbx_wo = 0x1000;
        mbx_rl = 128;
        mbx_ro = 0x1080;
      }
      ∷ record {
        state = 8;
        alstatuscode = 0;
        configadr = 0x1002;
        eep_pdi = true;
        mbx_l = 128;
        mbx_wo = 0x1000;
        mbx_rl = 128;
        mbx_ro = 0x1080;
      }
      ∷ [];
}

read_state_total_example : (r : ℕ × Context ℕ) × (read_state silent 3 0 context ≡ some r)
read_state_total_example =
    read_state_total silent (λ w. w) silent-IsClock 3 0 context (omega arith) (omega arith)
