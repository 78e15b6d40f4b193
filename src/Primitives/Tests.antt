-- ===== src/Primitives/Tests.antt =====
-- The primitives on a network that does not answer.
use e_rob_soem_linux.Base.{[], ◌∷◌, Bytes}
use e_rob_soem_linux.Osal.Tests.{silent, silent-IsClock}
use e_rob_soem_linux.Datagram.{fprd}
use e_rob_soem_linux.Link.Tests.{net}
use e_rob_soem_linux.Primitives.{read_with}
use e_rob_soem_linux.Primitives.Access.{Read, read_with_total}

abbrev buffer : Bytes
buffer = 1 ∷ 2 ∷ []

read_with_total_example : Read buffer (read_with silent fprd 0x1001 0x130 2 buffer 100 net)
read_with_total_example =
    read_with_total silent (λ w. w) silent-IsClock fprd 0x1001 0x130 2 buffer 100 net
