-- ===== src/Lib.antt =====
-- A model of the EtherCAT master of this repository and of its control of CiA 402 drives.
--
-- The program drives motors over EtherCAT. From the wire up it has these parts:
--   * oshw/linux/nicdrv.c keeps the frame buffers of a port, sends frames on one or two sockets and
--     waits for the answers. `Nic` has the buffers' states and the frame indices (ecx_getindex,
--     ecx_setbufstat), `Link` everything that sends, receives and waits (ecx_outframe to
--     ecx_srconfirm).
--   * osal/linux/osal.c and osal/osal.h give it times and timers: `Osal`.
--   * soem/ethercatbase.c puts datagrams into frames (`Datagram`) and has the blocking primitives,
--     which take an index, set up a datagram, send it until it is answered, and release the index
--     (`Primitives`).
--   * soem/ethercatmain.c builds on the primitives: the list of errors (`ErrorList`), the stack of
--     the frames of the process data (`IndexStack`), and the slave information in the EEPROM, with
--     its cache and its sections (`Sii`), the access to that EEPROM through its registers (`Eeprom`),
--     the states of the slaves (`Slaves`), the mailbox (`Mailbox`), and the process data, which are
--     cut into frames and put together again from the answers (`ProcessData`).
--   * The protocols above the mailbox take it as an interface, `Mailbox.Channel`, which
--     `Mailbox.Post` fills with the functions of ethercatmain.c: soem/ethercatcoe.c reads and writes
--     objects of a slave, in segments where they are large (`Coe`), soem/ethercateoe.c carries
--     Ethernet frames in fragments (`Eoe`), soem/ethercatfoe.c files in numbered packets (`Foe`), and
--     soem/ethercatsoe.c reads and writes the parameters of servo drives, and adds up the sizes of
--     their process data (`Soe`).
--   * cia402/cia402.cpp turns the status word of a drive into its next control word (`Cia402`).
-- Each part is a module with the definitions; its children have the theorems, and `Tests` runs at
-- concrete inputs. `Base` has what they share. A definition has the name of the C function
-- without its prefix `ecx_`, and a word or two where that would be a word of the language.
--
-- State is passed explicitly: an operation takes the struct that it changes and gives the new
-- one. The operating system is a parameter, `Osal.Os`: the clock, `send`, `recv` and sleeping as
-- functions on a world of any type. `Osal.IsClock` is what the timers rely on, a clock that only
-- goes forward. A working counter is an integer, `Base.Int.ℤ`, as its negative values are error
-- codes. Buffers are lists of bytes; where C would read or write outside of one, the model reads
-- 0 or drops the write, and says so. Fields of a fixed width keep their wrap-around.
--
-- `Task` writes operations that call others as steps on a state, with the loops of the C code as
-- `poll` and `attempt`; `Task.Timed` has one rule for each way to build a step, by which it comes
-- to an end, `Task.Ensures` the same for what it gives, `Task.Keeps` for what it gives and keeps
-- from states with a property, and `Task.Yields` for both, without a clock, which is what the
-- protocols need that take the mailbox as an interface. The process image is one buffer, and a
-- pointer into it an offset (`ProcessData`). An EEPROM is reached by its slave's position or by its
-- address, so that its operations take an interface, `Eeprom.Access`, which both instantiate. A
-- hook of the application is a parameter (`Mailbox.Receiving.Hooks`).
--
-- A loop that polls takes fuel. ecx_waitinframe polls until its timer is expired, so one round more
-- than the timeout has microseconds is enough, and in redundant operation one more than EC_TIMEOUTRET
-- has; ecx_srconfirm needs one round of sending more than its own timeout has microseconds.
-- The primitives are given that fuel. ecx_siifind takes fuel for
-- the sections it passes, the loop of ecx_siiPDO for the PDOs (511 are enough), and ecx_readstate
-- for the groups of slaves that it reads (one more than there are slaves is enough). The retries
-- of the EEPROM after a NACK have no timer; they take fuel for their rounds, and three are enough
-- for a slave that answers. Process data are sent in a loop over the segments of the group, and
-- received in one over the entries of the index stack.
--
-- The loops over the segments of an object, the fragments of a frame or a parameter and the packets
-- of a file have no timer of their own and take fuel for their rounds: one for each segment,
-- fragment or packet, and for files one more, is enough for a slave that follows the protocol. For
-- files, and for the writing of parameters, the size of the buffer bounds the rounds with any
-- slave.
--
-- Not modelled: mutexes and threads (each operation is a step of its own), the opening of sockets,
-- the object dictionary and the PDO assignment of soem/ethercatcoe.c, the IP parameters of
-- soem/ethercateoe.c, which are built of the operations that are modelled; distributed clocks
-- (soem/ethercatdc.c) and the configuration of slaves (soem/ethercatconfig.c), which work on the
-- fields of ec_slavet that describe the topology and the process image, while the model of a slave
-- has the fields that the other parts read; text output, and the ports to other operating systems.
pub mod Base
pub mod Cia402
pub mod ErrorList
pub mod IndexStack
pub mod Osal
pub mod Nic
pub mod Datagram
pub mod Link
pub mod Primitives
pub mod Sii
pub mod Slaves
pub mod Mailbox
pub mod Task
pub mod Eeprom
pub mod ProcessData
pub mod Coe
pub mod Eoe
pub mod Foe
pub mod Soe
