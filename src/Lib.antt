-- ===== src/Lib.antt =====
-- psim simulates MIPS-like processors cycle by cycle, in one of two systems: processors that share
-- a memory over a bus (shrmem.c), or a mesh of processors with private memories that exchange
-- messages (dstbmem.c, net.c). Both drive the same datapath (datapath.c) on the same processor
-- state (cpu.c) and memory (mem.c).
--
-- The parts and their files:
--   Prelude     numbers, lists, words of 8 to 64 bits with their wrap-around, error numbers
--   Instr       instr.h: the fields of an instruction (OPC, RS, IMM, ...) and its numbers by kind
--   Cpu         cpu.h, cpu.c: Decoder, the counters, CPU; CPU_create, CPU_mfc2,
--               CPU_mtc2; Cpu/Moves holds the proof
--   Bus         mem.c: memctl; Mem_busacc, Mem_busclr, Mem_busutil. Bus/Arbiter is the abstract
--               controller, Bus/Ring the circular buffer as a queue, Bus/Refine the refinement,
--               Bus/Fairness and Bus/Wait the runs of several cycles, Bus/Bounds its indices
--   Mem         mem.c: Mem_lw, Mem_sw, Mem_ll, Mem_sc, Mem_lb, Mem_sb, Mem_getptr; Mem/Load is
--               Mem_progld, Mem/Create is Mem_create and Mem_createarr; Mem/Bytes, Mem/Laws, Mem/Bounds,
--               Mem/CopyLaws, Mem/LoadLaws, Mem/LoadBounds and Mem/Reserve hold the proofs
--   Datapath    datapath.c: Datapath/Decode is decode, Datapath/Switch the labels of the switch in
--               execute, Alu, Jumps, Immediates, Cops and Accesses its groups of cases, and
--               Datapath/Cycle fetch, execute and Datapath_execute; Datapath/Frame,
--               Datapath/CycleLaws, Datapath/DecodeLaws, Datapath/Words (well-formed processors),
--               Datapath/Stall, Datapath/Retry and Datapath/Stopping hold the proofs
--   Isa         the instructions as the MIPS manual gives them, written without the code: their words
--               (Isa), and a step of those that work on registers, of the immediate operations and
--               of the jumps (Isa/Reference); the other files relate them to decode and to a cycle
--   Net         net.h, net.c: Net/Route is guidance, Net/Link a link's buffer, Net/Transport fwd and
--               hop, Net/Commands input, output, alt and operate, Net/Execute Net_execute;
--               Net/Route/Mesh, Net/Conserve, Net/Invariant, Net/FwdLaws, Net/HopLaws,
--               Net/Commands/SearchLaws, Net/Commands/Safe, Net/Commands/Operate, and, for what the
--               network leaves alone, Net/Frame, Net/TransportFrame, Net/NodeFrame,
--               Net/CommandsFrame and Net/Untouched hold the proofs
--   ShrMem      shrmem.c: sim, and the set-up in ShrMem_run; ShrMem/Stops, ShrMem/Safe
--               and ShrMem/Start hold the proofs
--   DstbMem     dstbmem.c: create, progld, sim; DstbMem/Stops and DstbMem/Loading hold the proofs
--   Report      shrmem.c and dstbmem.c: the lines that perfct writes; Report/Path is its file's name
--   Runs        ShrMem_run and DstbMem_run as a whole
--   Main        main.c: main; Main/Status holds the proof
--   Examples    examples/src: producer-consumer.c with its circular buffer and the semaphores of
--               libsem; its processes are steps of a system in any order. Examples/BufferLaws and
--               the files below Examples/ProducerConsumer hold the proofs.
--               Examples/Philosophers is the footman and the philosophers of
--               d_dining-philosophers.c, with its proofs in the files below it
--   Tests       runs on concrete states
--
-- How the code is read. Unsigned C integers are natural numbers with their wrap-around written out;
-- an int32_t is the integer that a pattern of 32 bits stands for. size_t and long have 64 bits. The
-- memory's words are little-endian, as on the hosts that the program is written for. A function that
-- sets errno or returns an error number gives an Outcome: ok, err with the number, or fault, which is
-- undefined behaviour (an access outside an object, a signed overflow, a shift by too much); the
-- network's functions use Option with none for it. Undefined is also the left shift of a negative
-- int: a branch that is taken over a negative distance, and LUI of a negative immediate (ISO C; the
-- compilers shift the two's complement). Access past a memory's own bytes is fault, although the
-- memories of a network lie side by side in one block. State that the code keeps in static variables
-- (memctl, shared) is passed along explicitly.
--
-- What comes from outside is a parameter: whether pthread_mutex_lock succeeds (a field of the
-- controller), what each malloc returns and with which contents (records and lists of outcomes), the
-- characters that getchar reads, the ELF header and the program headers of the image, what getopt,
-- strtoul and strtok make of the command line, basename, and whether the calls on files succeed. A
-- message that is removed from its last place is freed, which the model does not follow.
--
-- In producer-consumer.c a critical section is one step, as the variables in it are used under the
-- lock only. A P that must wait spins, which changes nothing.
--
-- The loops over processors, links, clauses and segments recurse on the list or on the count. The
-- loops of the two sims do not end in general and run on a fuel of rounds; the result tells whether
-- the run finished. The search of alt runs on a fuel of as many rounds as the network has nodes.
--
-- Not modelled: the functions that only free memory, munmap, whose result is only printed, the
-- messages on stderr, the forks of d_dining-philosophers.c, to which a message may go over at any
-- time, and the other programs under examples/.
pub mod Prelude
pub mod Instr
pub mod Cpu
pub mod Bus
pub mod Mem
pub mod Datapath
pub mod Isa
pub mod Net
pub mod ShrMem
pub mod DstbMem
pub mod Report
pub mod Runs
pub mod Main
pub mod Examples
mod Tests
