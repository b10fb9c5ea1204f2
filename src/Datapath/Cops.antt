-- ===== src/Datapath/Cops.antt =====
-- datapath.c: the cases of `execute` for the coprocessors.
use psim.Prelude.{ℕ, false, not, ◌==◌, if◌then◌else◌, u32, inc}
use psim.Prelude.{List, [], ◌∷◌, Outcome, ok, err, fault, success, enotsup}
use psim.Cpu
use psim.Cpu.{Cpu, Counter, k1, reg, set_reg, mtc2_drop, cop2_msg_st}
use psim.Cpu.{cop2_msg_op_in, cop2_msg_op_out, cop2_msg_op_alt}
use psim.Instr
use psim.Instr.{cofun}
use psim.Instr.Cop2
use psim.Datapath.Alu.{rt_of}
use psim.Datapath.State.{Sys, Exec, returned, crashed}
use psim.Datapath.Switch.{Cop, wait, mfc2, mtc2, operation}

-- ct[0].en = !ct[0].en
unfoldable pub toggle : List Counter → List Counter
toggle [] = []
toggle (c ∷ cs) = record c { en = not c.en } ∷ cs

-- The cases MEMSZ and CT0
unfoldable pub op_memsz : ℕ → Cpu → Cpu
op_memsz size cpu = set_reg cpu k1 (u32 size)

unfoldable pub op_ct0 : Cpu → Cpu
unfolding toggle
op_ct0 cpu = record cpu { perfct = record (cpu.perfct) { ct = toggle cpu.perfct.ct } }

-- The cases INPUT, OUTPUT and ALT: the operation is set, and the network carries it out.
unfoldable pub op_input : Cpu → Cpu
unfolding Cpu.mtc2_drop
op_input cpu =
    let c = mtc2_drop cpu cop2_msg_st cop2_msg_op_in in
    record c { perfct = record (c.perfct) { nin = inc c.perfct.nin; waitin = inc c.perfct.waitin } }

unfoldable pub op_output : Cpu → Cpu
unfolding Cpu.mtc2_drop
op_output cpu =
    let c = mtc2_drop cpu cop2_msg_st cop2_msg_op_out in
    record c {
      perfct = record (c.perfct) { nout = inc c.perfct.nout; waitout = inc c.perfct.waitout };
    }

unfoldable pub op_alt : Cpu → Cpu
unfolding Cpu.mtc2_drop
op_alt cpu =
    let c = mtc2_drop cpu cop2_msg_st cop2_msg_op_alt in
    record c {
      perfct = record (c.perfct) { nalt = inc c.perfct.nalt; waitalt = inc c.perfct.waitalt };
    }

-- The switch on COFUN
unfoldable pub exec_operation : Cpu → Sys → Exec
unfolding Instr.cofun op_memsz op_ct0 op_input op_output op_alt
exec_operation cpu sys =
    let f = cofun cpu.dec.raw in
    if f == Cop2.memsz
    then returned success (op_memsz sys.mem.size cpu) sys
    else if f == Cop2.ct0
    then returned success (op_ct0 cpu) sys
    else if f == Cop2.input
    then returned success (op_input cpu) sys
    else if f == Cop2.output
    then returned success (op_output cpu) sys
    else if f == Cop2.alt
    then returned success (op_alt cpu) sys
    else returned enotsup cpu sys

-- What the cases MFC2 and MTC2 do with the result of the move
abbrev pub moved_from : Outcome ℕ → Cpu → Sys → Exec
moved_from (ok v) cpu sys = returned success (set_reg cpu cpu.dec.rt (u32 v)) sys
moved_from (err e) cpu sys = returned e cpu sys
moved_from fault cpu sys = crashed

abbrev pub moved_to : Outcome Cpu → Cpu → Sys → Exec
moved_to (ok c) cpu sys = returned success c sys
moved_to (err e) cpu sys = returned e cpu sys
moved_to fault cpu sys = crashed

unfoldable pub exec_cop : Cop → Cpu → Sys → Exec
unfolding exec_operation Cpu.mfc2 Cpu.mtc2
exec_cop wait cpu sys = returned success (record cpu { running = false }) sys
exec_cop mfc2 cpu sys = moved_from (Cpu.mfc2 cpu cpu.dec.rd cpu.dec.sel) cpu sys
exec_cop mtc2 cpu sys = moved_to (Cpu.mtc2 cpu cpu.dec.rd cpu.dec.sel (rt_of cpu)) cpu sys
exec_cop operation cpu sys = exec_operation cpu sys
