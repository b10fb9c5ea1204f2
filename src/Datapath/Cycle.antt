-- ===== src/Datapath/Cycle.antt =====
-- datapath.c: `fetch`, `execute` and Datapath_execute, one cycle of a processor.
use psim.Prelude.{ℕ, ◌+◌, Bool, true, false, ◌||◌, ◌==◌, if◌then◌else◌, u64, inc}
use psim.Prelude.{map, set, none, some, Outcome, ok, err, fault}
use psim.Prelude.{Errno, success, enotsup}
use psim.Cpu
use psim.Cpu.{Cpu, Counter, Perfct, mfc2_u32, cop2_msg_st, cop2_msg_st_op}
use psim.Cpu.{cop2_msg_op_none, cop2_msg_op_in, cop2_msg_op_out, cop2_msg_op_alt}
use psim.Mem
use psim.Mem.{Mem}
use psim.Datapath.State.{Sys, Exec, returned, crashed}
use psim.Datapath.Decode.{decode}
use psim.Datapath.Switch.{Case, alu, jump, immediate, cop, access, case_of}
use psim.Datapath.Alu.{exec_alu}
use psim.Datapath.Jumps.{exec_jump}
use psim.Datapath.Immediates.{exec_immediate}
use psim.Datapath.Cops.{exec_cop}
use psim.Datapath.Accesses.{exec_access}

-- fetch
unfoldable pub fetch : Cpu → Mem → Outcome ℕ
unfolding Mem.lw
fetch cpu mem = Mem.lw mem cpu.pc

abbrev pub computed : Outcome Cpu → Cpu → Sys → Exec
computed (ok c) cpu sys = returned success c sys
computed (err e) cpu sys = returned e cpu sys
computed fault cpu sys = crashed

-- The code behind a label of the switch
unfoldable pub execute_case : Case → Cpu → Sys → Exec
unfolding exec_alu exec_jump exec_immediate exec_cop exec_access
execute_case (alu op) cpu sys = computed (exec_alu op cpu) cpu sys
execute_case (jump op) cpu sys = computed (exec_jump op cpu) cpu sys
execute_case (immediate op) cpu sys = computed (exec_immediate op cpu) cpu sys
execute_case (cop op) cpu sys = exec_cop op cpu sys
execute_case (access op) cpu sys = exec_access op cpu sys

-- execute
unfoldable pub execute : Cpu → Sys → Exec
unfolding execute_case case_of
execute cpu sys = elim (case_of cpu.dec.sign) [
  | some c ↦ execute_case c cpu sys
  | none ↦ returned enotsup cpu sys
]

-- The result of a cycle: the int that Datapath_execute returns (`true` for 0, `false` for -1) with
-- the state, or undefined behaviour.
pub data Cycle : Type 0 where
  cycled : Bool → Cpu → Sys → Cycle
  broken : Cycle

-- The counters of `ct` that are enabled
unfoldable pub tick : Counter → Counter
tick c = if c.en then record c { ct = inc c.ct } else c

-- From the label INC_CYCLE on
unfoldable pub inc_cycle : Bool → Cpu → Sys → Cycle
unfolding tick
inc_cycle ret cpu sys =
    cycled ret
      (record cpu {
        perfct = record (cpu.perfct) { cycle = inc cpu.perfct.cycle; ct = map tick cpu.perfct.ct };
      })
      sys

-- The update of the program counter
unfoldable pub advance : Cpu → Cpu
advance cpu =
    if cpu.dec.isjump
    then record cpu { pc = cpu.dec.npc }
    else if cpu.dec.stall
    then cpu
    else record cpu { pc = u64 (cpu.pc + 4) }

abbrev pub is_success : Errno → Bool
is_success success = true
is_success _ = false

-- What follows `execute`
unfoldable pub executed : Exec → Cycle
unfolding advance inc_cycle
executed (returned e cpu sys) =
    if is_success e || (cpu.dec.rmwfail || cpu.dec.stall)
    then inc_cycle true (advance cpu) sys
    else inc_cycle false cpu sys
executed crashed = broken

unfoldable pub decoded : Bool → Cpu → Sys → Cycle
unfolding executed execute inc_cycle
decoded true cpu sys = executed (execute cpu sys)
decoded false cpu sys = inc_cycle false cpu sys

-- What follows `fetch`: the word is decoded and executed.
unfoldable pub fetched : Outcome ℕ → Cpu → Sys → Cycle
unfolding decode decoded inc_cycle
fetched (ok instr) cpu sys =
    let (known, dec) = decode (record (cpu.dec) { raw = instr }) in
    decoded known (record cpu { dec = dec }) sys
fetched (err e) cpu sys = inc_cycle false cpu sys
fetched fault cpu sys = broken

-- A cycle that waits for the network, which counts the wait.
unfoldable pub waiting : ℕ → Perfct → Perfct
waiting op p =
    if op == cop2_msg_op_in
    then record p { waitin = inc p.waitin }
    else if op == cop2_msg_op_out
    then record p { waitout = inc p.waitout }
    else if op == cop2_msg_op_alt
    then record p { waitalt = inc p.waitalt }
    else p

-- The assignments before the switch
unfoldable pub begin : Cpu → Cpu
begin cpu = record cpu {
  gpr = set cpu.gpr 0 0;
  dec = record (cpu.dec) { stall = false; rmwfail = false };
}

-- The switch on the pending network operation, and the rest of the cycle
unfoldable pub cycle_by : ℕ → Cpu → Sys → Cycle
unfolding waiting inc_cycle fetched fetch
cycle_by op cpu sys =
    if op == cop2_msg_op_none
    then fetched (fetch cpu sys.mem) cpu sys
    else inc_cycle true (record cpu { perfct = waiting op cpu.perfct }) sys

unfoldable pub pending : Cpu → ℕ
unfolding Cpu.cop2_msg_st_op Cpu.mfc2_u32
pending cpu = cop2_msg_st_op (mfc2_u32 cpu cop2_msg_st)

-- Datapath_execute
unfoldable pub datapath_execute : Cpu → Sys → Cycle
unfolding begin cycle_by pending
datapath_execute cpu sys =
    if cpu.running then cycle_by (pending (begin cpu)) (begin cpu) sys else cycled false cpu sys
