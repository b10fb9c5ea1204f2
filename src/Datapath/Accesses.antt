-- ===== src/Datapath/Accesses.antt =====
-- datapath.c: the cases of `execute` that access the memory or the memory-mapped console.
use psim.Prelude.{ℕ, ◌+◌, ◌-◌, ◌^◌, Bool, true, false, ◌==◌, if◌then◌else◌, u8, u32, inc}
use psim.Prelude.{sext8, sext16, List, [], ◌∷◌, Outcome, ok, err, fault}
use psim.Prelude.{success, ebusy, eagain}
use psim.Cpu.{Cpu, k0, reg, set_reg}
use psim.Bus
use psim.Bus.{Memctl, busacc}
use psim.Mem
use psim.Mem.{Mem}
use psim.Datapath.Alu.{rs_of, rt_of}
use psim.Datapath.State.{Console, Sys, Exec, returned, crashed, Printed, char, hex_line}
use psim.Datapath.Switch.{Access, lb, lw, sb, sw, ll, sc}

abbrev pub io_addr : ℕ
io_addr = 0xFFFC

-- addr = gpr[rs] + imm
abbrev pub addr_of : Cpu → ℕ
addr_of cpu = u32 (rs_of cpu + sext16 cpu.dec.imm)

-- The counters: one more load, store, LL or SC, and one more that is deferred.
unfoldable pub count : Access → Cpu → Cpu
count lb cpu = record cpu { perfct = record (cpu.perfct) { ld = inc cpu.perfct.ld } }
count lw cpu = record cpu { perfct = record (cpu.perfct) { ld = inc cpu.perfct.ld } }
count sb cpu = record cpu { perfct = record (cpu.perfct) { st = inc cpu.perfct.st } }
count sw cpu = record cpu { perfct = record (cpu.perfct) { st = inc cpu.perfct.st } }
count ll cpu = record cpu { perfct = record (cpu.perfct) { ll = inc cpu.perfct.ll } }
count sc cpu = record cpu { perfct = record (cpu.perfct) { sc = inc cpu.perfct.sc } }

abbrev pub stalled : Cpu → Cpu
stalled cpu = record cpu { dec = record (cpu.dec) { stall = true } }

unfoldable pub defer : Access → Cpu → Cpu
defer lb cpu = record (stalled cpu) {
  perfct = record (cpu.perfct) { lddefer = inc cpu.perfct.lddefer };
}
defer lw cpu = record (stalled cpu) {
  perfct = record (cpu.perfct) { lddefer = inc cpu.perfct.lddefer };
}
defer sb cpu = record (stalled cpu) {
  perfct = record (cpu.perfct) { stdefer = inc cpu.perfct.stdefer };
}
defer sw cpu = record (stalled cpu) {
  perfct = record (cpu.perfct) { stdefer = inc cpu.perfct.stdefer };
}
defer ll cpu = record (stalled cpu) {
  perfct = record (cpu.perfct) { lldefer = inc cpu.perfct.lldefer };
}
defer sc cpu = record (stalled cpu) {
  perfct = record (cpu.perfct) { scdefer = inc cpu.perfct.scdefer };
}

-- getchar, converted to uint32_t: its EOF is -1.
abbrev pub getchar : Console → ℕ × Console
getchar con = next con.input
  where
    next : List ℕ → ℕ × Console
    next [] = (2 ^ 32 - 1, con)
    next (b ∷ bs) = (b, record con { input = bs })

abbrev pub put : Console → Printed → Console
put con p = record con { printed = p ∷ con.printed }

-- A load's result goes into gpr[rt].
unfoldable pub loaded : (ℕ → ℕ) → Outcome ℕ → Cpu → Sys → Exec
loaded f (ok v) cpu sys = returned success (set_reg cpu cpu.dec.rt (f v)) sys
loaded f (err e) cpu sys = returned e cpu sys
loaded f fault cpu sys = crashed

unfoldable pub stored : Outcome Mem → Cpu → Sys → Exec
stored (ok mem) cpu sys = returned success cpu (record sys { mem = mem })
stored (err e) cpu sys = returned e cpu sys
stored fault cpu sys = crashed

-- The switch on the result of Mem_sc
abbrev pub sc_failed : Cpu → Cpu
sc_failed cpu = record (set_reg cpu cpu.dec.rt 0) {
  dec = record (cpu.dec) { rmwfail = true };
  perfct = record (cpu.perfct) { rmwfail = inc cpu.perfct.rmwfail };
}

unfoldable pub sc_result : Outcome Mem → Cpu → Sys → Exec
sc_result (ok mem) cpu sys = returned success (set_reg cpu cpu.dec.rt 1) (record sys { mem = mem })
sc_result (err eagain) cpu sys = returned success (sc_failed cpu) sys
sc_result (err e) cpu sys = returned e cpu sys
sc_result fault cpu sys = crashed

-- The access itself, once the bus is acquired
unfoldable pub do_access : Access → Cpu → Sys → Exec
unfolding loaded stored sc_result Mem.lb Mem.lw Mem.sb Mem.sw Mem.ll Mem.sc
do_access lb cpu sys = loaded sext8 (Mem.lb sys.mem (addr_of cpu)) cpu sys
do_access lw cpu sys = loaded u32 (Mem.lw sys.mem (addr_of cpu)) cpu sys
do_access sb cpu sys = stored (Mem.sb sys.mem (addr_of cpu) (u8 (rt_of cpu))) cpu sys
do_access sw cpu sys =
    let (ctl, out) = Mem.sw sys.bus sys.mem (addr_of cpu) (rt_of cpu) in
    stored out cpu (record sys { bus = ctl })
do_access ll cpu sys =
    let (ctl, out) = Mem.ll sys.bus sys.mem (reg cpu k0) (addr_of cpu) in
    loaded u32 out cpu (record sys { bus = ctl })
do_access sc cpu sys =
    let (ctl, out) = Mem.sc sys.bus sys.mem (reg cpu k0) (addr_of cpu) (rt_of cpu) in
    sc_result out cpu (record sys { bus = ctl })

-- What Mem_busacc decides: the access, or another try in the next cycle.
unfoldable pub after_bus : Access → Bool × Memctl → Cpu → Sys → Exec
unfolding do_access defer
after_bus op (true, ctl) cpu sys = do_access op cpu (record sys { bus = ctl })
after_bus op (false, ctl) cpu sys = returned ebusy (defer op cpu) (record sys { bus = ctl })

unfoldable pub over_bus : Access → Cpu → Sys → Exec
unfolding after_bus Bus.busacc
over_bus op cpu sys = after_bus op (busacc sys.bus (reg cpu k0)) cpu sys

-- The console's address is looked at by LB, SB and SW, before the bus.
unfoldable pub exec_access : Access → Cpu → Sys → Exec
unfolding over_bus count
exec_access lb cpu sys =
    if addr_of cpu == io_addr
    then returned success (set_reg (count lb cpu) cpu.dec.rt (getchar sys.console).0)
        (record sys { console = (getchar sys.console).1 })
    else over_bus lb (count lb cpu) sys
exec_access sb cpu sys =
    if addr_of cpu == io_addr
    then returned success (count sb cpu)
        (record sys { console = put sys.console (char (u8 (rt_of cpu))) })
    else over_bus sb (count sb cpu) sys
exec_access sw cpu sys =
    if addr_of cpu == io_addr
    then returned success (count sw cpu)
        (record sys { console = put sys.console (hex_line (rt_of cpu)) })
    else over_bus sw (count sw cpu) sys
exec_access lw cpu sys = over_bus lw (count lw cpu) sys
exec_access ll cpu sys = over_bus ll (count ll cpu) sys
exec_access sc cpu sys = over_bus sc (count sc cpu) sys
