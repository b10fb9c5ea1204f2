-- ===== src/Datapath/Alu.antt =====
-- datapath.c: the cases of `execute` that work on registers alone. `fault` is an operation that C
-- leaves undefined: a product or quotient that is no `int`, and a shift by the width or more.
use psim.Prelude.{ℕ, ◌+◌, ◌-◌, ◌*◌, ◌^◌, Bool, ◌||◌, ◌==◌, ltb, leb, if◌then◌else◌}
use psim.Prelude.{bit_and, bit_or, bit_xor, shl, shr, u32, sub32, Outcome, ok, fault}
use psim.Prelude.{signed32, pattern32, fits_int, is_neg, ltb_ℤ, quot, rem, ℤ, ◌*ℤ◌}
use psim.Cpu.{Cpu, reg, set_reg}
use psim.Instr
use psim.Instr.{lsb, msbd}
use psim.Datapath.Switch.{
  Alu, sll, sra, sllv, movz, movn, mfhi, mflo, mult, div, addu, subu, and, or, xor, slt, mul, ext,
}

abbrev pub rs_of : Cpu → ℕ
rs_of cpu = reg cpu cpu.dec.rs

abbrev pub rt_of : Cpu → ℕ
rt_of cpu = reg cpu cpu.dec.rt

abbrev pub to_rd : Cpu → ℕ → Outcome Cpu
to_rd cpu v = ok (set_reg cpu cpu.dec.rd v)

abbrev pub of_bool : Bool → ℕ
of_bool b = if b then 1 else 0

-- cpu->hilo.s64 = p for an `int` p
abbrev pub set_hilo : Cpu → ℤ → Cpu
set_hilo cpu p = record cpu { lo = pattern32 p; hi = if is_neg p then 2 ^ 32 - 1 else 0 }

-- MULT: both factors are int32_t, so the product is computed in `int`.
unfoldable pub exec_mult : Cpu → Outcome Cpu
exec_mult cpu =
    let p = signed32 (rs_of cpu) *ℤ signed32 (rt_of cpu) in
    if fits_int p then ok (set_hilo cpu p) else fault

-- DIV
unfoldable pub exec_div : Cpu → Outcome Cpu
exec_div cpu =
    let a = signed32 (rs_of cpu) in
    let b = signed32 (rt_of cpu) in
    if rt_of cpu == 0
    then fault
    else if fits_int (quot a b)
    then ok (record cpu { lo = pattern32 (quot a b); hi = pattern32 (rem a b) })
    else fault

-- EXT
unfoldable pub exec_ext : Cpu → Outcome Cpu
unfolding Instr.lsb Instr.msbd
exec_ext cpu =
    let low = lsb cpu.dec.raw in
    let top = msbd cpu.dec.raw in
    if leb 32 low || ltb 31 top
    then fault
    else ok (set_reg cpu cpu.dec.rt (bit_and (shr (rs_of cpu) low) (shr 0xFFFFFFFF (31 - top))))

unfoldable pub exec_alu : Alu → Cpu → Outcome Cpu
unfolding exec_mult exec_div exec_ext
exec_alu sll cpu = to_rd cpu (u32 (shl (rt_of cpu) cpu.dec.sa))
exec_alu sra cpu = to_rd cpu (shr (rt_of cpu) cpu.dec.sa)
exec_alu sllv cpu = to_rd cpu (u32 (shl (rt_of cpu) (bit_and 0x1F (rs_of cpu))))
exec_alu movz cpu = if rt_of cpu == 0 then to_rd cpu (rs_of cpu) else ok cpu
exec_alu movn cpu = if rt_of cpu == 0 then ok cpu else to_rd cpu (rs_of cpu)
exec_alu mfhi cpu = to_rd cpu cpu.hi
exec_alu mflo cpu = to_rd cpu cpu.lo
exec_alu mult cpu = exec_mult cpu
exec_alu div cpu = exec_div cpu
exec_alu addu cpu = to_rd cpu (u32 (rs_of cpu + rt_of cpu))
exec_alu subu cpu = to_rd cpu (sub32 (rs_of cpu) (rt_of cpu))
exec_alu and cpu = to_rd cpu (bit_and (rs_of cpu) (rt_of cpu))
exec_alu or cpu = to_rd cpu (bit_or (rs_of cpu) (rt_of cpu))
exec_alu xor cpu = to_rd cpu (bit_xor (rs_of cpu) (rt_of cpu))
exec_alu slt cpu = to_rd cpu (of_bool (ltb_ℤ (signed32 (rs_of cpu)) (signed32 (rt_of cpu))))
exec_alu mul cpu = to_rd cpu (u32 (rs_of cpu * rt_of cpu))
exec_alu ext cpu = exec_ext cpu
