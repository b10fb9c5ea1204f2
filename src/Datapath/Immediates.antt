-- ===== src/Datapath/Immediates.antt =====
-- datapath.c: the cases of `execute` with an immediate operand, which C widens from int16_t.
use psim.Prelude.{ℕ, ◌+◌, bit_and, bit_or, bit_xor, shl, u32, sext16}
use psim.Prelude.{signed32, ltb_ℤ, ltb, ◌^◌, if◌then◌else◌, Outcome, ok, fault, ◌>>=◌}
use psim.Cpu.{Cpu, set_reg}
use psim.Datapath.Alu.{rs_of, of_bool}
use psim.Datapath.Switch.{Immediate, addiu, slti, sltiu, andi, ori, xori, lui}

-- What each case writes into gpr[rt]. LUI shifts an `int`: the left shift of a negative one is
-- undefined.
unfoldable pub immediate_value : Immediate → ℕ → ℕ → Outcome ℕ
immediate_value addiu rs imm = ok (u32 (rs + sext16 imm))
immediate_value slti rs imm = ok (of_bool (ltb_ℤ (signed32 rs) (signed32 (sext16 imm))))
immediate_value sltiu rs imm = ok (of_bool (ltb rs (sext16 imm)))
immediate_value andi rs imm = ok (bit_and rs (sext16 imm))
immediate_value ori rs imm = ok (bit_or rs imm)
immediate_value xori rs imm = ok (bit_xor rs imm)
immediate_value lui rs imm = if ltb imm (2 ^ 15) then ok (u32 (shl (sext16 imm) 16)) else fault

unfoldable pub exec_immediate : Immediate → Cpu → Outcome Cpu
unfolding immediate_value
exec_immediate op cpu = do
  v ← immediate_value op (rs_of cpu) cpu.dec.imm
  ok (set_reg cpu cpu.dec.rt v)
