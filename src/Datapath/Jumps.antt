-- ===== src/Datapath/Jumps.antt =====
-- datapath.c: the cases of `execute` that set the next program counter.
use psim.Prelude.{ℕ, ◌+◌, ◌^◌, Bool, true, false, not, ◌==◌, ltb, if◌then◌else◌, Outcome, ok, fault}
use psim.Prelude.{bit_and, bit_or, shl, u32, sext16, signed32, ltb_ℤ, pos}
use psim.Cpu.{Cpu, set_reg}
use psim.Datapath.Alu.{rs_of, rt_of}
use psim.Datapath.Switch.{Jump, jr, bltz, bgez, j, jal, beq, bne, blez, bgtz}

-- cpu->dec.npc = v
abbrev pub set_npc : Cpu → ℕ → Cpu
set_npc cpu v = record cpu { dec = record (cpu.dec) { npc = u32 v } }

-- A branch: `ext = imm; off = ext << 2; npc = pc + 4 + off` if it is taken, `isjump = 0` if not.
-- `ext` is an int32_t: the left shift of a negative one is undefined.
unfoldable pub branch : Bool → Cpu → Outcome Cpu
branch true cpu =
    if ltb cpu.dec.imm (2 ^ 15)
    then ok (set_npc cpu (cpu.pc + 4 + u32 (shl (sext16 cpu.dec.imm) 2)))
    else fault
branch false cpu = ok (record cpu { dec = record (cpu.dec) { isjump = false } })

-- (cpu->pc & 0xF0000000) | cpu->dec.idx
abbrev pub region_target : Cpu → ℕ
region_target cpu = bit_or (bit_and cpu.pc 0xF0000000) cpu.dec.idx

-- The condition of each branch
unfoldable pub taken : Jump → Cpu → Bool
taken bltz cpu = ltb_ℤ (signed32 (rs_of cpu)) (pos 0)
taken bgez cpu = not (ltb_ℤ (signed32 (rs_of cpu)) (pos 0))
taken beq cpu = rs_of cpu == rt_of cpu
taken bne cpu = not (rs_of cpu == rt_of cpu)
taken blez cpu = not (ltb_ℤ (pos 0) (signed32 (rs_of cpu)))
taken bgtz cpu = ltb_ℤ (pos 0) (signed32 (rs_of cpu))
taken jr cpu = true
taken j cpu = true
taken jal cpu = true

unfoldable pub exec_jump : Jump → Cpu → Outcome Cpu
unfolding branch taken
exec_jump jr cpu = ok (set_npc cpu (rs_of cpu))
exec_jump j cpu = ok (set_npc cpu (region_target cpu))
exec_jump jal cpu = ok (set_npc (set_reg cpu 31 (u32 (cpu.pc + 8))) (region_target cpu))
exec_jump bltz cpu = branch (taken bltz cpu) cpu
exec_jump bgez cpu = branch (taken bgez cpu) cpu
exec_jump beq cpu = branch (taken beq cpu) cpu
exec_jump bne cpu = branch (taken bne cpu) cpu
exec_jump blez cpu = branch (taken blez cpu) cpu
exec_jump bgtz cpu = branch (taken bgtz cpu) cpu
