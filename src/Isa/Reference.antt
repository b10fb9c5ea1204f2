-- ===== src/Isa/Reference.antt =====
-- What the manual says that the instructions on registers, the immediate operations and the jumps
-- do, by its own formulas: signs are compared with the highest digit flipped, and an immediate is
-- extended by moving it through the halfwords. Branches are those of a program whose delay slots
-- hold no operation: an untaken branch goes on at the next word, a link skips the slot.
-- The region of J and JAL is that of the delay slot.
use psim.Prelude.{ℕ, ◌+◌, ◌-◌, ◌*◌, ◌/◌, ◌%◌, ◌^◌, Bool, true, not, ◌==◌, ltb}
use psim.Prelude.{if◌then◌else◌, bit_and, bit_or, bit_xor, List, get_or, set, Option, none, some}
use psim.Cpu.{Cpu}
use psim.Isa.{Operands}
use psim.Datapath.Switch.{
  Alu, sll, sra, sllv, movz, movn, mfhi, mflo, mult, div, addu, subu, and, or, xor, slt, mul, ext,
}
use psim.Datapath.Switch.{Jump, jr, bltz, bgez, j, jal, beq, bne, blez, bgtz}
use psim.Datapath.Switch.{Immediate, addiu, slti, sltiu, andi, ori, xori, lui}
use psim.Datapath.Switch.{Case, alu, jump, immediate, cop, access}

-- The state that a program sees: register 0 reads as 0.
pub record Arch : Type 0 where
  pub pc : ℕ
  pub gpr : List ℕ
  pub hi : ℕ
  pub lo : ℕ

abbrev pub arch_of : Cpu → Arch
arch_of cpu = record { pc = cpu.pc; gpr = set cpu.gpr 0 0; hi = cpu.hi; lo = cpu.lo }

abbrev pub read : Arch → ℕ → ℕ
read a r = get_or a.gpr r 0

-- A write of a register, and a step to an address
abbrev pub write : Arch → ℕ → ℕ → Arch
write a r v = record a { gpr = set (set a.gpr r v) 0 0 }

abbrev pub go : Arch → ℕ → Arch
go a target = record a { pc = target % 2 ^ 32 }

abbrev pub bit : Bool → ℕ
bit b = if b then 1 else 0

-- Is the word less than the other one, as a signed number? Is it negative?
abbrev pub signed_less : ℕ → ℕ → Bool
signed_less x y = ltb ((x + 2 ^ 31) % 2 ^ 32) ((y + 2 ^ 31) % 2 ^ 32)

abbrev pub negative : ℕ → Bool
negative x = signed_less x 0

-- A halfword as a signed number, in 32 digits
abbrev pub extend : ℕ → ℕ
extend h = ((h + 2 ^ 15) % 2 ^ 16 + (2 ^ 32 - 2 ^ 15)) % 2 ^ 32

-- The value that an operation writes into the register `rd`
unfoldable pub alu_value : Alu → Operands → Arch → Option ℕ
alu_value sll f a = some (read a f.rt * 2 ^ f.sa % 2 ^ 32)
alu_value sra f a = some (read a f.rt / 2 ^ f.sa)
alu_value sllv f a = some (read a f.rt * 2 ^ (read a f.rs % 32) % 2 ^ 32)
alu_value movz f a = if read a f.rt == 0 then some (read a f.rs) else none
alu_value movn f a = if read a f.rt == 0 then none else some (read a f.rs)
alu_value mfhi f a = some a.hi
alu_value mflo f a = some a.lo
alu_value addu f a = some ((read a f.rs + read a f.rt) % 2 ^ 32)
alu_value subu f a = some ((read a f.rs + (2 ^ 32 - read a f.rt)) % 2 ^ 32)
alu_value and f a = some (bit_and (read a f.rs) (read a f.rt))
alu_value or f a = some (bit_or (read a f.rs) (read a f.rt))
alu_value xor f a = some (bit_xor (read a f.rs) (read a f.rt))
alu_value slt f a = some (bit (signed_less (read a f.rs) (read a f.rt)))
alu_value mul f a = some (read a f.rs * read a f.rt % 2 ^ 32)
alu_value mult f a = none
alu_value div f a = none
alu_value ext f a = none

-- The value that an immediate operation writes into the register `rt`
unfoldable pub immediate_result : Immediate → ℕ → ℕ → ℕ
immediate_result addiu x h = (x + extend h) % 2 ^ 32
immediate_result slti x h = bit (signed_less x (extend h))
immediate_result sltiu x h = bit (ltb x (extend h))
immediate_result andi x h = bit_and x h
immediate_result ori x h = bit_or x h
immediate_result xori x h = bit_xor x h
immediate_result lui x h = h * 2 ^ 16

-- Does the branch go?
unfoldable pub goes : Jump → ℕ → ℕ → Bool
goes beq x y = x == y
goes bne x y = not (x == y)
goes bltz x y = negative x
goes bgez x y = not (negative x)
goes bgtz x y = signed_less 0 x
goes blez x y = not (signed_less 0 x)
goes _ x y = true

unfoldable pub jump_result : Jump → Operands → Arch → Arch
unfolding goes
jump_result jr f a = go a (read a f.rs)
jump_result j f a = go a ((a.pc + 4) / 2 ^ 28 * 2 ^ 28 + f.target * 4)
jump_result jal f a =
    go (write a 31 ((a.pc + 8) % 2 ^ 32)) ((a.pc + 4) / 2 ^ 28 * 2 ^ 28 + f.target * 4)
jump_result op f a =
    if goes op (read a f.rs) (read a f.rt)
    then go a (a.pc + 4 + extend f.imm * 4)
    else go a (a.pc + 4)

-- A register is written, or none is.
abbrev pub write_if : Option ℕ → ℕ → Arch → Arch
write_if (some v) r a = write a r v
write_if none r a = a

-- A step of the program
unfoldable pub step : Case → Operands → Arch → Arch
unfolding alu_value immediate_result jump_result
step (alu op) f a = go (write_if (alu_value op f a) f.rd a) (a.pc + 4)
step (jump op) f a = jump_result op f a
step (immediate op) f a = go (write a f.rt (immediate_result op (read a f.rs) f.imm)) (a.pc + 4)
step (cop op) f a = a
step (access op) f a = a
