-- ===== src/Isa.antt =====
-- The MIPS instructions that datapath.c executes, as the architecture's manual lays their words out:
-- the digits of each format, and the numbers of each instruction. The children relate them to
-- `decode` and to a cycle of the datapath.
pub mod Fields
pub mod Decoding
pub mod RoundTrip
pub mod Marks
pub mod Cycle
pub mod Jumps
pub mod Values
pub mod Reference
pub mod Opcodes
use psim.Prelude.{ℕ, ◌+◌, ◌*◌, ◌^◌, ◌<◌}
use psim.Datapath.Switch.{
  Alu, sll, sra, sllv, movz, movn, mfhi, mflo, mult, div, addu, subu, and, or, xor, slt, mul, ext,
}
use psim.Datapath.Switch.{Jump, jr, bltz, bgez, j, jal, beq, bne, blez, bgtz}
use psim.Datapath.Switch.{Immediate, addiu, slti, sltiu, andi, ori, xori, lui}
use psim.Datapath.Switch.{Cop, wait, mfc2, mtc2, operation}
use psim.Datapath.Switch.{Access, lb, lw, sb, sw, ll, sc}
use psim.Datapath.Switch.{Case, alu, jump, immediate, cop, access}

-- The operands of an instruction; each format uses some of them.
pub record Operands : Type 0 where
  pub rs : ℕ
  pub rt : ℕ
  pub rd : ℕ
  pub sa : ℕ
  pub imm : ℕ
  pub target : ℕ
  pub sel : ℕ
  pub code : ℕ

-- Each operand has as many binary digits as its place in the word.
pub record IsOperands (f : Operands) : Type 0 where
  pub rs_digits : f.rs < 32
  pub rt_digits : f.rt < 32
  pub rd_digits : f.rd < 32
  pub sa_digits : f.sa < 32
  pub imm_digits : f.imm < 2 ^ 16
  pub target_digits : f.target < 2 ^ 26
  pub sel_digits : f.sel < 64
  pub code_digits : f.code < 2 ^ 25

-- The formats with five fields, with a 16-digit immediate and with a 26-digit target
abbrev pub r_format : ℕ → ℕ → ℕ → ℕ → ℕ → ℕ → ℕ
r_format op rs rt rd sa fn = op * 2 ^ 26 + rs * 2 ^ 21 + rt * 2 ^ 16 + rd * 2 ^ 11 + sa * 2 ^ 6 + fn

abbrev pub i_format : ℕ → ℕ → ℕ → ℕ → ℕ
i_format op rs rt imm = op * 2 ^ 26 + rs * 2 ^ 21 + rt * 2 ^ 16 + imm

abbrev pub j_format : ℕ → ℕ → ℕ
j_format op target = op * 2 ^ 26 + target

-- The opcode of an operation on registers, and the number in its lowest six digits
unfoldable pub alu_opcode : Alu → ℕ
alu_opcode mul = 28
alu_opcode ext = 31
alu_opcode _ = 0

unfoldable pub alu_function : Alu → ℕ
alu_function sll = 0
alu_function sra = 3
alu_function sllv = 4
alu_function movz = 10
alu_function movn = 11
alu_function mfhi = 16
alu_function mflo = 18
alu_function mult = 24
alu_function div = 26
alu_function addu = 33
alu_function subu = 35
alu_function and = 36
alu_function or = 37
alu_function xor = 38
alu_function slt = 42
alu_function mul = 2
alu_function ext = 0

unfoldable pub immediate_opcode : Immediate → ℕ
immediate_opcode addiu = 9
immediate_opcode slti = 10
immediate_opcode sltiu = 11
immediate_opcode andi = 12
immediate_opcode ori = 13
immediate_opcode xori = 14
immediate_opcode lui = 15

unfoldable pub access_opcode : Access → ℕ
access_opcode lb = 32
access_opcode lw = 35
access_opcode sb = 40
access_opcode sw = 43
access_opcode ll = 48
access_opcode sc = 56

unfoldable pub encode_jump : Jump → Operands → ℕ
encode_jump jr f = r_format 0 f.rs f.rt f.rd f.sa 8
encode_jump bltz f = i_format 1 f.rs 0 f.imm
encode_jump bgez f = i_format 1 f.rs 1 f.imm
encode_jump j f = j_format 2 f.target
encode_jump jal f = j_format 3 f.target
encode_jump beq f = i_format 4 f.rs f.rt f.imm
encode_jump bne f = i_format 5 f.rs f.rt f.imm
encode_jump blez f = i_format 6 f.rs f.rt f.imm
encode_jump bgtz f = i_format 7 f.rs f.rt f.imm

-- WAIT has its digit 25 set and leaves 19 digits to the implementation; an operation of coprocessor
-- 2 has 25 digits of its own.
unfoldable pub encode_cop : Cop → Operands → ℕ
encode_cop wait f = r_format 16 16 f.rt f.rd f.sa 32
encode_cop mfc2 f = r_format 18 0 f.rt f.rd 0 f.sel
encode_cop mtc2 f = r_format 18 4 f.rt f.rd 0 f.sel
encode_cop operation f = 18 * 2 ^ 26 + 2 ^ 25 + f.code

-- The word of an instruction
unfoldable pub encode : Case → Operands → ℕ
unfolding alu_opcode alu_function immediate_opcode access_opcode encode_jump encode_cop
encode (alu op) f = r_format (alu_opcode op) f.rs f.rt f.rd f.sa (alu_function op)
encode (jump op) f = encode_jump op f
encode (immediate op) f = i_format (immediate_opcode op) f.rs f.rt f.imm
encode (cop op) f = encode_cop op f
encode (access op) f = i_format (access_opcode op) f.rs f.rt f.imm

-- The opcode of an instruction: the highest six digits of its word
unfoldable pub opcode : Case → ℕ
unfolding alu_opcode immediate_opcode access_opcode
opcode (alu op) = alu_opcode op
opcode (jump jr) = 0
opcode (jump bltz) = 1
opcode (jump bgez) = 1
opcode (jump j) = 2
opcode (jump jal) = 3
opcode (jump beq) = 4
opcode (jump bne) = 5
opcode (jump blez) = 6
opcode (jump bgtz) = 7
opcode (immediate op) = immediate_opcode op
opcode (cop wait) = 16
opcode (cop _) = 18
opcode (access op) = access_opcode op
