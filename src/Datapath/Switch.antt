-- ===== src/Datapath/Switch.antt =====
-- datapath.c: the labels of the switch in `execute`, in groups by what their code does.
use psim.Prelude.{ℕ, ◌==◌, if◌then◌else◌, List, [], ◌∷◌, Option, none, some, bit_or, shl, u32}
use psim.Instr.Opc
use psim.Instr.Func
use psim.Instr.Regimm
use psim.Instr.Special2
use psim.Instr.Special3
use psim.Instr.Cop0
use psim.Instr.Cop2

-- Operations on registers alone
pub data Alu : Type 0 where
  sll sra sllv movz movn mfhi mflo mult div addu subu and or xor slt mul ext : Alu

-- Jumps and branches
pub data Jump : Type 0 where
  jr bltz bgez j jal beq bne blez bgtz : Jump

-- Operations with an immediate operand
pub data Immediate : Type 0 where
  addiu slti sltiu andi ori xori lui : Immediate

-- The coprocessors; `operation` is the case `1 << 25`, which switches on COFUN.
pub data Cop : Type 0 where
  wait mfc2 mtc2 operation : Cop

-- Memory accesses
pub data Access : Type 0 where
  lb lw sb sw ll sc : Access

pub data Case : Type 0 where
  alu : Alu → Case
  jump : Jump → Case
  immediate : Immediate → Case
  cop : Cop → Case
  access : Access → Case

-- ((uint32_t) op << 26) | bits
abbrev pub label : ℕ → ℕ → ℕ
label op bits = bit_or (u32 (shl op 26)) bits

abbrev pub special_labels : List (ℕ × Case)
special_labels =
    (label Opc.special Func.sll, alu sll)
    ∷ (label Opc.special Func.sra, alu sra)
    ∷ (label Opc.special Func.sllv, alu sllv)
    ∷ (label Opc.special Func.jr, jump jr)
    ∷ (label Opc.special Func.movz, alu movz)
    ∷ (label Opc.special Func.movn, alu movn)
    ∷ (label Opc.special Func.mfhi, alu mfhi)
    ∷ (label Opc.special Func.mflo, alu mflo)
    ∷ (label Opc.special Func.mult, alu mult)
    ∷ (label Opc.special Func.div, alu div)
    ∷ (label Opc.special Func.addu, alu addu)
    ∷ (label Opc.special Func.subu, alu subu)
    ∷ (label Opc.special Func.and, alu and)
    ∷ (label Opc.special Func.or, alu or)
    ∷ (label Opc.special Func.xor, alu xor)
    ∷ (label Opc.special Func.slt, alu slt)
    ∷ []

abbrev pub other_labels : List (ℕ × Case)
other_labels =
    (label Opc.regimm (shl Regimm.bltz 16), jump bltz)
    ∷ (label Opc.regimm (shl Regimm.bgez 16), jump bgez)
    ∷ (u32 (shl Opc.j 26), jump j)
    ∷ (u32 (shl Opc.jal 26), jump jal)
    ∷ (u32 (shl Opc.beq 26), jump beq)
    ∷ (u32 (shl Opc.bne 26), jump bne)
    ∷ (u32 (shl Opc.blez 26), jump blez)
    ∷ (u32 (shl Opc.bgtz 26), jump bgtz)
    ∷ (u32 (shl Opc.addiu 26), immediate addiu)
    ∷ (u32 (shl Opc.slti 26), immediate slti)
    ∷ (u32 (shl Opc.sltiu 26), immediate sltiu)
    ∷ (u32 (shl Opc.andi 26), immediate andi)
    ∷ (u32 (shl Opc.ori 26), immediate ori)
    ∷ (u32 (shl Opc.xori 26), immediate xori)
    ∷ (u32 (shl Opc.lui 26), immediate lui)
    ∷ (label Opc.cop0 Cop0.wait, cop wait)
    ∷ (label Opc.cop2 (shl Cop2.mfc2 21), cop mfc2)
    ∷ (label Opc.cop2 (shl Cop2.mtc2 21), cop mtc2)
    ∷ (label Opc.cop2 (shl 1 25), cop operation)
    ∷ (label Opc.special2 Special2.mul, alu mul)
    ∷ (label Opc.special3 Special3.ext, alu ext)
    ∷ (u32 (shl Opc.lb 26), access lb)
    ∷ (u32 (shl Opc.lw 26), access lw)
    ∷ (u32 (shl Opc.sb 26), access sb)
    ∷ (u32 (shl Opc.sw 26), access sw)
    ∷ (u32 (shl Opc.ll 26), access ll)
    ∷ (u32 (shl Opc.sc 26), access sc)
    ∷ []

unfoldable pub find_label : ℕ → List (ℕ × Case) → Option Case
find_label sign [] = none
find_label sign ((l, c) ∷ rows) = if l == sign then some c else find_label sign rows

-- The switch; `none` is its default.
unfoldable pub case_of : ℕ → Option Case
unfolding find_label
case_of sign = elim (find_label sign special_labels) [
  | some c ↦ some c
  | none ↦ find_label sign other_labels
]
