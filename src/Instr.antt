-- ===== src/Instr.antt =====
-- instr.h: the macros that cut an instruction word into fields. Each enum is a child module.
pub mod Opc
pub mod Func
pub mod Regimm
pub mod Special2
pub mod Special3
pub mod Cop0
pub mod Cop2
use psim.Prelude.{ℕ, bit_and, shr, u16}

-- OPC(i)
unfoldable pub opc : ℕ → ℕ
opc i = bit_and i 0xFC000000

-- FUNC(i)
unfoldable pub func : ℕ → ℕ
func i = bit_and i 0x3F

-- TF(i)
unfoldable pub tf : ℕ → ℕ
tf i = bit_and i 0x100

-- SHROT(i)
unfoldable pub shrot : ℕ → ℕ
shrot i = bit_and i 0x200000

-- SHROTV(i)
unfoldable pub shrotv : ℕ → ℕ
shrotv i = bit_and i 0x40

-- SA(i)
unfoldable pub sa : ℕ → ℕ
sa i = bit_and i 0x7C0

-- IMM(i), as the pattern of the int16_t
unfoldable pub imm : ℕ → ℕ
imm i = u16 (bit_and i 0xFFFF)

-- INSTR_IDX(i)
unfoldable pub instr_idx : ℕ → ℕ
instr_idx i = bit_and i 0x3FFFFFF

-- RD(i)
unfoldable pub rd : ℕ → ℕ
rd i = bit_and i 0xF800

-- RT(i)
unfoldable pub rt : ℕ → ℕ
rt i = bit_and i 0x1F0000

-- RS(i)
unfoldable pub rs : ℕ → ℕ
rs i = bit_and i 0x3E00000

-- CO(i)
unfoldable pub co : ℕ → ℕ
co i = bit_and i 0x02000000

-- COFUN(i)
unfoldable pub cofun : ℕ → ℕ
cofun i = bit_and i 0x01FFFFFF

-- SEL(i)
unfoldable pub sel : ℕ → ℕ
unfolding func
sel i = func i

-- LSB(i): six bits from bit 6 on
unfoldable pub lsb : ℕ → ℕ
lsb i = bit_and (shr i 6) 0x3F

-- MSBD(i): six bits from bit 11 on
unfoldable pub msbd : ℕ → ℕ
msbd i = bit_and (shr i 11) 0x3F
