-- ===== src/Instr/Func.antt =====
-- enum special_func of instr.h: the enumerators that the datapath names.
use psim.Prelude.{ℕ}

abbrev pub sll : ℕ
sll = 0

abbrev pub movci : ℕ
movci = 1

abbrev pub srl_field : ℕ
srl_field = 2

abbrev pub sra : ℕ
sra = 3

abbrev pub sllv : ℕ
sllv = 4

abbrev pub srlv_field : ℕ
srlv_field = 6

abbrev pub jr : ℕ
jr = 8

abbrev pub jalr : ℕ
jalr = 9

abbrev pub movz : ℕ
movz = 10

abbrev pub movn : ℕ
movn = 11

abbrev pub mfhi : ℕ
mfhi = 16

abbrev pub mflo : ℕ
mflo = 18

abbrev pub mult : ℕ
mult = 24

abbrev pub div : ℕ
div = 26

abbrev pub addu : ℕ
addu = 33

abbrev pub subu : ℕ
subu = 35

abbrev pub and : ℕ
and = 36

abbrev pub or : ℕ
or = 37

abbrev pub xor : ℕ
xor = 38

abbrev pub slt : ℕ
slt = 42
