-- ===== src/Instr/Cop2.antt =====
-- enum cop2_rs and enum cofun2 of instr.h: the enumerators that the datapath names.
use psim.Prelude.{ℕ}

abbrev pub mfc2 : ℕ
mfc2 = 0

abbrev pub mtc2 : ℕ
mtc2 = 4

abbrev pub cop2rs_ign8 : ℕ
cop2rs_ign8 = 15

abbrev pub memsz : ℕ
memsz = 0

abbrev pub ct0 : ℕ
ct0 = 1

abbrev pub input : ℕ
input = 2

abbrev pub output : ℕ
output = 3

abbrev pub alt : ℕ
alt = 4
