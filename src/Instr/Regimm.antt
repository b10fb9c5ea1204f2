-- ===== src/Instr/Regimm.antt =====
-- enum regimm_rt of instr.h: the enumerators that the datapath names.
use psim.Prelude.{ℕ}

abbrev pub bltz : ℕ
bltz = 0

abbrev pub bgez : ℕ
bgez = 1

abbrev pub bltzl : ℕ
bltzl = 2

abbrev pub bgezl : ℕ
bgezl = 3

abbrev pub tgei : ℕ
tgei = 8

abbrev pub tgeiu : ℕ
tgeiu = 9

abbrev pub tlti : ℕ
tlti = 10

abbrev pub tltiu : ℕ
tltiu = 11

abbrev pub teqi : ℕ
teqi = 12

abbrev pub tnei : ℕ
tnei = 14

abbrev pub bltzal : ℕ
bltzal = 16

abbrev pub bgezal : ℕ
bgezal = 17

abbrev pub bltzall : ℕ
bltzall = 18

abbrev pub bgezall : ℕ
bgezall = 19

abbrev pub synci : ℕ
synci = 31
