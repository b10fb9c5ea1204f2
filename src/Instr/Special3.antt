-- ===== src/Instr/Special3.antt =====
-- enum special3_func of instr.h: the enumerators that the datapath names.
use psim.Prelude.{ℕ}

abbrev pub ext : ℕ
ext = 0

abbrev pub bshfl : ℕ
bshfl = 32
