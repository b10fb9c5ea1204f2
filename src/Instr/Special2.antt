-- ===== src/Instr/Special2.antt =====
-- enum special2_func of instr.h: the enumerators that the datapath names.
use psim.Prelude.{ℕ}

abbrev pub mul : ℕ
mul = 2
