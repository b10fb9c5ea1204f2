-- ===== src/Instr/Cop0.antt =====
-- enum cop0_rs and enum cop0_co of instr.h: the enumerators that the datapath names.
use psim.Prelude.{ℕ}

abbrev pub cop0rs_ign10 : ℕ
cop0rs_ign10 = 15

abbrev pub wait : ℕ
wait = 32
