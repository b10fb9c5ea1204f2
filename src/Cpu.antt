-- ===== src/Cpu.antt =====
-- cpu.h and cpu.c: the state of a processor, its creation and the moves from and to coprocessor 2.
pub mod Moves
use psim.Prelude.{ℕ, zero, suc, ◌+◌, ◌*◌, ◌-◌, ◌^◌, Bool, true, false, ◌||◌, leb, if◌then◌else◌}
use psim.Prelude.{List, [], ◌∷◌, get_elem?, get_or, set, replicate, none, some}
use psim.Prelude.{Outcome, ok, err, fault, einval, enomem, u32, bit_and}

abbrev pub n_gpr : ℕ
n_gpr = 32

abbrev pub cop2_nreg : ℕ
cop2_nreg = 1

abbrev pub cop2_nsel : ℕ
cop2_nsel = 6

-- COP2_MSG_ST_OP and COP2_MSG_ST_SENT
unfoldable pub cop2_msg_st_op : ℕ → ℕ
cop2_msg_st_op x = bit_and x 0x3

unfoldable pub cop2_msg_st_sent : ℕ → ℕ
cop2_msg_st_sent x = bit_and x 0x4

-- enum CPURegNo: the two registers that the simulator names
abbrev pub k0 : ℕ
k0 = 26

abbrev pub k1 : ℕ
k1 = 27

-- enum cop2_reg
abbrev pub cop2_msg : ℕ
cop2_msg = 0

-- enum cop2_link_sel
abbrev pub cop2_msg_corr : ℕ
cop2_msg_corr = 0

abbrev pub cop2_msg_data : ℕ
cop2_msg_data = 1

abbrev pub cop2_msg_st : ℕ
cop2_msg_st = 2

abbrev pub cop2_msg_nmsg : ℕ
cop2_msg_nmsg = 3

abbrev pub cop2_msg_hops : ℕ
cop2_msg_hops = 4

abbrev pub cop2_msg_ncl : ℕ
cop2_msg_ncl = 5

-- enum cop2_link_op
abbrev pub cop2_msg_op_none : ℕ
cop2_msg_op_none = 0

abbrev pub cop2_msg_op_in : ℕ
cop2_msg_op_in = 1

abbrev pub cop2_msg_op_out : ℕ
cop2_msg_op_out = 2

abbrev pub cop2_msg_op_alt : ℕ
cop2_msg_op_alt = 3

-- The fields of `Decoder`; `imm` is the pattern of the int16_t.
pub record Decoder : Type 0 where
  pub raw : ℕ
  pub sign : ℕ
  pub imm : ℕ
  pub ismem : Bool
  pub isjump : Bool
  pub sa : ℕ
  pub rd : ℕ
  pub rs : ℕ
  pub rt : ℕ
  pub idx : ℕ
  pub npc : ℕ
  pub stall : Bool
  pub rmwfail : Bool
  pub sel : ℕ

-- An element of `perfct.ct`
pub record Counter : Type 0 where
  pub en : Bool
  pub ct : ℕ

-- The struct `perfct`
pub record Perfct : Type 0 where
  pub cycle : ℕ
  pub ld : ℕ
  pub lddefer : ℕ
  pub st : ℕ
  pub stdefer : ℕ
  pub ll : ℕ
  pub lldefer : ℕ
  pub sc : ℕ
  pub scdefer : ℕ
  pub rmwfail : ℕ
  pub nin : ℕ
  pub nout : ℕ
  pub nalt : ℕ
  pub waitin : ℕ
  pub waitout : ℕ
  pub waitalt : ℕ
  pub ct : List Counter

-- `CPU`. The union `hilo` is read and written as its two words; `cop2` is laid out by rows, as the
-- array cop2[COP2_NREG][COP2_NSEL] is.
pub record Cpu : Type 0 where
  pub running : Bool
  pub pc : ℕ
  pub gpr : List ℕ
  pub hi : ℕ
  pub lo : ℕ
  pub dec : Decoder
  pub cop2 : List ℕ
  pub perfct : Perfct

-- What memset leaves of a `Decoder`, of the counters and of a `CPU`.
abbrev pub zero_decoder : Decoder
zero_decoder = record {
  raw = 0;
  sign = 0;
  imm = 0;
  ismem = false;
  isjump = false;
  sa = 0;
  rd = 0;
  rs = 0;
  rt = 0;
  idx = 0;
  npc = 0;
  stall = false;
  rmwfail = false;
  sel = 0;
}

abbrev pub zero_perfct : Perfct
zero_perfct = record {
  cycle = 0;
  ld = 0;
  lddefer = 0;
  st = 0;
  stdefer = 0;
  ll = 0;
  lldefer = 0;
  sc = 0;
  scdefer = 0;
  rmwfail = 0;
  nin = 0;
  nout = 0;
  nalt = 0;
  waitin = 0;
  waitout = 0;
  waitalt = 0;
  ct = record { en = false; ct = 0 } ∷ [];
}

abbrev pub zero_cpu : Cpu
zero_cpu = record {
  running = false;
  pc = 0;
  gpr = replicate n_gpr 0;
  hi = 0;
  lo = 0;
  dec = zero_decoder;
  cop2 = replicate (cop2_nreg * cop2_nsel) 0;
  perfct = zero_perfct;
}

-- The loop of `CPU_create` from index `i` on, with `n` rounds left.
unfoldable pub create_from : ℕ → ℕ → ℕ → List Cpu
create_from pc zero i = []
create_from pc (suc n) i =
    record zero_cpu { pc = pc; running = true; gpr = set (replicate n_gpr 0) k0 (u32 i) }
    ∷ create_from pc n (i + 1)

-- CPU_create; `allocated` tells whether malloc found the memory.
unfoldable pub create : Bool → ℕ → ℕ → Outcome (List Cpu)
unfolding create_from
create allocated ncpu pc = if allocated then ok (create_from pc ncpu 0) else err enomem

-- CPU_mfc2; a read outside the array would be undefined.
unfoldable pub mfc2 : Cpu → ℕ → ℕ → Outcome ℕ
mfc2 cpu src sel =
    if leb cop2_nreg src || leb cop2_nsel sel
    then err einval
    else elim (get_elem? cpu.cop2 (src * cop2_nsel + sel)) [ some v ↦ ok v | none ↦ fault ]

-- CPU_mtc2
unfoldable pub mtc2 : Cpu → ℕ → ℕ → ℕ → Outcome Cpu
mtc2 cpu dest sel val =
    if leb cop2_nreg dest || leb cop2_nsel sel
    then err einval
    else ok (record cpu { cop2 = set cpu.cop2 (dest * cop2_nsel + sel) val })

-- A call of CPU_mfc2 whose int64_t result goes into a uint32_t: its -1 becomes 2 ^ 32 - 1.
unfoldable pub mfc2_u32 : Cpu → ℕ → ℕ
unfolding mfc2
mfc2_u32 cpu sel = elim (mfc2 cpu cop2_msg sel) [ ok v ↦ v | _ ↦ 2 ^ 32 - 1 ]

-- A call of CPU_mtc2 whose result is dropped.
unfoldable pub mtc2_drop : Cpu → ℕ → ℕ → Cpu
unfolding mtc2
mtc2_drop cpu sel val = elim (mtc2 cpu cop2_msg sel val) [ ok c ↦ c | _ ↦ cpu ]

-- cpu->gpr[i]
abbrev pub reg : Cpu → ℕ → ℕ
reg cpu i = get_or cpu.gpr i 0

-- cpu->gpr[i] = v
abbrev pub set_reg : Cpu → ℕ → ℕ → Cpu
set_reg cpu i v = record cpu { gpr = set cpu.gpr i v }
