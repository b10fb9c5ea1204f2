-- ===== src/Datapath/Words.antt =====
-- The well-formed processors: as many registers as the arrays of CPU have, every register a word of
-- 32 bits, and a decoder whose fields index the registers.
pub mod Registers
pub mod Accesses
pub mod Cops
pub mod Cycle
use psim.Prelude.{
  Bool, ℕ, ◌*◌, ◌^◌, ◌<◌, ◌≡◌, ◌∙◌, arith, All, All-set, All-get_or, length, length-set,
}
use psim.Cpu.{Cpu, Decoder, Perfct, n_gpr, cop2_nreg, cop2_nsel, reg, set_reg}

abbrev pub IsWord : ℕ → Type 0
IsWord n = n < 2 ^ 32

pub record IsCpu (c : Cpu) : Type 0 where
  pub regs : length c.gpr ≡ n_gpr
  pub words : All IsWord c.gpr
  pub cop_regs : length c.cop2 ≡ cop2_nreg * cop2_nsel
  pub cop_words : All IsWord c.cop2
  pub hi_word : IsWord c.hi
  pub lo_word : IsWord c.lo
  pub pc_word : c.pc < 2 ^ 64
  pub npc_word : IsWord c.dec.npc
  pub rs_reg : c.dec.rs < n_gpr
  pub rt_reg : c.dec.rt < n_gpr
  pub rd_reg : c.dec.rd < n_gpr
  pub imm_half : c.dec.imm < 2 ^ 16

pub reg-IsWord : (c : Cpu) (i : ℕ) → IsCpu c → IsWord (reg c i)
reg-IsWord c i h = All-get_or IsWord c.gpr i 0 h.words (omega arith)

pub set_reg-IsCpu : (c : Cpu) (i v : ℕ) → IsCpu c → IsWord v → IsCpu (set_reg c i v)
set_reg-IsCpu c i v h w = record {
  regs = length-set c.gpr i v ∙ h.regs;
  words = All-set IsWord c.gpr i v h.words w;
  cop_regs = h.cop_regs;
  cop_words = h.cop_words;
  hi_word = h.hi_word;
  lo_word = h.lo_word;
  pc_word = h.pc_word;
  npc_word = h.npc_word;
  rs_reg = h.rs_reg;
  rt_reg = h.rt_reg;
  rd_reg = h.rd_reg;
  imm_half = h.imm_half;
}

-- The decoder's part of the invariant
pub record IsDecoder (d : Decoder) : Type 0 where
  pub npc_word : IsWord d.npc
  pub rs_reg : d.rs < n_gpr
  pub rt_reg : d.rt < n_gpr
  pub rd_reg : d.rd < n_gpr
  pub imm_half : d.imm < 2 ^ 16

pub dec-IsDecoder : (c : Cpu) → IsCpu c → IsDecoder c.dec
dec-IsDecoder c h = record {
  npc_word = h.npc_word;
  rs_reg = h.rs_reg;
  rt_reg = h.rt_reg;
  rd_reg = h.rd_reg;
  imm_half = h.imm_half;
}

-- The registers decide the rest: a new decoder, new counters and the state of running may come in.
pub record-IsCpu :
    (c : Cpu) (r : Bool) (d : Decoder) (p : Perfct)
    → IsCpu c
    → IsDecoder d
    → IsCpu (record c { running = r; dec = d; perfct = p })
record-IsCpu c r d p h k = record {
  regs = h.regs;
  words = h.words;
  cop_regs = h.cop_regs;
  cop_words = h.cop_words;
  hi_word = h.hi_word;
  lo_word = h.lo_word;
  pc_word = h.pc_word;
  npc_word = k.npc_word;
  rs_reg = k.rs_reg;
  rt_reg = k.rt_reg;
  rd_reg = k.rd_reg;
  imm_half = k.imm_half;
}
