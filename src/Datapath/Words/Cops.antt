-- ===== src/Datapath/Words/Cops.antt =====
-- The cases of `execute` for the coprocessors keep the processor and its surroundings well-formed.
use psim.Prelude.{ℕ, ◌+◌, ◌*◌, ◌<◌, ◌∙◌, arith, Bool, true, false, ◌==◌, leb, ◌||◌, if◌then◌else◌}
use psim.Prelude.{Bool-cases, inl, inr, All-set, length, set, length-set, get_elem?_of_lt}
use psim.Cpu
use psim.Cpu.{
  Cpu, mtc2_drop, cop2_nreg, cop2_nsel, k1, cop2_msg_st, cop2_msg_op_in, cop2_msg_op_out,
  cop2_msg_op_alt,
}
use psim.Instr.{cofun}
use psim.Instr.Cop2
use psim.Datapath.Alu.{rt_of}
use psim.Datapath.State.{Sys, Exec}
use psim.Datapath.Switch.{Cop, wait, mfc2, mtc2, operation}
use psim.Datapath.Cops.{
  exec_cop, exec_operation, op_memsz, op_ct0, op_input, op_output, op_alt, moved_from, moved_to,
}
use psim.Datapath.Words.{IsWord, IsCpu, reg-IsWord, set_reg-IsCpu, record-IsCpu, dec-IsDecoder}
use psim.Datapath.Words.Accesses.{IsSys, Sound}

set_cop2-IsCpu :
    (c : Cpu) (i v : ℕ) → IsCpu c → IsWord v → IsCpu (record c { cop2 = set c.cop2 i v })
set_cop2-IsCpu c i v h w = record {
  regs = h.regs;
  words = h.words;
  cop_regs = length-set c.cop2 i v ∙ h.cop_regs;
  cop_words = All-set IsWord c.cop2 i v h.cop_words w;
  hi_word = h.hi_word;
  lo_word = h.lo_word;
  pc_word = h.pc_word;
  npc_word = h.npc_word;
  rs_reg = h.rs_reg;
  rt_reg = h.rt_reg;
  rd_reg = h.rd_reg;
  imm_half = h.imm_half;
}

pub mtc2_drop-IsCpu : (c : Cpu) (sel v : ℕ) → IsCpu c → IsWord v → IsCpu (mtc2_drop c sel v)
unfolding mtc2_drop Cpu.mtc2
mtc2_drop-IsCpu c sel v h w = elim (Bool-cases (leb cop2_nsel sel)) [
  | inl p ↦ rw (p, mtc2_drop) h
  | inr p ↦ rw (p, mtc2_drop) (set_cop2-IsCpu c _ v h w)
]

counted-IsCpu : (c : Cpu) (p : _) → IsCpu c → IsCpu (record c { perfct = p })
counted-IsCpu c p h = record-IsCpu c c.running c.dec p h (dec-IsDecoder c h)

if-Sound : (b : Bool) (x y : Exec) → Sound x → Sound y → Sound (if b then x else y)
if-Sound true x y h k = h
if-Sound false x y h k = k

exec_operation-Sound : (c : Cpu) (s : Sys) → IsCpu c → IsSys s → Sound (exec_operation c s)
unfolding exec_operation op_memsz op_ct0 op_input op_output op_alt
exec_operation-Sound c s h k =
    let network : (v : ℕ) → IsWord v → IsCpu (mtc2_drop c cop2_msg_st v) =
      λ v w. mtc2_drop-IsCpu c cop2_msg_st v h w in
    if-Sound (cofun c.dec.raw == Cop2.memsz) _ _ (set_reg-IsCpu c k1 _ h (omega arith), k)
      (if-Sound (cofun c.dec.raw == Cop2.ct0) _ _ (counted-IsCpu c _ h, k)
        (if-Sound (cofun c.dec.raw == Cop2.input) _ _
          (counted-IsCpu _ _ (network cop2_msg_op_in (omega arith)), k)
          (if-Sound (cofun c.dec.raw == Cop2.output) _ _
            (counted-IsCpu _ _ (network cop2_msg_op_out (omega arith)), k)
            (if-Sound (cofun c.dec.raw == Cop2.alt) _ _
              (counted-IsCpu _ _ (network cop2_msg_op_alt (omega arith)), k) (h, k)))))

mfc2-Sound :
    (c : Cpu) (s : Sys) (src sel : ℕ)
    → IsCpu c
    → IsSys s
    → Sound (moved_from (Cpu.mfc2 c src sel) c s)
unfolding Cpu.mfc2
mfc2-Sound c s src sel h k = elim (Bool-cases (leb cop2_nreg src || leb cop2_nsel sel)) [
  | inl p ↦ rw p (h, k)
  | inr p ↦
      let in_range : src * cop2_nsel + sel < length c.cop2 = ground (arith, h.cop_regs) in
      let read = get_elem?_of_lt c.cop2 (src * cop2_nsel + sel) in_range in
      rw p (rw (read.1) (set_reg-IsCpu c c.dec.rt _ h (omega arith), k))
]

mtc2-Sound :
    (c : Cpu) (s : Sys) (dest sel v : ℕ)
    → IsCpu c
    → IsSys s
    → IsWord v
    → Sound (moved_to (Cpu.mtc2 c dest sel v) c s)
unfolding Cpu.mtc2
mtc2-Sound c s dest sel v h k w = elim (Bool-cases (leb cop2_nreg dest || leb cop2_nsel sel)) [
  | inl p ↦ rw p (h, k)
  | inr p ↦ rw p (set_cop2-IsCpu c _ v h w, k)
]

pub exec_cop-Sound : (op : Cop) (c : Cpu) (s : Sys) → IsCpu c → IsSys s → Sound (exec_cop op c s)
unfolding exec_cop
exec_cop-Sound wait c s h k = (record-IsCpu c false c.dec c.perfct h (dec-IsDecoder c h), k)
exec_cop-Sound mfc2 c s h k = mfc2-Sound c s c.dec.rd c.dec.sel h k
exec_cop-Sound mtc2 c s h k =
    mtc2-Sound c s c.dec.rd c.dec.sel (rt_of c) h k (reg-IsWord c c.dec.rt h)
exec_cop-Sound operation c s h k = exec_operation-Sound c s h k
