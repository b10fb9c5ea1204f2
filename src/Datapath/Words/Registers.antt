-- ===== src/Datapath/Words/Registers.antt =====
-- The cases of `execute` that work on registers alone keep a processor well-formed.
use psim.Prelude.{WhenOk, if_both, ◌>>=◌, ℕ, ◌-◌, ◌^◌, ◌≤◌, arith, Bool, true, false}
use psim.Prelude.{Bool-cases, inl, inr, Outcome, ok, err, fault, ◌==◌, ltb, leb, ◌||◌}
use psim.Prelude.{
  u32, shr, signed32, pattern32, fits_int, quot, rem, ℤ, pos, negsuc, ◌*ℤ◌, is_neg, if◌then◌else◌,
  sext16,
}
use psim.Prelude.BitBounds.{bit_and-le, bit_or-lt, bit_xor-lt}
use psim.Cpu.{Cpu, set_reg}
use psim.Instr.{lsb, msbd}
use native.Mathlib.Nat.{div-le_self}
use psim.Datapath.Switch.{
  Alu, sll, sra, sllv, movz, movn, mfhi, mflo, mult, div, addu, subu, and, or, xor, slt, mul, ext,
  Jump, jr, j, jal, bltz, bgez, beq, bne, blez, bgtz, Immediate, addiu, slti, sltiu, andi, ori,
  xori, lui,
}
use psim.Datapath.Alu.{exec_alu, exec_mult, exec_div, exec_ext, rs_of, rt_of, to_rd, of_bool}
use psim.Datapath.Jumps.{exec_jump, branch, taken, set_npc}
use psim.Datapath.Immediates.{exec_immediate, immediate_value}
use psim.Datapath.Words.{IsWord, IsCpu, record-IsCpu, reg-IsWord, set_reg-IsCpu}

abbrev pub IfOk : Outcome Cpu → Type 0
IfOk (ok c) = IsCpu c
IfOk (err e) = Unit
IfOk fault = Unit

pattern32-IsWord : (z : ℤ) → IsWord (pattern32 z)
pattern32-IsWord (pos n) = omega arith
pattern32-IsWord (negsuc n) = omega arith

hilo-IsCpu :
    (c : Cpu) (l h : ℕ) → IsCpu c → IsWord l → IsWord h → IsCpu (record c { lo = l; hi = h })
hilo-IsCpu c l h v low high = record {
  regs = v.regs;
  words = v.words;
  cop_regs = v.cop_regs;
  cop_words = v.cop_words;
  hi_word = high;
  lo_word = low;
  pc_word = v.pc_word;
  npc_word = v.npc_word;
  rs_reg = v.rs_reg;
  rt_reg = v.rt_reg;
  rd_reg = v.rd_reg;
  imm_half = v.imm_half;
}

of_bool-IsWord : (b : Bool) → IsWord (of_bool b)
of_bool-IsWord true = omega arith
of_bool-IsWord false = omega arith

pub shr-le : (a k : ℕ) → shr a k ≤ a
shr-le a k = div-le_self a (2 ^ k)

high-IsWord : (p : ℤ) → IsWord (if is_neg p then 2 ^ 32 - 1 else 0)
high-IsWord (pos n) = omega arith
high-IsWord (negsuc n) = omega arith

module _ (c : Cpu) (v : IsCpu c) where
  to_rd-IfOk : (w : ℕ) → IsWord w → IfOk (to_rd c w)
  to_rd-IfOk w h = set_reg-IsCpu c c.dec.rd w v h

  exec_mult-IfOk : IfOk (exec_mult c)
  unfolding exec_mult
  exec_mult-IfOk =
      let p = signed32 (rs_of c) *ℤ signed32 (rt_of c) in
      elim (Bool-cases (fits_int p)) [
        | inl q ↦ rw q (hilo-IsCpu c _ _ v (pattern32-IsWord p) (high-IsWord p))
        | inr q ↦ rw q tt
      ]

  exec_div-IfOk : IfOk (exec_div c)
  unfolding exec_div
  exec_div-IfOk =
      let a = signed32 (rs_of c) in
      let b = signed32 (rt_of c) in
      elim (Bool-cases (rt_of c == 0)) [
        | inl z ↦ rw z tt
        | inr nz ↦ elim (Bool-cases (fits_int (quot a b))) [
          | inl q ↦
              rw nz (
                rw q
                  (hilo-IsCpu c _ _ v (pattern32-IsWord (quot a b)) (pattern32-IsWord (rem a b))))
          | inr q ↦ rw nz (rw q tt)
        ]
      ]

  exec_ext-IfOk : IfOk (exec_ext c)
  unfolding exec_ext
  exec_ext-IfOk =
      let low = lsb c.dec.raw in
      let top = msbd c.dec.raw in
      elim (Bool-cases (leb 32 low || ltb 31 top)) [
        | inl p ↦ rw p tt
        | inr p ↦ rw p (
            set_reg-IsCpu c _ _ v (
              omega (
                arith,
                bit_and-le (shr (rs_of c) low) (shr 0xFFFFFFFF (31 - top)),
                shr-le (rs_of c) low,
                reg-IsWord c c.dec.rs v,
              )))
      ]

  pub exec_alu-IfOk : (op : Alu) → IfOk (exec_alu op c)
  unfolding exec_alu
  exec_alu-IfOk sll = to_rd-IfOk _ (omega arith)
  exec_alu-IfOk sra =
      to_rd-IfOk _ (omega (arith, shr-le (rt_of c) c.dec.sa, reg-IsWord c c.dec.rt v))
  exec_alu-IfOk sllv = to_rd-IfOk _ (omega arith)
  exec_alu-IfOk movz = elim (Bool-cases (rt_of c == 0)) [
    | inl p ↦ rw p (to_rd-IfOk _ (reg-IsWord c c.dec.rs v))
    | inr p ↦ rw p v
  ]
  exec_alu-IfOk movn = elim (Bool-cases (rt_of c == 0)) [
    | inl p ↦ rw p v
    | inr p ↦ rw p (to_rd-IfOk _ (reg-IsWord c c.dec.rs v))
  ]
  exec_alu-IfOk mfhi = to_rd-IfOk _ v.hi_word
  exec_alu-IfOk mflo = to_rd-IfOk _ v.lo_word
  exec_alu-IfOk mult = exec_mult-IfOk
  exec_alu-IfOk div = exec_div-IfOk
  exec_alu-IfOk addu = to_rd-IfOk _ (omega arith)
  exec_alu-IfOk subu = to_rd-IfOk _ (omega arith)
  exec_alu-IfOk and =
      to_rd-IfOk _ (omega (arith, bit_and-le (rs_of c) (rt_of c), reg-IsWord c c.dec.rs v))
  exec_alu-IfOk or =
      to_rd-IfOk _
        (bit_or-lt 32 (rs_of c) (rt_of c) (reg-IsWord c c.dec.rs v) (reg-IsWord c c.dec.rt v))
  exec_alu-IfOk xor =
      to_rd-IfOk _
        (bit_xor-lt 32 (rs_of c) (rt_of c) (reg-IsWord c c.dec.rs v) (reg-IsWord c c.dec.rt v))
  exec_alu-IfOk slt = to_rd-IfOk _ (of_bool-IsWord _)
  exec_alu-IfOk mul = to_rd-IfOk _ (omega arith)
  exec_alu-IfOk ext = exec_ext-IfOk

  set_npc-IsCpu : (n : ℕ) → IsCpu (set_npc c n)
  set_npc-IsCpu n =
      record-IsCpu c c.running (record (c.dec) { npc = u32 n }) c.perfct v (omega arith)

  branch-IfOk : (b : Bool) → IfOk (branch b c)
  unfolding branch
  branch-IfOk true = if_both IfOk (ltb c.dec.imm (2 ^ 15)) _ _ (λ _. set_npc-IsCpu _) (λ _. tt)
  branch-IfOk false =
      record-IsCpu c c.running (record (c.dec) { isjump = false }) c.perfct v (omega arith)

  immediate_value-WhenOk : (op : Immediate) → WhenOk IsWord (immediate_value op (rs_of c) c.dec.imm)
  unfolding immediate_value
  immediate_value-WhenOk addiu = omega arith
  immediate_value-WhenOk slti = of_bool-IsWord _
  immediate_value-WhenOk sltiu = of_bool-IsWord _
  immediate_value-WhenOk andi =
      omega (arith, bit_and-le (rs_of c) (sext16 c.dec.imm), reg-IsWord c c.dec.rs v)
  immediate_value-WhenOk ori =
      bit_or-lt 32 (rs_of c) c.dec.imm (reg-IsWord c c.dec.rs v) (omega (arith, v.imm_half))
  immediate_value-WhenOk xori =
      bit_xor-lt 32 (rs_of c) c.dec.imm (reg-IsWord c c.dec.rs v) (omega (arith, v.imm_half))
  immediate_value-WhenOk lui =
      if_both (WhenOk IsWord) (ltb c.dec.imm (2 ^ 15)) _ _ (λ _. omega arith) (λ _. tt)

  pub exec_immediate-IfOk : (op : Immediate) → IfOk (exec_immediate op c)
  unfolding exec_immediate
  exec_immediate-IfOk op = put (immediate_value op (rs_of c) c.dec.imm) (immediate_value-WhenOk op)
    where
      put : (o : Outcome ℕ) → WhenOk IsWord o → IfOk (o >>= λ n. ok (set_reg c c.dec.rt n))
      put (ok n) h = set_reg-IsCpu c c.dec.rt n v h
      put (err e) h = tt
      put fault h = tt

pub exec_jump-IfOk : (op : Jump) (c : Cpu) → IsCpu c → IfOk (exec_jump op c)
unfolding exec_jump
exec_jump-IfOk jr c v = set_npc-IsCpu c v _
exec_jump-IfOk j c v = set_npc-IsCpu c v _
exec_jump-IfOk jal c v = set_npc-IsCpu _ (set_reg-IsCpu c 31 _ v (omega arith)) _
exec_jump-IfOk bltz c v = branch-IfOk c v (taken bltz c)
exec_jump-IfOk bgez c v = branch-IfOk c v (taken bgez c)
exec_jump-IfOk beq c v = branch-IfOk c v (taken beq c)
exec_jump-IfOk bne c v = branch-IfOk c v (taken bne c)
exec_jump-IfOk blez c v = branch-IfOk c v (taken blez c)
exec_jump-IfOk bgtz c v = branch-IfOk c v (taken bgtz c)
