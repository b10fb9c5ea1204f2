-- ===== src/Isa/Jumps.antt =====
-- Jumps and branches against the manual's: the address that the processor goes on at.
use psim.Prelude.{
  ℕ, zero, suc, ◌+◌, ◌*◌, ◌/◌, ◌^◌, ◌<◌, ◌≡◌, ap, ◌∙◌, arith, true, false, set, Outcome, ok, err,
  fault,
}
use psim.Prelude.{bit_and, bit_or}
use psim.Prelude.Bits.{bit_or-digit, bit_or-zero, bit_and-times}
use psim.Cpu.{Cpu}
use psim.Datapath.Switch.{Jump, jump}
use psim.Datapath.Alu.{rs_of}
use psim.Datapath.Cycle.{advance}
use psim.Datapath.Jumps.{exec_jump, taken, branch, region_target}
use psim.Datapath.Words.{IsCpu, reg-IsWord}
use psim.Isa.{Operands, IsOperands}
use psim.Isa.RoundTrip.{HasOperands}
use psim.Isa.Fields.{bit_and-ones}
use psim.Isa.Values.{signed_less-eq, extend-eq, state_of, Conforms}
use psim.Isa.Reference.{Arch, read, goes, jump_result}

-- `|` of two numbers without a common digit
times_double : (a k : ℕ) → a * 2 ^ suc k ≡ a * 2 ^ k * 2
times_double a k = grind arith

bit_or-above : (k a b : ℕ) → b < 2 ^ k → bit_or (a * 2 ^ k) b ≡ a * 2 ^ k + b
bit_or-above zero a b h =
    let none : b ≡ 0 = omega arith in
    omega (arith, ap (bit_or (a * 2 ^ 0)) none, bit_or-zero (a * 2 ^ 0))
bit_or-above (suc k) a b h =
    let twice : a * 2 ^ suc k ≡ a * 2 ^ k * 2 = times_double a k in
    let half : a * 2 ^ suc k / 2 ≡ a * 2 ^ k = omega arith in
    let twice_b : 2 ^ suc k ≡ 2 ^ k * 2 = grind (arith, times_double 1 k) in
    omega (
      arith,
      bit_or-digit (a * 2 ^ suc k) b,
      ap (λ (t : ℕ). bit_or t (b / 2)) half,
      bit_or-above k a (b / 2) (omega arith),
    )

-- The processor is in the state, once register 0 is cleared.
pub record Agrees (a : Arch) (c : Cpu) : Type 0 where
  pub same_pc : c.pc ≡ a.pc
  pub same_gpr : set c.gpr 0 0 ≡ a.gpr
  pub same_hi : c.hi ≡ a.hi
  pub same_lo : c.lo ≡ a.lo

-- The code succeeds, and its processor goes on in the state.
abbrev pub Goes : Arch → Outcome Cpu → Type 0
Goes a (ok c) = Agrees a (advance c)
Goes a (err e) = ⊥
Goes a fault = ⊥

module _ (f : Operands) (c : Cpu) (v : IsCpu c) (small : c.pc + 4 < 2 ^ 32) where
  region-eq :
      f.target < 2 ^ 26
      → c.dec.idx ≡ f.target * 4
      → region_target c ≡ c.pc / 2 ^ 28 * 2 ^ 28 + f.target * 4
  region-eq h e =
      let top : bit_and c.pc 0xF0000000 ≡ c.pc / 2 ^ 28 * 2 ^ 28 =
        omega (arith, bit_and-times 28 c.pc 15, bit_and-ones 4 (c.pc / 2 ^ 28)) in
      ap (λ (t : ℕ). bit_or t c.dec.idx) top
      ∙ ap (bit_or (c.pc / 2 ^ 28 * 2 ^ 28)) e
      ∙ bit_or-above 28 (c.pc / 2 ^ 28) (f.target * 4) (omega arith)

  pub jump-value :
      (op : Jump)
      → IsOperands f
      → HasOperands (jump op) f c.dec
      → Conforms (jump op) f (state_of c)
      → c.dec.isjump ≡ true
      → c.dec.stall ≡ false
      → set c.gpr 0 0 ≡ c.gpr
      → Goes (jump_result op f (state_of c)) (exec_jump op c)
  unfolding exec_jump taken branch advance jump_result goes
  jump-value op h k w p q z = ground (
    arith,
    k,
    w,
    region-eq h.target_digits,
    extend-eq f.imm h.imm_digits,
    ap (λ (r : ℕ). read (state_of c) r),
    signed_less-eq (rs_of c) 0 (reg-IsWord c c.dec.rs v) (omega arith),
    signed_less-eq 0 (rs_of c) (omega arith) (reg-IsWord c c.dec.rs v),
  )
