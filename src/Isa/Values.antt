-- ===== src/Isa/Values.antt =====
-- The values that the cases of `execute` compute, against those of the manual.
use psim.Prelude.{◌⊎◌, ◌+◌, false, ℕ, ◌/◌, ◌%◌, ◌^◌, ◌<◌, ◌≡◌, ap, arith, some, none, Option, ok}
use psim.Prelude.{bit_and, ltb_ℤ, signed32, sext16}
use psim.Prelude.Bits.{bit_and-digit}
use psim.Prelude.BitBounds.{bit_and-le}
use psim.Cpu.{Cpu, set_reg}
use psim.Datapath.Switch.{Alu, sra, mult, div, ext}
use psim.Datapath.Switch.{Immediate, andi, lui, jr, j, jal}
use psim.Datapath.Switch.{Case, alu, jump, immediate, cop, access}
use psim.Datapath.Alu.{exec_alu, rs_of, rt_of}
use psim.Datapath.Immediates.{immediate_value}
use psim.Datapath.Words.{IsCpu, IsWord, reg-IsWord}
use psim.Isa.{Operands}
use psim.Isa.RoundTrip.{HasOperands}
use psim.Isa.Reference.{Arch, read, signed_less, extend, alu_value, immediate_result, goes}

-- The signed comparison of the code is that of the manual, and so is the sign extension.
pub signed_less-eq :
    (x y : ℕ) → IsWord x → IsWord y → ltb_ℤ (signed32 x) (signed32 y) ≡ signed_less x y
signed_less-eq x y p q = ground arith

pub extend-eq : (h : ℕ) → h < 2 ^ 16 → sext16 h ≡ extend h
extend-eq h p = ground arith

bit_and-31_left : (x : ℕ) → bit_and 0x1F x ≡ x % 32
bit_and-31_left x = omega (
  arith,
  bit_and-digit 31 x,
  bit_and-digit 15 (x / 2),
  bit_and-digit 7 (x / 2 / 2),
  bit_and-digit 3 (x / 2 / 2 / 2),
  bit_and-digit 1 (x / 2 / 2 / 2 / 2),
  bit_and-le 0 (x / 2 / 2 / 2 / 2 / 2),
)

-- The operands for which the code does what the manual says. SRA shifts a negative word as if it had
-- no sign, ANDI extends its immediate by its sign, J and JAL take the region of their own address, not
-- that of the next word; C does not define a branch that is taken over a negative distance nor a
-- LUI of a negative immediate; MULT, DIV and EXT are not looked at here.
abbrev pub Conforms : Case → Operands → Arch → Type 0
Conforms (alu sra) f a = read a f.rt < 2 ^ 31
Conforms (alu mult) f a = ⊥
Conforms (alu div) f a = ⊥
Conforms (alu ext) f a = ⊥
Conforms (immediate andi) f a = f.imm < 2 ^ 15
Conforms (immediate lui) f a = f.imm < 2 ^ 15
Conforms (jump jr) f a = Unit
Conforms (jump j) f a = (a.pc + 4) / 2 ^ 28 ≡ a.pc / 2 ^ 28
Conforms (jump jal) f a = (a.pc + 4) / 2 ^ 28 ≡ a.pc / 2 ^ 28
Conforms (jump op) f a = (goes op (read a f.rs) (read a f.rt) ≡ false) ⊎ (f.imm < 2 ^ 15)
Conforms (cop op) f a = ⊥
Conforms (access op) f a = ⊥
Conforms _ f a = Unit

-- The state of a processor, register 0 as it stands
abbrev pub state_of : Cpu → Arch
state_of c = record { pc = c.pc; gpr = c.gpr; hi = c.hi; lo = c.lo }

abbrev pub written : Option ℕ → Cpu → Cpu
written (some v) c = set_reg c c.dec.rd v
written none c = c

module _ (f : Operands) (c : Cpu) (v : IsCpu c) where
  pub exec_alu-value :
      (op : Alu)
      → HasOperands (alu op) f c.dec
      → Conforms (alu op) f (state_of c)
      → exec_alu op c ≡ ok (written (alu_value op f (state_of c)) c)
  unfolding exec_alu alu_value
  exec_alu-value op ((s, t), d, k) h =
      let p : rs_of c ≡ read (state_of c) f.rs = ap (λ (r : ℕ). read (state_of c) r) s in
      let q : rt_of c ≡ read (state_of c) f.rt = ap (λ (r : ℕ). read (state_of c) r) t in
      ground (
        arith,
        p,
        q,
        k,
        reg-IsWord c c.dec.rt v,
        signed_less-eq (rs_of c) (rt_of c) (reg-IsWord c c.dec.rs v) (reg-IsWord c c.dec.rt v),
        bit_and-31_left (rs_of c),
      )

  pub immediate-value :
      (op : Immediate) (x : ℕ)
      → IsWord x
      → f.imm < 2 ^ 16
      → Conforms (immediate op) f (state_of c)
      → immediate_value op x f.imm ≡ ok (immediate_result op x f.imm)
  unfolding immediate_value immediate_result
  immediate-value op x w h p =
      ground (arith, extend-eq f.imm h, signed_less-eq x (extend f.imm) w (omega arith))
