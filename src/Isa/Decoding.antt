-- ===== src/Isa/Decoding.antt =====
-- `decode` and the switch of `execute` on the word of an instruction.
use psim.Prelude.{
  ℕ, ◌*◌, ◌/◌, ◌^◌, ◌≡◌, refl, arith, some, bit_or, Bool, true, not, ◌==◌, ◌||◌, ◌⊎◌, inl, inr, ◌∙◌,
  ap, sym, ◌≤◌, List, [], ◌∷◌,
}
use psim.Instr.Func
use mathlib.Core.Path.{subst}
use psim.Cpu.{Decoder}
use psim.Instr.{opc, func, rs, rt, co}
use psim.Instr.Opc
use psim.Datapath.Decode.{
  among, split_fields, decode_special, decode_regimm, decode_cop0, decode_cop2, decode_special3,
  decode_opcode, decode,
}
use psim.Datapath.Switch.{alu, case_of, find_label, Alu, mul, ext}
use psim.Isa.{alu_opcode, alu_function}

pub alu-label :
    (op : Alu) → case_of (bit_or (alu_opcode op * 2 ^ 26) (alu_function op)) ≡ some (alu op)
unfolding case_of find_label alu_opcode alu_function
alu-label op = ground arith

-- The numbers to which the case SPECIAL adds no digit beyond the lowest six
abbrev plain : ℕ → Bool
plain fn = not ((fn == Func.movci) || ((fn == Func.srl_field) || (fn == Func.srlv_field)))

alu-opcode_cases :
    (op : Alu)
    → ((alu_opcode op ≡ 0) × (plain (alu_function op) ≡ true)) ⊎ ((op ≡ mul) ⊎ (op ≡ ext))
unfolding alu_opcode alu_function
alu-opcode_cases op = ground arith

abbrev pub switching : List ℕ
switching = Opc.special ∷ Opc.regimm ∷ Opc.cop0 ∷ Opc.cop2 ∷ Opc.special2 ∷ Opc.special3 ∷ []

module _ (d : Decoder) where
  pub special-sign :
      (fn : ℕ) → opc d.raw ≡ 0 → func d.raw ≡ fn → plain fn ≡ true → (decode d).1.sign ≡ bit_or 0 fn
  unfolding decode decode_opcode split_fields decode_special
  special-sign fn o f p = rw (o, f) (ground (arith, p))

  mul-sign : opc d.raw ≡ 28 * 2 ^ 26 → func d.raw ≡ 2 → (decode d).1.sign ≡ bit_or (28 * 2 ^ 26) 2
  unfolding decode decode_opcode split_fields
  mul-sign o f = rw (o, f) refl

  ext-sign : opc d.raw ≡ 31 * 2 ^ 26 → func d.raw ≡ 0 → (decode d).1.sign ≡ bit_or (31 * 2 ^ 26) 0
  unfolding decode decode_opcode split_fields decode_special3
  ext-sign o f = rw (o, f) refl

  -- The opcodes whose sign is the opcode alone
  pub unlabelled-sign :
      (n : ℕ)
      → opc d.raw ≡ n * 2 ^ 26
      → not (among n switching) ≡ true
      → (decode d).1.sign ≡ n * 2 ^ 26
  unfolding decode decode_opcode split_fields among
  unlabelled-sign n o p =
      let same : n * 2 ^ 26 / 2 ^ 26 ≡ n = omega arith in rw (o, same) (ground (arith, p))

  pub regimm-sign :
      (r : ℕ)
      → opc d.raw ≡ 2 ^ 26
      → rt d.raw ≡ r * 2 ^ 16
      → (decode d).1.sign ≡ bit_or (2 ^ 26) (r * 2 ^ 16)
  unfolding decode decode_opcode split_fields decode_regimm
  regimm-sign r o f = rw (o, f) (ground arith)

  pub wait-sign :
      opc d.raw ≡ 16 * 2 ^ 26
      → rs d.raw ≡ 16 * 2 ^ 21
      → func d.raw ≡ 32
      → (decode d).1.sign ≡ bit_or (16 * 2 ^ 26) 32
  unfolding decode decode_opcode split_fields decode_cop0
  wait-sign o r f = rw (o, r, f) refl

  pub move-sign :
      (r : ℕ)
      → opc d.raw ≡ 18 * 2 ^ 26
      → rs d.raw ≡ r * 2 ^ 21
      → r ≤ 4
      → (decode d).1.sign ≡ bit_or (18 * 2 ^ 26) (r * 2 ^ 21)
  unfolding decode decode_opcode split_fields decode_cop2
  move-sign r o f h =
      let same : r * 2 ^ 21 / 2 ^ 21 ≡ r = omega arith in rw (o, f, same) (ground arith)

  pub operation-sign :
      opc d.raw ≡ 18 * 2 ^ 26
      → 16 * 2 ^ 21 ≤ rs d.raw
      → co d.raw ≡ 2 ^ 25
      → (decode d).1.sign ≡ bit_or (18 * 2 ^ 26) (2 ^ 25)
  unfolding decode decode_opcode split_fields decode_cop2
  operation-sign o r f = rw (o, f) (ground (arith, r))

-- The sign of an operation on registers
abbrev AluSign : Decoder → Alu → Type 0
AluSign d op =
    opc d.raw ≡ alu_opcode op * 2 ^ 26
    → func d.raw ≡ alu_function op
    → (decode d).1.sign ≡ bit_or (alu_opcode op * 2 ^ 26) (alu_function op)

pub alu-sign : (op : Alu) (d : Decoder) → AluSign d op
unfolding alu_opcode alu_function
alu-sign op d = elim (alu-opcode_cases op) [
  | inl (first, p) ↦ λ o f.
      special-sign d (alu_function op) (omega arith) f p
      ∙ ap (λ n. bit_or n (alu_function op)) (omega arith)
  | inr (inl same) ↦ subst (AluSign d) (sym same) (mul-sign d)
  | inr (inr same) ↦ subst (AluSign d) (sym same) (ext-sign d)
]
