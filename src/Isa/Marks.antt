-- ===== src/Isa/Marks.antt =====
-- Which instructions `decode` marks as jumps.
use psim.Prelude.{
  ℕ, ◌*◌, ◌/◌, ◌^◌, ◌<◌, ◌≡◌, refl, arith, true, false, Bool, not, ◌==◌, ◌||◌, ◌⊎◌, inl, inr, sym,
  ◌∙◌,
}
use mathlib.Core.Path.{subst}
use psim.Cpu.{Decoder}
use psim.Instr.{opc, func, rt}
use psim.Instr.Func
use psim.Datapath.Decode.{
  among, split_fields, decode_special, decode_regimm, decode_special3, decode_opcode, decode,
  regimm_jumps, jump_opcodes,
}
use psim.Datapath.Switch.{alu, jump, immediate, Alu, mul, ext, Immediate}
use psim.Datapath.Switch.{Jump, jr, bltz, bgez, j, jal, beq, bne, blez, bgtz}
use psim.Isa.{
  Operands, IsOperands, encode, encode_jump, opcode, alu_opcode, alu_function, immediate_opcode,
}
use psim.Isa.Decoding.{switching}
use psim.Isa.Fields.{func-eq, rt-eq}
use psim.Isa.Opcodes.{opc-encode}

-- The numbers of the case SPECIAL that jump
abbrev jumps : ℕ → Bool
jumps fn = (fn == Func.jr) || (fn == Func.jalr)

alu-opcode_cases :
    (op : Alu)
    → ((alu_opcode op ≡ 0) × (jumps (alu_function op) ≡ false)) ⊎ ((op ≡ mul) ⊎ (op ≡ ext))
unfolding alu_opcode alu_function
alu-opcode_cases op = ground arith

module _ (d : Decoder) where
  special-isjump : (fn : ℕ) → opc d.raw ≡ 0 → func d.raw ≡ fn → (decode d).1.isjump ≡ jumps fn
  unfolding decode decode_opcode split_fields decode_special
  special-isjump fn o f = rw (o, f) (ground arith)

  mul-isjump : opc d.raw ≡ 28 * 2 ^ 26 → (decode d).1.isjump ≡ false
  unfolding decode decode_opcode split_fields
  mul-isjump o = rw o refl

  ext-isjump : opc d.raw ≡ 31 * 2 ^ 26 → (decode d).1.isjump ≡ false
  unfolding decode decode_opcode split_fields decode_special3
  ext-isjump o = rw o (ground arith)

  unlabelled-isjump :
      (n : ℕ)
      → opc d.raw ≡ n * 2 ^ 26
      → not (among n switching) ≡ true
      → (decode d).1.isjump ≡ among n jump_opcodes
  unfolding decode decode_opcode split_fields among
  unlabelled-isjump n o p =
      let same : n * 2 ^ 26 / 2 ^ 26 ≡ n = omega arith in rw (o, same) (ground (arith, p))

  regimm-isjump :
      (r : ℕ)
      → opc d.raw ≡ 2 ^ 26
      → rt d.raw ≡ r * 2 ^ 16
      → (decode d).1.isjump ≡ among r regimm_jumps
  unfolding decode decode_opcode split_fields decode_regimm
  regimm-isjump r o f =
      let same : r * 2 ^ 16 / 2 ^ 16 ≡ r = omega arith in rw (o, f, same) (ground arith)

  -- The mark of an operation on registers
  abbrev Unmarked : Alu → Type 0
  Unmarked op =
      opc d.raw ≡ alu_opcode op * 2 ^ 26
      → func d.raw ≡ alu_function op
      → (decode d).1.isjump ≡ false

  alu-isjump : (op : Alu) → Unmarked op
  unfolding alu_opcode alu_function
  alu-isjump op = elim (alu-opcode_cases op) [
    | inl (first, p) ↦ λ o f. special-isjump (alu_function op) (omega arith) f ∙ p
    | inr (inl same) ↦ subst Unmarked (sym same) (λ o f. mul-isjump o)
    | inr (inr same) ↦ subst Unmarked (sym same) (λ o f. ext-isjump o)
  ]

module _ (f : Operands) (d : Decoder) (h : IsOperands f) where
  pub encode-alu_isjump : (op : Alu) → d.raw ≡ encode (alu op) f → (decode d).1.isjump ≡ false
  unfolding encode opcode alu_opcode alu_function
  encode-alu_isjump op e =
      let bounds : (alu_opcode op < 64) × (alu_function op < 64) = ground arith in
      alu-isjump d op (opc-encode (alu op) f d h e) (omega (arith, func-eq d.raw, h))

  pub encode-immediate_isjump :
      (op : Immediate) → d.raw ≡ encode (immediate op) f → (decode d).1.isjump ≡ false
  unfolding opcode immediate_opcode among
  encode-immediate_isjump op e =
      let o = opc-encode (immediate op) f d h e in
      unlabelled-isjump d (immediate_opcode op) o (ground arith) ∙ ground arith

  pub encode-jump_isjump : (op : Jump) → d.raw ≡ encode (jump op) f → (decode d).1.isjump ≡ true
  unfolding encode encode_jump opcode among
  encode-jump_isjump jr e =
      special-isjump d 8 (opc-encode (jump jr) f d h e) (omega (arith, func-eq d.raw, h))
  encode-jump_isjump bltz e =
      regimm-isjump d 0 (opc-encode (jump bltz) f d h e) (omega (arith, rt-eq d.raw, h))
  encode-jump_isjump bgez e =
      regimm-isjump d 1 (opc-encode (jump bgez) f d h e) (omega (arith, rt-eq d.raw, h))
  encode-jump_isjump j e = unlabelled-isjump d 2 (opc-encode (jump j) f d h e) refl
  encode-jump_isjump jal e = unlabelled-isjump d 3 (opc-encode (jump jal) f d h e) refl
  encode-jump_isjump beq e = unlabelled-isjump d 4 (opc-encode (jump beq) f d h e) refl
  encode-jump_isjump bne e = unlabelled-isjump d 5 (opc-encode (jump bne) f d h e) refl
  encode-jump_isjump blez e = unlabelled-isjump d 6 (opc-encode (jump blez) f d h e) refl
  encode-jump_isjump bgtz e = unlabelled-isjump d 7 (opc-encode (jump bgtz) f d h e) refl
