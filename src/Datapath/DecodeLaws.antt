-- ===== src/Datapath/DecodeLaws.antt =====
-- The fields that `decode` fills, against the layout of a MIPS instruction.
use psim.Prelude.{ℕ, ◌*◌, ◌/◌, ◌%◌, ◌^◌, ◌<◌, ◌≡◌, arith, ◌∙◌, false}
use psim.Prelude.Bits.{bit_and-times, bit_and-31}
use psim.Cpu.{Decoder}
use psim.Instr
use psim.Instr.{opc, func, rd, rt, rs, sa, imm, instr_idx, sel}
use psim.Datapath.Decode.{
  split_fields, decode_special, decode_regimm, decode_cop0, decode_cop2, decode_special3,
  decode_opcode, decode,
}

-- The decoder's fields above the switch are those of the other one.
pub record SameFields (d d' : Decoder) : Type 0 where
  pub same_rs : d'.rs ≡ d.rs
  pub same_rt : d'.rt ≡ d.rt
  pub same_rd : d'.rd ≡ d.rd
  pub same_sa : d'.sa ≡ d.sa
  pub same_imm : d'.imm ≡ d.imm
  pub same_npc : d'.npc ≡ d.npc
  pub same_stall : d'.stall ≡ d.stall

pub record SameOperands (d d' : Decoder) : Type 0 where
  pub same_idx : d'.idx ≡ d.idx
  pub same_sel : d'.sel ≡ d.sel
  pub same_raw : d'.raw ≡ d.raw

module _ (d : Decoder) where
  decode_special-SameFields : SameFields d (decode_special d)
  unfolding decode_special
  decode_special-SameFields = ground arith

  decode_regimm-SameFields : SameFields d (decode_regimm d)
  unfolding decode_regimm
  decode_regimm-SameFields = ground arith

  decode_special3-SameFields : SameFields d (decode_special3 d)
  unfolding decode_special3
  decode_special3-SameFields = ground arith

  decode_opcode-SameFields : (o : ℕ) → SameFields d (decode_opcode o d).1
  unfolding decode_opcode decode_cop0 decode_cop2
  decode_opcode-SameFields o =
      ground
        (arith, decode_special-SameFields, decode_regimm-SameFields, decode_special3-SameFields)

module _ (d : Decoder) where
  decode_special-SameOperands : SameOperands d (decode_special d)
  unfolding decode_special
  decode_special-SameOperands = ground arith

  decode_regimm-SameOperands : SameOperands d (decode_regimm d)
  unfolding decode_regimm
  decode_regimm-SameOperands = ground arith

  decode_special3-SameOperands : SameOperands d (decode_special3 d)
  unfolding decode_special3
  decode_special3-SameOperands = ground arith

  decode_opcode-SameOperands : (o : ℕ) → SameOperands d (decode_opcode o d).1
  unfolding decode_opcode decode_cop0 decode_cop2
  decode_opcode-SameOperands o =
      ground (
        arith, decode_special-SameOperands, decode_regimm-SameOperands,
        decode_special3-SameOperands,
      )

rs-eq : (i : ℕ) → rs i / 2 ^ 21 ≡ i / 2 ^ 21 % 32
unfolding Instr.rs
rs-eq i = omega (arith, bit_and-times 21 i 31, bit_and-31 (i / 2 ^ 21))

rt-eq : (i : ℕ) → rt i / 2 ^ 16 ≡ i / 2 ^ 16 % 32
unfolding Instr.rt
rt-eq i = omega (arith, bit_and-times 16 i 31, bit_and-31 (i / 2 ^ 16))

rd-eq : (i : ℕ) → rd i / 2 ^ 11 ≡ i / 2 ^ 11 % 32
unfolding Instr.rd
rd-eq i = omega (arith, bit_and-times 11 i 31, bit_and-31 (i / 2 ^ 11))

sa-eq : (i : ℕ) → sa i / 2 ^ 6 ≡ i / 2 ^ 6 % 32
unfolding Instr.sa
sa-eq i = omega (arith, bit_and-times 6 i 31, bit_and-31 (i / 2 ^ 6))

-- Whatever the instruction word, known or not, `decode` fills rs, rt, rd and sa with the digits of
-- the word that MIPS gives them: five each, from the digits 21, 16, 11 and 6 on.
pub decode-fields :
    (d : Decoder)
    → ((decode d).1.rs ≡ d.raw / 2 ^ 21 % 32)
      × ((decode d).1.rt ≡ d.raw / 2 ^ 16 % 32)
      × ((decode d).1.rd ≡ d.raw / 2 ^ 11 % 32)
      × ((decode d).1.sa ≡ d.raw / 2 ^ 6 % 32)
unfolding decode split_fields
decode-fields d =
    let same = decode_opcode-SameFields (split_fields d) (opc d.raw / 2 ^ 26) in
    (
      same.same_rs ∙ rs-eq d.raw,
      same.same_rt ∙ rt-eq d.raw,
      same.same_rd ∙ rd-eq d.raw,
      same.same_sa ∙ sa-eq d.raw,
    )

pub decode-imm : (d : Decoder) → (decode d).1.imm < 2 ^ 16
unfolding decode split_fields Instr.imm
decode-imm d =
    omega (arith, (decode_opcode-SameFields (split_fields d) (opc d.raw / 2 ^ 26)).same_imm)

pub decode-npc : (d : Decoder) → (decode d).1.npc ≡ d.npc
unfolding decode split_fields
decode-npc d = (decode_opcode-SameFields (split_fields d) (opc d.raw / 2 ^ 26)).same_npc

-- The fields that only some formats have
pub decode-operands :
    (d : Decoder)
    → ((decode d).1.imm ≡ imm d.raw)
      × ((decode d).1.idx ≡ instr_idx d.raw * 4)
      × ((decode d).1.sel ≡ sel d.raw)
      × ((decode d).1.raw ≡ d.raw)
unfolding decode split_fields
decode-operands d =
    let same = decode_opcode-SameOperands (split_fields d) (opc d.raw / 2 ^ 26) in
    let imm = (decode_opcode-SameFields (split_fields d) (opc d.raw / 2 ^ 26)).same_imm in
    (imm, same.same_idx, same.same_sel, same.same_raw)

pub decode-stall : (d : Decoder) → (decode d).1.stall ≡ false
unfolding decode split_fields
decode-stall d = (decode_opcode-SameFields (split_fields d) (opc d.raw / 2 ^ 26)).same_stall
