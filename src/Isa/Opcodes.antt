-- ===== src/Isa/Opcodes.antt =====
-- The opcode of a word that `encode` gives, and what `decode` makes of it.
use psim.Prelude.{ℕ, ◌*◌, ◌/◌, ◌%◌, ◌^◌, ◌<◌, ◌≡◌, arith, true, ap}
use psim.Cpu.{Decoder}
use psim.Instr.{opc}
use psim.Datapath.Decode.{among, decode_opcode, decode, split_fields}
use psim.Datapath.Switch.{Case, alu, jump, immediate, cop, access}
use psim.Isa.{
  Operands, IsOperands, encode, encode_jump, encode_cop, opcode, alu_opcode, alu_function,
  immediate_opcode, access_opcode,
}
use psim.Isa.Fields.{opc-eq}

encode-opcode : (c : Case) (f : Operands) → IsOperands f → encode c f / 2 ^ 26 % 64 ≡ opcode c
unfolding encode encode_jump encode_cop opcode alu_opcode alu_function immediate_opcode
    access_opcode
encode-opcode (alu op) f h =
    let bounds : (alu_opcode op < 64) × (alu_function op < 64) = ground arith in omega (arith, h)
encode-opcode (jump op) f h = ground (arith, h)
encode-opcode (immediate op) f h =
    let bounds : immediate_opcode op < 64 = ground arith in omega (arith, h)
encode-opcode (cop op) f h = ground (arith, h)
encode-opcode (access op) f h =
    let bounds : access_opcode op < 64 = ground arith in omega (arith, h)

decode_opcode-known : (c : Case) (d : Decoder) → (decode_opcode (opcode c) d).0 ≡ true
unfolding decode_opcode opcode among alu_opcode immediate_opcode access_opcode
decode_opcode-known c d = ground arith

module _ (c : Case) (f : Operands) (d : Decoder) (h : IsOperands f) (e : d.raw ≡ encode c f) where
  pub opc-encode : opc d.raw ≡ opcode c * 2 ^ 26
  opc-encode = omega (arith, opc-eq d.raw, encode-opcode c f h, ap (λ (n : ℕ). n / 2 ^ 26 % 64) e)

  pub decode-known : (decode d).0 ≡ true
  unfolding decode
  decode-known =
      let o : opc d.raw / 2 ^ 26 ≡ opcode c = omega (arith, opc-encode) in
      rw o (decode_opcode-known c (split_fields d))
