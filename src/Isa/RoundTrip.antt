-- ===== src/Isa/RoundTrip.antt =====
-- The way of an instruction through its word: the label and the operands that `decode` finds.
use psim.Prelude.{◌*◌, ◌^◌, ◌<◌, ◌≡◌, refl, arith, some, true, ap, ◌∙◌}
use psim.Cpu.{Decoder}
use psim.Instr.{func, rs, co, cofun, sel}
use psim.Datapath.Decode.{decode, among}
use psim.Datapath.DecodeLaws.{decode-fields, decode-operands}
use psim.Datapath.Switch.{Case, alu, jump, immediate, cop, access, case_of, find_label}
use psim.Datapath.Switch.{Alu, Immediate, Access, Cop, wait, mfc2, mtc2, operation}
use psim.Datapath.Switch.{Jump, jr, bltz, bgez, j, jal, beq, bne, blez, bgtz}
use psim.Isa.{
  Operands, IsOperands, encode, encode_jump, encode_cop, opcode, alu_opcode, alu_function,
  immediate_opcode, access_opcode,
}
use psim.Isa.Fields.{func-eq, rs-eq, rt-eq, co-eq, imm-eq, instr_idx-eq, cofun-eq}
use psim.Isa.Opcodes.{opc-encode, decode-known}
use psim.Isa.Decoding.{
  alu-label, alu-sign, special-sign, unlabelled-sign, regimm-sign, wait-sign, move-sign,
  operation-sign,
}

-- `decode` says of the word that it belongs to the label.
abbrev Labelled : Case → Decoder → Type 0
Labelled c d = case_of (decode d).1.sign ≡ some c

module _ (f : Operands) (d : Decoder) (h : IsOperands f) where
  alu-case : (op : Alu) → d.raw ≡ encode (alu op) f → Labelled (alu op) d
  unfolding encode opcode alu_opcode alu_function
  alu-case op e =
      let bounds : (alu_opcode op < 64) × (alu_function op < 64) = ground arith in
      let fn : func d.raw ≡ alu_function op = omega (arith, func-eq d.raw, h) in
      ap case_of (alu-sign op d (opc-encode (alu op) f d h e) fn) ∙ alu-label op

  immediate-case : (op : Immediate) → d.raw ≡ encode (immediate op) f → Labelled (immediate op) d
  unfolding encode opcode immediate_opcode case_of find_label among
  immediate-case op e =
      let o = opc-encode (immediate op) f d h e in
      rw (unlabelled-sign d (immediate_opcode op) o (ground arith)) (ground arith)

  access-case : (op : Access) → d.raw ≡ encode (access op) f → Labelled (access op) d
  unfolding encode opcode access_opcode case_of find_label among
  access-case op e =
      let o = opc-encode (access op) f d h e in
      rw (unlabelled-sign d (access_opcode op) o (ground arith)) (ground arith)

  jump-case : (op : Jump) → d.raw ≡ encode (jump op) f → Labelled (jump op) d
  unfolding encode encode_jump opcode case_of find_label among
  jump-case jr e =
      rw (special-sign d 8 (opc-encode (jump jr) f d h e) (omega (arith, func-eq d.raw, h)) refl)
        refl
  jump-case bltz e =
      rw (regimm-sign d 0 (opc-encode (jump bltz) f d h e) (omega (arith, rt-eq d.raw, h))) refl
  jump-case bgez e =
      rw (regimm-sign d 1 (opc-encode (jump bgez) f d h e) (omega (arith, rt-eq d.raw, h))) refl
  jump-case j e = rw (unlabelled-sign d 2 (opc-encode (jump j) f d h e) refl) refl
  jump-case jal e = rw (unlabelled-sign d 3 (opc-encode (jump jal) f d h e) refl) refl
  jump-case beq e = rw (unlabelled-sign d 4 (opc-encode (jump beq) f d h e) refl) refl
  jump-case bne e = rw (unlabelled-sign d 5 (opc-encode (jump bne) f d h e) refl) refl
  jump-case blez e = rw (unlabelled-sign d 6 (opc-encode (jump blez) f d h e) refl) refl
  jump-case bgtz e = rw (unlabelled-sign d 7 (opc-encode (jump bgtz) f d h e) refl) refl

  cop-case : (op : Cop) → d.raw ≡ encode (cop op) f → Labelled (cop op) d
  unfolding encode encode_cop opcode case_of find_label
  cop-case wait e =
      let r : rs d.raw ≡ 16 * 2 ^ 21 = omega (arith, rs-eq d.raw, h) in
      rw (wait-sign d (opc-encode (cop wait) f d h e) r (omega (arith, func-eq d.raw, h))) refl
  cop-case mfc2 e =
      let r : rs d.raw ≡ 0 = omega (arith, rs-eq d.raw, h) in
      rw (move-sign d 0 (opc-encode (cop mfc2) f d h e) r (omega arith)) refl
  cop-case mtc2 e =
      let r : rs d.raw ≡ 4 * 2 ^ 21 = omega (arith, rs-eq d.raw, h) in
      rw (move-sign d 4 (opc-encode (cop mtc2) f d h e) r (omega arith)) refl
  cop-case operation e =
      let c : co d.raw ≡ 2 ^ 25 = omega (arith, co-eq d.raw, h) in
      let o = opc-encode (cop operation) f d h e in
      rw (operation-sign d o (omega (arith, rs-eq d.raw, h)) c) refl

  pub encode-Labelled : (c : Case) → d.raw ≡ encode c f → Labelled c d
  encode-Labelled (alu op) e = alu-case op e
  encode-Labelled (jump op) e = jump-case op e
  encode-Labelled (immediate op) e = immediate-case op e
  encode-Labelled (cop op) e = cop-case op e
  encode-Labelled (access op) e = access-case op e

-- The decoder holds the operands that the instruction has.
abbrev pub HasRegs : Operands → Decoder → Type 0
HasRegs f d = (d.rs ≡ f.rs) × (d.rt ≡ f.rt)

abbrev pub HasOperands : Case → Operands → Decoder → Type 0
HasOperands (alu op) f d = HasRegs f d × (d.rd ≡ f.rd) × (d.sa ≡ f.sa)
HasOperands (jump jr) f d = d.rs ≡ f.rs
HasOperands (jump bltz) f d = (d.rs ≡ f.rs) × (d.imm ≡ f.imm)
HasOperands (jump bgez) f d = (d.rs ≡ f.rs) × (d.imm ≡ f.imm)
HasOperands (jump j) f d = d.idx ≡ f.target * 4
HasOperands (jump jal) f d = d.idx ≡ f.target * 4
HasOperands (jump _) f d = HasRegs f d × (d.imm ≡ f.imm)
HasOperands (immediate op) f d = HasRegs f d × (d.imm ≡ f.imm)
HasOperands (cop wait) f d = Unit
HasOperands (cop operation) f d = cofun d.raw ≡ f.code
HasOperands (cop _) f d = (d.rt ≡ f.rt) × (d.rd ≡ f.rd) × (d.sel ≡ f.sel)
HasOperands (access op) f d = HasRegs f d × (d.imm ≡ f.imm)

encode-HasOperands :
    (c : Case) (f : Operands) (d : Decoder)
    → IsOperands f
    → d.raw ≡ encode c f
    → HasOperands c f (decode d).1
unfolding encode encode_jump encode_cop alu_opcode alu_function immediate_opcode access_opcode sel
encode-HasOperands (alu op) f d h e =
    let bounds : (alu_opcode op < 64) × (alu_function op < 64) = ground arith in
    omega (arith, h, decode-fields d)
encode-HasOperands (jump op) f d h e =
    ground (arith, h, decode-fields d, decode-operands d, imm-eq d.raw, instr_idx-eq d.raw)
encode-HasOperands (immediate op) f d h e =
    let bounds : immediate_opcode op < 64 = ground arith in
    omega (arith, h, decode-fields d, decode-operands d, imm-eq d.raw)
encode-HasOperands (cop op) f d h e =
    ground (arith, h, decode-fields d, decode-operands d, cofun-eq d.raw, func-eq d.raw)
encode-HasOperands (access op) f d h e =
    let bounds : access_opcode op < 64 = ground arith in
    omega (arith, h, decode-fields d, decode-operands d, imm-eq d.raw)

-- For each instruction that `execute` has a case for, and all operands that fit its format, `decode`
-- accepts the word that the manual gives the instruction, its sign is the label of that case, and
-- the decoder's fields are the operands, the jump target as a distance in bytes.
pub decode-encode :
    (c : Case) (f : Operands) (d : Decoder)
    → IsOperands f
    → d.raw ≡ encode c f
    → ((decode d).0 ≡ true) × (case_of (decode d).1.sign ≡ some c) × HasOperands c f (decode d).1
decode-encode c f d h e =
    (decode-known c f d h e, encode-Labelled f d h c e, encode-HasOperands c f d h e)
