-- ===== src/Datapath/Decode.antt =====
-- datapath.c: `decode`, which fills the fields of the decoder from the instruction word.
use psim.Prelude.{ℕ, Bool, true, false, ◌||◌, ◌==◌, ltb, if◌then◌else◌, bit_or, shl, shr}
use psim.Prelude.{List, [], ◌∷◌}
use psim.Cpu.{Decoder}
use psim.Instr
use psim.Instr.{opc, func, tf, shrot, shrotv, sa, imm, instr_idx, rd, rt, rs, co, sel}
use psim.Instr.Opc
use psim.Instr.Func
use psim.Instr.Regimm
use psim.Instr.Special3
use psim.Instr.Cop0
use psim.Instr.Cop2

-- Is the value one of the labels?
unfoldable pub among : ℕ → List ℕ → Bool
among n [] = false
among n (l ∷ ls) = (n == l) || among n ls

-- The assignments above the switch
unfoldable pub split_fields : Decoder → Decoder
unfolding Instr.opc Instr.rd Instr.rs Instr.rt Instr.sa Instr.imm Instr.instr_idx Instr.sel
split_fields dec = record dec {
  rd = shr (rd dec.raw) 11;
  rs = shr (rs dec.raw) 21;
  rt = shr (rt dec.raw) 16;
  sa = shr (sa dec.raw) 6;
  stall = false;
  imm = imm dec.raw;
  isjump = false;
  idx = shl (instr_idx dec.raw) 2;
  sel = sel dec.raw;
  sign = opc dec.raw;
}

-- dec->sign |= bits
abbrev pub add_sign : Decoder → ℕ → Decoder
add_sign dec bits = record dec { sign = bit_or dec.sign bits }

abbrev pub jumping : Decoder → Decoder
jumping dec = record dec { isjump = true }

-- The case SPECIAL
unfoldable pub decode_special : Decoder → Decoder
unfolding Instr.func Instr.tf Instr.shrot Instr.shrotv
decode_special d =
    let dec = add_sign d (func d.raw) in
    let f = func d.raw in
    if f == Func.movci
    then add_sign dec (tf d.raw)
    else if f == Func.srl_field
    then add_sign dec (shrot d.raw)
    else if f == Func.srlv_field
    then add_sign dec (shrotv d.raw)
    else if (f == Func.jr) || (f == Func.jalr)
    then jumping dec
    else dec

abbrev pub regimm_jumps : List ℕ
regimm_jumps =
    Regimm.bltz ∷ Regimm.bgez ∷ Regimm.bltzl ∷ Regimm.bgezl ∷ Regimm.tgei ∷ Regimm.tgeiu
    ∷ Regimm.tlti ∷ Regimm.tltiu ∷ Regimm.teqi ∷ Regimm.tnei ∷ Regimm.bltzal ∷ Regimm.bgezal
    ∷ Regimm.bltzall ∷ Regimm.bgezall ∷ []

-- The case REGIMM
unfoldable pub decode_regimm : Decoder → Decoder
unfolding Instr.rt among
decode_regimm d =
    let dec = add_sign d (rt d.raw) in if among d.rt regimm_jumps then jumping dec else dec

-- The cases COP0 and COP2
unfoldable pub decode_cop0 : Decoder → Decoder
unfolding Instr.func Instr.rs
decode_cop0 d = add_sign d (if ltb Cop0.cop0rs_ign10 d.rs then func d.raw else rs d.raw)

unfoldable pub decode_cop2 : Decoder → Decoder
unfolding Instr.co Instr.rs
decode_cop2 d = add_sign d (if ltb Cop2.cop2rs_ign8 d.rs then co d.raw else rs d.raw)

-- The case SPECIAL3
unfoldable pub decode_special3 : Decoder → Decoder
unfolding Instr.func Instr.sa
decode_special3 d =
    let dec = add_sign d (func d.raw) in
    if func d.raw == Special3.bshfl then add_sign dec (sa d.raw) else dec

-- The opcodes whose cases set `isjump` and no more, those whose cases do nothing, and those of the
-- memory instructions
abbrev pub jump_opcodes : List ℕ
jump_opcodes =
    Opc.j ∷ Opc.jal ∷ Opc.beq ∷ Opc.bne ∷ Opc.blez ∷ Opc.bgtz ∷ Opc.beql ∷ Opc.bnel ∷ Opc.blezl
    ∷ Opc.bgtzl ∷ Opc.jalx ∷ []

abbrev pub plain_opcodes : List ℕ
plain_opcodes =
    Opc.addi ∷ Opc.addiu ∷ Opc.slti ∷ Opc.sltiu ∷ Opc.andi ∷ Opc.ori ∷ Opc.xori ∷ Opc.lui ∷ Opc.cop1
    ∷ Opc.cop1x ∷ []

abbrev pub mem_opcodes : List ℕ
mem_opcodes =
    Opc.lb ∷ Opc.lh ∷ Opc.lwl ∷ Opc.lw ∷ Opc.lbu ∷ Opc.lhu ∷ Opc.lwr ∷ Opc.sb ∷ Opc.sh ∷ Opc.swl
    ∷ Opc.sw ∷ Opc.swr ∷ Opc.cache ∷ Opc.ll ∷ Opc.lwc1 ∷ Opc.lwc2 ∷ Opc.pref ∷ Opc.ldc1 ∷ Opc.ldc2
    ∷ Opc.sc ∷ Opc.swc1 ∷ Opc.swc2 ∷ Opc.sdc1 ∷ Opc.sdc2 ∷ []

-- The switch on the opcode; `false` is the return value -1.
unfoldable pub decode_opcode : ℕ → Decoder → Bool × Decoder
unfolding among decode_special decode_regimm decode_cop0 decode_cop2 decode_special3 Instr.func
decode_opcode o d =
    if o == Opc.special
    then (true, decode_special d)
    else if o == Opc.regimm
    then (true, decode_regimm d)
    else if among o jump_opcodes
    then (true, jumping d)
    else if among o plain_opcodes
    then (true, d)
    else if o == Opc.cop0
    then (true, decode_cop0 d)
    else if o == Opc.cop2
    then (true, decode_cop2 d)
    else if o == Opc.special2
    then (true, add_sign d (func d.raw))
    else if o == Opc.special3
    then (true, decode_special3 d)
    else if among o mem_opcodes
    then (true, record d { ismem = true })
    else (false, d)

-- decode
unfoldable pub decode : Decoder → Bool × Decoder
unfolding split_fields decode_opcode
decode dec = decode_opcode (shr (opc dec.raw) 26) (split_fields dec)
