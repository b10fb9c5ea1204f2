-- ===== src/Tests/IsaTests.antt =====
-- ADDIU $3, $2, -1 on a processor whose register 2 holds 2 ^ 32 - 1, and what decode makes of it.
use psim.Prelude.{◌≡◌, refl, arith, some, true, [], ◌∷◌}
use psim.Cpu.{Cpu, Decoder, set_reg, zero_decoder}
use psim.Mem
use psim.Mem.{Mem}
use psim.Datapath.State.{Sys}
use psim.Datapath.Decode.{decode}
use psim.Datapath.Switch.{immediate, addiu, case_of}
use psim.Isa.{Operands, IsOperands, encode}
use psim.Isa.RoundTrip.{HasOperands, decode-encode}
use psim.Isa.Reference.{arch_of, step, read}
use psim.Tests.SimTests.{ready_cpu, two_cpus}

abbrev minus_1 : Operands
minus_1 = record { rs = 2; rt = 3; rd = 0; sa = 0; imm = 0xFFFF; target = 0; sel = 0; code = 0 }

minus_1-IsOperands : IsOperands minus_1
minus_1-IsOperands = record {
  rs_digits = omega arith;
  rt_digits = omega arith;
  rd_digits = omega arith;
  sa_digits = omega arith;
  imm_digits = omega arith;
  target_digits = omega arith;
  sel_digits = omega arith;
  code_digits = omega arith;
}

abbrev addiu_word : Decoder
addiu_word = record zero_decoder { raw = 0x2443FFFF }

decode-encode_example :
    ((decode addiu_word).0 ≡ true)
    × (case_of (decode addiu_word).1.sign ≡ some (immediate addiu))
    × HasOperands (immediate addiu) minus_1 (decode addiu_word).1
decode-encode_example = decode-encode (immediate addiu) minus_1 addiu_word minus_1-IsOperands word
  where
    word : addiu_word.raw ≡ encode (immediate addiu) minus_1
    word = unfold encode in refl

abbrev full_cpu : Cpu
full_cpu = set_reg ready_cpu 2 0xFFFFFFFF

abbrev addiu_sys : Sys
addiu_sys = record two_cpus.sys {
  mem = record { size = 4; bytes = 0xFF ∷ 0xFF ∷ 0x43 ∷ 0x24 ∷ [] };
}

addiu_run : read (step (immediate addiu) minus_1 (arch_of full_cpu)) 3 ≡ 0xFFFFFFFE
unfolding step
addiu_run = refl
