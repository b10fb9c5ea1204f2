-- ===== src/Tests/DecodeTests.antt =====
-- `decode` of LW $3, 4($2), and a move to the data register of coprocessor 2.
use psim.Prelude.{ℕ, ◌≡◌, ◌≢◌, ◌<◌, refl, set, ok}
use psim.Cpu.{Cpu, Decoder, zero_decoder, zero_cpu, mfc2, mtc2}
use psim.Cpu.Moves.{mfc2-mtc2}
use psim.Datapath.Decode.{decode}
use psim.Datapath.DecodeLaws.{decode-fields}

abbrev load_word : Decoder
load_word = record zero_decoder { raw = 0x8C430004 }

decode-fields_example :
    ((decode load_word).1.rs ≡ 2)
    × ((decode load_word).1.rt ≡ 3)
    × ((decode load_word).1.rd ≡ 0)
    × ((decode load_word).1.sa ≡ 0)
decode-fields_example = decode-fields load_word

abbrev moved : Cpu
moved = record zero_cpu { cop2 = set zero_cpu.cop2 1 42 }

mfc2-mtc2_example :
    ◌≡◌ {A = ℕ} 0 0
    × (1 < 6)
    × (mfc2 moved 0 1 ≡ ok 42)
    × ((src s : ℕ) → s ≢ 1 → mfc2 moved src s ≡ mfc2 zero_cpu src s)
mfc2-mtc2_example = mfc2-mtc2 zero_cpu moved 0 1 42 refl accepted
  where
    accepted : mtc2 zero_cpu 0 1 42 ≡ ok moved
    accepted = unfold mtc2 in refl
