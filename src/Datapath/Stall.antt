-- ===== src/Datapath/Stall.antt =====
-- An access to the memory that the bus refuses: the instruction is tried again in the next cycle.
use psim.Prelude.{ℕ, ◌+◌, ◌*◌, ◌/◌, ◌^◌, ◌≤◌, ◌<◌, ◌≡◌, refl, ap, sym, ◌∙◌, arith, true, false}
use psim.Prelude.{some, Bool-cases, inl, inr, bit_or, bit_and}
use psim.Prelude.BitBounds.{bit_and-le_right, bit_or-lt}
use psim.Prelude.Bits.{bit_and-times}
use psim.Instr
use psim.Instr.{opc}
use psim.Cpu.{Decoder}
use psim.Datapath.Decode.{
  among, split_fields, decode_special, decode_regimm, decode_cop0, decode_cop2, decode_special3,
  decode_opcode, decode,
}
use psim.Datapath.Switch.{access, Access, find_label, case_of}

access-high : (n : ℕ) (op : Access) → case_of n ≡ some (access op) → 2 ^ 31 ≤ n
unfolding case_of find_label
access-high n op e = ground (arith, e)

-- The decoder marks no instruction as a jump whose sign is that of a memory instruction.
Low : Decoder → Type 0
Low d = d.isjump ≡ true → d.sign < 2 ^ 31

module _ (d : Decoder) where
  decode_special-Low : d.sign < 2 ^ 31 → Low (decode_special d)
  unfolding Low decode_special Instr.func Instr.tf Instr.shrot Instr.shrotv
  decode_special-Low h p =
      let f = bit_and d.raw 0x3F in
      let low : bit_or d.sign f < 2 ^ 31 =
        bit_or-lt 31 d.sign f h (omega (arith, bit_and-le_right d.raw 0x3F)) in
      ground (
        arith,
        low,
        bit_or-lt 31 _ (bit_and d.raw 0x100) low (omega (arith, bit_and-le_right d.raw 0x100)),
        bit_or-lt 31 _ (bit_and d.raw 0x200000) low
            (omega (arith, bit_and-le_right d.raw 0x200000)),
        bit_or-lt 31 _ (bit_and d.raw 0x40) low (omega (arith, bit_and-le_right d.raw 0x40)),
      )

  decode_regimm-Low : d.sign < 2 ^ 31 → Low (decode_regimm d)
  unfolding Low decode_regimm Instr.rt
  decode_regimm-Low h p = ground (
    arith,
    bit_or-lt 31 d.sign (bit_and d.raw 0x1F0000) h (omega (arith, bit_and-le_right d.raw 0x1F0000)),
  )

  decode_opcode-Low :
      (o : ℕ) → d.isjump ≡ false → d.sign < (o + 1) * 2 ^ 26 → Low (decode_opcode o d).1
  unfolding Low decode_opcode decode_cop0 decode_cop2 decode_special3 among
  decode_opcode-Low o p h q = ground (arith, decode_special-Low, decode_regimm-Low, q)

opc-eq : (i : ℕ) → opc i ≡ opc i / 2 ^ 26 * 2 ^ 26
unfolding opc
opc-eq i =
    let k = bit_and (i / 2 ^ 26) 63 in
    let whole : k * 2 ^ 26 ≡ k * 2 ^ 26 / 2 ^ 26 * 2 ^ 26 = omega arith in
    let same = bit_and-times 26 i 63 in same ∙ whole ∙ sym (ap (λ n. n / 2 ^ 26 * 2 ^ 26) same)

-- An instruction that `execute` takes for an access to the memory is no jump.
pub access-isjump :
    (d : Decoder) (op : Access)
    → case_of (decode d).1.sign ≡ some (access op)
    → (decode d).1.isjump ≡ false
unfolding decode split_fields Low
access-isjump d op e =
    let o = opc d.raw / 2 ^ 26 in
    let low = decode_opcode-Low (split_fields d) o refl (omega (arith, opc-eq d.raw)) in
    elim (Bool-cases (decode d).1.isjump) [
      | inl p ↦ absurd (omega (arith, low p, access-high _ op e))
      | inr p ↦ p
    ]
