-- ===== src/Isa/Fields.antt =====
-- The masks of instr.h on a word that is given by its fields.
use psim.Prelude.{
  ℕ, ◌+◌, ◌*◌, ◌/◌, ◌%◌, ◌^◌, ◌<◌, ◌≡◌, arith, bit_and, ◌-◌, zero, suc, sym, ap, ◌∙◌,
}
use psim.Prelude.Bits.{bit_and-times, bit_and-digit, bit_and-zero}
use native.Mathlib.Nat.{div-add-mod', add-mul-mod_self_right, mod-eq_of_lt, mod-lt}
use psim.Instr
use psim.Instr.{opc, func, rt, rs, co, cofun, instr_idx, imm}

pow-pos : (k : ℕ) → 0 < 2 ^ k
pow-pos zero = omega arith
pow-pos (suc k) = grind (arith, pow-pos k)

mod-double : (a n : ℕ) → 0 < n → a / 2 % n * 2 + a % 2 ≡ a % (n * 2)
mod-double a n h =
    let q = a / 2 / n in
    let r = a / 2 % n in
    let whole : a ≡ (r * 2 + a % 2) + q * (n * 2) =
      grind (arith, div-add-mod' (a / 2) n, div-add-mod' a 2) in
    let small : r * 2 + a % 2 < n * 2 = omega (arith, mod-lt (a / 2) h) in
    sym (
      ap (λ (t : ℕ). t % (n * 2)) whole
      ∙ add-mul-mod_self_right (r * 2 + a % 2) q (n * 2)
      ∙ mod-eq_of_lt small)

-- A mask of `k` ones
pub bit_and-ones : (k a : ℕ) → bit_and a (2 ^ k - 1) ≡ a % 2 ^ k
bit_and-ones zero a = omega (arith, bit_and-zero a)
bit_and-ones (suc k) a =
    let twice : 2 ^ suc k ≡ 2 ^ k * 2 = grind arith in
    let half : (2 ^ suc k - 1) / 2 ≡ 2 ^ k - 1 = omega (arith, pow-pos k) in
    omega (
      arith,
      bit_and-digit a (2 ^ suc k - 1),
      ap (λ (t : ℕ). bit_and (a / 2) t) half,
      bit_and-ones k (a / 2),
      mod-double a (2 ^ k) (pow-pos k),
      ap (λ (t : ℕ). a % t) twice,
      pow-pos k,
      twice,
    )

pub opc-eq : (i : ℕ) → opc i ≡ i / 2 ^ 26 % 64 * 2 ^ 26
unfolding Instr.opc
opc-eq i = omega (arith, bit_and-times 26 i 63, bit_and-ones 6 (i / 2 ^ 26))

pub func-eq : (i : ℕ) → func i ≡ i % 64
unfolding Instr.func
func-eq i = bit_and-ones 6 i

pub rt-eq : (i : ℕ) → rt i ≡ i / 2 ^ 16 % 32 * 2 ^ 16
unfolding Instr.rt
rt-eq i = omega (arith, bit_and-times 16 i 31, bit_and-ones 5 (i / 2 ^ 16))

pub rs-eq : (i : ℕ) → rs i ≡ i / 2 ^ 21 % 32 * 2 ^ 21
unfolding Instr.rs
rs-eq i = omega (arith, bit_and-times 21 i 31, bit_and-ones 5 (i / 2 ^ 21))

pub co-eq : (i : ℕ) → co i ≡ i / 2 ^ 25 % 2 * 2 ^ 25
unfolding Instr.co
co-eq i = omega (arith, bit_and-times 25 i 1, bit_and-ones 1 (i / 2 ^ 25))

pub instr_idx-eq : (i : ℕ) → instr_idx i ≡ i % 2 ^ 26
unfolding Instr.instr_idx
instr_idx-eq i = bit_and-ones 26 i

pub cofun-eq : (i : ℕ) → cofun i ≡ i % 2 ^ 25
unfolding Instr.cofun
cofun-eq i = bit_and-ones 25 i

pub imm-eq : (i : ℕ) → imm i ≡ i % 2 ^ 16
unfolding Instr.imm
imm-eq i = omega (arith, bit_and-ones 16 i)
