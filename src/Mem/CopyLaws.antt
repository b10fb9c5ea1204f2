-- ===== src/Mem/CopyLaws.antt =====
-- memcpy into a memory's storage: what each byte is after it.
use psim.Prelude.{ℕ, ◌+◌, ◌-◌, ◌≤◌, ◌<◌, ◌≡◌, ap, ◌∙◌, arith, ◌&&◌, leb}
use psim.Prelude.{List, ◌++◌, length, get_or, take, drop, ok}
use psim.Prelude.{length-append, Bool-cases, inl, inr}
use psim.Prelude.Slices.{
  length-take, length-drop, get_or-take, get_or-drop, get_or-append_left, get_or-append_right,
}
use mathlib.Core.Path.{subst}
use psim.Mem.Load.{copy_in}

-- memcpy leaves the length, and changes the bytes of its destination only.
pub record Copied (bytes : List ℕ) (at : ℕ) (elf : List ℕ) (from n : ℕ) (out : List ℕ)
    : Type 0 where
  pub size : length out ≡ length bytes
  pub inside : (i : ℕ) → at ≤ i → i < at + n → get_or out i 0 ≡ get_or elf (from + (i - at)) 0
  pub before : (i : ℕ) → i < at → get_or out i 0 ≡ get_or bytes i 0
  pub after : (i : ℕ) → at + n ≤ i → get_or out i 0 ≡ get_or bytes i 0

-- The part of memcpy whose bounds hold
module _ (bytes : List ℕ) (at : ℕ) (elf : List ℕ) (from n : ℕ) (room : at + n ≤ length bytes)
    (source : from + n ≤ length elf) where
  abbrev moved : List ℕ
  moved = take n (drop from elf)

  abbrev spliced : List ℕ
  spliced = take at bytes ++ (moved ++ drop (at + n) bytes)

  head_length : length (take at bytes) ≡ at
  head_length = length-take at bytes (omega arith)

  length-moved : length moved ≡ n
  length-moved = length-take n (drop from elf) (omega (arith, length-drop from elf))

  past_head :
      (i : ℕ) → at ≤ i → get_or spliced i 0 ≡ get_or (moved ++ drop (at + n) bytes) (i - at) 0
  past_head i h =
      get_or-append_right (take at bytes) (moved ++ drop (at + n) bytes) i 0
        (omega (arith, head_length))
      ∙ ap (λ k. get_or (moved ++ drop (at + n) bytes) (i - k) 0) head_length

  spliced_after : (i : ℕ) → at + n ≤ i → get_or spliced i 0 ≡ get_or bytes i 0
  spliced_after i h =
      let place : at + n + (i - at - n) ≡ i = omega arith in
      past_head i (omega arith)
      ∙ get_or-append_right moved (drop (at + n) bytes) (i - at) 0 (omega (arith, length-moved))
      ∙ ap (λ k. get_or (drop (at + n) bytes) (i - at - k) 0) length-moved
      ∙ get_or-drop (at + n) bytes (i - at - n) 0
      ∙ ap (λ k. get_or bytes k 0) place

  spliced-Copied : Copied bytes at elf from n spliced
  spliced-Copied = record {
    size = omega (
      arith,
      length-append (take at bytes) (moved ++ drop (at + n) bytes),
      length-append moved (drop (at + n) bytes),
      head_length,
      length-moved,
      length-drop (at + n) bytes,
    );
    inside = λ i h k.
        past_head i h
        ∙ get_or-append_left moved (drop (at + n) bytes) (i - at) 0 (omega (arith, length-moved))
        ∙ get_or-take n (drop from elf) (i - at) 0 (omega arith)
        ∙ get_or-drop from elf (i - at) 0;
    before = λ i h.
        get_or-append_left (take at bytes) (moved ++ drop (at + n) bytes) i 0
          (omega (arith, head_length))
        ∙ get_or-take at bytes i 0 h;
    after = spliced_after;
  }

pub copy_in-Copied :
    (bytes : List ℕ) (at : ℕ) (elf : List ℕ) (from n : ℕ) (out : List ℕ)
    → copy_in bytes at elf from n ≡ ok out
    → Copied bytes at elf from n out
unfolding copy_in
copy_in-Copied bytes at elf from n out e =
    elim (Bool-cases (leb (at + n) (length bytes) && leb (from + n) (length elf))) [
      | inl p ↦
          let same : spliced bytes at elf from n (ground arith) (ground arith) ≡ out =
            ground arith in
          subst (Copied bytes at elf from n) same
            (spliced-Copied bytes at elf from n (ground arith) (ground arith))
      | inr p ↦ absurd (ground (arith, e, p))
    ]
