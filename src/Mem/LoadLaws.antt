-- ===== src/Mem/LoadLaws.antt =====
-- Mem_progld: what each byte of the memory holds once a program is loaded.
use psim.Prelude.{
  ℕ, ◌+◌, ◌-◌, ◌/◌, ◌%◌, not, ◌<◌, ◌≡◌, refl, ap, ◌∙◌, arith, Bool, true, false, ◌&&◌, leb, ltb,
  ◌==◌,
}
use psim.Prelude.{
  List, [], ◌∷◌, ◌++◌, length, get_or, drop, replicate, Outcome, ok, err, fault, if◌then◌else◌,
}
use psim.Prelude.{◌>>=◌, if_both, leb→le, length-append, length-replicate, Bool-cases, inl, inr}
use psim.Prelude.Slices.{length-drop, get_or-append_left, get_or-replicate}
use mathlib.Core.Path.{subst}
use psim.Mem.{Mem}
use psim.Mem.Load.{Phdr, is_loaded, copy_in, load_segment, load_segments, clear, progld}
use psim.Mem.CopyLaws.{Copied, copy_in-Copied}

-- Is the segment one of a program's code or data: of the type PT_LOAD (1), with PF_R (4), at least
-- one of PF_W (2) and PF_X (1), and no other flag?
abbrev goes_in : Phdr → Bool
goes_in ph = (ph.p_type == 1) && ((ph.p_flags / 4 == 1) && not (ph.p_flags % 4 == 0))

-- Does the segment go into the memory, and to the place `i`?
abbrev pub fills : Phdr → ℕ → Bool
fills ph i = goes_in ph && (leb ph.p_paddr i && ltb i (ph.p_paddr + ph.p_filesz))

-- The byte at the place `i` that the segments give, `v` where none fills it: the last one counts.
abbrev pub image : List ℕ → List Phdr → ℕ → ℕ → ℕ
image elf [] i v = v
image elf (ph ∷ phs) i v =
    image elf phs i (if fills ph i then get_or elf (ph.p_offset + (i - ph.p_paddr)) 0 else v)

-- What a memory is after a segment, the size and the number of bytes as before
record Filled (m : Mem) (elf : List ℕ) (ph : Phdr) (m' : Mem) : Type 0 where
  same_size : m'.size ≡ m.size
  same_length : length m'.bytes ≡ length m.bytes
  filled :
      (i : ℕ)
      → get_or m'.bytes i 0
        ≡ (if fills ph i then get_or elf (ph.p_offset + (i - ph.p_paddr)) 0 else get_or m.bytes i 0)

-- The labels of the switch are these flags.
is_loaded-eq : (flags : ℕ) → is_loaded flags ≡ (flags / 4 == 1) && not (flags % 4 == 0)
is_loaded-eq flags = ground arith

skipped-Filled : (m : Mem) (elf : List ℕ) (ph : Phdr) → goes_in ph ≡ false → Filled m elf ph m
skipped-Filled m elf ph p = record { same_size = refl; same_length = refl; filled = λ i. rw p refl }

copy-Filled :
    (m : Mem) (elf : List ℕ) (ph : Phdr) (out : List ℕ)
    → goes_in ph ≡ true
    → Copied m.bytes ph.p_paddr elf ph.p_offset ph.p_filesz out
    → Filled m elf ph (record m { bytes = out })
copy-Filled m elf ph out p c = record {
  same_size = refl;
  same_length = c.size;
  filled = λ i. rw p (
      if_both (λ v. get_or out i 0 ≡ v) (leb ph.p_paddr i && ltb i (ph.p_paddr + ph.p_filesz)) _ _
        (λ q. c.inside i (ground arith) (ground arith)) (λ q. outside i q));
}
  where
    outside :
        (i : ℕ)
        → (leb ph.p_paddr i && ltb i (ph.p_paddr + ph.p_filesz)) ≡ false
        → get_or out i 0 ≡ get_or m.bytes i 0
    outside i q = elim (Bool-cases (leb ph.p_paddr i)) [
      | inl r ↦ c.after i (ground arith)
      | inr r ↦ c.before i (ground arith)
    ]

segment-Filled :
    (m m' : Mem) (elf : List ℕ) (ph : Phdr) (o : Outcome (List ℕ))
    → goes_in ph ≡ true
    → copy_in m.bytes ph.p_paddr elf ph.p_offset ph.p_filesz ≡ o
    → (o >>= λ bytes. ok (record m { bytes = bytes })) ≡ ok m'
    → Filled m elf ph m'
segment-Filled m m' elf ph (ok out) p q e =
    let same : record m { bytes = out } ≡ m' = cc in
    subst (Filled m elf ph) same (copy-Filled m elf ph out p (copy_in-Copied _ _ _ _ _ out q))
segment-Filled m m' elf ph (err x) p q e = cc
segment-Filled m m' elf ph fault p q e = cc

load_segment-Filled :
    (m m' : Mem) (elf : List ℕ) (ph : Phdr) → load_segment m elf ph ≡ ok m' → Filled m elf ph m'
unfolding load_segment
load_segment-Filled m m' elf ph e = elim (Bool-cases (goes_in ph)) [
  | inl p ↦ elim (Bool-cases (leb m.size ph.p_paddr)) [
    | inl q ↦ absurd (ground (arith, e, p, q, is_loaded-eq ph.p_flags))
    | inr q ↦ segment-Filled m m' elf ph _ p refl (ground (arith, e, p, q, is_loaded-eq ph.p_flags))
  ]
  | inr p ↦
      let same : m ≡ m' = ground (arith, e, p, is_loaded-eq ph.p_flags) in
      subst (Filled m elf ph) same (skipped-Filled m elf ph p)
]

-- What a memory is after some segments
abbrev Loads : Mem → List ℕ → List Phdr → Mem → Type 0
Loads m elf phs m' =
    (m'.size ≡ m.size)
    × (length m'.bytes ≡ length m.bytes)
    × ((i : ℕ) → get_or m'.bytes i 0 ≡ image elf phs i (get_or m.bytes i 0))

load_segments_lem :
    (phs : List Phdr) (m m' : Mem) (elf : List ℕ)
    → load_segments m elf phs ≡ ok m'
    → Loads m elf phs m'
unfolding load_segments
load_segments_lem [] m m' elf e =
    let same : m ≡ m' = cc in subst (Loads m elf []) same (refl, refl, λ i. refl)
load_segments_lem (ph ∷ phs) m m' elf e =
    step (load_segment m elf ph) refl e (λ k. load_segments_lem phs k m' elf)
  where
    step :
        (o : Outcome Mem)
        → load_segment m elf ph ≡ o
        → elim o [ ok k ↦ load_segments k elf phs | err x ↦ err x | fault ↦ fault ] ≡ ok m'
        → ((k : Mem) → load_segments k elf phs ≡ ok m' → Loads k elf phs m')
        → Loads m elf (ph ∷ phs) m'
    step (ok k) p q ih =
        let once = load_segment-Filled m k elf ph p in
        let more = ih k q in
        (
          more.0 ∙ once.same_size,
          more.1 ∙ once.same_length,
          λ i. more.2 i ∙ ap (image elf phs i) (once.filled i),
        )
    step (err x) p q ih = cc
    step fault p q ih = cc

clear_lem :
    (m m' : Mem)
    → clear m ≡ ok m'
    → (m'.size ≡ m.size)
      × (length m'.bytes ≡ length m.bytes)
      × ((i : ℕ) → i < m.size → get_or m'.bytes i 0 ≡ 0)
unfolding clear
clear_lem m m' e = elim (Bool-cases (leb m.size (length m.bytes))) [
  | inl p ↦
      let zeros : List ℕ = replicate m.size 0 in
      let zeros_length : length zeros ≡ m.size = length-replicate m.size 0 in
      let rest = drop m.size m.bytes in
      let same : record m { bytes = zeros ++ rest } ≡ m' = ground (arith, e, p) in
      let size : length (zeros ++ rest) ≡ length m.bytes =
        omega (
          arith,
          length-append zeros rest,
          zeros_length,
          length-drop m.size m.bytes,
          leb→le _ _ p,
        ) in
      subst
        (λ (k : Mem).
          (k.size ≡ m.size)
          × (length k.bytes ≡ length m.bytes)
          × ((i : ℕ) → i < m.size → get_or k.bytes i 0 ≡ 0))
        same
        (
          refl,
          size,
          λ i h.
              get_or-append_left zeros rest i 0 (omega (arith, zeros_length))
              ∙ get_or-replicate m.size 0 i,
        )
  | inr p ↦ absurd (ground (arith, e, p))
]

-- A program that Mem_progld loads fills the memory as its segments say: each byte within the size is
-- the one that the last segment over it gives, and 0 where there is none. The segments that count are
-- those of type PT_LOAD with the flags R|X, R|W or R|W|X: any other, so one with R only, is
-- skipped. The size of the memory and that of its storage stay.
pub progld-image :
    (m m' : Mem) (elf : List ℕ) (phs : List Phdr)
    → progld m elf phs ≡ ok m'
    → (m'.size ≡ m.size)
      × (length m'.bytes ≡ length m.bytes)
      × ((i : ℕ) → i < m.size → get_or m'.bytes i 0 ≡ image elf phs i 0)
unfolding progld
progld-image m m' elf phs e = start (clear m) refl e
  where
    start :
        (o : Outcome Mem)
        → clear m ≡ o
        → (o >>= λ k. load_segments k elf phs) ≡ ok m'
        → (m'.size ≡ m.size)
          × (length m'.bytes ≡ length m.bytes)
          × ((i : ℕ) → i < m.size → get_or m'.bytes i 0 ≡ image elf phs i 0)
    start (ok k) p q =
        let zero_first = clear_lem m k p in
        let more = load_segments_lem phs k m' elf q in
        (
          more.0 ∙ zero_first.0,
          more.1 ∙ zero_first.1,
          λ i h. more.2 i ∙ ap (image elf phs i) (zero_first.2 i h),
        )
    start (err x) p q = cc
    start fault p q = cc
