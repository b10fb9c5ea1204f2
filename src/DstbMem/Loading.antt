-- ===== src/DstbMem/Loading.antt =====
-- `progld` of dstbmem.c: every node starts from the same program.
use psim.Prelude.{ℕ, ◌<◌, ◌≡◌, suc, refl, ap, sym, ◌∙◌, arith, leb}
use psim.Prelude.{List, [], ◌∷◌, ◌++◌, length, get_or, take, drop, All, Option, none, some}
use psim.Prelude.{Outcome, ok, err, fault, Bool-cases, Option-cases, inl, inr, leb→le}
use psim.Prelude.Slices.{length-take, get_or-take, get_or-append_left}
use mathlib.Core.Path.{subst}
use psim.Mem.{Mem}
use psim.Mem.Load
use psim.Mem.Load.{Phdr}
use psim.Mem.LoadLaws.{image, progld-image}
use psim.Net.State.{Node, Net}
use psim.DstbMem.{copy_mem, copy_all, with_nodes, add_first, progld_nodes, progld}

-- The node's memory has `memsz` bytes, the first bytes of which are those of `src`.
abbrev Starts : ℕ → (ℕ → ℕ) → Node → Type 0
Starts memsz src nd =
    (nd.mem.size ≡ memsz) × ((i : ℕ) → i < memsz → get_or nd.mem.bytes i 0 ≡ src i)

abbrev Sized : ℕ → Node → Type 0
Sized memsz nd = nd.mem.size ≡ memsz

copy_mem_lem :
    (memsz : ℕ) (src : List ℕ) (dst m : Mem)
    → copy_mem memsz src dst ≡ some m
    → (m.size ≡ dst.size) × ((i : ℕ) → i < memsz → get_or m.bytes i 0 ≡ get_or src i 0)
unfolding copy_mem
copy_mem_lem memsz src dst m e = elim (Bool-cases (leb memsz (length src))) [
  | inl p ↦ elim (Bool-cases (leb memsz (length dst.bytes))) [
    | inl q ↦
        let out = take memsz src ++ drop memsz dst.bytes in
        let same : record dst { bytes = out } ≡ m = ground (arith, e, p, q) in
        subst
          (λ (k : Mem).
            (k.size ≡ dst.size) × ((i : ℕ) → i < memsz → get_or k.bytes i 0 ≡ get_or src i 0))
          same
          (
            refl,
            λ i h.
                get_or-append_left (take memsz src) (drop memsz dst.bytes) i 0
                  (omega (arith, length-take memsz src (leb→le memsz (length src) p)))
                ∙ get_or-take memsz src i 0 h,
          )
    | inr q ↦ absurd (ground (arith, e, p, q))
  ]
  | inr p ↦ absurd (ground (arith, e, p))
]

copy_all_lem :
    (nds out : List Node) (memsz : ℕ) (src : List ℕ)
    → All (Sized memsz) nds
    → copy_all memsz src nds ≡ some out
    → (length out ≡ length nds) × All (Starts memsz (λ i. get_or src i 0)) out
unfolding copy_all
copy_all_lem [] out memsz src h e =
    let same : [] ≡ out = cc in
    subst (λ ys. (length ys ≡ 0) × All (Starts memsz (λ i. get_or src i 0)) ys) same (refl, tt)
copy_all_lem (nd ∷ nds) out memsz src h e = elim (Option-cases (copy_mem memsz src nd.mem)) [
  | inl p ↦ absurd (ground (arith, e, p))
  | inr (m, p) ↦ elim (Option-cases (copy_all memsz src nds)) [
    | inl q ↦ absurd (ground (arith, e, p, q))
    | inr (rest, q) ↦
        let same : record nd { mem = m } ∷ rest ≡ out = ground (arith, e, p, q) in
        let one = copy_mem_lem memsz src nd.mem m p in
        let more = copy_all_lem nds rest memsz src h.1 q in
        subst (λ ys. (length ys ≡ length (nd ∷ nds)) × All (Starts memsz (λ i. get_or src i 0)) ys)
          same (ap suc more.0, ((one.0 ∙ h.0, one.1), more.1))
  ]
]

Starts-all :
    (nds : List Node) (memsz : ℕ) (f g : ℕ → ℕ)
    → ((i : ℕ) → i < memsz → f i ≡ g i)
    → All (Starts memsz f) nds
    → All (Starts memsz g) nds
Starts-all [] memsz f g same h = tt
Starts-all (nd ∷ nds) memsz f g same h =
    ((h.0.0, λ i lt. h.0.1 i lt ∙ same i lt), Starts-all nds memsz f g same h.1)

-- What the loading of a network leaves
abbrev pub Loads : Net → ℕ → List ℕ → List Phdr → Net → Type 0
Loads net memsz elf phs net' =
    (length net'.nd ≡ length net.nd) × All (Starts memsz (λ i. image elf phs i 0)) net'.nd

progld_nodes_lem :
    (nds : List Node) (net net' : Net) (memsz : ℕ) (elf : List ℕ) (phs : List Phdr)
    → net.nd ≡ nds
    → All (Sized memsz) nds
    → progld_nodes net memsz elf phs nds ≡ ok net'
    → Loads net memsz elf phs net'
unfolding progld_nodes
progld_nodes_lem [] net net' memsz elf phs here h e = cc
progld_nodes_lem (nd ∷ nds) net net' memsz elf phs here h e =
    first (Load.progld nd.mem elf phs) refl e
  where
    others :
        (m : Mem) (o : Option (List Node))
        → Load.progld nd.mem elf phs ≡ ok m
        → copy_all memsz m.bytes nds ≡ o
        → with_nodes net (add_first (record nd { mem = m }) o) ≡ ok net'
        → Loads net memsz elf phs net'
    others m none p q x = cc
    others m (some rest) p q x =
        let loaded = progld-image nd.mem m elf phs p in
        let bytes : (i : ℕ) → i < memsz → get_or m.bytes i 0 ≡ image elf phs i 0 =
          λ i lt. loaded.2 i (omega (arith, h.0)) in
        let more = copy_all_lem nds rest memsz m.bytes h.1 q in
        let same : record net { nd = record nd { mem = m } ∷ rest } ≡ net' = cc in
        subst (Loads net memsz elf phs) same (
          ap suc more.0 ∙ sym (ap length here),
          ((loaded.0 ∙ h.0, bytes), Starts-all rest memsz (λ i. get_or m.bytes i 0) _ bytes more.1),
        )

    first :
        (o : Outcome Mem)
        → Load.progld nd.mem elf phs ≡ o
        → elim o [
          | err e ↦ err e
          | fault ↦ fault
          | ok m ↦ with_nodes net (add_first (record nd { mem = m }) (copy_all memsz m.bytes nds))
        ]
          ≡ ok net'
        → Loads net memsz elf phs net'
    first (ok m) p x = others m (copy_all memsz m.bytes nds) p refl x
    first (err e) p x = cc
    first fault p x = cc

-- A program that `progld` loads into a network whose memories have `memsz` bytes: every node is still
-- there, and each byte of every node's memory is the one that the last segment over it gives, and 0
-- where there is none. The segments that count are those of type PT_LOAD with the flags R|X, R|W or
-- R|W|X: any other, so one with R only, is skipped.
pub progld-Loads :
    (net net' : Net) (memsz : ℕ) (elf : List ℕ) (phs : List Phdr)
    → All (λ nd. nd.mem.size ≡ memsz) net.nd
    → progld net memsz elf phs ≡ ok net'
    → Loads net memsz elf phs net'
unfolding progld
progld-Loads net net' memsz elf phs h e = progld_nodes_lem net.nd net net' memsz elf phs refl h e
