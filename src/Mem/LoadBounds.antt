-- ===== src/Mem/LoadBounds.antt =====
-- Mem_progld and Mem_create: the memory that a program is loaded into holds bytes.
use psim.Prelude.{ℕ, ◌+◌, ◌≡◌, refl, arith, not, ◌&&◌, leb, ◌==◌}
use psim.Prelude.{List, [], ◌∷◌, length, take, drop, replicate, All, All-replicate}
use psim.Prelude.{Outcome, ok, err, fault, ◌>>=◌, WhenOk, if_both}
use psim.Prelude.Slices.{All-append, All-take, All-drop}
use psim.Mem.{Mem}
use psim.Mem.Bounds.{IsByte, IsStore}
use psim.Mem.Load.{Phdr, pt_load, is_loaded, copy_in, load_segment, load_segments, clear, progld}
use psim.Mem.LoadLaws.{progld-image}

abbrev HoldsBytes : Mem → Type 0
HoldsBytes m = All IsByte m.bytes

copy_in-WhenOk :
    (bytes : List ℕ) (at : ℕ) (elf : List ℕ) (from n : ℕ)
    → All IsByte bytes
    → All IsByte elf
    → WhenOk (All IsByte) (copy_in bytes at elf from n)
unfolding copy_in
copy_in-WhenOk bytes at elf from n h k =
    if_both (WhenOk (All IsByte)) (leb (at + n) (length bytes) && leb (from + n) (length elf)) _ _
      (λ p. All-append IsByte (take at bytes) _ (All-take IsByte at bytes h) (
        All-append IsByte (take n (drop from elf)) _
          (All-take IsByte n _ (All-drop IsByte from elf k)) (All-drop IsByte (at + n) bytes h)))
      (λ p. tt)

stored-WhenOk :
    (m : Mem) (o : Outcome (List ℕ))
    → WhenOk (All IsByte) o
    → WhenOk HoldsBytes (o >>= λ bytes. ok (record m { bytes = bytes }))
stored-WhenOk m (ok out) h = h
stored-WhenOk m (err e) h = tt
stored-WhenOk m fault h = tt

load_segment-WhenOk :
    (m : Mem) (elf : List ℕ) (ph : Phdr)
    → HoldsBytes m
    → All IsByte elf
    → WhenOk HoldsBytes (load_segment m elf ph)
unfolding load_segment
load_segment-WhenOk m elf ph h k =
    if_both (WhenOk HoldsBytes) (not (ph.p_type == pt_load)) _ _ (λ p. h)
      (λ p.
        if_both (WhenOk HoldsBytes) (is_loaded ph.p_flags) _ _
          (λ q.
            if_both (WhenOk HoldsBytes) (leb m.size ph.p_paddr) _ _ (λ r. tt)
              (λ r.
                stored-WhenOk m _
                  (copy_in-WhenOk m.bytes ph.p_paddr elf ph.p_offset ph.p_filesz h k)))
          (λ q. h))

load_segments-WhenOk :
    (phs : List Phdr) (m : Mem) (elf : List ℕ)
    → HoldsBytes m
    → All IsByte elf
    → WhenOk HoldsBytes (load_segments m elf phs)
unfolding load_segments
load_segments-WhenOk [] m elf h k = h
load_segments-WhenOk (ph ∷ phs) m elf h k =
    next (load_segment m elf ph) (load_segment-WhenOk m elf ph h k)
      (λ m' h'. load_segments-WhenOk phs m' elf h' k)
  where
    next :
        (o : Outcome Mem)
        → WhenOk HoldsBytes o
        → ((m' : Mem) → HoldsBytes m' → WhenOk HoldsBytes (load_segments m' elf phs))
        → WhenOk HoldsBytes
            (elim o [ ok m' ↦ load_segments m' elf phs | err e ↦ err e | fault ↦ fault ])
    next (ok m') g ih = ih m' g
    next (err e) g ih = tt
    next fault g ih = tt

progld-WhenOk :
    (m : Mem) (elf : List ℕ) (phs : List Phdr)
    → HoldsBytes m
    → All IsByte elf
    → WhenOk HoldsBytes (progld m elf phs)
unfolding progld clear
progld-WhenOk m elf phs h k =
    if_both (λ o. WhenOk HoldsBytes (o >>= λ m'. load_segments m' elf phs))
      (leb m.size (length m.bytes)) _ _
      (λ p.
        load_segments-WhenOk phs _ elf
          (All-append IsByte (replicate m.size 0) _ (All-replicate IsByte m.size 0 (omega arith))
            (All-drop IsByte m.size m.bytes h))
          k)
      (λ p. tt)

-- A program of bytes, loaded into a memory of whole words that holds bytes, leaves such a memory.
pub progld-IsStore :
    (m : Mem) (elf : List ℕ) (phs : List Phdr)
    → IsStore m
    → All IsByte elf
    → WhenOk IsStore (progld m elf phs)
progld-IsStore m elf phs h k = result (progld m elf phs) refl (progld-WhenOk m elf phs h.bytes k)
  where
    result : (o : Outcome Mem) → progld m elf phs ≡ o → WhenOk HoldsBytes o → WhenOk IsStore o
    result (ok m') p bytes =
        let sizes = progld-image m m' elf phs p in
        record {
          mem = record {
            storage = omega (arith, sizes.0, sizes.1, h.mem.storage);
            whole = omega (arith, sizes.0, h.mem.whole);
          };
          bytes = bytes;
        }
    result (err e) p bytes = tt
    result fault p bytes = tt
