-- ===== src/Mem/Load.antt =====
-- mem.c: Mem_progld. The program headers are those of the ELF image, read as <elf.h> lays them out.
use psim.Prelude.{ℕ, ◌+◌, Bool, not, ◌&&◌, ◌||◌, leb, ◌==◌, if◌then◌else◌}
use psim.Prelude.{List, [], ◌∷◌, ◌++◌, length, replicate, take, drop}
use psim.Prelude.{Outcome, ok, err, fault, ◌>>=◌, enospc}
use psim.Mem.{Mem}

-- The fields of Elf32_Phdr that the loader reads
pub record Phdr : Type 0 where
  pub p_type : ℕ
  pub p_offset : ℕ
  pub p_paddr : ℕ
  pub p_filesz : ℕ
  pub p_flags : ℕ

-- The constants of <elf.h>
abbrev pub pt_load : ℕ
pt_load = 1

abbrev pub pf_x : ℕ
pf_x = 1

abbrev pub pf_w : ℕ
pf_w = 2

abbrev pub pf_r : ℕ
pf_r = 4

-- The labels of the switch; the flags are distinct bits.
abbrev pub is_loaded : ℕ → Bool
is_loaded flags =
    (flags == pf_r + pf_x) || ((flags == pf_r + pf_w) || (flags == pf_r + pf_w + pf_x))

-- memcpy(bytes + at, elf + from, n), undefined where it leaves either object
unfoldable pub copy_in : List ℕ → ℕ → List ℕ → ℕ → ℕ → Outcome (List ℕ)
copy_in bytes at elf from n =
    if leb (at + n) (length bytes) && leb (from + n) (length elf)
    then ok (take at bytes ++ (take n (drop from elf) ++ drop (at + n) bytes))
    else fault

-- The body of the loop for one segment
unfoldable pub load_segment : Mem → List ℕ → Phdr → Outcome Mem
unfolding copy_in
load_segment mem elf ph =
    if not (ph.p_type == pt_load)
    then ok mem
    else if is_loaded ph.p_flags
    then if leb mem.size ph.p_paddr
      then err enospc
      else (copy_in mem.bytes ph.p_paddr elf ph.p_offset ph.p_filesz >>= λ bytes.
          ok (record mem { bytes = bytes }))
    else ok mem

unfoldable pub load_segments : Mem → List ℕ → List Phdr → Outcome Mem
unfolding load_segment
load_segments mem elf [] = ok mem
load_segments mem elf (ph ∷ phs) = elim (load_segment mem elf ph) [
  | ok mem' ↦ load_segments mem' elf phs
  | err e ↦ err e
  | fault ↦ fault
]

-- memset(data.b, 0, size), undefined if the storage is smaller
unfoldable pub clear : Mem → Outcome Mem
clear mem =
    if leb mem.size (length mem.bytes)
    then ok (record mem { bytes = replicate mem.size 0 ++ drop mem.size mem.bytes })
    else fault

-- Mem_progld, given the image's bytes and its program headers
unfoldable pub progld : Mem → List ℕ → List Phdr → Outcome Mem
unfolding clear load_segments
progld mem elf phs = do mem' ← clear mem; load_segments mem' elf phs
