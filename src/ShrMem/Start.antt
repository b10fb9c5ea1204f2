-- ===== src/ShrMem/Start.antt =====
-- The set-up in ShrMem_run: the simulation starts from a well-formed state.
use psim.Prelude.{ℕ, zero, suc, ◌+◌, ◌%◌, ◌^◌, ◌<◌, ◌≡◌, ◌∙◌, arith, Bool, true, false, not, ltb}
use psim.Prelude.{
  List, length, set, replicate, length-replicate, length-set, All, All-set, All-replicate,
}
use psim.Prelude.{
  none, some, Option-cases, if_both, WhenOk, ltb→lt, ◌*◌, Outcome, ok, err, fault, Bool-cases, inl,
  inr, u32,
}
use mathlib.Core.Path.{subst}
use psim.Cpu
use psim.Cpu.{Cpu, create_from, zero_cpu, n_gpr, k0, cop2_nreg, cop2_nsel}
use psim.Bus.{Memctl}
use psim.Bus.Bounds.{IsBus}
use psim.Mem.{Mem}
use psim.Mem.Bounds.{IsByte, IsStore}
use psim.Mem.Create
use psim.Mem.Create.{Alloc, init_shared, alloc_mem, with_mem}
use psim.Mem.Load
use psim.Mem.Load.{Phdr}
use psim.Mem.LoadBounds.{progld-IsStore}
use psim.Datapath.State.{Console}
use psim.Datapath.Words.{IsWord, IsCpu}
use psim.ShrMem.{Sim, prepare}
use psim.ShrMem.Safe.{IsSafe}

first-IsCpu :
    (pc i : ℕ)
    → pc < 2 ^ 64
    → IsCpu (record zero_cpu { pc = pc; running = true; gpr = set (replicate n_gpr 0) k0 (u32 i) })
first-IsCpu pc i h = record {
  regs = length-set (replicate n_gpr 0) k0 (u32 i) ∙ length-replicate {A = ℕ} n_gpr 0;
  words =
      All-set IsWord (replicate n_gpr 0) k0 (u32 i) (All-replicate IsWord n_gpr 0 (omega arith))
        (omega arith);
  cop_regs = length-replicate {A = ℕ} (cop2_nreg * cop2_nsel) 0;
  cop_words = All-replicate IsWord (cop2_nreg * cop2_nsel) 0 (omega arith);
  hi_word = omega arith;
  lo_word = omega arith;
  pc_word = h;
  npc_word = omega arith;
  rs_reg = omega arith;
  rt_reg = omega arith;
  rd_reg = omega arith;
  imm_half = omega arith;
}

pub create_from-IsCpu : (n i pc : ℕ) → pc < 2 ^ 64 → All IsCpu (create_from pc n i)
unfolding create_from
create_from-IsCpu zero i pc h = tt
create_from-IsCpu (suc n) i pc h = (first-IsCpu pc i h, create_from-IsCpu n (i + 1) pc h)

-- malloc gives blocks of the size that Mem_create asks for, and a block of memory is bytes.
pub record IsAlloc (ncpu memsz : ℕ) (a : Alloc) : Type 0 where
  pub resaddr : (rs : List ℕ) → a.resaddr ≡ some rs → length rs ≡ ncpu
  pub storage : (bs : List ℕ) → a.storage ≡ some bs → (length bs ≡ memsz) × All IsByte bs

init_shared-WhenOk :
    (ctl : Memctl) (n memsz : ℕ) (a : Alloc)
    → 1 < n
    → IsAlloc n memsz a
    → WhenOk IsBus (init_shared ctl n a)
unfolding init_shared
init_shared-WhenOk ctl n memsz a big h = elim (Option-cases a.resaddr) [
  | inl p ↦ rw p tt
  | inr (rs, p) ↦ elim (Option-cases a.slots) [
    | inl q ↦ rw p (rw q tt)
    | inr (qs, q) ↦ rw p (
        rw q (
          if_both (WhenOk IsBus) (not a.mutex_ok) _ _ (λ _. tt)
            (λ _. record {
              resaddrs = λ _. h.resaddr rs p;
              slots = λ _. length-replicate n none;
              head = λ _. omega arith;
              tail = λ _. omega arith;
            })))
  ]
]

-- What Mem_create makes
abbrev Made : Memctl × Mem → Type 0
Made (ctl, mem) = IsBus ctl × IsStore mem

with_mem-WhenOk :
    (ctl : Memctl) (n memsz : ℕ) (a : Alloc)
    → memsz % 4 ≡ 0
    → IsAlloc n memsz a
    → IsBus ctl
    → WhenOk Made (with_mem memsz a ctl)
unfolding with_mem alloc_mem
with_mem-WhenOk ctl n memsz a whole h k = elim (Bool-cases a.object) [
  | inl p ↦ elim (Option-cases a.storage) [
    | inl q ↦ rw p (rw q tt)
    | inr (bs, q) ↦ rw p (
        rw q (
          k,
          record {
            mem = record { storage = (h.storage bs q).0; whole = whole };
            bytes = (h.storage bs q).1;
          },
        ))
  ]
  | inr p ↦ rw p tt
]

create-WhenOk :
    (ctl : Memctl) (n memsz : ℕ) (a : Alloc)
    → memsz % 4 ≡ 0
    → IsAlloc n memsz a
    → ctl.shared ≡ false
    → WhenOk Made (Create.create ctl memsz n a)
unfolding Create.create
create-WhenOk ctl n memsz a whole h k =
    if_both (WhenOk Made) (ltb 1 n) _ _
      (λ p. controlled (init_shared ctl n a) (init_shared-WhenOk ctl n memsz a (ltb→lt 1 n p) h))
      (λ p.
        with_mem-WhenOk ctl n memsz a whole h
          (record { resaddrs = λ s. cc; slots = λ s. cc; head = λ s. cc; tail = λ s. cc }))
  where
    controlled :
        (o : Outcome Memctl)
        → WhenOk IsBus o
        → WhenOk Made (elim o [ ok ctl' ↦ with_mem memsz a ctl' | err e ↦ err e | fault ↦ fault ])
    controlled (ok ctl') g = with_mem-WhenOk ctl' n memsz a whole h g
    controlled (err e) g = tt
    controlled fault g = tt

module _ (ncpu memsz : ℕ) (allocated : Bool) (ctl : Memctl) (a : Alloc) (entry : ℕ) (elf : List ℕ)
    (phs : List Phdr) (con : Console) where
  prepare-WhenOk :
      memsz % 4 ≡ 0
      → ctl.shared ≡ false
      → IsAlloc ncpu memsz a
      → All IsByte elf
      → All IsByte con.input
      → WhenOk IsSafe (prepare ncpu memsz allocated ctl a entry elf phs con)
  unfolding prepare Cpu.create
  prepare-WhenOk whole fresh h k input = elim (Bool-cases allocated) [
    | inl p ↦
        rw p
          (created (Create.create ctl memsz ncpu a) (create-WhenOk ctl ncpu memsz a whole h fresh))
    | inr p ↦ rw p tt
  ]
    where
      loaded :
          (ctl' : Memctl) (o : Outcome Mem)
          → IsBus ctl'
          → WhenOk IsStore o
          → WhenOk IsSafe (elim o [
            | err e ↦ err e
            | fault ↦ fault
            | ok m' ↦ ok (record {
              cpus = create_from (u32 entry) (u32 ncpu) 0;
              sys = record { mem = m'; bus = ctl'; console = con };
              nrun = ncpu;
            })
          ])
      loaded ctl' (ok m') b g = record {
        cpus = create_from-IsCpu (u32 ncpu) 0 (u32 entry) (omega arith);
        sys = record { store = g; bus = b; input = input };
      }
      loaded ctl' (err e) b g = tt
      loaded ctl' fault b g = tt

      created :
          (o : Outcome (Memctl × Mem))
          → WhenOk Made o
          → WhenOk IsSafe (elim o [
            | err e ↦ err e
            | fault ↦ fault
            | ok (ctl', mem) ↦ elim (Load.progld mem elf phs) [
              | err e ↦ err e
              | fault ↦ fault
              | ok mem' ↦ ok (record {
                cpus = create_from (u32 entry) (u32 ncpu) 0;
                sys = record { mem = mem'; bus = ctl'; console = con };
                nrun = ncpu;
              })
            ]
          ])
      created (ok (ctl', m)) g =
          loaded ctl' (Load.progld m elf phs) g.0 (progld-IsStore m elf phs g.1 k)
      created (err e) g = tt
      created fault g = tt

  -- What ShrMem_run hands to `sim` is well-formed, when nothing fails before: provided that the size
  -- of the memory is a number of words, the image and the console give bytes, malloc gives blocks of the size asked for, and the memory controller is not in use yet.
  pub prepare-IsSafe :
      (s : Sim)
      → memsz % 4 ≡ 0
      → ctl.shared ≡ false
      → IsAlloc ncpu memsz a
      → All IsByte elf
      → All IsByte con.input
      → prepare ncpu memsz allocated ctl a entry elf phs con ≡ ok s
      → IsSafe s
  prepare-IsSafe s whole fresh h k input e =
      subst (WhenOk IsSafe) e (prepare-WhenOk whole fresh h k input)
