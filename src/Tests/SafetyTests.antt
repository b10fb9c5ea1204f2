-- ===== src/Tests/SafetyTests.antt =====
-- Well-formed processors on a well-formed memory: two processors on a memory whose first word is WAIT.
use psim.Prelude.{ℕ, ◌<◌, ◌≡◌, ok, refl, arith, [], ◌∷◌, true, All, List, get_or, length}
use mathlib.Core.Path.{subst, sym, ap}
use mathlib.Core.Option.{some-injective}
use psim.Cpu.{create_from}
use psim.Bus.{minus_one}
use psim.Bus.Bounds.{IsBus}
use psim.Mem.{Mem}
use psim.Mem.Bounds.{IsByte, IsStore}
use psim.Mem.Load.{Phdr, progld}
use psim.Mem.LoadLaws.{image, progld-image}
use psim.Datapath.State.{Sys}
use psim.Datapath.Switch.{lw}
use psim.Datapath.Cycle.{datapath_execute}
use psim.Datapath.Retry.{IsRefused, Retried, datapath_execute-Retried}
use psim.Datapath.Words.{IsCpu}
use psim.Datapath.Words.Accesses.{IsSys}
use psim.Datapath.Words.Cycle.{KeptOr, IsStuck, datapath_execute-Kept}
use psim.ShrMem.{sim, prepare}
use psim.ShrMem.Safe.{IsSafe, RunSafe, sim-Safe}
use psim.ShrMem.Start.{create_from-IsCpu, IsAlloc, prepare-IsSafe}
use psim.Tests.SimTests.{two_mem, two_ctl, ready_cpu, two_cpus, unset, granted, loaded}

two_mem-IsStore : IsStore two_mem
two_mem-IsStore = record {
  mem = record { storage = refl; whole = refl };
  bytes = (omega arith, (omega arith, (omega arith, (omega arith, tt))));
}

two_ctl-IsBus : IsBus two_ctl
two_ctl-IsBus = record {
  resaddrs = λ _. refl;
  slots = λ _. refl;
  head = λ _. omega arith;
  tail = λ _. omega arith;
}

two_sys : IsSys two_cpus.sys
two_sys = record { store = two_mem-IsStore; bus = two_ctl-IsBus; input = tt }

pub both_cpus : All IsCpu two_cpus.cpus
both_cpus = unfold create_from in create_from-IsCpu 2 0 0 (omega arith)

datapath_execute-Kept_example :
    KeptOr (IsStuck ready_cpu two_cpus.sys) (datapath_execute ready_cpu two_cpus.sys)
datapath_execute-Kept_example = datapath_execute-Kept ready_cpu two_cpus.sys both_cpus.0 two_sys

sim-Safe_example : RunSafe two_cpus (sim 3 two_cpus)
sim-Safe_example = sim-Safe 3 two_cpus (record { cpus = both_cpus; sys = two_sys })

-- Blocks of the size that Mem_create asks for
granted-IsAlloc : IsAlloc 2 4 granted
granted-IsAlloc = record {
  resaddr = λ rs p. ap length (some-injective rs (minus_one ∷ minus_one ∷ []) (sym p));
  storage = λ bs p.
      subst (λ k. (length k ≡ 4) × All IsByte k) (some-injective (7 ∷ 7 ∷ 7 ∷ 7 ∷ []) bs p)
        (refl, (omega arith, (omega arith, (omega arith, (omega arith, tt)))));
}

prepare-IsSafe_example : IsSafe loaded
prepare-IsSafe_example =
    prepare-IsSafe 2 4 true unset granted 0 [] [] two_cpus.sys.console loaded refl refl
      granted-IsAlloc tt tt made
  where
    made : prepare 2 4 true unset granted 0 [] [] two_cpus.sys.console ≡ ok loaded
    made = unfold prepare in refl

-- A segment of two bytes that goes to the place 1
abbrev segment : Phdr
segment = record { p_type = 1; p_offset = 1; p_paddr = 1; p_filesz = 2; p_flags = 5 }

abbrev empty : Mem
empty = record { size = 4; bytes = 9 ∷ 9 ∷ 9 ∷ 9 ∷ [] }

abbrev full : Mem
full = record { size = 4; bytes = 0 ∷ 20 ∷ 30 ∷ 0 ∷ [] }

abbrev file : List ℕ
file = 10 ∷ 20 ∷ 30 ∷ 40 ∷ []

progld-image_example :
    (full.size ≡ empty.size)
    × (length full.bytes ≡ length empty.bytes)
    × ((i : ℕ) → i < empty.size → get_or full.bytes i 0 ≡ image file (segment ∷ []) i 0)
progld-image_example = progld-image empty full file (segment ∷ []) made
  where
    made : progld empty file (segment ∷ []) ≡ ok full
    made = unfold progld in refl

-- The same segment is skipped if it is only to be read.
only_read :
    progld empty file (record segment { p_flags = 4 } ∷ [])
    ≡ ok (record { size = 4; bytes = 0 ∷ 0 ∷ 0 ∷ 0 ∷ [] })
unfolding progld
only_read = refl

-- LW of register 8 from address 0, while the other processor has used the bus
abbrev load_word : ℕ
load_word = 0x8C080000

abbrev load_mem : Mem
load_mem = record { size = 4; bytes = 0 ∷ 0 ∷ 0x08 ∷ 0x8C ∷ [] }

abbrev taken : Sys
taken = record (two_cpus.sys) { mem = load_mem; bus = record two_ctl { used = true } }

refused : IsRefused ready_cpu taken load_word lw
refused =
    unfold datapath_execute in
    record {
      runs = refl;
      idle = refl;
      word = refl;
      known = refl;
      is_access = refl;
      in_memory = refl;
      refused = refl;
    }

datapath_execute-Retried_example :
    Retried ready_cpu taken load_word (datapath_execute ready_cpu taken)
datapath_execute-Retried_example = datapath_execute-Retried ready_cpu taken load_word lw refused
