-- ===== src/ShrMem/Safe.antt =====
-- `sim` of shrmem.c: its processors, the memory and the controller stay well-formed over a run.
use psim.Prelude.{ℕ, zero, suc, ◌≡◌, refl, Bool, false, List, [], ◌∷◌, Option, none, some, ◌==◌}
use psim.Prelude.{All, Bool-cases, inl, inr}
use psim.Cpu.{Cpu}
use psim.Bus.{busclr}
use psim.Bus.Bounds.{busclr-IsBus}
use psim.Datapath.State.{Sys}
use psim.Datapath.Cycle.{Cycle, cycled, broken, datapath_execute}
use psim.Datapath.Words.{IsCpu}
use psim.Datapath.Words.Accesses.{IsSys}
use psim.Datapath.Words.Cycle.{KeptOr, IsStuck, datapath_execute-Kept}
use psim.ShrMem.{Sim, count_stop, run_cpus, round, Run, finished, running, broke, sim}

pub record IsSafe (s : Sim) : Type 0 where
  pub cpus : All IsCpu s.cpus
  pub sys : IsSys s.sys

-- In the round over the processors `cs`, on `sys` before it, comes the cycle of `d` on `t`.
pub data MeetsIn : List Cpu → Sys → Cpu → Sys → Type 0 where
  here : {c : Cpu} {cs : List Cpu} {sys : Sys} → MeetsIn (c ∷ cs) sys c sys
  there :
      {c c' d : Cpu} {cs : List Cpu} {sys sys' t : Sys} (ret : Bool)
      → datapath_execute c sys ≡ cycled ret c' sys'
      → MeetsIn cs sys' d t
      → MeetsIn (c ∷ cs) sys d t

-- In the run from `s` comes the cycle of `d` on `t`.
pub data Meets : Sim → Cpu → Sys → Type 0 where
  now :
      {s : Sim} {d : Cpu} {t : Sys}
      → (s.nrun == 0) ≡ false
      → MeetsIn s.cpus (record (s.sys) { bus = busclr s.sys.bus }) d t
      → Meets s d t
  later :
      {s s' : Sim} {d : Cpu} {t : Sys}
      → (s.nrun == 0) ≡ false
      → round s ≡ some s'
      → Meets s' d t
      → Meets s d t

-- The pass is well-formed, or it meets a cycle that C does not define.
abbrev PassSafe : List Cpu → Sys → Option Sim → Type 0
PassSafe cs sys (some s) = IsSafe s
PassSafe cs sys none = (d : Cpu) × (t : Sys) × MeetsIn cs sys d t × IsStuck d t

cons-PassSafe :
    (x : Cycle) (c : Cpu) (cs : List Cpu) (sys : Sys) (n : ℕ)
    → datapath_execute c sys ≡ x
    → KeptOr (IsStuck c sys) x
    → ((sys' : Sys) (n' : ℕ) → IsSys sys' → PassSafe cs sys' (run_cpus cs sys' n'))
    → PassSafe (c ∷ cs) sys (run_cpus (c ∷ cs) sys n)
unfolding run_cpus
cons-PassSafe broken c cs sys n x k ih = rw (x, run_cpus) (c, sys, here, k)
cons-PassSafe (cycled ret c' sys') c cs sys n x k ih =
    rw (x, run_cpus) (rest (run_cpus cs sys' (count_stop ret c' n)) (ih sys' _ k.1))
  where
    rest :
        (o : Option Sim)
        → PassSafe cs sys' o
        → PassSafe
            (c ∷ cs)
            sys
            (elim o [ none ↦ none | some s ↦ some (record s { cpus = c' ∷ s.cpus }) ])
    rest none (d, t, m, stuck) = (d, t, there ret x m, stuck)
    rest (some s) h = record { cpus = (k.0, h.cpus); sys = h.sys }

run_cpus-PassSafe :
    (cs : List Cpu) (sys : Sys) (n : ℕ)
    → All IsCpu cs
    → IsSys sys
    → PassSafe cs sys (run_cpus cs sys n)
unfolding run_cpus
run_cpus-PassSafe [] sys n h k = record { cpus = tt; sys = k }
run_cpus-PassSafe (c ∷ cs) sys n h k =
    cons-PassSafe (datapath_execute c sys) c cs sys n refl (datapath_execute-Kept c sys h.0 k)
      (λ sys' n' k'. run_cpus-PassSafe cs sys' n' h.1 k')

abbrev pub RunSafe : Sim → Run → Type 0
RunSafe s (finished s') = IsSafe s'
RunSafe s (running s') = IsSafe s'
RunSafe s broke = (d : Cpu) × (t : Sys) × Meets s d t × IsStuck d t

later-RunSafe :
    (s s' : Sim) (r : Run) → (s.nrun == 0) ≡ false → round s ≡ some s' → RunSafe s' r → RunSafe s r
later-RunSafe s s' (finished e) p q h = h
later-RunSafe s s' (running e) p q h = h
later-RunSafe s s' broke p q (d, t, m, stuck) = (d, t, later p q m, stuck)

round-PassSafe :
    (s : Sim) → IsSafe s → PassSafe s.cpus (record (s.sys) { bus = busclr s.sys.bus }) (round s)
unfolding round
round-PassSafe s h =
    run_cpus-PassSafe s.cpus _ s.nrun h.cpus
      (record { store = h.sys.store; bus = busclr-IsBus s.sys.bus h.sys.bus; input = h.sys.input })

by_round :
    (fuel : ℕ) (s : Sim) (o : Option Sim)
    → (s.nrun == 0) ≡ false
    → round s ≡ o
    → PassSafe s.cpus (record (s.sys) { bus = busclr s.sys.bus }) o
    → ((s' : Sim) → IsSafe s' → RunSafe s' (sim fuel s'))
    → RunSafe s (sim (suc fuel) s)
unfolding sim
by_round fuel s none p q (d, t, m, stuck) ih = rw (p, sim) (rw (q, sim) (d, t, now p m, stuck))
by_round fuel s (some s') p q h ih =
    rw (p, sim) (rw (q, sim) (later-RunSafe s s' (sim fuel s') p q (ih s' h)))

-- The simulation of well-formed processors, on a memory of whole words that holds bytes, a well-formed
-- controller and an input of bytes: after any number of rounds, finished or not, all of them are
-- well-formed. The only runs whose behaviour C does not define come to a cycle that fetches a MULT
-- whose product is no `int`, a DIV by zero or whose quotient is no `int`, an EXT with a field outside
-- the word, a branch that is taken over a negative distance, or a LUI of a negative immediate.
pub sim-Safe : (fuel : ℕ) (s : Sim) → IsSafe s → RunSafe s (sim fuel s)
unfolding sim
sim-Safe zero s h = elim (Bool-cases (s.nrun == 0)) [
  | inl p ↦ rw (p, sim) h
  | inr p ↦ rw (p, sim) h
]
sim-Safe (suc fuel) s h = elim (Bool-cases (s.nrun == 0)) [
  | inl p ↦ rw (p, sim) h
  | inr p ↦ by_round fuel s (round s) p refl (round-PassSafe s h) (sim-Safe fuel)
]
