-- ===== src/ShrMem/Stops.antt =====
-- `sim` of shrmem.c: its count of running processors, and when it stops.
use psim.Prelude.{ℕ, zero, suc, ◌+◌, ◌^◌, ◌<◌, ◌≡◌, refl, ap, ◌∙◌, arith, Bool, true, false}
use psim.Prelude.{List, [], ◌∷◌, length, Option, none, some, inl, inr, Bool-cases, ◌==◌}
use psim.Prelude.{All, Option-cases, ==→eq, ==→ne}
use mathlib.Core.Path.{subst}
use psim.Cpu
use psim.Cpu.{Cpu}
use psim.Datapath.State.{Sys}
use psim.Datapath.Cycle.{Cycle, cycled, broken, datapath_execute}
use psim.Datapath.Stopping.{
  one_if, one_if-le, count_running, count_running-le, stop_by, stop_by-cycle, All-stopped,
}
use psim.ShrMem.{Sim, count_stop, run_cpus, round, Run, finished, running, broke, sim}

-- The bookkeeping of `sim`: `nrun` is the number of processors that run. There are fewer than
-- 2 ^ 64 of them.
pub record IsCounted (n : ℕ) (s : Sim) : Type 0 where
  pub number : length s.cpus ≡ n
  pub count : count_running s.cpus ≡ s.nrun
  pub small : n < 2 ^ 64

-- The processors before the loop's place run in the number `before`.
abbrev Kept : ℕ → List Cpu → Option Sim → Type 0
Kept before cs none = Unit
Kept before cs (some s) = (length s.cpus ≡ length cs) × (before + count_running s.cpus ≡ s.nrun)

count_stop-eq : (ret : Bool) (c : Cpu) (n : ℕ) → count_stop ret c n ≡ stop_by ret c.running n
count_stop-eq true c n = refl
count_stop-eq false c n = refl

-- A cycle of one processor: `nrun` loses one exactly if the processor stopped in it.
count_stop-lem :
    (c c' : Cpu) (sys sys' : Sys) (ret : Bool) (n : ℕ)
    → datapath_execute c sys ≡ cycled ret c' sys'
    → n + 1 < 2 ^ 64
    → count_stop ret c' (n + one_if c.running) ≡ n + one_if c'.running
count_stop-lem c c' sys sys' ret n e small =
    count_stop-eq ret c' (n + one_if c.running) ∙ stop_by-cycle c c' sys sys' ret n e small

Kept-cons :
    (before : ℕ) (c c' : Cpu) (cs : List Cpu) (o : Option Sim)
    → Kept (before + one_if c'.running) cs o
    → Kept before
        (c ∷ cs)
        (elim o [ none ↦ none | some s ↦ some (record s { cpus = c' ∷ s.cpus }) ])
unfolding count_running
Kept-cons before c c' cs none h = tt
Kept-cons before c c' cs (some s) h = (ap suc h.0, omega (arith, h.1))

-- The loop's step keeps the count.
cons-Kept :
    (x : Cycle) (c : Cpu) (cs : List Cpu) (sys : Sys) (n before : ℕ)
    → datapath_execute c sys ≡ x
    → ((sys' : Sys) (n' before' : ℕ)
        → before' + count_running cs ≡ n'
        → before' + length cs < 2 ^ 64
        → Kept before' cs (run_cpus cs sys' n'))
    → before + count_running (c ∷ cs) ≡ n
    → before + length (c ∷ cs) < 2 ^ 64
    → Kept before (c ∷ cs) (run_cpus (c ∷ cs) sys n)
unfolding run_cpus count_running
cons-Kept broken c cs sys n before x ih e small = rw (x, run_cpus) tt
cons-Kept (cycled ret c' sys') c cs sys n before x ih e small =
    let n' = count_stop ret c' n in
    let here : n' ≡ (before + count_running cs) + one_if c'.running =
      ap (count_stop ret c') (omega (arith, e))
      ∙ count_stop-lem c c' sys sys' ret (before + count_running cs) x
          (omega (arith, small, count_running-le cs)) in
    let after =
      ih sys' n' (before + one_if c'.running) (omega (arith, here))
        (omega (arith, small, one_if-le c'.running)) in
    rw (x, run_cpus) (Kept-cons before c c' cs (run_cpus cs sys' n') after)

run_cpus-Kept :
    (cs : List Cpu) (sys : Sys) (n before : ℕ)
    → before + count_running cs ≡ n
    → before + length cs < 2 ^ 64
    → Kept before cs (run_cpus cs sys n)
unfolding run_cpus
run_cpus-Kept [] sys n before e small = (refl, e)
run_cpus-Kept (c ∷ cs) sys n before e small =
    cons-Kept (datapath_execute c sys) c cs sys n before refl (run_cpus-Kept cs) e small

round-IsCounted : (n : ℕ) (s s' : Sim) → IsCounted n s → round s ≡ some s' → IsCounted n s'
unfolding round
round-IsCounted n s s' h e =
    let kept = subst (Kept 0 s.cpus) e (
      run_cpus-Kept s.cpus _ s.nrun 0 (omega (arith, h.count))
        (omega (arith, h.number, h.small))) in
    record { number = kept.0 ∙ h.number; count = omega (arith, kept.1); small = h.small }

-- What each end of a run says of the processors
abbrev pub Ends : ℕ → Run → Type 0
Ends n (finished s) = (length s.cpus ≡ n) × All (λ c. c.running ≡ false) s.cpus
Ends n (running s) = (length s.cpus ≡ n) × (0 < count_running s.cpus)
Ends n broke = Unit

finished-Ends : (n : ℕ) (s : Sim) → IsCounted n s → s.nrun == 0 ≡ true → Ends n (finished s)
finished-Ends n s h p = (h.number, All-stopped s.cpus (h.count ∙ ==→eq s.nrun 0 p))

-- The simulation of `n` processors, fewer than 2 ^ 64, from a state whose `nrun` counts those that
-- run, unless it meets behaviour that C leaves undefined: if it has finished within `fuel` rounds
-- then every processor is stopped, and if not then a processor runs after them.
pub sim-Ends : (fuel n : ℕ) (s : Sim) → IsCounted n s → Ends n (sim fuel s)
unfolding sim
sim-Ends zero n s h = elim (Bool-cases (s.nrun == 0)) [
  | inl p ↦ rw (p, sim) (finished-Ends n s h p)
  | inr p ↦ rw (p, sim) (h.number, omega (arith, h.count, ==→ne s.nrun 0 p))
]
sim-Ends (suc fuel) n s h = elim (Bool-cases (s.nrun == 0)) [
  | inl p ↦ rw (p, sim) (finished-Ends n s h p)
  | inr p ↦ elim (Option-cases (round s)) [
    | inl q ↦ rw (p, sim) (rw (q, sim) tt)
    | inr (s', q) ↦ rw (p, sim) (rw (q, sim) (sim-Ends fuel n s' (round-IsCounted n s s' h q)))
  ]
]
