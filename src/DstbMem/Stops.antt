-- ===== src/DstbMem/Stops.antt =====
-- `sim` of dstbmem.c: its count of running processors, and when it stops.
use psim.Prelude.{ℕ, zero, suc, ◌+◌, ◌^◌, ◌<◌, ◌≡◌, refl, ap, ◌∙◌, arith, Bool, true, false, ◌==◌}
use psim.Prelude.{List, [], ◌∷◌, length, Option, none, some, inl, inr, Bool-cases}
use psim.Prelude.{All, Option-cases, ==→eq, ==→ne}
use mathlib.Core.Path.{subst}
use psim.Cpu.{Cpu}
use psim.Bus.{Memctl}
use psim.Datapath.State.{Console}
use psim.Datapath.Cycle.{Cycle, cycled, broken, datapath_execute}
use psim.Datapath.Stopping.{
  one_if, one_if-le, count_running, count_running-le, stop_by, stop_by-cycle, All-stopped,
}
use psim.Net.State.{Node, Net}
use psim.Net.Execute.{net_execute}
use psim.Net.Frame.{Alike}
use psim.Net.Untouched.{net_execute-SameNet}
use psim.DstbMem.{
  Sim, Pass, count_stop, run_nodes, round, Run, finished, deadlocked, running, broke, sim,
}

abbrev pub cpus_of : List Node → List Cpu
cpus_of [] = []
cpus_of (nd ∷ nds) = nd.cpu ∷ cpus_of nds

-- The bookkeeping of `sim`: `nrun` is the number of processors that run. There are fewer than
-- 2 ^ 64 of them.
pub record IsCounted (n : ℕ) (s : Sim) : Type 0 where
  pub number : length (cpus_of s.net.nd) ≡ n
  pub count : count_running (cpus_of s.net.nd) ≡ s.net.nrun
  pub small : n < 2 ^ 64

-- The nodes before the loop's place run in the number `before`.
abbrev Kept : ℕ → List Node → Option Pass → Type 0
Kept before nds none = Unit
Kept before nds (some p) =
    (length (cpus_of p.nodes) ≡ length (cpus_of nds))
    × (before + count_running (cpus_of p.nodes) ≡ p.nrun)

count_stop-eq : (ret : Bool) (c : Cpu) (n : ℕ) → count_stop ret c n ≡ stop_by ret c.running n
count_stop-eq true c n = refl
count_stop-eq false c n = refl

Kept-cons :
    (before : ℕ) (nd nd' : Node) (nds : List Node) (o : Option Pass)
    → Kept (before + one_if nd'.cpu.running) nds o
    → Kept before
        (nd ∷ nds)
        (elim o [ none ↦ none | some p ↦ some (record p { nodes = nd' ∷ p.nodes }) ])
unfolding count_running
Kept-cons before nd nd' nds none h = tt
Kept-cons before nd nd' nds (some p) h = (ap suc h.0, omega (arith, h.1))

-- The loop's step keeps the count.
cons-Kept :
    (x : Cycle) (nd : Node) (nds : List Node) (n before : ℕ) (ctl : Memctl) (con : Console)
    → datapath_execute nd.cpu (record { mem = nd.mem; bus = ctl; console = con }) ≡ x
    → ((n' : ℕ) (ctl' : Memctl) (con' : Console) (before' : ℕ)
        → before' + count_running (cpus_of nds) ≡ n'
        → before' + length (cpus_of nds) < 2 ^ 64
        → Kept before' nds (run_nodes nds n' ctl' con'))
    → before + count_running (cpus_of (nd ∷ nds)) ≡ n
    → before + length (cpus_of (nd ∷ nds)) < 2 ^ 64
    → Kept before (nd ∷ nds) (run_nodes (nd ∷ nds) n ctl con)
unfolding run_nodes count_running
cons-Kept broken nd nds n before ctl con x ih e small = rw (x, run_nodes) tt
cons-Kept (cycled ret c sys) nd nds n before ctl con x ih e small =
    let rest = count_running (cpus_of nds) in
    let n' = count_stop ret c n in
    let here : n' ≡ (before + rest) + one_if c.running =
      ap (count_stop ret c) (omega (arith, e))
      ∙ count_stop-eq ret c (before + rest + one_if nd.cpu.running)
      ∙ stop_by-cycle nd.cpu c _ sys ret (before + rest) x
          (omega (arith, small, count_running-le (cpus_of nds))) in
    let after =
      ih n' sys.bus sys.console (before + one_if c.running) (omega (arith, here))
        (omega (arith, small, one_if-le c.running)) in
    rw (x, run_nodes)
      (Kept-cons before nd (record nd { cpu = c; mem = sys.mem }) nds
        (run_nodes nds n' sys.bus sys.console) after)

run_nodes-Kept :
    (nds : List Node) (n : ℕ) (ctl : Memctl) (con : Console) (before : ℕ)
    → before + count_running (cpus_of nds) ≡ n
    → before + length (cpus_of nds) < 2 ^ 64
    → Kept before nds (run_nodes nds n ctl con)
unfolding run_nodes
run_nodes-Kept [] n ctl con before e small = (refl, e)
run_nodes-Kept (nd ∷ nds) n ctl con before e small =
    cons-Kept _ nd nds n before ctl con refl (run_nodes-Kept nds) e small

Alike-count :
    (xs ys : List Node)
    → Alike xs ys
    → (length (cpus_of ys) ≡ length (cpus_of xs))
      × (count_running (cpus_of ys) ≡ count_running (cpus_of xs))
unfolding count_running
Alike-count [] [] h = (refl, refl)
Alike-count (a ∷ xs) (b ∷ ys) h =
    let k = Alike-count xs ys h.1 in
    let same = ap one_if h.0.same_cpu.same_running in (ap suc k.0, omega (arith, k.1, same))
Alike-count [] (b ∷ ys) h = absurd h
Alike-count (a ∷ xs) [] h = absurd h

-- A round, ended by a deadlock or not, keeps the count.
round-IsCounted :
    (n : ℕ) (s s' : Sim) (ret : Bool) → IsCounted n s → round s ≡ some (ret, s') → IsCounted n s'
unfolding round
round-IsCounted n s s' ret h e =
    elim (Option-cases (run_nodes s.net.nd s.net.nrun s.bus s.console)) [
      | inl p ↦ absurd (ground (arith, e, p))
      | inr (pass, p) ↦
          let kept = subst (Kept 0 s.net.nd) p (
            run_nodes-Kept s.net.nd s.net.nrun s.bus s.console 0 (omega (arith, h.count))
              (omega (arith, h.number, h.small))) in
          let mid : Net = record (s.net) { nd = pass.nodes; nrun = pass.nrun } in
          elim (Option-cases (net_execute mid)) [
            | inl q ↦ absurd (ground (arith, e, p, q))
            | inr ((go, net), q) ↦
                let same = net_execute-SameNet mid net go q in
                let counts = Alike-count mid.nd net.nd same.alike in
                let there : (s'.net.nd ≡ net.nd) × (s'.net.nrun ≡ net.nrun) =
                  ground (arith, e, p, q) in
                record {
                  number = ap (λ k. length (cpus_of k)) there.0 ∙ counts.0 ∙ kept.0 ∙ h.number;
                  count =
                      ap (λ k. count_running (cpus_of k)) there.0
                      ∙ omega (arith, counts.1, kept.1, same.same_nrun, there.1);
                  small = h.small;
                }
          ]
    ]

-- What each end of a run says of the processors
abbrev pub NetEnds : ℕ → Run → Type 0
NetEnds n (finished s) =
    (length (cpus_of s.net.nd) ≡ n) × All (λ c. c.running ≡ false) (cpus_of s.net.nd)
NetEnds n (running s) = (length (cpus_of s.net.nd) ≡ n) × (0 < count_running (cpus_of s.net.nd))
NetEnds n (deadlocked s) =
    (length (cpus_of s.net.nd) ≡ n) × (count_running (cpus_of s.net.nd) ≡ s.net.nrun)
NetEnds n broke = Unit

finished-NetEnds :
    (n : ℕ) (s : Sim) → IsCounted n s → s.net.nrun == 0 ≡ true → NetEnds n (finished s)
finished-NetEnds n s h p =
    (h.number, All-stopped (cpus_of s.net.nd) (h.count ∙ ==→eq s.net.nrun 0 p))

-- The simulation of `n` processors in a network, fewer than 2 ^ 64, from a state whose `nrun` counts
-- those that run, unless it meets behaviour that C leaves undefined: if it has finished within `fuel`
-- rounds then every processor is stopped; if a deadlock has ended it then `nrun` counts those that
-- run; and if it has not ended then a processor runs.
pub sim-NetEnds : (fuel n : ℕ) (s : Sim) → IsCounted n s → NetEnds n (sim fuel s)
unfolding sim
sim-NetEnds zero n s h = elim (Bool-cases (s.net.nrun == 0)) [
  | inl p ↦ rw (p, sim) (finished-NetEnds n s h p)
  | inr p ↦ rw (p, sim) (h.number, omega (arith, h.count, ==→ne s.net.nrun 0 p))
]
sim-NetEnds (suc fuel) n s h = elim (Bool-cases (s.net.nrun == 0)) [
  | inl p ↦ rw (p, sim) (finished-NetEnds n s h p)
  | inr p ↦ elim (Option-cases (round s)) [
    | inl q ↦ rw (p, sim) (rw (q, sim) tt)
    | inr ((true, s'), q) ↦
        rw (p, sim) (rw (q, sim) (sim-NetEnds fuel n s' (round-IsCounted n s s' true h q)))
    | inr ((false, s'), q) ↦
        let k = round-IsCounted n s s' false h q in rw (p, sim) (rw (q, sim) (k.number, k.count))
  ]
]
