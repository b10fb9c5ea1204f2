-- ===== src/Datapath/Stopping.antt =====
-- Counting the processors that run, as the loops of both simulations do.
use psim.Prelude.{ℕ, ◌+◌, ◌^◌, ◌≤◌, ◌<◌, ◌≡◌, refl, ap, sym, ◌∙◌, arith, Bool, true, false}
use psim.Prelude.{List, [], ◌∷◌, length, ◌⊎◌, inl, inr, Bool-cases, if◌then◌else◌, sub64, All}
use mathlib.Core.Path.{subst}
use psim.Cpu.{Cpu}
use psim.Datapath.State.{Sys}
use psim.Datapath.Cycle.{cycled, datapath_execute}
use psim.Datapath.CycleLaws.{Counted, datapath_execute-Counted, datapath_execute-stopped}

abbrev pub one_if : Bool → ℕ
one_if b = if b then 1 else 0

-- The number of processors that run
unfoldable pub count_running : List Cpu → ℕ
count_running [] = 0
count_running (c ∷ cs) = one_if c.running + count_running cs

pub count_running-le : (cs : List Cpu) → count_running cs ≤ length cs
unfolding count_running
count_running-le [] = omega arith
count_running-le (c ∷ cs) =
    let k = count_running-le cs in
    elim (Bool-cases c.running) [ inl p ↦ rw p (omega arith) | inr p ↦ rw p (omega arith) ]

-- count_stop, by whether the processor runs
abbrev pub stop_by : Bool → Bool → ℕ → ℕ
stop_by true is n = if is then n else sub64 n 1
stop_by false is n = n

pub stop_by-ran :
    (ret is : Bool) (n : ℕ)
    → (is ≡ true) ⊎ (ret ≡ true)
    → n + 1 < 2 ^ 64
    → stop_by ret is (n + 1) ≡ n + one_if is
stop_by-ran true true n h small = refl
stop_by-ran true false n h small = omega arith
stop_by-ran false true n h small = refl
stop_by-ran false false n h small = absurd (ground arith)

pub one_if-le : (b : Bool) → one_if b ≤ 1
one_if-le true = omega arith
one_if-le false = omega arith

-- A cycle of one processor: `nrun` loses one exactly if the processor stopped in it.
pub stop_by-cycle :
    (c c' : Cpu) (sys sys' : Sys) (ret : Bool) (n : ℕ)
    → datapath_execute c sys ≡ cycled ret c' sys'
    → n + 1 < 2 ^ 64
    → stop_by ret c'.running (n + one_if c.running) ≡ n + one_if c'.running
stop_by-cycle c c' sys sys' ret n e small = elim (Bool-cases c.running) [
  | inl p ↦
      let counted = subst (Counted c) e (datapath_execute-Counted c sys p) in
      ap (λ b. stop_by ret c'.running (n + one_if b)) p
      ∙ stop_by-ran ret c'.running n (ground (arith, counted.1)) small
  | inr p ↦
      let same : cycled false c sys ≡ cycled ret c' sys' =
        sym (datapath_execute-stopped c sys p) ∙ e in
      let ret_eq : false ≡ ret = cc in
      let c_eq : c ≡ c' = cc in
      ap (λ r. stop_by r c'.running (n + one_if c.running)) (sym ret_eq)
      ∙ ap (λ (d : Cpu). n + one_if d.running) c_eq
]

pub All-stopped : (cs : List Cpu) → count_running cs ≡ 0 → All (λ c. c.running ≡ false) cs
unfolding count_running
All-stopped [] e = tt
All-stopped (c ∷ cs) e = elim (Bool-cases c.running) [
  | inl p ↦ absurd (omega (arith, e, ap one_if p))
  | inr p ↦ (p, All-stopped cs (omega (arith, e)))
]
