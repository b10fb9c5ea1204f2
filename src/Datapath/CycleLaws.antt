-- ===== src/Datapath/CycleLaws.antt =====
-- Datapath_execute as a whole: it counts the cycle whatever happens in it, and a processor stops
-- only in a cycle that succeeds.
use psim.Prelude.{ℕ, ◌≡◌, refl, ap, ◌∙◌, arith, Bool, true, false, ◌==◌, ◌⊎◌, inl, inr, inc, ◌||◌}
use psim.Prelude.{Outcome, ok, err, fault, if◌then◌else◌}
use psim.Cpu.{Cpu, Perfct, cop2_msg_op_none}
use psim.Datapath.State.{Sys, Exec, returned, crashed}
use psim.Datapath.Decode.{decode}
use psim.Datapath.Cycle.{
  Cycle, cycled, broken, execute, inc_cycle, advance, executed, is_success, decoded, fetched, fetch,
  waiting, begin, cycle_by, pending, datapath_execute,
}
use psim.Datapath.Frame.{Same, Steady, execute-Steady}

-- The cycle was counted, and the processor still runs unless the cycle succeeded.
abbrev pub Counted : Cpu → Cycle → Type 0
Counted c (cycled ret c' s) =
    (c'.perfct.cycle ≡ inc c.perfct.cycle) × ((c'.running ≡ c.running) ⊎ (ret ≡ true))
Counted c broken = Unit

if-Counted :
    (b : Bool) (c : Cpu) (x y : Cycle)
    → (b ≡ true → Counted c x)
    → (b ≡ false → Counted c y)
    → Counted c (if b then x else y)
if-Counted true c x y h k = h refl
if-Counted false c x y h k = k refl

advance-Same : (c : Cpu) → Same c (advance c)
unfolding advance
advance-Same c = ground arith

executed-Counted : (x : Exec) (c : Cpu) → Steady c x → Counted c (executed x)
unfolding executed inc_cycle
executed-Counted (returned e c' s) c h =
    if-Counted (is_success e || (c'.dec.rmwfail || c'.dec.stall)) c _ _
      (λ p. (ap inc ((advance-Same c').0 ∙ h.0), inr refl))
      (λ p. (ap inc h.0, elim h.1 [ inl same ↦ inl same | inr done ↦ absurd (ground arith) ]))
executed-Counted crashed c h = tt

decoded-Counted : (b : Bool) (c : Cpu) (s : Sys) → Counted c (decoded b c s)
unfolding decoded inc_cycle
decoded-Counted true c s = executed-Counted (execute c s) c (execute-Steady c s)
decoded-Counted false c s = (refl, inl refl)

fetched-Counted : (o : Outcome ℕ) (c : Cpu) (s : Sys) → Counted c (fetched o c s)
unfolding fetched inc_cycle
fetched-Counted (ok instr) c s =
    let out = decode (record (c.dec) { raw = instr }) in
    decoded-Counted out.0 (record c { dec = out.1 }) s
fetched-Counted (err e) c s = (refl, inl refl)
fetched-Counted fault c s = tt

waiting_cycle : (op : ℕ) (p : Perfct) → (waiting op p).cycle ≡ p.cycle
unfolding waiting
waiting_cycle op p = ground arith

cycle_by-Counted : (op : ℕ) (c : Cpu) (s : Sys) → Counted c (cycle_by op c s)
unfolding cycle_by inc_cycle
cycle_by-Counted op c s =
    if-Counted (op == cop2_msg_op_none) c _ _ (λ p. fetched-Counted (fetch c s.mem) c s)
      (λ p. (ap inc (waiting_cycle op c.perfct), inr refl))

-- A cycle of a running processor whose behaviour C defines adds one to its cycle counter, modulo
-- 2 ^ 64, whether it fails, stalls, waits for the network or succeeds; and if it stops the
-- processor, it succeeds.
pub datapath_execute-Counted :
    (c : Cpu) (s : Sys) → c.running ≡ true → Counted c (datapath_execute c s)
unfolding datapath_execute begin
datapath_execute-Counted c s p =
    if-Counted c.running c _ _ (λ run. cycle_by-Counted (pending (begin c)) (begin c) s)
      (λ stop. absurd cc)

-- A stopped processor stays as it is, and its cycle fails.
pub datapath_execute-stopped :
    (c : Cpu) (s : Sys) → c.running ≡ false → datapath_execute c s ≡ cycled false c s
unfolding datapath_execute
datapath_execute-stopped c s p = rw (p, datapath_execute) refl
