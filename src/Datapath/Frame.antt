-- ===== src/Datapath/Frame.antt =====
-- What `execute` leaves alone: the cycle counter, and whether the processor runs. Only WAIT stops
-- it, and WAIT succeeds.
use psim.Prelude.{
  leb, ℕ, ◌≡◌, refl, arith, Bool, true, false, ◌==◌, ◌⊎◌, inl, inr, Bool-cases, Option-cases,
}
use psim.Prelude.{Outcome, ok, err, fault, Errno, success, eagain, if◌then◌else◌}
use psim.Cpu
use psim.Cpu.{Cpu, mtc2_drop, cop2_nsel, reg, k0}
use psim.Mem.{Mem}
use psim.Bus.{Memctl, busacc}
use psim.Datapath.Cycle.{computed, execute_case, execute}
use psim.Datapath.State.{Sys, Exec, returned, crashed}
use psim.Datapath.Switch.{
  Alu, sll, sra, sllv, movz, movn, mfhi, mflo, mult, div, addu, subu, and, or, xor, slt, mul, ext,
  Case, alu, jump, immediate, cop, access, case_of, Jump, Immediate, Cop, wait, mfc2, mtc2,
  operation, Access, lb, lw, sb, sw, ll, sc, jr, j, jal, bltz, bgez, beq, bne, blez, bgtz,
}
use psim.Datapath.Alu.{exec_alu, exec_mult, exec_div, exec_ext}
use psim.Datapath.Jumps.{exec_jump, branch, taken}
use psim.Datapath.Immediates.{exec_immediate}
use psim.Datapath.Cops.{exec_cop, exec_operation, op_memsz, op_ct0, op_input, op_output, op_alt}
use psim.Datapath.Accesses.{
  exec_access, over_bus, after_bus, do_access, loaded, stored, sc_result, count, defer, addr_of,
  io_addr,
}

-- The second state counts the same cycles and runs if the first does.
abbrev pub Same : Cpu → Cpu → Type 0
Same c c' = (c'.perfct.cycle ≡ c.perfct.cycle) × (c'.running ≡ c.running)

exec_alu-Same : (op : Alu) (c c' : Cpu) → exec_alu op c ≡ ok c' → Same c c'
unfolding exec_alu exec_mult exec_div exec_ext
exec_alu-Same sll c c' e = ground arith
exec_alu-Same sra c c' e = ground arith
exec_alu-Same sllv c c' e = ground arith
exec_alu-Same movz c c' e = ground arith
exec_alu-Same movn c c' e = ground arith
exec_alu-Same mfhi c c' e = ground arith
exec_alu-Same mflo c c' e = ground arith
exec_alu-Same mult c c' e = ground arith
exec_alu-Same div c c' e = ground arith
exec_alu-Same addu c c' e = ground arith
exec_alu-Same subu c c' e = ground arith
exec_alu-Same and c c' e = ground arith
exec_alu-Same or c c' e = ground arith
exec_alu-Same xor c c' e = ground arith
exec_alu-Same slt c c' e = ground arith
exec_alu-Same mul c c' e = ground arith
exec_alu-Same ext c c' e = ground arith

branch-Same : (b : Bool) (c c' : Cpu) → branch b c ≡ ok c' → Same c c'
unfolding branch
branch-Same true c c' e = ground arith
branch-Same false c c' e = ground arith

exec_jump-Same : (op : Jump) (c c' : Cpu) → exec_jump op c ≡ ok c' → Same c c'
unfolding exec_jump
exec_jump-Same jr c c' e = ground arith
exec_jump-Same j c c' e = ground arith
exec_jump-Same jal c c' e = ground arith
exec_jump-Same bltz c c' e = branch-Same (taken bltz c) c c' e
exec_jump-Same bgez c c' e = branch-Same (taken bgez c) c c' e
exec_jump-Same beq c c' e = branch-Same (taken beq c) c c' e
exec_jump-Same bne c c' e = branch-Same (taken bne c) c c' e
exec_jump-Same blez c c' e = branch-Same (taken blez c) c c' e
exec_jump-Same bgtz c c' e = branch-Same (taken bgtz c) c c' e

exec_immediate-Same : (op : Immediate) (c c' : Cpu) → exec_immediate op c ≡ ok c' → Same c c'
unfolding exec_immediate
exec_immediate-Same op c c' e = ground arith

-- A processor that ran before counts the same cycles after, and runs still unless it succeeded.
abbrev pub Steady : Cpu → Exec → Type 0
Steady c (returned e c' s) =
    (c'.perfct.cycle ≡ c.perfct.cycle) × ((c'.running ≡ c.running) ⊎ (e ≡ success))
Steady c crashed = Unit

Steady-of_Same :
    (c : Cpu) (x : Exec)
    → ((e : Errno) (c' : Cpu) (s : Sys) → x ≡ returned e c' s → Same c c')
    → Steady c x
Steady-of_Same c (returned e c' s) h = let k = h e c' s refl in (k.0, inl k.1)
Steady-of_Same c crashed h = tt

mtc2_drop-Same : (c : Cpu) (sel v : ℕ) → Same c (mtc2_drop c sel v)
unfolding Cpu.mtc2_drop Cpu.mtc2
mtc2_drop-Same c sel v = elim (Bool-cases (leb cop2_nsel sel)) [
  | inl p ↦ rw (p, mtc2_drop) (refl, refl)
  | inr p ↦ rw (p, mtc2_drop) (refl, refl)
]

exec_operation-Steady : (c : Cpu) (s : Sys) → Steady c (exec_operation c s)
unfolding exec_operation op_memsz op_ct0 op_input op_output op_alt
exec_operation-Steady c s = Steady-of_Same c _ (λ e c' s' q. ground (arith, mtc2_drop-Same c))

exec_cop-Steady : (op : Cop) (c : Cpu) (s : Sys) → Steady c (exec_cop op c s)
unfolding exec_cop Cpu.mfc2 Cpu.mtc2
exec_cop-Steady wait c s = (refl, inr refl)
exec_cop-Steady mfc2 c s = Steady-of_Same c _ (λ e c' s' q. ground arith)
exec_cop-Steady mtc2 c s = Steady-of_Same c _ (λ e c' s' q. ground arith)
exec_cop-Steady operation c s = exec_operation-Steady c s

loaded-Steady : (f : ℕ → ℕ) (o : Outcome ℕ) (c : Cpu) (s : Sys) → Steady c (loaded f o c s)
unfolding loaded
loaded-Steady f (ok v) c s = (refl, inl refl)
loaded-Steady f (err e) c s = (refl, inl refl)
loaded-Steady f fault c s = tt

stored-Steady : (o : Outcome Mem) (c : Cpu) (s : Sys) → Steady c (stored o c s)
unfolding stored
stored-Steady (ok m) c s = (refl, inl refl)
stored-Steady (err e) c s = (refl, inl refl)
stored-Steady fault c s = tt

sc_result-Steady : (o : Outcome Mem) (c : Cpu) (s : Sys) → Steady c (sc_result o c s)
unfolding sc_result
sc_result-Steady (ok m) c s = (refl, inl refl)
sc_result-Steady (err eagain) c s = (refl, inl refl)
sc_result-Steady (err e) c s = (refl, inl refl)
sc_result-Steady fault c s = tt

do_access-Steady : (op : Access) (c : Cpu) (s : Sys) → Steady c (do_access op c s)
unfolding do_access
do_access-Steady lb c s = loaded-Steady _ _ c s
do_access-Steady lw c s = loaded-Steady _ _ c s
do_access-Steady ll c s = loaded-Steady _ _ c _
do_access-Steady sb c s = stored-Steady _ c s
do_access-Steady sw c s = stored-Steady _ c _
do_access-Steady sc c s = sc_result-Steady _ c _

defer-Same : (op : Access) (c : Cpu) → Same c (defer op c)
unfolding defer
defer-Same lb c = (refl, refl)
defer-Same lw c = (refl, refl)
defer-Same sb c = (refl, refl)
defer-Same sw c = (refl, refl)
defer-Same ll c = (refl, refl)
defer-Same sc c = (refl, refl)

over_bus-Steady : (op : Access) (c : Cpu) (s : Sys) → Steady c (over_bus op c s)
unfolding over_bus after_bus
over_bus-Steady op c s = after (busacc s.bus (reg c k0))
  where
    after : (r : Bool × Memctl) → Steady c (after_bus op r c s)
    after (true, ctl) = do_access-Steady op c _
    after (false, ctl) = let k = defer-Same op c in (k.0, inl k.1)

if-Steady :
    (b : Bool) (c : Cpu) (x y : Exec) → Steady c x → Steady c y → Steady c (if b then x else y)
if-Steady true c x y h k = h
if-Steady false c x y h k = k

exec_access-Steady : (op : Access) (c : Cpu) (s : Sys) → Steady c (exec_access op c s)
unfolding exec_access count
exec_access-Steady lb c s = elim (Bool-cases (addr_of c == io_addr)) [
  | inl p ↦ rw p (refl, inl refl)
  | inr p ↦ rw p (over_bus-Steady lb (count lb c) s)
]
exec_access-Steady sb c s = elim (Bool-cases (addr_of c == io_addr)) [
  | inl p ↦ rw p (refl, inl refl)
  | inr p ↦ rw p (over_bus-Steady sb (count sb c) s)
]
exec_access-Steady sw c s = elim (Bool-cases (addr_of c == io_addr)) [
  | inl p ↦ rw p (refl, inl refl)
  | inr p ↦ rw p (over_bus-Steady sw (count sw c) s)
]
exec_access-Steady lw c s = over_bus-Steady lw (count lw c) s
exec_access-Steady ll c s = over_bus-Steady ll (count ll c) s
exec_access-Steady sc c s = over_bus-Steady sc (count sc c) s

computed-Steady :
    (o : Outcome Cpu) (c : Cpu) (s : Sys)
    → ((c' : Cpu) → o ≡ ok c' → Same c c')
    → Steady c (computed o c s)
computed-Steady (ok c') c s h = let k = h c' refl in (k.0, inl k.1)
computed-Steady (err e) c s h = (refl, inl refl)
computed-Steady fault c s h = tt

execute_case-Steady : (k : Case) (c : Cpu) (s : Sys) → Steady c (execute_case k c s)
unfolding execute_case
execute_case-Steady (alu op) c s = computed-Steady _ c s (exec_alu-Same op c)
execute_case-Steady (jump op) c s = computed-Steady _ c s (exec_jump-Same op c)
execute_case-Steady (immediate op) c s = computed-Steady _ c s (exec_immediate-Same op c)
execute_case-Steady (cop op) c s = exec_cop-Steady op c s
execute_case-Steady (access op) c s = exec_access-Steady op c s

pub execute-Steady : (c : Cpu) (s : Sys) → Steady c (execute c s)
unfolding execute
execute-Steady c s = elim (Option-cases (case_of c.dec.sign)) [
  | inl p ↦ rw (p, execute) (refl, inl refl)
  | inr (k, p) ↦ rw (p, execute) (execute_case-Steady k c s)
]
