-- ===== src/Datapath/Retry.antt =====
-- Datapath_execute when the bus refuses an access to the memory: the cycle only counts, and the
-- instruction is tried again.
use psim.Prelude.{ℕ, ◌≡◌, refl, ap, sym, ◌∙◌, arith, Bool, true, false, ◌==◌}
use psim.Prelude.{some, ok, ebusy, set, eq→==, if_true}
use mathlib.Core.Path.{subst}
use psim.Cpu.{Cpu, reg, k0, cop2_msg_op_none}
use psim.Bus.{Memctl, busacc}
use psim.Datapath.State.{Sys, returned}
use psim.Datapath.Decode.{decode}
use psim.Datapath.Switch.{access, Access, lb, lw, sb, sw, ll, sc, case_of}
use psim.Datapath.Accesses.{addr_of, io_addr, count, defer, after_bus, over_bus, exec_access}
use psim.Datapath.Cycle.{
  Cycle, cycled, broken, fetch, execute_case, execute, inc_cycle, advance, executed, decoded,
  fetched, begin, cycle_by, pending, datapath_execute,
}
use psim.Datapath.Words.Cycle.{decoded_cpu}
use psim.Datapath.Stall.{access-isjump}

-- LB, SB and SW at the console's address do without the bus.
abbrev pub at_console : Access → Cpu → Bool
at_console lb c = addr_of c == io_addr
at_console sb c = addr_of c == io_addr
at_console sw c = addr_of c == io_addr
at_console _ c = false

-- The processor's next cycle is an access to the memory, by the word `w`, that the bus refuses.
pub record IsRefused (c : Cpu) (s : Sys) (w : ℕ) (op : Access) : Type 0 where
  pub runs : c.running ≡ true
  pub idle : pending (begin c) ≡ cop2_msg_op_none
  pub word : fetch (begin c) s.mem ≡ ok w
  pub known : (decode (record ((begin c).dec) { raw = w })).0 ≡ true
  pub is_access : case_of (decoded_cpu w (begin c)).dec.sign ≡ some (access op)
  pub in_memory : at_console op (decoded_cpu w (begin c)) ≡ false
  pub refused : (busacc s.bus (reg (begin c) k0)).0 ≡ false

-- What such a cycle leaves as it is
abbrev pub Retried : Cpu → Sys → ℕ → Cycle → Type 0
Retried c s w (cycled ret c' s') =
    (ret ≡ true)
    × (c'.running ≡ true)
    × (c'.pc ≡ c.pc)
    × (c'.gpr ≡ set c.gpr 0 0)
    × (c'.hi ≡ c.hi)
    × (c'.lo ≡ c.lo)
    × (c'.cop2 ≡ c.cop2)
    × (s'.mem ≡ s.mem)
    × (s'.console ≡ s.console)
    × (s'.bus ≡ (busacc s.bus (reg (begin c) k0)).1)
    × (fetch (begin c') s'.mem ≡ ok w)
Retried c s w broken = ⊥

-- The processor after a deferred access
abbrev deferred : Access → Cpu → Cpu
deferred op c = defer op (count op c)

module _ (op : Access) (c : Cpu) (s : Sys) where
  after_bus-refused :
      (r : Bool × Memctl)
      → r.0 ≡ false
      → after_bus op r c s ≡ returned ebusy (defer op c) (record s { bus = r.1 })
  unfolding after_bus
  after_bus-refused (false, ctl) p = refl
  after_bus-refused (true, ctl) p = cc

count_k0 : (op : Access) (c : Cpu) → reg (count op c) k0 ≡ reg c k0
unfolding count
count_k0 lb c = refl
count_k0 lw c = refl
count_k0 sb c = refl
count_k0 sw c = refl
count_k0 ll c = refl
count_k0 sc c = refl

exec_access-refused :
    (op : Access) (c : Cpu) (s : Sys)
    → at_console op c ≡ false
    → (busacc s.bus (reg c k0)).0 ≡ false
    → exec_access op c s
      ≡ returned ebusy (deferred op c) (record s { bus = (busacc s.bus (reg c k0)).1 })
unfolding exec_access over_bus count
exec_access-refused lb c s p q = rw (p, exec_access) (after_bus-refused lb (count lb c) s _ q)
exec_access-refused sb c s p q = rw (p, exec_access) (after_bus-refused sb (count sb c) s _ q)
exec_access-refused sw c s p q = rw (p, exec_access) (after_bus-refused sw (count sw c) s _ q)
exec_access-refused lw c s p q = after_bus-refused lw (count lw c) s _ q
exec_access-refused ll c s p q = after_bus-refused ll (count ll c) s _ q
exec_access-refused sc c s p q = after_bus-refused sc (count sc c) s _ q

-- A deferred access leaves the program counter where it is.
deferred-lem :
    (op : Access) (c : Cpu) (s : Sys)
    → c.dec.isjump ≡ false
    → executed (returned ebusy (deferred op c) s) ≡ inc_cycle true (deferred op c) s
unfolding executed advance defer count
deferred-lem lb c s p = ground (arith, p)
deferred-lem lw c s p = ground (arith, p)
deferred-lem sb c s p = ground (arith, p)
deferred-lem sw c s p = ground (arith, p)
deferred-lem ll c s p = ground (arith, p)
deferred-lem sc c s p = ground (arith, p)

module _ (c : Cpu) (s : Sys) (w : ℕ) (op : Access) (h : IsRefused c s w op) where
  -- What `execute` gets, and the surroundings after it
  abbrev given : Cpu
  given = decoded_cpu w (begin c)

  abbrev left : Sys
  left = record s { bus = (busacc s.bus (reg (begin c) k0)).1 }

  execute-refused : execute given s ≡ returned ebusy (deferred op given) left
  unfolding execute execute_case
  execute-refused = rw (h.is_access, execute) (exec_access-refused op given s h.in_memory h.refused)

  fetched-refused : fetched (ok w) (begin c) s ≡ inc_cycle true (deferred op given) left
  unfolding fetched decoded
  fetched-refused =
      rw (h.known, decoded)
        (ap executed execute-refused
          ∙ deferred-lem op given left
              (access-isjump (record ((begin c).dec) { raw = w }) op h.is_access))

  cycle-refused : datapath_execute c s ≡ inc_cycle true (deferred op given) left
  unfolding datapath_execute cycle_by
  cycle-refused =
      if_true c.running _ _ h.runs
      ∙ if_true (pending (begin c) == cop2_msg_op_none) _ _ (eq→== _ _ h.idle)
      ∙ ap (λ o. fetched o (begin c) s) h.word
      ∙ fetched-refused

  -- The cycle in which the bus refuses an access to the memory succeeds, and does the instruction over:
  -- the processor runs on, its program counter, HI, LO, coprocessor 2 and registers stay (register 0
  -- is cleared), the memory and the console stay, the controller is the one of the refusal, and the
  -- next fetch is of the same word.
  pub datapath_execute-Retried : Retried c s w (datapath_execute c s)
  unfolding inc_cycle defer count begin fetch
  datapath_execute-Retried = subst (Retried c s w) (sym cycle-refused) (kept op h.word)
    where
      kept :
          (op : Access)
          → fetch (begin c) s.mem ≡ ok w
          → Retried c s w (inc_cycle true (deferred op given) left)
      kept lb word = (refl, h.runs, refl, refl, refl, refl, refl, refl, refl, refl, word)
      kept lw word = (refl, h.runs, refl, refl, refl, refl, refl, refl, refl, refl, word)
      kept sb word = (refl, h.runs, refl, refl, refl, refl, refl, refl, refl, refl, word)
      kept sw word = (refl, h.runs, refl, refl, refl, refl, refl, refl, refl, refl, word)
      kept ll word = (refl, h.runs, refl, refl, refl, refl, refl, refl, refl, refl, word)
      kept sc word = (refl, h.runs, refl, refl, refl, refl, refl, refl, refl, refl, word)
