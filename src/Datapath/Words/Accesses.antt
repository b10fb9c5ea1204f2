-- ===== src/Datapath/Words/Accesses.antt =====
-- The cases of `execute` beyond the registers keep the processor and its surroundings well-formed,
-- and their behaviour is never undefined.
use psim.Prelude.{ℕ, ◌≡◌, refl, arith, Bool, true, false, ◌==◌}
use psim.Prelude.{Bool-cases, inl, inr, List, [], ◌∷◌, All, u8, sext8}
use psim.Prelude.{Outcome, ok, err, fault, eagain}
use psim.Cpu.{Cpu, reg, k0}
use psim.Bus.{Memctl, busacc}
use psim.Bus.Bounds.{IsBus, busacc-IsBus}
use psim.Mem.{Mem}
use psim.Mem.Bounds.{
  IsByte, IsStore, Gives, lb-Gives, lw-Gives, sb-Gives, sw-IsSound, ll-IsSound, sc-IsSound,
}
use psim.Datapath.State.{Sys, Console, Exec, returned, crashed}
use psim.Datapath.Switch.{Access, lb, lw, sb, sw, ll, sc}
use psim.Datapath.Alu.{rt_of}
use psim.Datapath.Accesses.{
  exec_access, over_bus, after_bus, do_access, loaded, stored, sc_result, count, defer, addr_of,
  io_addr, getchar,
}
use psim.Datapath.Words.{IsWord, IsCpu, set_reg-IsCpu, record-IsCpu, dec-IsDecoder}

-- What a processor works with: a memory of bytes, a controller, and bytes to read
pub record IsSys (s : Sys) : Type 0 where
  pub store : IsStore s.mem
  pub bus : IsBus s.bus
  pub input : All IsByte s.console.input

-- The step leaves a well-formed state, and its behaviour is defined.
abbrev pub Sound : Exec → Type 0
Sound (returned e c s) = IsCpu c × IsSys s
Sound crashed = ⊥

mem-IsSys : (s : Sys) (m : Mem) → IsSys s → IsStore m → IsSys (record s { mem = m })
mem-IsSys s m h k = record { store = k; bus = h.bus; input = h.input }

bus-IsSys : (s : Sys) (b : Memctl) → IsSys s → IsBus b → IsSys (record s { bus = b })
bus-IsSys s b h k = record { store = h.store; bus = k; input = h.input }

loaded-Sound :
    (f : ℕ → ℕ) (P : ℕ → Type 0) (o : Outcome ℕ) (c : Cpu) (s : Sys)
    → ((v : ℕ) → P v → IsWord (f v))
    → Gives P o
    → IsCpu c
    → IsSys s
    → Sound (loaded f o c s)
unfolding loaded
loaded-Sound f P (ok v) c s word g hc hs = (set_reg-IsCpu c c.dec.rt (f v) hc (word v g), hs)
loaded-Sound f P (err e) c s word g hc hs = (hc, hs)
loaded-Sound f P fault c s word g hc hs = g

stored-Sound :
    (o : Outcome Mem) (c : Cpu) (s : Sys)
    → Gives IsStore o
    → IsCpu c
    → IsSys s
    → Sound (stored o c s)
unfolding stored
stored-Sound (ok m) c s g hc hs = (hc, mem-IsSys s m hs g)
stored-Sound (err e) c s g hc hs = (hc, hs)
stored-Sound fault c s g hc hs = g

sc_result-Sound :
    (o : Outcome Mem) (c : Cpu) (s : Sys)
    → Gives IsStore o
    → IsCpu c
    → IsSys s
    → Sound (sc_result o c s)
unfolding sc_result
sc_result-Sound (ok m) c s g hc hs =
    (set_reg-IsCpu c c.dec.rt 1 hc (omega arith), mem-IsSys s m hs g)
sc_result-Sound (err eagain) c s g hc hs =
    let zero_reg = set_reg-IsCpu c c.dec.rt 0 hc (omega arith) in
    (record-IsCpu _ c.running (record (c.dec) { rmwfail = true }) _ zero_reg (omega arith), hs)
sc_result-Sound (err e) c s g hc hs = (hc, hs)
sc_result-Sound fault c s g hc hs = g

sext8-IsWord : (v : ℕ) → IsByte v → IsWord (sext8 v)
sext8-IsWord v h = ground arith

do_access-Sound : (op : Access) (c : Cpu) (s : Sys) → IsCpu c → IsSys s → Sound (do_access op c s)
unfolding do_access
do_access-Sound lb c s hc hs =
    loaded-Sound _ IsByte _ c s sext8-IsWord (lb-Gives s.mem (addr_of c) hs.store) hc hs
do_access-Sound lw c s hc hs =
    loaded-Sound _ (λ w. Unit) _ c s (λ v _. omega arith) (lw-Gives s.mem (addr_of c) hs.store.mem)
      hc hs
do_access-Sound sb c s hc hs =
    stored-Sound _ c s (sb-Gives s.mem (addr_of c) (u8 (rt_of c)) hs.store) hc hs
do_access-Sound sw c s hc hs =
    let k = sw-IsSound s.bus s.mem hs.bus hs.store (addr_of c) (rt_of c) in
    stored-Sound _ c _ k.gives hc (bus-IsSys s _ hs k.bus)
do_access-Sound ll c s hc hs =
    let k = ll-IsSound s.bus s.mem hs.bus hs.store (reg c k0) (addr_of c) in
    loaded-Sound _ (λ w. Unit) _ c _ (λ v _. omega arith) k.gives hc (bus-IsSys s _ hs k.bus)
do_access-Sound sc c s hc hs =
    let k = sc-IsSound s.bus s.mem hs.bus hs.store (reg c k0) (addr_of c) (rt_of c) in
    sc_result-Sound _ c _ k.gives hc (bus-IsSys s _ hs k.bus)

defer-IsCpu : (op : Access) (c : Cpu) → IsCpu c → IsCpu (defer op c)
unfolding defer
defer-IsCpu lb c h = record-IsCpu c c.running (record (c.dec) { stall = true }) _ h (omega arith)
defer-IsCpu lw c h = record-IsCpu c c.running (record (c.dec) { stall = true }) _ h (omega arith)
defer-IsCpu sb c h = record-IsCpu c c.running (record (c.dec) { stall = true }) _ h (omega arith)
defer-IsCpu sw c h = record-IsCpu c c.running (record (c.dec) { stall = true }) _ h (omega arith)
defer-IsCpu ll c h = record-IsCpu c c.running (record (c.dec) { stall = true }) _ h (omega arith)
defer-IsCpu sc c h = record-IsCpu c c.running (record (c.dec) { stall = true }) _ h (omega arith)

count-IsCpu : (op : Access) (c : Cpu) → IsCpu c → IsCpu (count op c)
unfolding count
count-IsCpu lb c h = record-IsCpu c c.running c.dec _ h (dec-IsDecoder c h)
count-IsCpu lw c h = record-IsCpu c c.running c.dec _ h (dec-IsDecoder c h)
count-IsCpu sb c h = record-IsCpu c c.running c.dec _ h (dec-IsDecoder c h)
count-IsCpu sw c h = record-IsCpu c c.running c.dec _ h (dec-IsDecoder c h)
count-IsCpu ll c h = record-IsCpu c c.running c.dec _ h (dec-IsDecoder c h)
count-IsCpu sc c h = record-IsCpu c c.running c.dec _ h (dec-IsDecoder c h)

over_bus-Sound : (op : Access) (c : Cpu) (s : Sys) → IsCpu c → IsSys s → Sound (over_bus op c s)
unfolding over_bus after_bus
over_bus-Sound op c s hc hs = after (busacc s.bus (reg c k0)) (busacc-IsBus s.bus (reg c k0) hs.bus)
  where
    after : (r : Bool × Memctl) → IsBus r.1 → Sound (after_bus op r c s)
    after (true, ctl) b = do_access-Sound op c _ hc (bus-IsSys s ctl hs b)
    after (false, ctl) b = (defer-IsCpu op c hc, bus-IsSys s ctl hs b)

getchar-IsSys :
    (con : Console)
    → All IsByte con.input
    → IsWord (getchar con).0 × All IsByte (getchar con).1.input
getchar-IsSys con h = next con.input h refl
  where
    next :
        (l : List ℕ)
        → All IsByte l
        → con.input ≡ l
        → IsWord (getchar con).0 × All IsByte (getchar con).1.input
    next [] k p = rw p ((omega arith), k)
    next (b ∷ bs) k p = rw p ((omega arith), k.1)

pub exec_access-Sound :
    (op : Access) (c : Cpu) (s : Sys) → IsCpu c → IsSys s → Sound (exec_access op c s)
unfolding exec_access
exec_access-Sound lb c s hc hs = elim (Bool-cases (addr_of c == io_addr)) [
  | inl p ↦
      let k = getchar-IsSys s.console hs.input in
      rw p (
        set_reg-IsCpu (count lb c) _ _ (count-IsCpu lb c hc) k.0,
        record { store = hs.store; bus = hs.bus; input = k.1 },
      )
  | inr p ↦ rw p (over_bus-Sound lb (count lb c) s (count-IsCpu lb c hc) hs)
]
exec_access-Sound sb c s hc hs = elim (Bool-cases (addr_of c == io_addr)) [
  | inl p ↦ rw p (count-IsCpu sb c hc, record { store = hs.store; bus = hs.bus; input = hs.input })
  | inr p ↦ rw p (over_bus-Sound sb (count sb c) s (count-IsCpu sb c hc) hs)
]
exec_access-Sound sw c s hc hs = elim (Bool-cases (addr_of c == io_addr)) [
  | inl p ↦ rw p (count-IsCpu sw c hc, record { store = hs.store; bus = hs.bus; input = hs.input })
  | inr p ↦ rw p (over_bus-Sound sw (count sw c) s (count-IsCpu sw c hc) hs)
]
exec_access-Sound lw c s hc hs = over_bus-Sound lw (count lw c) s (count-IsCpu lw c hc) hs
exec_access-Sound ll c s hc hs = over_bus-Sound ll (count ll c) s (count-IsCpu ll c hc) hs
exec_access-Sound sc c s hc hs = over_bus-Sound sc (count sc c) s (count-IsCpu sc c hc) hs
