-- ===== src/Bus/Wait.antt =====
-- Mem_busacc and Mem_busclr over the cycles of a system: one grant in a cycle, and a bounded wait.
use mathlib.Core.Path.{ap₂}
use psim.Prelude.{ℕ, ◌≤◌, ◌<◌, ◌≡◌, refl, ◌∙◌, sym, arith, Bool, true, false, All}
use psim.Prelude.{if◌then◌else◌, List, [], ◌∷◌, length, get_elem?, some}
use psim.Prelude.{Bool-cases, inl, inr}
use psim.Bus.{Memctl, contains, arbitrate, busacc, busclr}
use psim.Bus.Arbiter.{Arbiter, elem, request}
use psim.Bus.Refine.{Refines, contains-eq-elem, busacc-Simulates, busclr-Refines}
use psim.Bus.Fairness.{requests, cycles, Persistent, wait_bound}

-- The calls of Mem_busacc in a cycle, one for each processor of the list; the result is the list
-- of those that acquired the bus.
unfoldable pub asks : Memctl → List ℕ → List ℕ × Memctl
asks ctl [] = ([], ctl)
asks ctl (p ∷ ps) =
    let (got, ctl') = busacc ctl p in
    let (rest, ctl'') = asks ctl' ps in (if got then p ∷ rest else rest, ctl'')

-- The cycles of a run: Mem_busclr, then the calls. What each cycle grants is listed.
unfoldable pub rounds : Memctl → List (List ℕ) → List (List ℕ)
unfolding asks
rounds ctl [] = []
rounds ctl (ps ∷ rest) = let (got, ctl') = asks (busclr ctl) ps in got ∷ rounds ctl' rest

-- What a call leaves alone
nshr-arbitrate : (ctl : Memctl) (p : ℕ) → (arbitrate ctl p).1.nshr ≡ ctl.nshr
unfolding arbitrate
nshr-arbitrate ctl p = ground arith

nshr-busacc : (ctl : Memctl) (p : ℕ) → (busacc ctl p).1.nshr ≡ ctl.nshr
unfolding busacc
nshr-busacc ctl p = ground arith

if-eq :
    (b c : Bool) (p : ℕ) (xs ys : List ℕ)
    → b ≡ c
    → xs ≡ ys
    → (if b then p ∷ xs else xs) ≡ (if c then p ∷ ys else ys)
if-eq b c p xs ys e f = rw (e, f)

asks-Simulates :
    (ps : List ℕ) (ctl : Memctl) (a : Arbiter) (n : ℕ)
    → Refines ctl a
    → ctl.nshr ≡ n
    → All (λ p. p < n) ps
    → ((asks ctl ps).0 ≡ (requests a ps).0)
      × Refines (asks ctl ps).1 (requests a ps).1
      × ((asks ctl ps).1.nshr ≡ n)
unfolding asks requests
asks-Simulates [] ctl a n r e small = (refl, r, e)
asks-Simulates (p ∷ ps) ctl a n r e small =
    let (same, after) = busacc-Simulates ctl a p r (omega (arith, small.0)) in
    let (rest, last, kept) =
      asks-Simulates ps (busacc ctl p).1 (request a p).1 n after (nshr-busacc ctl p ∙ e) small.1 in
    (if-eq (busacc ctl p).0 (request a p).0 p _ _ same rest, last, kept)

-- In each cycle all that wait at its beginning call again, and only processors of the system call.
abbrev pub Retrying : ℕ → Memctl → List (List ℕ) → Type 0
Retrying n ctl [] = Unit
Retrying n ctl (ps ∷ rest) =
    ((p : ℕ) → contains ctl.queue.arr p ≡ true → elem ps p ≡ true)
    × All (λ p. p < n) ps
    × Retrying n (asks (busclr ctl) ps).1 rest

rounds-eq-cycles :
    (sched : List (List ℕ)) (ctl : Memctl) (a : Arbiter) (n : ℕ)
    → Refines ctl a
    → ctl.nshr ≡ n
    → Retrying n ctl sched
    → Persistent a sched × (rounds ctl sched ≡ cycles a sched)
unfolding rounds cycles busclr
rounds-eq-cycles [] ctl a n r e retry = (tt, refl)
rounds-eq-cycles (ps ∷ rest) ctl a n r e retry =
    let (same, after, kept) =
      asks-Simulates ps (busclr ctl) (record a { used = false }) n (busclr-Refines ctl a r) e
        retry.1 in
    let (pers, eq) = rounds-eq-cycles rest _ _ n after kept retry.2 in
    (
      (λ p waits. retry.0 p (contains-eq-elem ctl.nshr ctl.queue a.waiting p r.ring ∙ waits), pers),
      ap₂ ◌∷◌ same eq,
    )

-- In a system of `nshr` processors whose stalled ones call again in each cycle, a processor that
-- waits in the controller's queue acquires the bus, alone, within `nshr` cycles.
pub busacc_wait_bound :
    (ctl : Memctl) (a : Arbiter) (sched : List (List ℕ)) (p : ℕ)
    → Refines ctl a
    → Retrying ctl.nshr ctl sched
    → ctl.nshr ≤ length sched
    → contains ctl.queue.arr p ≡ true
    → (k : ℕ) × (k < ctl.nshr) × (get_elem? (rounds ctl sched) k ≡ some (p ∷ []))
busacc_wait_bound ctl a sched p r retry long waits =
    let (pers, eq) = rounds-eq-cycles sched ctl a ctl.nshr r refl retry in
    let here = sym (contains-eq-elem ctl.nshr ctl.queue a.waiting p r.ring) ∙ waits in
    rw eq (wait_bound ctl.nshr a sched p r.distinct r.below pers long here)

-- Over a shared memory the bus, once used, is refused to all until it is cleared.
busacc_used :
    (ctl : Memctl) (p : ℕ)
    → ctl.shared ≡ true
    → ctl.used ≡ true
    → ((busacc ctl p).0 ≡ false) × ((busacc ctl p).1.used ≡ true) × ((busacc ctl p).1.shared ≡ true)
unfolding busacc
busacc_used ctl p s u = ground arith

busacc_granted :
    (ctl : Memctl) (p : ℕ)
    → ctl.shared ≡ true
    → ((busacc ctl p).1.shared ≡ true) × ((busacc ctl p).0 ≡ true → (busacc ctl p).1.used ≡ true)
unfolding busacc
busacc_granted ctl p s = ground arith

asks_used :
    (ps : List ℕ) (ctl : Memctl) → ctl.shared ≡ true → ctl.used ≡ true → (asks ctl ps).0 ≡ []
unfolding asks
asks_used [] ctl s u = refl
asks_used (p ∷ ps) ctl s u =
    let (no_bus, used, shared) = busacc_used ctl p s u in
    rw no_bus (asks_used ps (busacc ctl p).1 shared used)

-- Over a shared memory at most one of the calls of a cycle acquires the bus, whoever calls, in
-- whatever order and state of the queue.
pub asks_once : (ps : List ℕ) (ctl : Memctl) → ctl.shared ≡ true → length (asks ctl ps).0 ≤ 1
unfolding asks
asks_once [] ctl s = omega arith
asks_once (p ∷ ps) ctl s =
    let (shared, granted) = busacc_granted ctl p s in
    elim (Bool-cases (busacc ctl p).0) [
      | inl got ↦ rw (got, asks_used ps (busacc ctl p).1 shared (granted got)) (omega arith)
      | inr refused ↦ rw refused (asks_once ps (busacc ctl p).1 shared)
    ]
