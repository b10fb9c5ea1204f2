-- ===== src/Bus/Fairness.antt =====
-- How long a processor waits for the bus.
use psim.Prelude.{ℕ, zero, suc, ◌≤◌, ◌<◌, ◌≡◌, refl, ap, ◌∙◌, arith, Bool, true, false}
use psim.Prelude.{if◌then◌else◌, List, [], ◌∷◌, ◌++◌, length, get_elem?}
use psim.Prelude.{some, ◌≢◌, Bool-cases, inl, inr, ne→==, eq→==}
use native.Mathlib.Decide.{ℕ_discrete}
use mathlib.Core.List.{append-nil, append_assoc}
use psim.Bus.Arbiter.{Arbiter, elem, join, serve, request, Distinct, Below, length-le_of_Distinct}
use psim.Bus.Refine.{index_of_elem}

-- A cycle of the system: each processor of the list asks for the bus, in turn. The result is the
-- processors that got it.
unfoldable pub requests : Arbiter → List ℕ → List ℕ × Arbiter
requests a [] = ([], a)
requests a (p ∷ ps) =
    let (got, a') = request a p in
    let (rest, a'') = requests a' ps in (if got then p ∷ rest else rest, a'')

-- The queue only grows at its end.
abbrev pub Extends : List ℕ → List ℕ → Type 0
Extends ws ws' = (new : List ℕ) × (ws' ≡ ws ++ new)

Extends-trans : (a b c : List ℕ) → Extends a b → Extends b c → Extends a c
Extends-trans a b c (m, p) (n, q) = (m ++ n, rw (q, p) (append_assoc a m n))

join-Extends : (ws : List ℕ) (p : ℕ) → Extends ws (join ws p)
join-Extends ws p = elim (Bool-cases (elem ws p)) [
  | inl waits ↦ ([], rw (waits, append-nil))
  | inr absent ↦ (p ∷ [], rw absent)
]

serve_used : (ws : List ℕ) (p : ℕ) → serve true ws p ≡ (false, record { used = true; waiting = ws })
unfolding serve
serve_used [] p = refl
serve_used (w ∷ ws) p = refl

-- A used bus is granted to nobody, and those who wait keep their order.
pub requests_used :
    (ps ws : List ℕ)
    → let (got, a) = requests (record { used = true; waiting = ws }) ps in
      (got ≡ []) × (a.used ≡ true) × Extends ws a.waiting
unfolding requests request
requests_used [] ws = (refl, refl, ([], rw append-nil))
requests_used (p ∷ ps) ws =
    let (got, used, more) = requests_used ps (join ws p) in
    rw (serve_used (join ws p) p)
      (got, used, Extends-trans ws (join ws p) _ (join-Extends ws p) more)

request_self :
    (h : ℕ) (ws : List ℕ)
    → request (record { used = false; waiting = h ∷ ws }) h
      ≡ (true, record { used = true; waiting = ws })
unfolding request serve
request_self h ws = rw (eq→== h h refl, eq→== h h refl)

request_other :
    (h p : ℕ) (ws : List ℕ)
    → p ≢ h
    → request (record { used = false; waiting = h ∷ ws }) p
      ≡ (false, record { used = false; waiting = h ∷ join ws p })
unfolding request serve
request_other h p ws ne = elim (Bool-cases (elem ws p)) [
  | inl waits ↦ ground arith
  | inr absent ↦ ground arith
]

-- A cycle in which the head of the queue asks grants the bus to the head, once.
pub requests_head :
    (ps : List ℕ) (h : ℕ) (ws : List ℕ)
    → elem ps h ≡ true
    → let (got, a) = requests (record { used = false; waiting = h ∷ ws }) ps in
      (got ≡ h ∷ []) × (a.used ≡ true) × Extends ws a.waiting
unfolding requests request
requests_head [] h ws e = absurd (ground arith)
requests_head (p ∷ ps) h ws e = elim (ℕ_discrete p h) [
  | yes here ↦
      let (got, used, more) = requests_used ps ws in
      rw (here, request_self h ws) (ap (λ t. h ∷ t) got, used, more)
  | no ne ↦
      let (got, used, more) = requests_head ps h (join ws p) (rw (ne→== p h ne) at e) in
      rw (request_other h p ws ne)
        (got, used, Extends-trans ws (join ws p) _ (join-Extends ws p) more)
]

-- The cycles of a run, each with its requests; the bus is freed before each. What each cycle
-- grants is listed.
unfoldable pub cycles : Arbiter → List (List ℕ) → List (List ℕ)
unfolding requests
cycles a [] = []
cycles a (ps ∷ rest) =
    let (got, a') = requests (record a { used = false }) ps in got ∷ cycles a' rest

-- In each cycle all that wait at its beginning ask again, as stalled processors do.
abbrev pub Persistent : Arbiter → List (List ℕ) → Type 0
Persistent a [] = Unit
Persistent a (ps ∷ rest) =
    ((p : ℕ) → elem a.waiting p ≡ true → elem ps p ≡ true)
    × Persistent (requests (record a { used = false }) ps).1 rest

get_elem?-extend :
    (ws ws' : List ℕ) (k p : ℕ)
    → Extends ws ws'
    → get_elem? ws k ≡ some p
    → get_elem? ws' k ≡ some p
get_elem?-extend [] ws' k p (new, e) h = absurd (ground arith)
get_elem?-extend (w ∷ ws) ws' zero p (new, e) h = rw e h
get_elem?-extend (w ∷ ws) ws' (suc k) p (new, e) h =
    rw e (get_elem?-extend ws (ws ++ new) k p (new, refl) h)

wait_turn_from :
    (sched : List (List ℕ)) (used : Bool) (ws : List ℕ) (k p : ℕ)
    → Persistent (record { used = used; waiting = ws }) sched
    → k < length sched
    → get_elem? ws k ≡ some p
    → get_elem? (cycles (record { used = used; waiting = ws }) sched) k ≡ some (p ∷ [])
unfolding cycles
wait_turn_from [] used ws k p pers lt at = absurd (omega arith)
wait_turn_from (ps ∷ rest) used [] k p pers lt at = absurd (ground arith)
wait_turn_from (ps ∷ rest) used (h ∷ ws) zero p pers lt at =
    let (got, after, more) = requests_head ps h ws (pers.0 h (ground arith)) in
    let here : h ≡ p = cc in ap some (got ∙ ap (λ t. t ∷ []) here)
wait_turn_from (ps ∷ rest) used (h ∷ ws) (suc k) p pers lt at =
    let (got, after, more) = requests_head ps h ws (pers.0 h (ground arith)) in
    let next = (requests (record { used = false; waiting = h ∷ ws }) ps).1 in
    wait_turn_from rest next.used next.waiting k p pers.1 (omega arith)
      (get_elem?-extend ws next.waiting k p more at)

-- A processor that waits behind `k` others gets the bus in the cycle after `k` more, if all that
-- wait ask again in each cycle.
pub wait_turn :
    (sched : List (List ℕ)) (a : Arbiter) (k p : ℕ)
    → Persistent a sched
    → k < length sched
    → get_elem? a.waiting k ≡ some p
    → get_elem? (cycles a sched) k ≡ some (p ∷ [])
wait_turn sched a k p = wait_turn_from sched a.used a.waiting k p

-- Among `n` processors, one that waits for the bus gets it within `n` cycles, if all that wait ask
-- again in each cycle, as stalled processors do.
pub wait_bound :
    (n : ℕ) (a : Arbiter) (sched : List (List ℕ)) (p : ℕ)
    → Distinct a.waiting
    → Below n a.waiting
    → Persistent a sched
    → n ≤ length sched
    → elem a.waiting p ≡ true
    → (k : ℕ) × (k < n) × (get_elem? (cycles a sched) k ≡ some (p ∷ []))
wait_bound n a sched p distinct below pers long waits =
    let (k, lt, at) = index_of_elem a.waiting p waits in
    let few = length-le_of_Distinct n a.waiting distinct below in
    (k, omega arith, wait_turn sched a k p pers (omega arith) at)
