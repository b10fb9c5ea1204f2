-- ===== src/Tests/BusTests.antt =====
-- A bus of two processors.
use psim.Prelude.{ℕ, zero, suc, ◌+◌, ◌%◌, ◌≤◌, ◌<◌, ◌≡◌, refl, arith, true, List, [], ◌∷◌}
use psim.Prelude.{none, some, length, get_elem?}
use psim.Bus.{Memctl, busacc, busclr, contains}
use psim.Bus.Arbiter.{Arbiter, request}
use psim.Bus.Ring.{slot}
use psim.Bus.Refine.{Refines, Simulates, busacc-Simulates}
use psim.Bus.Wait.{asks, rounds, Retrying, busacc_wait_bound, asks_once}

-- Processor 1 waits, in the second slot, behind nobody; the bus is used.
abbrev used_bus : Memctl
used_bus = record {
  shared = true;
  used = true;
  nshr = 2;
  resaddr = 0 ∷ 0 ∷ [];
  queue = record { hd = 1; tl = 0; arr = none ∷ some 1 ∷ [] };
  util = 7;
  lock_fails = [];
}

abbrev abstract_bus : Arbiter
abstract_bus = record { used = true; waiting = 1 ∷ [] }

content : (k : ℕ) → k < 2 → slot used_bus.queue.arr ((1 + k) % 2) ≡ get_elem? (1 ∷ []) k
content zero h = refl
content (suc zero) h = refl
content (suc (suc k)) h = absurd (omega arith)

used_bus-Refines : Refines used_bus abstract_bus
used_bus-Refines = record {
  shared = refl;
  locks = refl;
  used = refl;
  ring = record {
    slots = refl;
    head = omega arith;
    tail = refl;
    fits = omega arith;
    content = content;
  };
  distinct = (refl, tt);
  below = (omega arith, tt);
}

busacc-Simulates_example : Simulates (busacc used_bus 0) (request abstract_bus 0)
busacc-Simulates_example = busacc-Simulates used_bus abstract_bus 0 used_bus-Refines (omega arith)

abbrev schedule : List (List ℕ)
schedule = (1 ∷ []) ∷ (0 ∷ []) ∷ []

retrying : Retrying 2 used_bus schedule
unfolding asks busacc busclr contains
retrying = ((λ p h. h), (omega arith, tt), ((λ p h. cc), (omega arith, tt), tt))

busacc_wait_bound_example :
    (k : ℕ) × (k < 2) × (get_elem? (rounds used_bus schedule) k ≡ some (1 ∷ []))
busacc_wait_bound_example =
    busacc_wait_bound used_bus abstract_bus schedule 1 used_bus-Refines retrying (omega arith) waits
  where
    waits : contains used_bus.queue.arr 1 ≡ true
    waits = unfold contains in refl

asks_once_example : length (asks used_bus (0 ∷ 1 ∷ [])).0 ≤ 1
asks_once_example = asks_once (0 ∷ 1 ∷ []) used_bus refl
