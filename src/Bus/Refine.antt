-- ===== src/Bus/Refine.antt =====
-- Mem_busacc against the abstract controller.
use psim.Prelude.Cyclic.{ring-index}
use psim.Prelude.{ℕ, zero, suc, ◌+◌, ◌%◌, ◌<◌, ◌≡◌, refl, ap, ◌∙◌, sym, arith, Bool, true, false}
use psim.Prelude.{◌==◌, List, [], ◌∷◌, ◌++◌, length, get_elem?}
use psim.Prelude.{Option, none, some, Bool-cases, inl, inr, get_elem?-eq-get_or, ==→eq}
use psim.Bus.{Memctl, Queue, contains, enqueue, grant, arbitrate, busacc, busclr}
use psim.Bus.Arbiter.{Arbiter, elem, Distinct, Below, serve, request, length-le_of_Distinct}
use psim.Bus.Arbiter.{Distinct-append, Below-append}
use psim.Bus.Ring.{Holds, slot, enqueue-Holds, dequeue-Holds}

contains_of_slot : (arr : List (Option ℕ)) (i p : ℕ) → slot arr i ≡ some p → contains arr p ≡ true
unfolding contains
contains_of_slot [] i p e = absurd (ground arith)
contains_of_slot (none ∷ arr) zero p e = absurd (ground arith)
contains_of_slot (none ∷ arr) (suc i) p e = contains_of_slot arr i p e
contains_of_slot (some q ∷ arr) zero p e = ground arith
contains_of_slot (some q ∷ arr) (suc i) p e = ground (arith, contains_of_slot arr i p e)

-- A processor that the search finds stands in a slot.
slot_of_contains :
    (arr : List (Option ℕ)) (p : ℕ)
    → contains arr p ≡ true
    → (i : ℕ) × (i < length arr) × (slot arr i ≡ some p)
unfolding contains
slot_of_contains [] p e = absurd (ground arith)
slot_of_contains (none ∷ arr) p e =
    let (i, lt, at) = slot_of_contains arr p e in (suc i, omega arith, at)
slot_of_contains (some q ∷ arr) p e = elim (Bool-cases (q == p)) [
  | inl here ↦ (0, omega arith, ap some (==→eq q p here))
  | inr there ↦ let (i, lt, at) = slot_of_contains arr p (rw there at e) in (suc i, omega arith, at)
]

elem_of_index : (qs : List ℕ) (k p : ℕ) → get_elem? qs k ≡ some p → elem qs p ≡ true
elem_of_index [] k p e = absurd (ground arith)
elem_of_index (q ∷ qs) zero p e = ground arith
elem_of_index (q ∷ qs) (suc k) p e = ground (arith, elem_of_index qs k p e)

pub index_of_elem :
    (qs : List ℕ) (p : ℕ) → elem qs p ≡ true → (k : ℕ) × (k < length qs) × (get_elem? qs k ≡ some p)
index_of_elem [] p e = absurd (ground arith)
index_of_elem (q ∷ qs) p e = elim (Bool-cases (q == p)) [
  | inl here ↦ (0, omega arith, ap some (==→eq q p here))
  | inr there ↦ let (k, lt, at) = index_of_elem qs p (rw there at e) in (suc k, omega arith, at)
]

true≢false : {b : Bool} → b ≡ true → b ≡ false → ⊥
true≢false p q = cc

-- The search over the slots finds exactly the waiting processors.
pub contains-eq-elem :
    (n : ℕ) (q : Queue) (qs : List ℕ) (p : ℕ) → Holds n q qs → contains q.arr p ≡ elem qs p
contains-eq-elem n q qs p h = elim (Bool-cases (elem qs p)) [
  | inl waits ↦
      let (k, lt, at) = index_of_elem qs p waits in
      contains_of_slot q.arr ((q.hd + k) % n) p (h.content k (omega (arith, h.fits)) ∙ at)
      ∙ sym waits
  | inr absent ↦ elim (Bool-cases (contains q.arr p)) [
    | inl found ↦
        let (i, lt, at) = slot_of_contains q.arr p found in
        let (k, small, here) = ring-index n q.hd i h.head (omega (arith, h.slots)) in
        absurd (
          true≢false (elem_of_index qs k p (sym (h.content k small) ∙ ap (slot q.arr) here ∙ at))
            absent)
    | inr nowhere ↦ nowhere ∙ sym absent
  ]
]

-- The memory controller of a shared memory, in the state that the abstract one is in.
pub record Refines (ctl : Memctl) (a : Arbiter) : Type 0 where
  pub shared : ctl.shared ≡ true
  pub locks : ctl.lock_fails ≡ []
  pub used : ctl.used ≡ a.used
  pub ring : Holds ctl.nshr ctl.queue a.waiting
  pub distinct : Distinct a.waiting
  pub below : Below ctl.nshr a.waiting

abbrev pub Simulates : Bool × Memctl → Bool × Arbiter → Type 0
Simulates r s = (r.0 ≡ s.0) × Refines r.1 s.1

head-slot :
    (n : ℕ) (q : Queue) (qs : List ℕ) → Holds n q qs → get_elem? q.arr q.hd ≡ some (get_elem? qs 0)
head-slot n q qs h =
    get_elem?-eq-get_or q.arr q.hd none (omega (arith, h.head, h.slots))
    ∙ ap some (ap (slot q.arr) (grind (arith, h.head)) ∙ h.content 0 (omega (arith, h.head)))

-- The state with `used` written as the abstract one.
same :
    {ctl : Memctl} {a : Arbiter} {u : Bool}
    → Refines ctl a
    → Refines (record ctl { used = u }) (record a { used = u })
same r = record {
  shared = r.shared;
  locks = r.locks;
  used = refl;
  ring = r.ring;
  distinct = r.distinct;
  below = r.below;
}

grant-Simulates :
    (ctl : Memctl) (used : Bool) (qs : List ℕ) (p : ℕ)
    → Refines ctl (record { used = used; waiting = qs })
    → Simulates (grant ctl p) (serve used qs p)
unfolding grant serve
grant-Simulates ctl true [] p r = rw r.used (refl, same r)
grant-Simulates ctl true (q ∷ qs) p r = rw r.used (refl, same r)
grant-Simulates ctl false [] p r =
    rw (r.used, head-slot ctl.nshr ctl.queue [] r.ring) (refl, same r)
grant-Simulates ctl false (q ∷ qs) p r = elim (Bool-cases (q == p)) [
  | inl here ↦
      rw (r.used, head-slot ctl.nshr ctl.queue (q ∷ qs) r.ring, here)
        (
          refl,
          record {
            shared = r.shared;
            locks = r.locks;
            used = refl;
            ring = dequeue-Holds ctl.nshr ctl.queue q qs r.ring;
            distinct = r.distinct.1;
            below = r.below.1;
          },
        )
  | inr there ↦ rw (r.used, head-slot ctl.nshr ctl.queue (q ∷ qs) r.ring, there) (refl, same r)
]

enqueue-Refines :
    (ctl : Memctl) (a : Arbiter) (p : ℕ)
    → Refines ctl a
    → p < ctl.nshr
    → elem a.waiting p ≡ false
    → Refines
        (record ctl { queue = enqueue ctl.nshr ctl.queue p })
        (record a { waiting = a.waiting ++ (p ∷ []) })
enqueue-Refines ctl a p r lt absent =
    let distinct = Distinct-append a.waiting p r.distinct absent in
    let below = Below-append ctl.nshr a.waiting p r.below lt in
    let room = length-le_of_Distinct ctl.nshr (p ∷ a.waiting) (absent, r.distinct) (lt, r.below) in
    record {
      shared = r.shared;
      locks = r.locks;
      used = r.used;
      ring = enqueue-Holds ctl.nshr ctl.queue a.waiting p r.ring room;
      distinct = distinct;
      below = below;
    }

arbitrate-Simulates :
    (ctl : Memctl) (a : Arbiter) (p : ℕ)
    → Refines ctl a
    → p < ctl.nshr
    → Simulates (arbitrate ctl p) (request a p)
unfolding arbitrate request
arbitrate-Simulates ctl a p r lt = elim (Bool-cases (elem a.waiting p)) [
  | inl waits ↦
      rw (contains-eq-elem ctl.nshr ctl.queue a.waiting p r.ring, waits)
        (grant-Simulates ctl a.used a.waiting p r)
  | inr absent ↦
      rw (contains-eq-elem ctl.nshr ctl.queue a.waiting p r.ring, absent)
        (grant-Simulates (record ctl { queue = enqueue ctl.nshr ctl.queue p }) a.used
          (a.waiting ++ (p ∷ [])) p (enqueue-Refines ctl a p r lt absent))
]

pub busacc-eq-arbitrate :
    (ctl : Memctl) (p : ℕ)
    → ctl.shared ≡ true
    → ctl.lock_fails ≡ []
    → busacc ctl p ≡ arbitrate ctl p
unfolding busacc
busacc-eq-arbitrate ctl p s l = simp (s, l)

-- A new cycle frees the bus, and nothing else.
pub busclr-Refines :
    (ctl : Memctl) (a : Arbiter) → Refines ctl a → Refines (busclr ctl) (record a { used = false })
unfolding busclr
busclr-Refines ctl a r = same r

-- Over a shared memory whose mutex can be locked, Mem_busacc answers a processor of the system as
-- the abstract controller does, and leaves a state that again stands for the abstract one: the
-- circular buffer holds distinct waiting processors in the order of their first requests.
pub busacc-Simulates :
    (ctl : Memctl) (a : Arbiter) (p : ℕ)
    → Refines ctl a
    → p < ctl.nshr
    → Simulates (busacc ctl p) (request a p)
busacc-Simulates ctl a p r lt =
    rw (busacc-eq-arbitrate ctl p r.shared r.locks) (arbitrate-Simulates ctl a p r lt)
