-- ===== src/Bus/Bounds.antt =====
-- The arrays of the memory controller: the accesses of Mem_busacc stay inside them.
use psim.Prelude.{
  List, [], ◌∷◌, ℕ, ◌+◌, ◌<◌, ◌≡◌, ◌∙◌, arith, Bool, true, false, length, length-set, not, ◌&&◌,
  get_elem?,
}
use psim.Prelude.{Bool-cases, inl, inr, none, some}
use native.Mathlib.Nat.{mod-lt}
use psim.Bus.{Memctl, contains, enqueue, holds, grant, arbitrate, lock, when_locked, busacc, busclr}

-- A controller over a shared memory has an entry for each processor in both of its arrays, and its
-- queue's ends are places of the array.
pub record IsBus (ctl : Memctl) : Type 0 where
  pub resaddrs : ctl.shared ≡ true → length ctl.resaddr ≡ ctl.nshr
  pub slots : ctl.shared ≡ true → length ctl.queue.arr ≡ ctl.nshr
  pub head : ctl.shared ≡ true → ctl.queue.hd < ctl.nshr
  pub tail : ctl.shared ≡ true → ctl.queue.tl < ctl.nshr

grant-IsBus : (ctl : Memctl) (p : ℕ) → IsBus ctl → IsBus (grant ctl p).1
unfolding grant
grant-IsBus ctl p h =
    elim (Bool-cases (not ctl.used && holds (get_elem? ctl.queue.arr ctl.queue.hd) p)) [
      | inl q ↦ rw q (record {
        resaddrs = h.resaddrs;
        slots = λ s. length-set ctl.queue.arr ctl.queue.hd none ∙ h.slots s;
        head = λ s. mod-lt (ctl.queue.hd + 1) (omega (arith, h.head s));
        tail = h.tail;
      })
      | inr q ↦ rw q h
    ]

arbitrate-IsBus : (ctl : Memctl) (p : ℕ) → IsBus ctl → IsBus (arbitrate ctl p).1
unfolding arbitrate enqueue
arbitrate-IsBus ctl p h = elim (Bool-cases (contains ctl.queue.arr p)) [
  | inl q ↦ rw q (grant-IsBus ctl p h)
  | inr q ↦ rw q (
      grant-IsBus _ p (record {
        resaddrs = h.resaddrs;
        slots = λ s. length-set ctl.queue.arr ctl.queue.tl (some p) ∙ h.slots s;
        head = h.head;
        tail = λ s. mod-lt (ctl.queue.tl + 1) (omega (arith, h.tail s));
      }))
]

-- Mem_busacc keeps the queue's ends inside the queue, whether the mutex can be locked or not and
-- whoever calls.
pub busacc-IsBus : (ctl : Memctl) (p : ℕ) → IsBus ctl → IsBus (busacc ctl p).1
unfolding busacc
busacc-IsBus ctl p h = elim (Bool-cases ctl.shared) [
  | inl s ↦ simp s (after (lock ctl ctl.lock_fails) (locked ctl.lock_fails))
  | inr s ↦ simp s h
]
  where
    locked : (fs : List Bool) → IsBus (lock ctl fs).1
    locked [] = h
    locked (f ∷ fs) = record {
      resaddrs = h.resaddrs;
      slots = h.slots;
      head = h.head;
      tail = h.tail;
    }

    after : (r : Bool × Memctl) → IsBus r.1 → IsBus (when_locked r p).1
    after (true, c) k = k
    after (false, c) k = arbitrate-IsBus c p k

pub busclr-IsBus : (ctl : Memctl) → IsBus ctl → IsBus (busclr ctl)
unfolding busclr
busclr-IsBus ctl h = record { resaddrs = h.resaddrs; slots = h.slots; head = h.head; tail = h.tail }

pub resaddr-IsBus :
    (ctl : Memctl) (rs : List ℕ)
    → IsBus ctl
    → length rs ≡ length ctl.resaddr
    → IsBus (record ctl { resaddr = rs })
resaddr-IsBus ctl rs h e = record {
  resaddrs = λ s. e ∙ h.resaddrs s;
  slots = h.slots;
  head = h.head;
  tail = h.tail;
}
