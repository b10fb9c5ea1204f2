-- ===== src/Bus/Ring.antt =====
-- The controller's circular queue, slot by slot, holds a list of processors.
use psim.Prelude.Cyclic.{ring-suc, ring-back, ring-away}
use psim.Prelude.{ℕ, zero, suc, ◌+◌, ◌%◌, ◌≤◌, ◌<◌, ◌≡◌, refl, ap, ◌∙◌, sym, arith}
use psim.Prelude.{◌==◌, if◌then◌else◌, List, [], ◌∷◌, ◌++◌, length, get_elem?, get_or, set}
use psim.Prelude.{Option, none, some, ◌≢◌, length-set, length-append}
use psim.Prelude.{get_or-set_self, get_or-set_ne, eq→==, ne→==}
use native.Mathlib.Nat.{mod-add-mod, mod-lt}
use native.Mathlib.Decide.{dec_lt, ℕ_discrete}
use psim.Bus.{Queue, enqueue}

abbrev pub slot : List (Option ℕ) → ℕ → Option ℕ
slot arr i = get_or arr i none

-- `q`, a queue over `n` slots, holds the processors `qs`, from its head on.
pub record Holds (n : ℕ) (q : Queue) (qs : List ℕ) : Type 0 where
  pub slots : length q.arr ≡ n
  pub head : q.hd < n
  pub tail : q.tl ≡ (q.hd + length qs) % n
  pub fits : length qs ≤ n
  pub content : (k : ℕ) → k < n → slot q.arr ((q.hd + k) % n) ≡ get_elem? qs k

-- Two places of a ring are different slots.
ring-ne : (n h j k : ℕ) → h < n → j < n → k < n → j ≢ k → (h + j) % n ≢ (h + k) % n
ring-ne n h j k hh hj hk ne e = ne (grind arith)

get_elem?-append :
    (qs : List ℕ) (p k : ℕ)
    → get_elem? (qs ++ (p ∷ [])) k ≡ (if k == length qs then some p else get_elem? qs k)
get_elem?-append [] p zero = refl
get_elem?-append [] p (suc k) = ground arith
get_elem?-append (q ∷ qs) p zero = ground arith
get_elem?-append (q ∷ qs) p (suc k) = ground (arith, get_elem?-append qs p k)

pub enqueue-Holds :
    (n : ℕ) (q : Queue) (qs : List ℕ) (p : ℕ)
    → Holds n q qs
    → length qs < n
    → Holds n (enqueue n q p) (qs ++ (p ∷ []))
unfolding enqueue
enqueue-Holds n q qs p h room = record {
  slots = length-set q.arr q.tl (some p) ∙ h.slots;
  head = h.head;
  tail =
      rw (h.tail, length-append qs (p ∷ []))
        (mod-add-mod (q.hd + length qs) n 1 ∙ ap (λ t. t % n) (omega arith));
  fits = omega (arith, length-append qs (p ∷ []), h.fits);
  content = λ k lt. rw (get_elem?-append qs p k) (at k lt);
}
  where
    at :
        (k : ℕ)
        → k < n
        → slot (set q.arr q.tl (some p)) ((q.hd + k) % n)
          ≡ (if k == length qs then some p else get_elem? qs k)
    at k lt = elim (ℕ_discrete k (length qs)) [
      | yes e ↦
          rw (e, eq→== (length qs) (length qs) refl, ← h.tail)
            (get_or-set_self q.arr q.tl (some p) none (omega (arith, h.tail, h.head, h.slots)))
      | no ne ↦ rw (ne→== k (length qs) ne) (
          get_or-set_ne q.arr q.tl ((q.hd + k) % n) (some p) none
            (rw h.tail (ring-ne n q.hd (length qs) k h.head room lt (λ e. ne (sym e))))
          ∙ h.content k lt)
    ]

get_elem?-none : (qs : List ℕ) (k : ℕ) → length qs ≤ k → get_elem? qs k ≡ none
get_elem?-none [] k h = refl
get_elem?-none (q ∷ qs) zero h = absurd (omega arith)
get_elem?-none (q ∷ qs) (suc k) h = get_elem?-none qs k (omega arith)

pub dequeue-Holds :
    (n : ℕ) (q : Queue) (p : ℕ) (qs : List ℕ)
    → Holds n q (p ∷ qs)
    → Holds n (record q { arr = set q.arr q.hd none; hd = (q.hd + 1) % n }) qs
dequeue-Holds n q p qs h = record {
  slots = length-set q.arr q.hd none ∙ h.slots;
  head = mod-lt (q.hd + 1) {m = n} (omega (arith, h.head));
  tail = rw (h.tail, mod-add-mod) (ap (λ t. t % n) (omega arith));
  fits = omega (arith, h.fits);
  content = λ k lt. at k lt;
}
  where
    at : (k : ℕ) → k < n → slot (set q.arr q.hd none) (((q.hd + 1) % n + k) % n) ≡ get_elem? qs k
    at k lt = elim (dec_lt (suc k) n) [
      | yes more ↦ rw (ring-suc n q.hd k) (
          get_or-set_ne q.arr q.hd ((q.hd + suc k) % n) none none (ring-away n q.hd k h.head more)
          ∙ h.content (suc k) more)
      | no last ↦
          rw (ring-suc n q.hd k, ring-back n q.hd k h.head (omega arith))
            (get_or-set_self q.arr q.hd none none (omega (arith, h.head, h.slots))
              ∙ sym (get_elem?-none qs k (omega (arith, h.fits))))
    ]
