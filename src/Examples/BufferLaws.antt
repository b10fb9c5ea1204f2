-- ===== src/Examples/BufferLaws.antt =====
-- producer-consumer.c: the circular buffer against a list of items, the oldest first.
use psim.Prelude.{ℕ, zero, suc, ◌+◌, ◌-◌, ◌%◌, ◌^◌, ◌≤◌, ◌<◌, ◌≡◌, ◌≢◌, refl, ap, sym, ◌∙◌, arith}
use psim.Prelude.{
  List, [], ◌∷◌, ◌++◌, length, get_or, set, length-set, length-append, length-replicate, bit_and,
}
use mathlib.Core.Path.{subst}
use psim.Prelude.{get_or-set_self, get_or-set_ne}
use psim.Prelude.Cyclic.{ring-suc}
use native.Mathlib.Nat.{mod-add-mod, mod-lt}
use native.Mathlib.Decide.{ℕ_discrete}
use psim.Isa.Fields.{bit_and-ones}
use psim.Examples.Buffer.{Ring, no_items, enqueue, dequeue, dequeue_item}

-- The ring of `n` places holds the items, the oldest first.
pub record Holds (n : ℕ) (r : Ring) (items : List ℕ) : Type 0 where
  pub places : length r.buf ≡ n
  pub head : r.hd < n
  pub tail : r.tl ≡ (r.hd + length items) % n
  pub count : r.ct ≡ length items
  pub fits : length items ≤ n
  pub content : (k : ℕ) → k < length items → get_or r.buf ((r.hd + k) % n) 0 ≡ get_or items k 0

ring-ne : (n h j k : ℕ) → h < n → j < n → k < n → j ≢ k → (h + j) % n ≢ (h + k) % n
ring-ne n h j k hh hj hk ne e = ne (grind arith)

get_or-append_here : (xs : List ℕ) (x : ℕ) → get_or (xs ++ (x ∷ [])) (length xs) 0 ≡ x
get_or-append_here [] x = refl
get_or-append_here (y ∷ ys) x = get_or-append_here ys x

get_or-append_left :
    (xs : List ℕ) (x k : ℕ) → k < length xs → get_or (xs ++ (x ∷ [])) k 0 ≡ get_or xs k 0
get_or-append_left [] x k h = absurd (omega arith)
get_or-append_left (y ∷ ys) x zero h = refl
get_or-append_left (y ∷ ys) x (suc k) h = get_or-append_left ys x k (omega arith)

pub no_items-Holds : (n : ℕ) → 0 < n → Holds n (no_items n) []
no_items-Holds n h = record {
  places = length-replicate {A = ℕ} n 0;
  head = h;
  tail = grind (arith, h);
  count = refl;
  fits = omega arith;
  content = λ k lt. absurd (omega arith);
}

module _ (n k : ℕ) (power : n ≡ 2 ^ k) (r : Ring) where
  mask-eq : (a : ℕ) → bit_and a (n - 1) ≡ a % n
  mask-eq a = subst (λ (m : ℕ). bit_and a (m - 1) ≡ a % m) (sym power) (bit_and-ones k a)

  pub enqueue-Holds :
      (items : List ℕ) (item : ℕ)
      → Holds n r items
      → length items < n
      → Holds n (enqueue n r item) (items ++ (item ∷ []))
  unfolding enqueue
  enqueue-Holds items item h room = record {
    places = length-set r.buf r.tl item ∙ h.places;
    head = h.head;
    tail =
        mask-eq (r.tl + 1)
        ∙ ap (λ (t : ℕ). (t + 1) % n) h.tail
        ∙ mod-add-mod (r.hd + length items) n 1
        ∙ ap (λ (t : ℕ). t % n) (omega (arith, length-append items (item ∷ [])));
    count = omega (arith, h.count, length-append items (item ∷ []));
    fits = omega (arith, length-append items (item ∷ []));
    content = λ j lt. at j lt;
  }
    where
      at :
          (j : ℕ)
          → j < length (items ++ (item ∷ []))
          → get_or (set r.buf r.tl item) ((r.hd + j) % n) 0 ≡ get_or (items ++ (item ∷ [])) j 0
      at j lt = elim (ℕ_discrete j (length items)) [
        | yes e ↦
            ap (λ (i : ℕ). get_or (set r.buf r.tl item) ((r.hd + i) % n) 0) e
            ∙ ap (λ (i : ℕ). get_or (set r.buf r.tl item) i 0) (sym h.tail)
            ∙ get_or-set_self r.buf r.tl item 0 (omega (arith, h.tail, h.head, h.places))
            ∙ sym (get_or-append_here items item)
            ∙ ap (λ (i : ℕ). get_or (items ++ (item ∷ [])) i 0) (sym e)
        | no ne ↦
            let lt' : j < length items = omega (arith, length-append items (item ∷ [])) in
            let away : r.tl ≢ (r.hd + j) % n = λ q.
              ring-ne n r.hd (length items) j h.head room (omega arith) (λ e. ne (sym e))
                (sym h.tail ∙ q) in
            get_or-set_ne r.buf r.tl ((r.hd + j) % n) item 0 away
            ∙ h.content j lt'
            ∙ sym (get_or-append_left items item j lt')
      ]

  pub dequeue-Holds :
      (item : ℕ) (items : List ℕ)
      → Holds n r (item ∷ items)
      → (dequeue_item r ≡ item) × Holds n (dequeue n r) items
  unfolding dequeue dequeue_item
  dequeue-Holds item items h = (
    ap (λ (i : ℕ). get_or r.buf i 0) (grind (arith, h.head)) ∙ h.content 0 (omega arith),
    record {
      places = h.places;
      head = rw (mask-eq (r.hd + 1)) (mod-lt (r.hd + 1) {m = n} (omega (arith, h.head)));
      tail =
          h.tail
          ∙ sym (ring-suc n r.hd (length items))
          ∙ ap (λ (t : ℕ). (t + length items) % n) (sym (mask-eq (r.hd + 1)));
      count = omega (arith, h.count);
      fits = omega (arith, h.fits);
      content = λ j lt.
          ap (λ (t : ℕ). get_or r.buf ((t + j) % n) 0) (mask-eq (r.hd + 1))
          ∙ ap (λ (t : ℕ). get_or r.buf t 0) (ring-suc n r.hd j)
          ∙ h.content (suc j) (omega arith);
    },
  )
