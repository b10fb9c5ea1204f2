-- ===== src/Mem/Reserve.antt =====
-- Mem_ll, Mem_sc and Mem_sw over a shared memory: when a store-conditional succeeds.
use psim.Prelude.{ℕ, zero, suc, ◌<◌, ◌≡◌, refl, ◌∙◌, ap, arith, ◌≢◌}
use psim.Prelude.{Bool, true, false, if◌then◌else◌, leb, ◌==◌, length, map}
use psim.Prelude.{List, [], ◌∷◌, get_elem?, set, Option, none, some, All, Bool-cases, inl, inr}
use psim.Prelude.{Outcome, ok, err, ◌>>=◌, eagain, get_elem?-set_self, get_elem?-set_ne}
use psim.Prelude.{get_or, get_elem?-eq-get_or, length-set, length-map, Option-cases, eq→==, ne→==}
use native.Mathlib.Decide.{ℕ_discrete}
use psim.Bus.{Memctl, minus_one}
use psim.Mem
use psim.Mem.{Mem, clear_reservations, store_reserved, check_word, set_word}
use psim.Mem.Laws.{IsMem, checked, stored, store_lem, stored-IsMem}

-- The accesses that bear on reservations
pub data Op : Type 0 where
  ll : ℕ → ℕ → Op
  sw : ℕ → ℕ → Op
  sc : ℕ → ℕ → ℕ → Op

-- Does the processor hold a reservation of the address?
abbrev pub reserves : Option ℕ → ℕ → Bool
reserves (some r) a = r == a
reserves none a = false

abbrev pub reserved : Memctl → ℕ → ℕ → Bool
reserved ctl p a = reserves (get_elem? ctl.resaddr p) a

-- The controller and the memory after an access; a failed store leaves the memory.
abbrev pub keep : Mem → Outcome Mem → Mem
keep m (ok m') = m'
keep m _ = m

unfoldable pub step : Memctl × Mem → Op → Memctl × Mem
unfolding Mem.ll Mem.sw Mem.sc
step (ctl, m) (ll p a) = ((Mem.ll ctl m p a).0, m)
step (ctl, m) (sw a w) = let (ctl', out) = Mem.sw ctl m a w in (ctl', keep m out)
step (ctl, m) (sc p a w) = let (ctl', out) = Mem.sc ctl m p a w in (ctl', keep m out)

-- A history of accesses, the latest first
pub run : Memctl × Mem → List Op → Memctl × Mem
unfolding step
run s [] = s
run s (op ∷ hist) = step (run s hist) op

-- Has the processor's last LL since the beginning gone to the address, with no store to the
-- address since? Before its first LL it has the links `first` of the beginning. A
-- store-conditional stores if its own processor is linked.
unfoldable pub linked : (ℕ → ℕ → Bool) → ℕ → ℕ → List Op → Bool
linked first p a [] = first p a
linked first p a (ll q b ∷ hist) = if q == p then b == a else linked first p a hist
linked first p a (sw b w ∷ hist) = if b == a then false else linked first p a hist
linked first p a (sc q b w ∷ hist) =
    if b == a
    then (if linked first q b hist then false else linked first p a hist)
    else linked first p a hist

-- The processors of the accesses are those of the system.
abbrev pub InSystem : ℕ → Op → Type 0
InSystem n (ll p a) = p < n
InSystem n (sw a w) = Unit
InSystem n (sc p a w) = p < n

get_elem?-map :
    (f : ℕ → ℕ) (xs : List ℕ) (i : ℕ)
    → get_elem? (map f xs) i ≡ elim (get_elem? xs i) [ none ↦ none | some x ↦ some (f x) ]
get_elem?-map f [] i = refl
get_elem?-map f (x ∷ xs) zero = refl
get_elem?-map f (x ∷ xs) (suc i) = get_elem?-map f xs i

-- Dropping the reservations of `b` drops those, and no other.
reserved-clear :
    (ctl : Memctl) (b p a : ℕ)
    → a ≢ minus_one
    → reserved (clear_reservations ctl b) p a ≡ (if b == a then false else reserved ctl p a)
unfolding clear_reservations
reserved-clear ctl b p a ne = elim (Option-cases (get_elem? ctl.resaddr p)) [
  | inl e ↦ rw (get_elem?-map, e) (ground arith)
  | inr (r, e) ↦ rw (get_elem?-map, e) (ground arith)
]

-- A controller of `n` processors that share a memory
pub record IsReady (n : ℕ) (ctl : Memctl) : Type 0 where
  pub shared : ctl.shared ≡ true
  pub count : ctl.nshr ≡ n
  pub slots : length ctl.resaddr ≡ n

clear-IsReady :
    (n : ℕ) (ctl : Memctl) (a : ℕ) → IsReady n ctl → IsReady n (clear_reservations ctl a)
unfolding clear_reservations
clear-IsReady n ctl a r = record {
  shared = r.shared;
  count = r.count;
  slots = length-map ctl.resaddr _ ∙ r.slots;
}

store_reserved-state :
    (ctl : Memctl) (m : Mem) (r b w : ℕ)
    → (store_reserved ctl m r b w).0 ≡ (if r == b then clear_reservations ctl b else ctl)
unfolding store_reserved
store_reserved-state ctl m r b w = elim (Bool-cases (r == b)) [ inl e ↦ rw e | inr e ↦ rw e ]

store_reserved-stored :
    (ctl : Memctl) (m : Mem) (r b w : ℕ)
    → (store_reserved ctl m r b w).1
      ≡ (if r == b then (check_word m b >>= λ k. set_word m k w) else err eagain)
unfolding store_reserved
store_reserved-stored ctl m r b w = elim (Bool-cases (r == b)) [ inl e ↦ rw e | inr e ↦ rw e ]

module _ (n : ℕ) (ctl : Memctl) (m : Mem) (ready : IsReady n ctl) where
  -- What each access does to the controller
  ll-eq : (q b : ℕ) → q < n → (Mem.ll ctl m q b).0 ≡ record ctl { resaddr = set ctl.resaddr q b }
  unfolding Mem.ll
  ll-eq q b h = ground (arith, ready)

  sw-eq : (b w : ℕ) → (Mem.sw ctl m b w).0 ≡ clear_reservations ctl b
  unfolding Mem.sw
  sw-eq b w = ground (arith, ready)

  sc-reached :
      (q b w : ℕ) → q < n → Mem.sc ctl m q b w ≡ store_reserved ctl m (get_or ctl.resaddr q 0) b w
  unfolding Mem.sc
  sc-reached q b w h =
      let slot = get_elem?-eq-get_or ctl.resaddr q 0 (omega (arith, ready.slots)) in
      let known : leb ctl.nshr q ≡ false = ground (arith, ready) in simp (ready.shared, known, slot)

  held : (q b : ℕ) → q < n → reserved ctl q b ≡ (get_or ctl.resaddr q 0 == b)
  held q b h = rw (get_elem?-eq-get_or ctl.resaddr q 0 (omega (arith, ready.slots)))

  sc-eq :
      (q b w : ℕ)
      → q < n
      → (Mem.sc ctl m q b w).0 ≡ (if reserved ctl q b then clear_reservations ctl b else ctl)
  sc-eq q b w h =
      rw (sc-reached q b w h, held q b h) (store_reserved-state ctl m (get_or ctl.resaddr q 0) b w)

  -- What Mem_sc returns
  sc-result :
      (q b w : ℕ)
      → q < n
      → (Mem.sc ctl m q b w).1
        ≡ (if reserved ctl q b then (check_word m b >>= λ k. set_word m k w) else err eagain)
  sc-result q b w h =
      rw (sc-reached q b w h, held q b h) (store_reserved-stored ctl m (get_or ctl.resaddr q 0) b w)

  reserved-ll :
      (q b p a : ℕ)
      → q < n
      → reserved (Mem.ll ctl m q b).0 p a ≡ (if q == p then b == a else reserved ctl p a)
  reserved-ll q b p a h = rw (ll-eq q b h) (elim (ℕ_discrete q p) [
    | yes e ↦
        rw (← e, eq→== q q refl, get_elem?-set_self ctl.resaddr q b (omega (arith, ready.slots)))
    | no ne ↦ rw (ne→== q p ne, get_elem?-set_ne ctl.resaddr q p b ne)
  ])

  reserved-sc :
      (q b w p a : ℕ)
      → q < n
      → a ≢ minus_one
      → reserved (Mem.sc ctl m q b w).0 p a ≡ (
          if b == a then if reserved ctl q b then false else reserved ctl p a else reserved ctl p a)
  reserved-sc q b w p a h ne = rw (sc-eq q b w h) (elim (Bool-cases (reserved ctl q b)) [
    | inl e ↦ rw (e, reserved-clear ctl b p a ne)
    | inr e ↦ rw e (ground arith)
  ])

  step-IsReady : (op : Op) → InSystem n op → IsReady n (step (ctl, m) op).0
  unfolding step
  step-IsReady (ll p a) h = rw (ll-eq p a h) (record {
    shared = ready.shared;
    count = ready.count;
    slots = length-set ctl.resaddr p a ∙ ready.slots;
  })
  step-IsReady (sw a w) h = rw (sw-eq a w) (clear-IsReady n ctl a ready)
  step-IsReady (sc p a w) h = rw (sc-eq p a w h) (elim (Bool-cases (reserved ctl p a)) [
    | inl e ↦ rw e (clear-IsReady n ctl a ready)
    | inr e ↦ rw e ready
  ])

  keep-IsMem : (a w : ℕ) → IsMem m → IsMem (keep m (check_word m a >>= λ k. set_word m k w))
  keep-IsMem a w v = rw (store_lem m a w v) (ground (arith, stored-IsMem m a w v))

  step-IsMem : (op : Op) → IsMem m → InSystem n op → IsMem (step (ctl, m) op).1
  unfolding step
  step-IsMem (ll p a) v h = v
  step-IsMem (sw a w) v h = keep-IsMem a w v
  step-IsMem (sc p a w) v h =
      rw (sc-result p a w h)
        (elim (Bool-cases (reserved ctl p a)) [ inl e ↦ rw e (keep-IsMem a w v) | inr e ↦ rw e v ])

module _ (n : ℕ) (s : Memctl × Mem) (ready : IsReady n s.0) where
  run-IsReady : (hist : List Op) → All (InSystem n) hist → IsReady n (run s hist).0
  unfolding run
  run-IsReady [] h = ready
  run-IsReady (op ∷ hist) h =
      step-IsReady n (run s hist).0 (run s hist).1 (run-IsReady hist h.1) op h.0

  run-IsMem : (hist : List Op) → IsMem s.1 → All (InSystem n) hist → IsMem (run s hist).1
  unfolding run
  run-IsMem [] v h = v
  run-IsMem (op ∷ hist) v h =
      step-IsMem n (run s hist).0 (run s hist).1 (run-IsReady hist h.1) op (run-IsMem hist v h.1)
        h.0

  -- The reservations of the controller are the links that the history makes.
  pub reserved-run :
      (a : ℕ)
      → a ≢ minus_one
      → (hist : List Op) (p : ℕ) → All (InSystem n) hist
      → reserved (run s hist).0 p a ≡ linked (reserved s.0) p a hist
  unfolding run step linked
  reserved-run a ne [] p h = refl
  reserved-run a ne (ll q b ∷ hist) p h =
      reserved-ll n (run s hist).0 (run s hist).1 (run-IsReady hist h.1) q b p a h.0
      ∙ ap (λ t. if q == p then b == a else t) (reserved-run a ne hist p h.1)
  reserved-run a ne (sw b w ∷ hist) p h =
      ap (λ c. reserved c p a) (sw-eq n (run s hist).0 (run s hist).1 (run-IsReady hist h.1) b w)
      ∙ reserved-clear (run s hist).0 b p a ne
      ∙ ap (λ t. if b == a then false else t) (reserved-run a ne hist p h.1)
  reserved-run a ne (sc q b w ∷ hist) p h =
      reserved-sc n (run s hist).0 (run s hist).1 (run-IsReady hist h.1) q b w p a h.0 ne
      ∙ elim (ℕ_discrete b a) [
        | yes e ↦ rw (e, reserved-run a ne hist q h.1, reserved-run a ne hist p h.1)
        | no other ↦ rw (ne→== b a other) (reserved-run a ne hist p h.1)
      ]

  -- In a whole memory shared by `n` processors, after any accesses of these: if the calling
  -- processor is linked to the address, Mem_sc stores as Mem_sw would, with the same errors
  -- EADDRNOTAVAIL and EFAULT, and if not it fails with EAGAIN. The processor is linked if its last
  -- LL went to the address, or it has made none and reserved the address at the beginning, and no
  -- store to the address, by Mem_sw or by the Mem_sc of a linked processor, came after; an access
  -- that fails for its address counts as well. The address is not 2 ^ 64 - 1, which marks that
  -- nothing is reserved.
  pub sc-run :
      (a : ℕ)
      → a ≢ minus_one
      → (hist : List Op) (p w : ℕ) → All (InSystem n) hist
      → p < n
      → IsMem s.1
      → (Mem.sc (run s hist).0 (run s hist).1 p a w).1 ≡ (
          if linked (reserved s.0) p a hist
          then checked (run s hist).1 a (stored (run s hist).1 a w)
          else err eagain)
  sc-run a ne hist p w h lt valid =
      let now = run s hist in
      sc-result n now.0 now.1 (run-IsReady hist h) p a w lt
      ∙ rw (reserved-run a ne hist p h, store_lem now.1 a w (run-IsMem hist valid h)) refl
