-- ===== src/Examples/Philosophers/Counts.antt =====
-- How often a processor stands among the first places of the table's array.
use psim.Prelude.{ℕ, zero, suc, ◌+◌, ◌≤◌, ◌<◌, ◌≡◌, refl, ap, arith, ◌==◌, if◌then◌else◌}
use psim.Prelude.{List, [], ◌∷◌, get_elem?, set, some, Bool-cases, inl, inr, ==→eq}
use psim.Examples.Philosophers.{find}

abbrev pub one_if : ℕ → ℕ → ℕ
one_if x v = if x == v then 1 else 0

abbrev pub count : ℕ → ℕ → List ℕ → ℕ
count v zero xs = 0
count v (suc n) [] = 0
count v (suc n) (x ∷ xs) = one_if x v + count v n xs

-- One place more
pub count-suc :
    (v n x : ℕ) (xs : List ℕ)
    → get_elem? xs n ≡ some x
    → count v (suc n) xs ≡ count v n xs + one_if x v
count-suc v n x [] e = absurd (ground (arith, e))
count-suc v zero x (y ∷ ys) e = ground (arith, e)
count-suc v (suc n) x (y ∷ ys) e = omega (arith, count-suc v n x ys e)

-- Another value at a place among the first, and at one after them
pub count-set :
    (v n i x y : ℕ) (xs : List ℕ)
    → i < n
    → get_elem? xs i ≡ some x
    → count v n (set xs i y) + one_if x v ≡ count v n xs + one_if y v
count-set v zero i x y xs lt e = absurd (omega arith)
count-set v (suc n) i x y [] lt e = absurd (ground (arith, e))
count-set v (suc n) zero x y (z ∷ zs) lt e = ground (arith, e)
count-set v (suc n) (suc i) x y (z ∷ zs) lt e =
    omega (arith, count-set v n i x y zs (omega arith) e)

pub count-set_after : (v n i y : ℕ) (xs : List ℕ) → n ≤ i → count v n (set xs i y) ≡ count v n xs
count-set_after v zero i y xs le = refl
count-set_after v (suc n) i y [] le = refl
count-set_after v (suc n) zero y (z ∷ zs) le = absurd (omega arith)
count-set_after v (suc n) (suc i) y (z ∷ zs) le =
    omega (arith, count-set_after v n i y zs (omega arith))

-- `find` finds what stands among the first places, there.
pub find-count :
    (xs : List ℕ) (size v n : ℕ)
    → n ≤ size
    → 0 < count v n xs
    → (i : ℕ) × (find xs size v ≡ some i) × (i < n) × (get_elem? xs i ≡ some v)
unfolding find
find-count xs size v zero le some_there = absurd (omega arith)
find-count [] size v (suc n) le some_there = absurd (omega arith)
find-count (x ∷ xs) zero v (suc n) le some_there = absurd (omega arith)
find-count (x ∷ xs) (suc size) v (suc n) le some_there = elim (Bool-cases (x == v)) [
  | inl p ↦ (0, ground (arith, p), omega arith, ap some (==→eq x v p))
  | inr p ↦
      let later : 0 < count v n xs = ground (arith, some_there, p) in
      let (i, q, lt, at) = find-count xs size v n (omega arith) later in
      (suc i, ground (arith, p, q), omega arith, at)
]
