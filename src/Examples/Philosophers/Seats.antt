-- ===== src/Examples/Philosophers/Seats.antt =====
-- The philosophers that sit, counted by their processors.
use psim.Prelude.{ℕ, zero, suc, ◌+◌, ◌<◌, ◌≡◌, refl, arith, ◌==◌, if◌then◌else◌, true, false}
use psim.Prelude.{List, [], ◌∷◌, get_elem?, set, take, some, Bool-cases, inl, inr}
use psim.Examples.Philosophers.{
  Stage, s_own, s_nbr, s_put_nbr, s_put_own, s_getup, Philosopher, is_clause,
}
use psim.Examples.Philosophers.Counts.{count}

-- Does the philosopher sit, from its SITDOWN to its GETUP?
abbrev pub seat : Stage → ℕ
seat s_own = 1
seat s_nbr = 1
seat s_put_nbr = 1
seat s_put_own = 1
seat s_getup = 1
seat _ = 0

-- How many of the processors `ids`, of the philosophers `ps`, are `v` and sit
abbrev pub sits : ℕ → List ℕ → List Philosopher → ℕ
sits v [] ps = 0
sits v (id ∷ ids) [] = 0
sits v (id ∷ ids) (p ∷ ps) = (if id == v then seat p.stage else 0) + sits v ids ps

pub sits-set :
    (v j id : ℕ) (ids : List ℕ) (ps : List Philosopher) (p q : Philosopher)
    → get_elem? ids j ≡ some id
    → get_elem? ps j ≡ some p
    → sits v ids (set ps j q) + (if id == v then seat p.stage else 0)
      ≡ sits v ids ps + (if id == v then seat q.stage else 0)
sits-set v j id [] ps p q e f = absurd (ground (arith, e))
sits-set v j id (i ∷ ids) [] p q e f = absurd (ground (arith, f))
sits-set v zero id (i ∷ ids) (r ∷ ps) p q e f = ground (arith, e, f)
sits-set v (suc j) id (i ∷ ids) (r ∷ ps) p q e f = omega (arith, sits-set v j id ids ps p q e f)

-- A list without repetition
abbrev pub AreDistinct : List ℕ → Type 0
AreDistinct [] = Unit
AreDistinct (x ∷ xs) = (is_clause x xs ≡ false) × AreDistinct xs

sits-absent :
    (v : ℕ) (ids : List ℕ) (ps : List Philosopher) → is_clause v ids ≡ false → sits v ids ps ≡ 0
sits-absent v [] ps h = refl
sits-absent v (i ∷ ids) [] h = refl
sits-absent v (i ∷ ids) (p ∷ ps) h =
    let later : is_clause v ids ≡ false = ground (arith, h) in
    ground (arith, h, sits-absent v ids ps later)

is_clause-get_elem? : (ids : List ℕ) (j v : ℕ) → get_elem? ids j ≡ some v → is_clause v ids ≡ true
is_clause-get_elem? [] j v e = absurd (ground (arith, e))
is_clause-get_elem? (i ∷ ids) zero v e = ground (arith, e)
is_clause-get_elem? (i ∷ ids) (suc j) v e =
    let later = is_clause-get_elem? ids j v e in ground (arith, later)

pub sits-own :
    (ids : List ℕ) (ps : List Philosopher) (j id : ℕ) (p : Philosopher)
    → AreDistinct ids
    → get_elem? ids j ≡ some id
    → get_elem? ps j ≡ some p
    → sits id ids ps ≡ seat p.stage
sits-own [] ps j id p d e f = absurd (ground (arith, e))
sits-own (i ∷ ids) [] j id p d e f = absurd (ground (arith, f))
sits-own (i ∷ ids) (r ∷ ps) zero id p (a, d) e f =
    let absent = sits-absent i ids ps a in ground (arith, absent, e, f)
sits-own (i ∷ ids) (r ∷ ps) (suc j) id p (a, d) e f =
    let there = is_clause-get_elem? ids j id e in
    ground (arith, sits-own ids ps j id p d e f, there, a)

pub count-is_clause : (v n : ℕ) (xs : List ℕ) → is_clause v (take n xs) ≡ true → 0 < count v n xs
count-is_clause v zero xs h = absurd (ground (arith, h))
count-is_clause v (suc n) [] h = absurd (ground (arith, h))
count-is_clause v (suc n) (x ∷ xs) h = elim (Bool-cases (x == v)) [
  | inl p ↦ ground (arith, p)
  | inr p ↦
      let later : is_clause v (take n xs) ≡ true = ground (arith, h, p) in
      ground (arith, count-is_clause v n xs later)
]
