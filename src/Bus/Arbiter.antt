-- ===== src/Bus/Arbiter.antt =====
-- What the memory controller promises: a queue of distinct processors that ask for the bus, first
-- come first served, and one grant in a cycle.
use psim.Prelude.{ℕ, zero, suc, ◌≤◌, ◌<◌, ◌≡◌, refl, arith, Bool, true, false, ◌||◌, ◌&&◌, not}
use psim.Prelude.{◌==◌, if◌then◌else◌, List, [], ◌∷◌, ◌++◌, length, All}
use psim.Prelude.{◌≢◌, Bool-cases, inl, inr}

-- Is the processor waiting?
abbrev pub elem : List ℕ → ℕ → Bool
elem [] p = false
elem (q ∷ qs) p = (q == p) || elem qs p

abbrev pub Distinct : List ℕ → Type 0
Distinct [] = Unit
Distinct (q ∷ qs) = (elem qs q ≡ false) × Distinct qs

abbrev pub Below : ℕ → List ℕ → Type 0
Below n = All (λ p. p < n)

-- The abstract controller: has the bus been used in this cycle, and who waits?
pub record Arbiter : Type 0 where
  pub used : Bool
  pub waiting : List ℕ

abbrev pub join : List ℕ → ℕ → List ℕ
join qs p = if elem qs p then qs else qs ++ (p ∷ [])

-- The head of the queue gets the bus, if it is free.
unfoldable pub serve : Bool → List ℕ → ℕ → Bool × Arbiter
serve used [] p = (false, record { used = used; waiting = [] })
serve used (q ∷ qs) p =
    if not used && (q == p)
    then (true, record { used = true; waiting = qs })
    else (false, record { used = used; waiting = q ∷ qs })

unfoldable pub request : Arbiter → ℕ → Bool × Arbiter
unfolding serve
request a p = serve a.used (join a.waiting p) p

-- Removes one waiting processor.
abbrev without : ℕ → List ℕ → List ℕ
without v [] = []
without v (x ∷ xs) = if x == v then xs else x ∷ without v xs

length-without : (v : ℕ) (xs : List ℕ) → length xs ≤ suc (length (without v xs))
length-without v [] = omega arith
length-without v (x ∷ xs) = ground (arith, length-without v xs)

elem-without : (v x : ℕ) (xs : List ℕ) → elem xs x ≡ false → elem (without v xs) x ≡ false
elem-without v x [] h = refl
elem-without v x (y ∷ xs) h = ground (arith, elem-without v x xs)

Distinct-without : (v : ℕ) (xs : List ℕ) → Distinct xs → Distinct (without v xs)
Distinct-without v [] d = d
Distinct-without v (x ∷ xs) d = elim (Bool-cases (x == v)) [
  | inl e ↦ rw e d.1
  | inr e ↦ rw e (elem-without v x xs d.0, Distinct-without v xs d.1)
]

-- Processors below n + 1 other than n are below n.
Below-pred : (n : ℕ) (xs : List ℕ) → Below (suc n) xs → elem xs n ≡ false → Below n xs
Below-pred n [] b h = b
Below-pred n (x ∷ xs) b h = (ground arith, Below-pred n xs b.1 (ground arith))

Below-without : (n : ℕ) (xs : List ℕ) → Below (suc n) xs → Distinct xs → Below n (without n xs)
Below-without n [] b d = b
Below-without n (x ∷ xs) b d = elim (Bool-cases (x == n)) [
  | inl e ↦ rw e (Below-pred n xs b.1 (ground (arith, d.0)))
  | inr e ↦ rw e (ground arith, Below-without n xs b.1 d.1)
]

-- Distinct processors below `n` are at most `n`.
pub length-le_of_Distinct : (n : ℕ) (xs : List ℕ) → Distinct xs → Below n xs → length xs ≤ n
length-le_of_Distinct zero [] d b = omega arith
length-le_of_Distinct zero (x ∷ xs) d b = absurd (omega arith)
length-le_of_Distinct (suc n) xs d b = omega (
  arith,
  length-without n xs,
  length-le_of_Distinct n (without n xs) (Distinct-without n xs d) (Below-without n xs b d),
)

elem-append : (xs : List ℕ) (p x : ℕ) → elem xs x ≡ false → x ≢ p → elem (xs ++ (p ∷ [])) x ≡ false
elem-append [] p x h ne = ground arith
elem-append (y ∷ xs) p x h ne = ground (arith, elem-append xs p x)

pub Distinct-append :
    (xs : List ℕ) (p : ℕ) → Distinct xs → elem xs p ≡ false → Distinct (xs ++ (p ∷ []))
Distinct-append [] p d h = (refl, tt)
Distinct-append (x ∷ xs) p d h =
    (elem-append xs p x d.0 (ground arith), Distinct-append xs p d.1 (ground arith))

pub Below-append : (n : ℕ) (xs : List ℕ) (p : ℕ) → Below n xs → p < n → Below n (xs ++ (p ∷ []))
Below-append n [] p b h = (h, tt)
Below-append n (x ∷ xs) p b h = (b.0, Below-append n xs p b.1 h)
