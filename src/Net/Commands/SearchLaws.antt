-- ===== src/Net/Commands/SearchLaws.antt =====
-- The search of `alt`: it ends within a round of the mailboxes, with the first one that is ready.
use psim.Prelude.{◌≢◌, ℕ, zero, suc, ◌+◌, ◌%◌, ◌<◌, ◌≡◌, refl, ap, sym, ◌∙◌, arith, true, false}
use psim.Prelude.{List, Option, Bool-cases, inl, inr, eq→==, ne→==}
use psim.Prelude.Cyclic.{ring-back, ring-away, ring-index}
use native.Mathlib.Decide.{ℕ_discrete}
use native.Mathlib.Nat.{mod-add-mod, mod-eq_of_lt}
use mathlib.Core.Path.{subst}
use psim.Net.State.{Msg}
use psim.Net.Invariant.{Yields}
use psim.Net.Commands.Search.{Found, found, exhausted, ready, search_from, search}

module _ (clauses : List ℕ) (mbox : List (Option Msg)) (size start : ℕ) where
  -- The mailbox is the first, from `start` on round the network, that is ready; or none is ready,
  -- and the search is back at `start`.
  abbrev pub IsFirst : Found → Type 0
  IsFirst (found c) =
      (k : ℕ) × (k < size)
      × (c ≡ (start + k) % size)
      × (ready clauses mbox size start c ≡ true)
      × ((j : ℕ) → j < k → ready clauses mbox size start ((start + j) % size) ≡ false)
  IsFirst (exhausted c) =
      (c ≡ start) × ((j : ℕ) → j < size → ready clauses mbox size start j ≡ false)

  -- What the search has passed
  abbrev Passed : ℕ → Type 0
  Passed k = (j : ℕ) → j < k → ready clauses mbox size start ((start + j) % size) ≡ false

  Passed-next :
      (k : ℕ)
      → Passed k
      → ready clauses mbox size start ((start + k) % size) ≡ false
      → Passed (suc k)
  Passed-next k before here j lt = elim (ℕ_discrete j k) [
    | yes p ↦ subst (λ t. ready clauses mbox size start ((start + t) % size) ≡ false) (sym p) here
    | no p ↦ before j (omega arith)
  ]

  Passed-all :
      start < size → Passed size → (j : ℕ) → j < size → ready clauses mbox size start j ≡ false
  Passed-all lt all j h =
      let (k, inside, at) = ring-index size start j lt h in
      subst (λ t. ready clauses mbox size start t ≡ false) at (all k inside)

  search_from-IsFirst :
      (fuel k : ℕ)
      → start < size
      → fuel + k ≡ size
      → k < size
      → Passed k
      → Yields (search_from clauses mbox size start fuel ((start + k) % size)) IsFirst
  unfolding search_from
  search_from-IsFirst zero k lt e inside before = absurd (omega arith)
  search_from-IsFirst (suc fuel) k lt e inside before =
      let cur = (start + k) % size in
      let nxt = (cur + 1) % size in
      let next : nxt ≡ (start + suc k) % size =
        mod-add-mod (start + k) size 1 ∙ ap (λ t. t % size) (omega arith) in
      elim (Bool-cases (ready clauses mbox size start cur)) [
        | inl p ↦ (found cur, rw (p, search_from) refl, (k, inside, refl, p, before))
        | inr p ↦ elim (ℕ_discrete (suc k) size) [
          | yes last ↦
              let back : nxt ≡ start = next ∙ ring-back size start k lt last in
              let all : Passed size = subst Passed last (Passed-next k before p) in
              (
                exhausted nxt,
                rw (p, search_from) (rw (eq→== nxt start back, search_from) refl),
                (back, Passed-all lt all),
              )
          | no more ↦
              let away : nxt ≢ start =
                λ e. ring-away size start k lt (omega arith) (sym e ∙ next) in
              let (out, q, first) =
                subst (λ c. Yields (search_from clauses mbox size start fuel c) IsFirst) (sym next)
                  (search_from-IsFirst fuel (suc k) lt (omega arith) (omega arith)
                    (Passed-next k before p)) in
              (out, rw (p, search_from) (rw (ne→== nxt start away, search_from) q), first)
        ]
      ]

  pub search-IsFirst : start < size → Yields (search clauses mbox size start size start) IsFirst
  unfolding search
  search-IsFirst lt =
      let here : (start + 0) % size ≡ start = ap (λ t. t % size) (omega arith) ∙ mod-eq_of_lt lt in
      subst (λ c. Yields (search_from clauses mbox size start size c) IsFirst) here
        (search_from-IsFirst size 0 lt (omega arith) (omega arith) (λ j h. absurd (omega arith)))
