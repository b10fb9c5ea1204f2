-- ===== src/Net/Commands/Search.antt =====
-- net.c: the clauses of `alt` and its search, round the mailboxes from `mbox_start` on.
use psim.Prelude.{ℕ, zero, suc, ◌+◌, ◌%◌, Bool, true, false, ◌&&◌, ◌||◌, ◌==◌, if◌then◌else◌}
use psim.Prelude.{List, [], ◌∷◌, get_elem?, Option, none, some, ok, err, fault}
use psim.Mem
use psim.Mem.{Mem, word_at}
use psim.Net.State.{Msg}

-- The `n` words from index `k` on, with the last of them; `none` where one lies outside the memory.
unfoldable pub words_at : Mem → ℕ → ℕ → Option (List ℕ × ℕ)
unfolding Mem.word_at
words_at mem k zero = some ([], 0)
words_at mem k (suc zero) = elim (word_at mem k) [
  | ok w ↦ some (w ∷ [], w)
  | err e ↦ none
  | fault ↦ none
]
words_at mem k (suc (suc n)) = elim (word_at mem k) [
  | ok w ↦ elim (words_at mem (k + 1) (suc n)) [
    | some (ws, last) ↦ some (w ∷ ws, last)
    | none ↦ none
  ]
  | err e ↦ none
  | fault ↦ none
]

-- The inner loop: does the processor stand in a clause?
unfoldable pub belongs : List ℕ → ℕ → Bool
belongs [] cur = false
belongs (c ∷ cs) cur = (c == cur) || belongs cs cur

abbrev pub is_full : Option (Option Msg) → Bool
is_full (some (some msg)) = true
is_full _ = false

-- How the search ends, with the last value of `cur`
pub data Found : Type 0 where
  found : ℕ → Found
  exhausted : ℕ → Found

module _ (clauses : List ℕ) (mbox : List (Option Msg)) (size start : ℕ) where
  -- Has the mailbox a message that a clause asks for?
  unfoldable pub ready : ℕ → Bool
  unfolding belongs
  ready cur = belongs clauses cur && is_full (get_elem? mbox cur)

  -- The loop, on fuel: `none` would be a search that goes on.
  unfoldable pub search_from : ℕ → ℕ → Option Found
  unfolding belongs ready
  search_from zero cur = none
  search_from (suc fuel) cur =
      let nxt = (cur + 1) % size in
      let rest = search_from fuel nxt in
      if ready cur then some (found cur) else if nxt == start then some (exhausted nxt) else rest

-- The search on a round of fuel, which Net/Commands/SearchLaws shows to be enough.
unfoldable pub search : List ℕ → List (Option Msg) → ℕ → ℕ → ℕ → ℕ → Option Found
unfolding search_from
search clauses mbox size start fuel cur = search_from clauses mbox size start fuel cur
