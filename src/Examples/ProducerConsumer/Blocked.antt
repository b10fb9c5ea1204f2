-- ===== src/Examples/ProducerConsumer/Blocked.antt =====
-- Processes that have no step, and what they wait for.
use psim.Prelude.{ℕ, suc, ◌+◌, ◌<◌, ◌≡◌, refl, arith, ◌⊎◌, inl, inr}
use psim.Prelude.{List, [], ◌∷◌, get_elem?, All, length, Option-cases, none, some}
use native.Mathlib.Decide.{dec_lt}
use psim.Examples.Semaphore.{sem_p}
use psim.Examples.ProducerConsumer.{
  Shared, Producer, Consumer, c_done, p_done, step_producer, step_consumer, produce,
}
use psim.Examples.ProducerConsumer.Counts.{total, c_holds, c_waits, c_ends, p_holds, owed}

-- No step of the consumer is possible now.
abbrev pub Blocked : ℕ → Shared → Consumer → Type 0
Blocked maxelem s c = step_consumer maxelem s c ≡ none

pub scan :
    (maxelem : ℕ) (s : Shared) (cs : List Consumer)
    → ((j : ℕ) × (c : Consumer) × (out : Shared × Consumer × List ℕ) × (get_elem? cs j ≡ some c)
        × (step_consumer maxelem s c ≡ some out))
      ⊎ All (Blocked maxelem s) cs
scan maxelem s [] = inr tt
scan maxelem s (c ∷ cs) = elim (Option-cases (step_consumer maxelem s c)) [
  | inr (out, p) ↦ inl (0, c, out, refl, p)
  | inl p ↦ elim (scan maxelem s cs) [
    | inl (j, d, out, q, r) ↦ inl (suc j, d, out, q, r)
    | inr all ↦ inr (p, all)
  ]
]

-- Consumers that are all blocked hold no lock; and with the lock free, they wait for an empty
-- semaphore or are done.
module _ (maxelem : ℕ) (s : Shared) where
  pub Blocked-holds : (cs : List Consumer) → All (Blocked maxelem s) cs → total c_holds cs ≡ 0
  unfolding step_consumer
  Blocked-holds [] h = refl
  Blocked-holds (c ∷ cs) (p, h) =
      let none_here : c_holds c ≡ 0 = ground (arith, p) in omega (arith, Blocked-holds cs h)

  pub Blocked-waits :
      (cs : List Consumer)
      → All (Blocked maxelem s) cs
      → 0 < s.lock
      → total c_waits cs + total c_ends cs ≡ length cs
  unfolding step_consumer sem_p
  Blocked-waits [] h free = refl
  Blocked-waits (c ∷ cs) (p, h) free =
      let here : c_waits c + c_ends c ≡ 1 = ground (arith, p, free) in
      omega (arith, Blocked-waits cs h free)

  pub Blocked-empty :
      (cs : List Consumer) → All (Blocked maxelem s) cs → 0 < total c_waits cs → s.empty ≡ 0
  unfolding step_consumer sem_p
  Blocked-empty [] h some_wait = absurd (omega (arith, some_wait))
  Blocked-empty (c ∷ cs) (p, h) some_wait = elim (dec_lt 0 (c_waits c)) [
    | yes here ↦ ground (arith, here, p)
    | no other ↦ Blocked-empty cs h (omega arith)
  ]

  pub Blocked-done :
      (cs : List Consumer)
      → All (Blocked maxelem s) cs
      → 0 < s.lock
      → total c_waits cs ≡ 0
      → All (λ c. c ≡ c_done) cs
  unfolding step_consumer sem_p
  Blocked-done [] h free w = tt
  Blocked-done (c ∷ cs) (p, h) free w =
      let awake : c_waits c ≡ 0 = omega arith in
      (ground (arith, p, free, awake), Blocked-done cs h free (omega arith))

  pub blocked_producer :
      (maxval : ℕ) (p : Producer)
      → step_producer maxelem maxval s p ≡ none
      → (p_holds p ≡ 0) × (0 < s.lock → (p ≡ p_done) ⊎ ((owed p ≡ 1) × (s.full ≡ 0)))
  unfolding step_producer sem_p produce
  blocked_producer maxval p e = ground (arith, e)
