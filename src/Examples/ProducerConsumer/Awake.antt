-- ===== src/Examples/ProducerConsumer/Awake.antt =====
-- producer-consumer.c: the consumers that wait, and those that are woken.
use psim.Prelude.{ℕ, ◌+◌, ◌^◌, ◌≤◌, ◌≡◌, arith, inl, inr}
use psim.Prelude.{List, [], ◌∷◌, get_elem?, set, length, length-set, Option-cases, some}
use mathlib.Core.Path.{subst}
use psim.Prelude.{◌++◌}
use psim.Examples.Semaphore.{sem_p, sem_v}
use psim.Examples.Buffer.{enqueue, dequeue}
use psim.Examples.ProducerConsumer.{
  Shared, Producer, Consumer, System, Process, the_producer, the_consumer, step, run, step_producer,
  step_consumer, produce, consume,
}
use psim.Examples.ProducerConsumer.Counts.{Counts, total, c_waits, owed, granted}
use psim.Examples.ProducerConsumer.Order.{Valid, step-Valid}

-- While all consumers wait and none is woken, the buffer is empty, or it is about to be looked at.
pub record Awake (nconsumers : ℕ) (s : Shared) (p : Producer) (cs : List Consumer) : Type 0 where
  pub number : length cs ≡ nconsumers
  pub asleep : nconsumers ≤ s.nempty → s.ring.ct + owed p + granted p ≤ 1

c_waits-le : (cs : List Consumer) → total c_waits cs ≤ length cs
c_waits-le [] = omega arith
c_waits-le (c ∷ cs) = let one : c_waits c ≤ 1 = ground arith in omega (arith, c_waits-le cs)

producer-Awake :
    (maxelem maxval nconsumers : ℕ) (p p' : Producer) (s s' : Shared) (cs : List Consumer)
    → 2 ≤ maxelem
    → 1 ≤ nconsumers
    → Counts maxelem maxval s p cs
    → Awake nconsumers s p cs
    → step_producer maxelem maxval s p ≡ some (s', p')
    → Awake nconsumers s' p' cs
unfolding step_producer sem_p sem_v produce enqueue
producer-Awake maxelem maxval nconsumers p p' s s' cs big many h a e =
    ground (arith, big, many, h.waiting, h.asked, h.packed, h.bound, a, e, c_waits-le cs)

consumer-Awake :
    (maxelem nconsumers : ℕ) (p : Producer) (c c' : Consumer) (s s' : Shared) (cs : List Consumer)
    (j : ℕ) (items : List ℕ)
    → Awake nconsumers s p cs
    → step_consumer maxelem s c ≡ some (s', c', items)
    → Awake nconsumers s' p (set cs j c')
unfolding step_consumer sem_p sem_v consume dequeue
consumer-Awake maxelem nconsumers p c c' s s' cs j items a e =
    let one : owed p + granted p ≤ 1 = ground arith in ground (arith, one, length-set cs j c', a, e)

module _ (maxelem k maxval nconsumers : ℕ) (power : maxelem ≡ 2 ^ k) (big : 2 ≤ maxelem)
    (many : 1 ≤ nconsumers) where
  -- The invariant of the system
  abbrev pub Alive : System → Type 0
  Alive s = Valid maxelem k maxval power s × Awake nconsumers s.shared s.producer s.consumers

  step-Alive :
      (who : Process) (s s' : System) → Alive s → step maxelem maxval who s ≡ some s' → Alive s'
  unfolding step
  step-Alive the_producer s s' (v, a) e =
      elim (Option-cases (step_producer maxelem maxval s.shared s.producer)) [
        | inl p ↦ absurd (ground (arith, p, e))
        | inr ((shared, producer), p) ↦
            let same : record s { shared = shared; producer = producer } ≡ s' =
              ground (arith, p, e) in
            (
              step-Valid maxelem k maxval power the_producer s s' v e,
              subst (λ t. Awake nconsumers t.shared t.producer t.consumers) same
                  (producer-Awake maxelem maxval nconsumers s.producer producer s.shared shared
                    s.consumers big many v.0 a p),
            )
      ]
  step-Alive (the_consumer j) s s' (v, a) e = elim (Option-cases (get_elem? s.consumers j)) [
    | inl q ↦ absurd (ground (arith, q, e))
    | inr (c, q) ↦ elim (Option-cases (step_consumer maxelem s.shared c)) [
      | inl p ↦ absurd (ground (arith, q, p, e))
      | inr ((shared, c', new), p) ↦
          let same : record s {
            shared = shared;
            consumers = set s.consumers j c';
            taken = s.taken ++ new;
          }
              ≡ s' =
            ground (arith, q, p, e) in
          (
            step-Valid maxelem k maxval power (the_consumer j) s s' v e,
            subst (λ t. Awake nconsumers t.shared t.producer t.consumers) same
                (consumer-Awake maxelem nconsumers s.producer c c' s.shared shared s.consumers j new
                  a p),
          )
    ]
  ]

  pub run-Alive :
      (schedule : List Process) (s : System) → Alive s → Alive (run maxelem maxval schedule s)
  unfolding run
  run-Alive [] s h = h
  run-Alive (who ∷ schedule) s h = elim (Option-cases (step maxelem maxval who s)) [
    | inl p ↦ rw (p, run) (run-Alive schedule s h)
    | inr (s', p) ↦ rw (p, run) (run-Alive schedule s' (step-Alive who s s' h p))
  ]
