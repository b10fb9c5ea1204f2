-- ===== src/Examples/ProducerConsumer/Progress.antt =====
-- producer-consumer.c: states in which no process has a step.
use psim.Prelude.{ℕ, ◌^◌, ◌≤◌, ◌<◌, ◌≡◌, refl, ap, arith, ◌⊎◌, inl, inr}
use psim.Prelude.{
  List, [], ◌∷◌, get_elem?, set, All, length, length-replicate, Option-cases, none, some,
}
use psim.Prelude.{◌++◌}
use native.Mathlib.Decide.{dec_lt}
use psim.Examples.ProducerConsumer.{
  Shared, Producer, Consumer, c_start, c_done, System, Process, the_producer, the_consumer, step,
  run, start, p_done, step_producer, step_consumer,
}
use psim.Examples.ProducerConsumer.Counts.{Counts, total, c_waits, c_ends, p_ends, owed}
use psim.Examples.ProducerConsumer.Order.{range}
use psim.Examples.ProducerConsumer.Blocked.{
  Blocked, scan, Blocked-holds, Blocked-waits, Blocked-empty, Blocked-done, blocked_producer,
}
use psim.Examples.ProducerConsumer.Results.{start-Valid, run-taken_all}
use psim.Examples.ProducerConsumer.Awake.{Awake, run-Alive}

-- Every process is at its end.
abbrev pub IsFinished : System → Type 0
IsFinished s = (s.producer ≡ p_done) × All (λ c. c ≡ c_done) s.consumers

-- Some process has a step.
abbrev pub CanStep : ℕ → ℕ → System → Type 0
CanStep maxelem maxval s = (who : Process) × (s' : System) × (step maxelem maxval who s ≡ some s')

module _ (maxelem maxval nconsumers : ℕ) (big : 2 ≤ maxelem) (many : 1 ≤ nconsumers)
    (s : System) where
  consumer-CanStep :
      (j : ℕ) (c : Consumer) (out : Shared × Consumer × List ℕ)
      → get_elem? s.consumers j ≡ some c
      → step_consumer maxelem s.shared c ≡ some out
      → CanStep maxelem maxval s
  unfolding step
  consumer-CanStep j c (shared, c', new) p q = (
    the_consumer j,
    record s { shared = shared; consumers = set s.consumers j c'; taken = s.taken ++ new },
    ground (arith, p, q),
  )

  producer-CanStep :
      (out : Shared × Producer)
      → step_producer maxelem maxval s.shared s.producer ≡ some out
      → CanStep maxelem maxval s
  unfolding step
  producer-CanStep (shared, producer) p =
      (the_producer, record s { shared = shared; producer = producer }, ground (arith, p))

  module _ (h : Counts maxelem maxval s.shared s.producer s.consumers)
      (a : Awake nconsumers s.shared s.producer s.consumers)
      (all : All (Blocked maxelem s.shared) s.consumers) (free : 0 < s.shared.lock) where
    -- A producer that waits for room has a consumer to wake it.
    waiting-absurd : owed s.producer ≡ 1 → s.shared.full ≡ 0 → ⊥
    waiting-absurd o f =
        let full_ring : maxelem ≤ s.shared.ring.ct = ground (arith, h.asked, h.packed, o, f) in
        let none_ended : total c_ends s.consumers ≡ 0 = ground (arith, h.ended, full_ring, big) in
        let wait = Blocked-waits maxelem s.shared s.consumers all free in
        let none_woken =
          Blocked-empty maxelem s.shared s.consumers all (omega (arith, wait, a.number)) in
        ground (arith, wait, none_woken, none_ended, h.waiting, a.number, a.asleep, full_ring, o)

    done-IsFinished : s.producer ≡ p_done → IsFinished s
    done-IsFinished e =
        let left : p_ends s.producer ≡ 1 = ap p_ends e in
        let none_asleep = (h.closing (h.closed left)).1 in
        let none_wait : total c_waits s.consumers ≡ 0 =
          elim (dec_lt 0 (total c_waits s.consumers)) [
            | yes some_wait ↦ absurd (
                omega (
                  arith,
                  h.waiting,
                  none_asleep,
                  some_wait,
                  Blocked-empty maxelem s.shared s.consumers all some_wait,
                ))
            | no none_there ↦ omega arith
          ] in
        (e, Blocked-done maxelem s.shared s.consumers all free none_wait)

  Blocked-IsFinished :
      Counts maxelem maxval s.shared s.producer s.consumers
      → Awake nconsumers s.shared s.producer s.consumers
      → All (Blocked maxelem s.shared) s.consumers
      → step_producer maxelem maxval s.shared s.producer ≡ none
      → IsFinished s
  Blocked-IsFinished h a all p =
      let (off, cases) = blocked_producer maxelem s.shared maxval s.producer p in
      let free : 0 < s.shared.lock =
        omega (arith, h.locked, off, Blocked-holds maxelem s.shared s.consumers all) in
      elim (cases free) [
        | inl done ↦ done-IsFinished h a all free done
        | inr (o, f) ↦ absurd (waiting-absurd h a all free o f)
      ]

  IsFinished-or_step :
      Counts maxelem maxval s.shared s.producer s.consumers
      → Awake nconsumers s.shared s.producer s.consumers
      → IsFinished s ⊎ CanStep maxelem maxval s
  IsFinished-or_step h a = elim (scan maxelem s.shared s.consumers) [
    | inl (j, c, out, p, q) ↦ inr (consumer-CanStep j c out p q)
    | inr all ↦ elim (Option-cases (step_producer maxelem maxval s.shared s.producer)) [
      | inr (out, p) ↦ inr (producer-CanStep out p)
      | inl p ↦ inl (Blocked-IsFinished h a all p)
    ]
  ]

total-done : (cs : List Consumer) → All (λ c. c ≡ c_done) cs → total c_ends cs ≡ length cs
total-done [] h = refl
total-done (c ∷ cs) (e, h) = omega (arith, ap c_ends e, total-done cs h)

-- The system has come to its end, with all the numbers below MAXVAL taken in their order, or it goes
-- on.
abbrev pub Lives : ℕ → ℕ → System → Type 0
Lives maxelem maxval s = (IsFinished s × (s.taken ≡ range 0 maxval)) ⊎ CanStep maxelem maxval s

-- The system cannot get stuck, if MAXELEM is a power of two and at least 2 and there is a consumer:
-- whatever the steps before, some process has a step, or all of them are at their ends and the
-- consumers have taken all the numbers below MAXVAL, in their order.
pub run-Lives :
    (maxelem k maxval nconsumers : ℕ)
    → maxelem ≡ 2 ^ k
    → 2 ≤ maxelem
    → 1 ≤ nconsumers
    → (schedule : List Process)
    → Lives maxelem maxval (run maxelem maxval schedule (start maxelem nconsumers))
run-Lives maxelem k maxval nconsumers power big many schedule =
    let place : 0 < maxelem = omega arith in
    let first = start maxelem nconsumers in
    let awake : Awake nconsumers first.shared first.producer first.consumers = record {
      number = length-replicate nconsumers c_start;
      asleep = λ h. omega arith;
    } in
    let (v, a) =
      run-Alive maxelem k maxval nconsumers power big many schedule first
        (start-Valid maxelem k maxval nconsumers power place, awake) in
    let final = run maxelem maxval schedule first in
    let result : IsFinished final ⊎ CanStep maxelem maxval final =
      IsFinished-or_step maxelem maxval nconsumers big many final v.0 a in
    elim result [
      | inr steps ↦ inr steps
      | inl done ↦ inl (
        done,
        run-taken_all maxelem k maxval nconsumers power place schedule
            (omega (arith, total-done final.consumers done.1, a.number)),
      )
    ]
