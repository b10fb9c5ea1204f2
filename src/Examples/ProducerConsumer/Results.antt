-- ===== src/Examples/ProducerConsumer/Results.antt =====
-- producer-consumer.c: the system after any number of steps in any order.
use psim.Prelude.{ℕ, zero, suc, ◌+◌, ◌^◌, ◌≤◌, ◌<◌, ◌≡◌, refl, ap, sym, ◌∙◌, arith}
use psim.Prelude.{List, [], ◌++◌, replicate, length, length-append, List-cases, inl, inr}
use mathlib.Core.List.{append-nil}
use psim.Examples.BufferLaws.{no_items-Holds}
use psim.Examples.ProducerConsumer.{Producer, Consumer, c_start, System, Process, run, start}
use psim.Examples.ProducerConsumer.Counts.{total, c_holds, c_waits, c_ends, p_holds, p_ends, goal}
use psim.Examples.ProducerConsumer.Order.{range, range-prefix, produced, Valid, run-Valid}

total-start : (f : Consumer → ℕ) (n : ℕ) → f c_start ≡ 0 → total f (replicate n c_start) ≡ 0
total-start f zero e = refl
total-start f (suc n) e = omega (arith, e, total-start f n e)

length-range : (a n : ℕ) → length (range a n) ≡ n
length-range a zero = refl
length-range a (suc n) = ap suc (length-range (a + 1) n)

produced-le_goal : (maxval : ℕ) (p : Producer) → produced maxval p ≤ goal maxval p
produced-le_goal maxval p = ground arith

produced_at_end : (maxval : ℕ) (p : Producer) → p_ends p ≡ 1 → produced maxval p ≡ maxval
produced_at_end maxval p e = ground (arith, e)

module _ (maxelem k maxval nconsumers : ℕ) (power : maxelem ≡ 2 ^ k)
    (some_place : 0 < maxelem) where
  pub start-Valid : Valid maxelem k maxval power (start maxelem nconsumers)
  start-Valid = (
    record {
      locked = omega (arith, total-start c_holds nconsumers refl);
      waiting = omega (arith, total-start c_waits nconsumers refl);
      asked = refl;
      room = λ h. absurd (omega (arith, h));
      packed = λ e. absurd (ground (arith, e));
      bound = omega arith;
      ended = λ h. absurd (omega (arith, h, total-start c_ends nconsumers refl));
      closing = λ e. absurd (ground (arith, e));
      closed = λ e. absurd (ground (arith, e));
      within = omega arith;
    },
    ([], no_items-Holds maxelem some_place, refl),
  )

  module _ (schedule : List Process) where
    -- The system after the schedule
    abbrev pub final : System
    final = run maxelem maxval schedule (start maxelem nconsumers)

    final-Valid : Valid maxelem k maxval power final
    final-Valid = run-Valid maxelem k maxval power schedule (start maxelem nconsumers) start-Valid

    -- Whatever the order of the steps, and whatever number of them, if MAXELEM is a power of two: the
    -- consumers together have taken the first numbers from 0 on, each once and in their order, below
    -- MAXVAL; the buffer holds at most MAXELEM items; and at most one process is in a critical section.
    pub run-taken :
        (final.taken ≡ range 0 (length final.taken))
        × (length final.taken ≤ maxval)
        × (final.shared.ring.ct ≤ maxelem)
        × (p_holds final.producer + total c_holds final.consumers ≤ 1)
    run-taken =
        let (h, (items, holds, e)) = final-Valid in
        let all = ap length e in
        (
          range-prefix final.taken items 0 (produced maxval final.producer) e,
          omega (
            arith,
            all,
            length-append final.taken items,
            length-range 0 (produced maxval final.producer),
            produced-le_goal maxval final.producer,
            h.within,
          ),
          h.bound,
          omega (arith, h.locked),
        )

    -- A consumer that has seen the end comes after all items: the consumers have then taken all the
    -- numbers below MAXVAL.
    pub run-taken_all : 0 < total c_ends final.consumers → final.taken ≡ range 0 maxval
    run-taken_all some_end =
        let (h, (items, holds, e)) = final-Valid in
        let (off, none_left) = h.ended some_end in
        let ends = (h.closing off).0 in
        elim (List-cases items) [
          | inl nothing ↦
              sym (append-nil final.taken)
              ∙ ap (λ xs. final.taken ++ xs) (sym nothing)
              ∙ e
              ∙ ap (range 0) (produced_at_end maxval final.producer ends)
          | inr (x, xs, split) ↦ absurd (omega (arith, holds.count, none_left, ap length split))
        ]
