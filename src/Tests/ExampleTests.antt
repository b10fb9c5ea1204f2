-- ===== src/Tests/ExampleTests.antt =====
-- Four philosophers sit down and a fifth waits until one gets up; producer-consumer.c with two places, one consumer and three items; and with one place, where it gets
-- stuck.
use psim.Prelude.{
  ℕ, ◌+◌, ◌≡◌, ◌≤◌, ◌<◌, refl, arith, List, [], ◌∷◌, ◌++◌, length, none, replicate, some,
}
use mathlib.Core.Option
use psim.Examples.ProducerConsumer.{System, Process, the_producer, the_consumer, step, run, start}
use psim.Examples.ProducerConsumer.Counts.{total, c_holds, c_ends, p_holds}
use psim.Examples.ProducerConsumer.Order.{range}
use psim.Examples.ProducerConsumer.Results.{run-taken, run-taken_all}
use psim.Examples.ProducerConsumer.Progress.{Lives, run-Lives}
use psim.Examples.Philosophers
use psim.Examples.Philosophers.{Room}
use psim.Examples.Philosophers.Safety.{ServesAll, start-ServesAll}

-- Four sit down, the fifth asks in vain, the first gets up and the fifth sits down.
abbrev turns : List ℕ
turns = (0 ∷ 1 ∷ 2 ∷ 3 ∷ 4 ∷ []) ++ replicate 5 0 ++ (4 ∷ [])

turns_table :
    Option.map (λ r. r.footman.table.arr) (Philosophers.run turns (Philosophers.start 1))
    ≡ some (4 ∷ 1 ∷ 3 ∷ 5 ∷ [])
unfolding Philosophers.run
turns_table = refl

start-ServesAll_example : ServesAll (Philosophers.run turns (Philosophers.start 1))
start-ServesAll_example = start-ServesAll 1 turns

abbrev schedule : List Process
schedule = replicate 9 the_producer ++ replicate 6 (the_consumer 0) ++ replicate 9 the_producer

abbrev after : System
after = run 2 3 schedule (start 2 1)

after_taken : after.taken ≡ 0 ∷ 1 ∷ []
unfolding run
after_taken = refl

run-taken_example :
    (after.taken ≡ range 0 (length after.taken))
    × (length after.taken ≤ 3)
    × (after.shared.ring.ct ≤ 2)
    × (p_holds after.producer + total c_holds after.consumers ≤ 1)
run-taken_example = run-taken 2 1 3 1 refl (omega arith) schedule

abbrev to_the_end : List Process
to_the_end = schedule ++ replicate 6 (the_consumer 0)

run-taken_all_example : (run 2 3 to_the_end (start 2 1)).taken ≡ range 0 3
run-taken_all_example = run-taken_all 2 1 3 1 refl (omega arith) to_the_end ended
  where
    ended : 0 < total c_ends (run 2 3 to_the_end (start 2 1)).consumers
    ended = unfold run in omega arith

run-Lives_example : Lives 2 3 after
run-Lives_example = run-Lives 2 1 3 1 refl (omega arith) (omega arith) schedule

-- With one place: the consumer waits for an item, and the producer for room.
abbrev to_the_stop : List Process
to_the_stop =
    replicate 3 (the_consumer 0)
    ++ replicate 6 the_producer
    ++ replicate 7 (the_consumer 0)
    ++ replicate 7 the_producer

stopped :
    (step 1 3 the_producer (run 1 3 to_the_stop (start 1 1)) ≡ none)
    × (step 1 3 (the_consumer 0) (run 1 3 to_the_stop (start 1 1)) ≡ none)
unfolding run step
stopped = (refl, refl)
