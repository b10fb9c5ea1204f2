-- ===== src/Examples/ProducerConsumer.antt =====
-- producer-consumer.c: processor 0 puts the numbers below MAXVAL into the buffer, the others take
-- them out. Each P of a semaphore, each V that leaves a critical section and each critical section
-- is a step; the busy waits change nothing. MAXELEM and MAXVAL are parameters.
pub mod Counts
pub mod Order
pub mod Results
pub mod Blocked
pub mod Awake
pub mod Progress
use psim.Prelude.{ℕ, zero, suc, ◌+◌, ◌-◌, Bool, true, false, ltb, if◌then◌else◌}
use psim.Prelude.{List, [], ◌∷◌, ◌++◌, get_elem?, set, replicate, Option, none, some}
use psim.Examples.Semaphore.{sem_p, sem_v}
use psim.Examples.Buffer.{Ring, no_items, enqueue, dequeue, dequeue_item}

-- enum flag
pub data Flag : Type 0 where
  flag_success flag_empty flag_full flag_end : Flag

-- The static variables
pub record Shared : Type 0 where
  pub ring : Ring
  pub nempty : ℕ
  pub nfull : Bool
  pub producing : Bool
  pub lock : ℕ
  pub full : ℕ
  pub empty : ℕ

-- Where `producer` is, with its `i`: before the P(&lock) of a round, in the critical section, before
-- its V(&lock), before P(&full), before the second P(&lock), in the second critical section, before
-- its V(&lock); after the loop in the last critical section, before its V(&lock), and at the end.
pub data Producer : Type 0 where
  p_start p_inside : ℕ → Producer
  p_leaving : ℕ → Flag → Producer
  p_wait p_again p_refill p_refilled : ℕ → Producer
  p_closing p_closed p_done : Producer

-- Where `consumer` is: before P(&lock), in the critical section, before V(&lock), before P(&empty),
-- and at the end.
pub data Consumer : Type 0 where
  c_start c_inside : Consumer
  c_leaving : Flag → Consumer
  c_wait c_done : Consumer

-- The body of the first critical section of `producer`
unfoldable pub produce : ℕ → ℕ → Shared → Shared × Producer
unfolding enqueue sem_v
produce maxelem i s =
    if ltb s.ring.ct maxelem
    then (
      if ltb 0 s.nempty
          then record s {
            ring = enqueue maxelem s.ring i;
            empty = sem_v s.empty;
            nempty = s.nempty - 1;
          }
          else record s { ring = enqueue maxelem s.ring i },
      p_leaving i flag_success,
    )
    else (record s { nfull = true }, p_leaving i flag_full)

-- The loop that wakes the consumers, with `nempty` rounds left
unfoldable pub wake_all : ℕ → ℕ → ℕ
unfolding sem_v
wake_all zero empty = empty
wake_all (suc nempty) empty = wake_all nempty (sem_v empty)

-- The next step of `producer`
unfoldable pub step_producer : ℕ → ℕ → Shared → Producer → Option (Shared × Producer)
unfolding sem_p sem_v produce wake_all enqueue
step_producer maxelem maxval s (p_start i) = elim (sem_p s.lock) [
  | none ↦ none
  | some lock ↦ some (record s { lock = lock }, if ltb i maxval then p_inside i else p_closing)
]
step_producer maxelem maxval s (p_inside i) = some (produce maxelem i s)
step_producer maxelem maxval s (p_leaving i flag_full) =
    some (record s { lock = sem_v s.lock }, p_wait i)
step_producer maxelem maxval s (p_leaving i flag) =
    some (record s { lock = sem_v s.lock }, p_start (i + 1))
step_producer maxelem maxval s (p_wait i) = elim (sem_p s.full) [
  | none ↦ none
  | some full ↦ some (record s { full = full }, p_again i)
]
step_producer maxelem maxval s (p_again i) = elim (sem_p s.lock) [
  | none ↦ none
  | some lock ↦ some (record s { lock = lock }, p_refill i)
]
step_producer maxelem maxval s (p_refill i) =
    some (record s { ring = enqueue maxelem s.ring i }, p_refilled i)
step_producer maxelem maxval s (p_refilled i) =
    some (record s { lock = sem_v s.lock }, p_start (i + 1))
step_producer maxelem maxval s p_closing =
    some (record s { producing = false; empty = wake_all s.nempty s.empty; nempty = 0 }, p_closed)
step_producer maxelem maxval s p_closed = some (record s { lock = sem_v s.lock }, p_done)
step_producer maxelem maxval s p_done = none

-- The body of the critical section of `consumer`, with the items that it takes
unfoldable pub consume : ℕ → Shared → Shared × Consumer × List ℕ
unfolding dequeue dequeue_item sem_v
consume maxelem s =
    if ltb 0 s.ring.ct
    then (
      if s.nfull
          then record s { ring = dequeue maxelem s.ring; full = sem_v s.full; nfull = false }
          else record s { ring = dequeue maxelem s.ring },
      c_leaving flag_success,
      dequeue_item s.ring ∷ [],
    )
    else if s.producing
    then (record s { nempty = s.nempty + 1 }, c_leaving flag_empty, [])
    else (s, c_leaving flag_end, [])

-- The next step of `consumer`
unfoldable pub step_consumer : ℕ → Shared → Consumer → Option (Shared × Consumer × List ℕ)
unfolding sem_p sem_v consume
step_consumer maxelem s c_start = elim (sem_p s.lock) [
  | none ↦ none
  | some lock ↦ some (record s { lock = lock }, c_inside, [])
]
step_consumer maxelem s c_inside = some (consume maxelem s)
step_consumer maxelem s (c_leaving flag_empty) = some (record s { lock = sem_v s.lock }, c_wait, [])
step_consumer maxelem s (c_leaving flag_end) = some (record s { lock = sem_v s.lock }, c_done, [])
step_consumer maxelem s (c_leaving flag) = some (record s { lock = sem_v s.lock }, c_start, [])
step_consumer maxelem s c_wait = elim (sem_p s.empty) [
  | none ↦ none
  | some empty ↦ some (record s { empty = empty }, c_start, [])
]
step_consumer maxelem s c_done = none

-- The system; `taken` is what the consumers took, the oldest first.
pub record System : Type 0 where
  pub shared : Shared
  pub producer : Producer
  pub consumers : List Consumer
  pub taken : List ℕ

pub data Process : Type 0 where
  the_producer : Process
  the_consumer : ℕ → Process

-- A step of a process; `none` if it waits, has ended or does not exist.
unfoldable pub step : ℕ → ℕ → Process → System → Option System
unfolding step_producer step_consumer
step maxelem maxval the_producer s = elim (step_producer maxelem maxval s.shared s.producer) [
  | none ↦ none
  | some (shared, producer) ↦ some (record s { shared = shared; producer = producer })
]
step maxelem maxval (the_consumer j) s = elim (get_elem? s.consumers j) [
  | none ↦ none
  | some c ↦ elim (step_consumer maxelem s.shared c) [
    | none ↦ none
    | some (shared, c', items) ↦
        some
          (record s { shared = shared; consumers = set s.consumers j c'; taken = s.taken ++ items })
  ]
]

-- The processes in the order of the list; one that waits spins on.
unfoldable pub run : ℕ → ℕ → List Process → System → System
unfolding step
run maxelem maxval [] s = s
run maxelem maxval (who ∷ schedule) s = elim (step maxelem maxval who s) [
  | none ↦ run maxelem maxval schedule s
  | some s' ↦ run maxelem maxval schedule s'
]

-- main: the processor 0 is the producer, the others are consumers.
abbrev pub start : ℕ → ℕ → System
start maxelem nconsumers = record {
  shared = record {
    ring = no_items maxelem;
    nempty = 0;
    nfull = false;
    producing = true;
    lock = 1;
    full = 0;
    empty = 0;
  };
  producer = p_start 0;
  consumers = replicate nconsumers c_start;
  taken = [];
}
