-- ===== src/Examples/ProducerConsumer/Order.antt =====
-- producer-consumer.c: the order of the items that are put in and taken.
use psim.Prelude.{ℕ, zero, suc, ◌+◌, ◌^◌, ◌<◌, ◌≡◌, refl, ap, sym, ◌∙◌, arith, ◌⊎◌, inl, inr}
use psim.Prelude.{List, [], ◌∷◌, ◌++◌, get_elem?, set, some, length, Option-cases, List-cases}
use mathlib.Core.Path.{subst}
use mathlib.Core.List.{append_assoc, append-nil}
use psim.Examples.Semaphore.{sem_p, sem_v}
use psim.Examples.Buffer.{enqueue, dequeue, dequeue_item}
use psim.Examples.BufferLaws.{Holds, enqueue-Holds, dequeue-Holds}
use psim.Examples.ProducerConsumer.{
  flag_full, Shared, Producer, p_start, p_inside, p_leaving, p_wait, p_again, p_refill, p_refilled,
  Consumer, produce, step_producer, consume, step_consumer, System, Process, the_producer,
  the_consumer, step, run,
}
use psim.Examples.ProducerConsumer.Counts.{Counts, producer-Counts, consumer-Counts}

-- The numbers from `a` on
abbrev pub range : ℕ → ℕ → List ℕ
range a zero = []
range a (suc n) = a ∷ range (a + 1) n

range-suc : (a n : ℕ) → range a n ++ ((a + n) ∷ []) ≡ range a (suc n)
range-suc a zero = ap (λ (b : ℕ). b ∷ []) (omega arith)
range-suc a (suc n) =
    ap (λ xs. a ∷ xs)
      (ap (λ (b : ℕ). range (a + 1) n ++ (b ∷ [])) (omega arith) ∙ range-suc (a + 1) n)

pub range-prefix : (xs ys : List ℕ) (a n : ℕ) → xs ++ ys ≡ range a n → xs ≡ range a (length xs)
range-prefix [] ys a n e = refl
range-prefix (x ∷ xs) ys a zero e = absurd (ground (arith, e))
range-prefix (x ∷ xs) ys a (suc n) e =
    let head : x ≡ a = ground (arith, e) in
    let tail : xs ++ ys ≡ range (a + 1) n = ground (arith, e) in
    ap (λ (b : ℕ). b ∷ xs) head ∙ ap (λ zs. a ∷ zs) (range-prefix xs ys (a + 1) n tail)

-- How many items the producer has put in
abbrev pub produced : ℕ → Producer → ℕ
produced maxval (p_start i) = i
produced maxval (p_inside i) = i
produced maxval (p_leaving i flag_full) = i
produced maxval (p_leaving i _) = i + 1
produced maxval (p_wait i) = i
produced maxval (p_again i) = i
produced maxval (p_refill i) = i
produced maxval (p_refilled i) = i + 1
produced maxval _ = maxval

-- The items that were taken and those in the buffer are the ones that were put in.
abbrev pub InOrder : ℕ → ℕ → Shared → Producer → List ℕ → Type 0
InOrder maxelem maxval s p taken =
    (items : List ℕ) × Holds maxelem s.ring items × (taken ++ items ≡ range 0 (produced maxval p))

module _ (maxelem maxval : ℕ) (cs : List Consumer) where
  producer_effect :
      (p p' : Producer) (s s' : Shared)
      → Counts maxelem maxval s p cs
      → step_producer maxelem maxval s p ≡ some (s', p')
      → ((s'.ring ≡ s.ring) × (produced maxval p' ≡ produced maxval p))
        ⊎ ((s'.ring ≡ enqueue maxelem s.ring (produced maxval p))
            × (produced maxval p' ≡ suc (produced maxval p))
            × (s.ring.ct < maxelem))
  unfolding step_producer sem_p sem_v produce
  producer_effect p p' s s' h e = ground (arith, h, e)

consumer_effect :
    (maxelem : ℕ) (c c' : Consumer) (s s' : Shared) (items : List ℕ)
    → step_consumer maxelem s c ≡ some (s', c', items)
    → ((s'.ring ≡ s.ring) × (items ≡ []))
      ⊎ ((s'.ring ≡ dequeue maxelem s.ring) × (items ≡ dequeue_item s.ring ∷ []) × (0 < s.ring.ct))
unfolding step_consumer sem_p sem_v consume
consumer_effect maxelem c c' s s' items e = ground (arith, e)

module _ (maxelem k maxval : ℕ) (power : maxelem ≡ 2 ^ k) where
  producer-InOrder :
      (p p' : Producer) (s s' : Shared) (cs : List Consumer) (taken : List ℕ)
      → Counts maxelem maxval s p cs
      → InOrder maxelem maxval s p taken
      → step_producer maxelem maxval s p ≡ some (s', p')
      → InOrder maxelem maxval s' p' taken
  producer-InOrder p p' s s' cs taken h (items, holds, e) st =
      elim (producer_effect maxelem maxval cs p p' s s' h st) [
        | inl (same, done) ↦ (
          items,
          subst (λ r. Holds maxelem r items) (sym same) holds,
          e ∙ ap (range 0) (sym done),
        )
        | inr (put, done, space) ↦
            let n = produced maxval p in
            (
              items ++ (n ∷ []),
              subst (λ r. Holds maxelem r (items ++ (n ∷ []))) (sym put)
                  (enqueue-Holds maxelem k power s.ring items n holds (omega (arith, holds.count))),
              sym (append_assoc taken items (n ∷ []))
                  ∙ ap (λ xs. xs ++ (n ∷ [])) e
                  ∙ ap (λ (i : ℕ). range 0 n ++ (i ∷ [])) (omega arith)
                  ∙ range-suc 0 n
                  ∙ ap (range 0) (sym done),
            )
      ]

  consumer-InOrder :
      (p : Producer) (c c' : Consumer) (s s' : Shared) (new taken : List ℕ)
      → InOrder maxelem maxval s p taken
      → step_consumer maxelem s c ≡ some (s', c', new)
      → InOrder maxelem maxval s' p (taken ++ new)
  consumer-InOrder p c c' s s' new taken (items, holds, e) st =
      elim (consumer_effect maxelem c c' s s' new st) [
        | inl (same, none_new) ↦ (
          items,
          subst (λ r. Holds maxelem r items) (sym same) holds,
          ap (λ xs. (taken ++ xs) ++ items) none_new
              ∙ ap (λ xs. xs ++ items) (append-nil taken)
              ∙ e,
        )
        | inr (took, one_new, some_there) ↦ elim (List-cases items) [
          | inl nothing ↦ absurd (omega (arith, holds.count, ap length nothing))
          | inr (item, rest, split) ↦
              let held = subst (Holds maxelem s.ring) split holds in
              let (first, after) = dequeue-Holds maxelem k power s.ring item rest held in
              (
                rest,
                subst (λ r. Holds maxelem r rest) (sym took) after,
                ap (λ xs. (taken ++ xs) ++ rest) one_new
                    ∙ append_assoc taken (dequeue_item s.ring ∷ []) rest
                    ∙ ap (λ (x : ℕ). taken ++ (x ∷ rest)) first
                    ∙ ap (λ xs. taken ++ xs) (sym split)
                    ∙ e,
              )
        ]
      ]

  -- The invariant of the system
  abbrev pub Valid : System → Type 0
  Valid s =
      Counts maxelem maxval s.shared s.producer s.consumers
      × InOrder maxelem maxval s.shared s.producer s.taken

  pub step-Valid :
      (who : Process) (s s' : System) → Valid s → step maxelem maxval who s ≡ some s' → Valid s'
  unfolding step
  step-Valid the_producer s s' (h, o) e =
      elim (Option-cases (step_producer maxelem maxval s.shared s.producer)) [
        | inl p ↦ absurd (ground (arith, p, e))
        | inr ((shared, producer), p) ↦
            let same : record s { shared = shared; producer = producer } ≡ s' =
              ground (arith, p, e) in
            subst Valid same (
              producer-Counts maxelem maxval s.consumers s.producer producer s.shared shared h p,
              producer-InOrder s.producer producer s.shared shared s.consumers s.taken h o p,
            )
      ]
  step-Valid (the_consumer j) s s' (h, o) e = elim (Option-cases (get_elem? s.consumers j)) [
    | inl q ↦ absurd (ground (arith, q, e))
    | inr (c, q) ↦ elim (Option-cases (step_consumer maxelem s.shared c)) [
      | inl p ↦ absurd (ground (arith, q, p, e))
      | inr ((shared, c', new), p) ↦
          let same : record s {
            shared = shared;
            consumers = set s.consumers j c';
            taken = s.taken ++ new;
          }
              ≡ s' =
            ground (arith, q, p, e) in
          subst Valid same (
            consumer-Counts maxelem maxval s.consumers s.producer c c' j s.shared shared new h q p,
            consumer-InOrder s.producer c c' s.shared shared new s.taken o p,
          )
    ]
  ]

  pub run-Valid :
      (schedule : List Process) (s : System) → Valid s → Valid (run maxelem maxval schedule s)
  unfolding run
  run-Valid [] s h = h
  run-Valid (who ∷ schedule) s h = elim (Option-cases (step maxelem maxval who s)) [
    | inl p ↦ rw (p, run) (run-Valid schedule s h)
    | inr (s', p) ↦ rw (p, run) (run-Valid schedule s' (step-Valid who s s' h p))
  ]
