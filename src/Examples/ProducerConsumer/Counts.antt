-- ===== src/Examples/ProducerConsumer/Counts.antt =====
-- producer-consumer.c: who holds the lock, who waits, and how much the semaphores are worth.
use psim.Prelude.{
  ℕ, zero, suc, ◌+◌, ◌≤◌, ◌<◌, ◌≡◌, refl, ap, arith, Bool, true, false, if◌then◌else◌,
}
use psim.Prelude.{List, [], ◌∷◌, get_elem?, set, some}
use mathlib.Core.Option.{some-injective}
use psim.Examples.Semaphore.{sem_p, sem_v}
use psim.Examples.Buffer.{enqueue, dequeue}
use psim.Examples.ProducerConsumer.{
  flag_empty, flag_full, flag_end, Shared, Producer, p_start, p_inside, p_leaving, p_wait, p_again,
  p_refill, p_refilled, p_closing, p_closed, p_done, Consumer, c_inside, c_leaving, c_wait, c_done,
  produce, wake_all, step_producer, consume, step_consumer,
}

-- How many of the lock's units a process holds
abbrev pub p_holds : Producer → ℕ
p_holds (p_inside i) = 1
p_holds (p_leaving i f) = 1
p_holds (p_refill i) = 1
p_holds (p_refilled i) = 1
p_holds p_closing = 1
p_holds p_closed = 1
p_holds _ = 0

abbrev pub c_holds : Consumer → ℕ
c_holds c_inside = 1
c_holds (c_leaving f) = 1
c_holds _ = 0

-- Is the consumer on its way to P(&empty), or there? Is it on its way to the end, or there?
abbrev pub c_waits : Consumer → ℕ
c_waits (c_leaving flag_empty) = 1
c_waits c_wait = 1
c_waits _ = 0

abbrev pub c_ends : Consumer → ℕ
c_ends (c_leaving flag_end) = 1
c_ends c_done = 1
c_ends _ = 0

abbrev pub total : (Consumer → ℕ) → List Consumer → ℕ
total f [] = 0
total f (c ∷ cs) = f c + total f cs

-- Is a V(&full) owed to the producer? Was it granted? Has the producer left its loop for good?
abbrev pub owed : Producer → ℕ
owed (p_leaving i flag_full) = 1
owed (p_wait i) = 1
owed _ = 0

abbrev pub granted : Producer → ℕ
granted (p_again i) = 1
granted (p_refill i) = 1
granted _ = 0

abbrev pub p_ends : Producer → ℕ
p_ends p_closed = 1
p_ends p_done = 1
p_ends _ = 0

-- How many items the producer is done with when its round is over
abbrev pub goal : ℕ → Producer → ℕ
goal maxval (p_start i) = i
goal maxval (p_inside i) = i + 1
goal maxval (p_leaving i f) = i + 1
goal maxval (p_wait i) = i + 1
goal maxval (p_again i) = i + 1
goal maxval (p_refill i) = i + 1
goal maxval (p_refilled i) = i + 1
goal maxval _ = maxval

abbrev pub unit : Bool → ℕ
unit b = if b then 1 else 0

pub record Counts (maxelem maxval : ℕ) (s : Shared) (p : Producer) (cs : List Consumer)
    : Type 0 where
  pub locked : s.lock + p_holds p + total c_holds cs ≡ 1
  pub waiting : total c_waits cs ≡ s.nempty + s.empty
  pub asked : unit s.nfull + s.full ≡ owed p
  pub room : 0 < s.full + granted p → s.ring.ct < maxelem
  pub packed : s.nfull ≡ true → maxelem ≤ s.ring.ct
  pub bound : s.ring.ct ≤ maxelem
  pub ended : 0 < total c_ends cs → (s.producing ≡ false) × (s.ring.ct ≡ 0)
  pub closing : s.producing ≡ false → (p_ends p ≡ 1) × (s.nempty ≡ 0)
  pub closed : p_ends p ≡ 1 → s.producing ≡ false
  pub within : goal maxval p ≤ maxval

wake_all-eq : (n e : ℕ) → wake_all n e ≡ n + e
unfolding wake_all sem_v
wake_all-eq zero e = omega arith
wake_all-eq (suc n) e = omega (arith, wake_all-eq n (suc e))

-- The weight of the other consumers stays when one changes.
pub total-split :
    (f : Consumer → ℕ) (cs : List Consumer) (j : ℕ) (c c' : Consumer)
    → get_elem? cs j ≡ some c
    → (rest : ℕ) × (total f cs ≡ f c + rest) × (total f (set cs j c') ≡ f c' + rest)
total-split f [] j c c' e = absurd (ground arith)
total-split f (d ∷ cs) zero c c' e =
    (total f cs, ap (λ x. f x + total f cs) (some-injective d c e), refl)
total-split f (d ∷ cs) (suc j) c c' e =
    let (rest, p, q) = total-split f cs j c c' e in (f d + rest, omega arith, omega arith)

module _ (maxelem maxval : ℕ) (cs : List Consumer) where
  pub producer-Counts :
      (p p' : Producer) (s s' : Shared)
      → Counts maxelem maxval s p cs
      → step_producer maxelem maxval s p ≡ some (s', p')
      → Counts maxelem maxval s' p' cs
  unfolding step_producer sem_p sem_v produce enqueue
  producer-Counts p p' s s' h e = ground (arith, h, e, wake_all-eq s.nempty s.empty)

  pub consumer-Counts :
      (p : Producer) (c c' : Consumer) (j : ℕ) (s s' : Shared) (items : List ℕ)
      → Counts maxelem maxval s p cs
      → get_elem? cs j ≡ some c
      → step_consumer maxelem s c ≡ some (s', c', items)
      → Counts maxelem maxval s' p (set cs j c')
  unfolding step_consumer sem_p sem_v consume dequeue
  consumer-Counts p c c' j s s' items h at e =
      let holds = total-split c_holds cs j c c' at in
      let waits = total-split c_waits cs j c c' at in
      let ends = total-split c_ends cs j c c' at in ground (arith, h, e, holds, waits, ends)
