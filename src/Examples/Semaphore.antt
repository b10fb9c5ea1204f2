-- ===== src/Examples/Semaphore.antt =====
-- libsem/Sem_P.s and libsem/Sem_V.s: the loops around LL and SC as one step each. `none` is a P that
-- spins on.
use psim.Prelude.{ℕ, zero, suc, Option, none, some}

unfoldable pub sem_p : ℕ → Option ℕ
sem_p zero = none
sem_p (suc n) = some n

unfoldable pub sem_v : ℕ → ℕ
sem_v n = suc n
