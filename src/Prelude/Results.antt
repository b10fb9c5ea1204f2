-- ===== src/Prelude/Results.antt =====
-- What a C function does: return a value, report an error number, or run into behaviour that C
-- leaves undefined.
pub data Errno : Type 0 where
  success einval enotsup ebusy eaddrnotavail efault eoverflow eagain : Errno
  enomem enobufs edeadlk enospc : Errno

pub data Outcome {ℓ} (A : Type ℓ) : Type ℓ where
  ok : A → Outcome A
  err : Errno → Outcome A
  fault : Outcome A

infixl 5 ◌>>=◌
abbrev pub ◌>>=◌ {ℓ κ} : {A : Type ℓ} {B : Type κ} → Outcome A → (A → Outcome B) → Outcome B
ok a >>= f = f a
err e >>= f = err e
fault >>= f = fault

-- The result, if there is one, is as `P` says.
abbrev pub WhenOk {ℓ κ} : {A : Type ℓ} → (A → Type κ) → Outcome A → Type κ
WhenOk P (ok a) = P a
WhenOk P (err e) = Unit
WhenOk P fault = Unit
