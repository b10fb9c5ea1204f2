-- ===== src/Prelude/Cyclic.antt =====
-- Steps round a ring of `n` slots, from slot `h` on.
use Prim.Native.Nat.{ℕ, suc, ◌+◌, ◌-◌, ◌%◌, ◌<◌}
use mathlib.Core.Path.{◌≡◌, ap, ◌∙◌}
use mathlib.Core.Logic.{◌≢◌}
use native.Mathlib.Nat.{mod-add-mod, mod-lt}
use native.Mathlib.Omega.{arith}

-- The slot after the head's, `k` places on, is the slot `k + 1` places from the head.
pub ring-suc : (n h k : ℕ) → ((h + 1) % n + k) % n ≡ (h + suc k) % n
ring-suc n h k = mod-add-mod (h + 1) n k ∙ ap (λ t. t % n) (omega arith)

-- The head's slot is the one that a step round the ring leads to, and no other.
pub ring-back : (n h k : ℕ) → h < n → suc k ≡ n → (h + suc k) % n ≡ h
ring-back n h k hh e = grind arith

pub ring-away : (n h k : ℕ) → h < n → suc k < n → h ≢ (h + suc k) % n
ring-away n h k hh hk e = grind arith

-- Every slot lies some way from the head.
pub ring-index : (n h i : ℕ) → h < n → i < n → (k : ℕ) × (k < n) × ((h + k) % n ≡ i)
ring-index n h i hh hi = ((i + n - h) % n, mod-lt (i + n - h) {m = n} (omega arith), grind arith)
