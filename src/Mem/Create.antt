-- ===== src/Mem/Create.antt =====
-- mem.c: Mem_create and Mem_createarr. What malloc returns is an argument: `none` for NULL, else
-- the indeterminate contents of the block.
use psim.Prelude.{ℕ, zero, suc, Bool, true, false, not, ltb, if◌then◌else◌}
use psim.Prelude.{List, [], ◌∷◌, replicate, take, drop, Option, none, some}
use psim.Prelude.{Outcome, ok, err, fault, enomem}
use psim.Bus.{Memctl}
use psim.Mem.{Mem}

-- The outcomes of the library calls of one Mem_create
pub record Alloc : Type 0 where
  pub resaddr : Option (List ℕ)
  pub slots : Option (List (Option ℕ))
  pub mutex_ok : Bool
  pub object : Bool
  pub storage : Option (List ℕ)

-- The initialization of the memory controller; the reserved addresses stay as malloc gave them.
unfoldable pub init_shared : Memctl → ℕ → Alloc → Outcome Memctl
init_shared ctl nshr a = elim a.resaddr [
  | none ↦ err enomem
  | some rs ↦ elim a.slots [
    | none ↦ err enomem
    | some _ ↦
        if not a.mutex_ok
        then err enomem
        else ok (record ctl {
          shared = true;
          used = false;
          nshr = nshr;
          resaddr = rs;
          queue = record { hd = 0; tl = 0; arr = replicate nshr none };
          util = 0;
        })
  ]
]

unfoldable pub alloc_mem : ℕ → Alloc → Outcome Mem
alloc_mem size a = if not a.object then err enomem else elim a.storage [
  | some bytes ↦ ok (record { size = size; bytes = bytes })
  | none ↦ err enomem
]

unfoldable pub with_mem : ℕ → Alloc → Memctl → Outcome (Memctl × Mem)
unfolding alloc_mem
with_mem size a ctl = elim (alloc_mem size a) [
  | ok mem ↦ ok (ctl, mem)
  | err e ↦ err e
  | fault ↦ fault
]

-- Mem_create
unfoldable pub create : Memctl → ℕ → ℕ → Alloc → Outcome (Memctl × Mem)
unfolding init_shared with_mem
create ctl size nshr a =
    if ltb 1 nshr
    then elim (init_shared ctl nshr a) [
      | ok ctl' ↦ with_mem size a ctl'
      | err e ↦ err e
      | fault ↦ fault
    ]
    else with_mem size a ctl

-- The loop of Mem_createarr: memory after memory takes the next `size` bytes of the block.
unfoldable pub split_mems : ℕ → ℕ → List ℕ → List Mem
split_mems size zero arr = []
split_mems size (suc n) arr =
    record { size = size; bytes = take size arr } ∷ split_mems size n (drop size arr)

-- Mem_createarr; `objects` tells whether malloc found room for the objects.
unfoldable pub createarr : Bool → Option (List ℕ) → ℕ → ℕ → Outcome (List Mem)
unfolding split_mems
createarr objects block size nmem =
    if not objects
    then err enomem
    else elim block [ some arr ↦ ok (split_mems size nmem arr) | none ↦ err enomem ]
