-- ===== src/Bus.antt =====
-- mem.c: `shared`, `memctl` and the functions Mem_busacc, Mem_busclr and Mem_busutil.
pub mod Arbiter
pub mod Ring
pub mod Refine
pub mod Fairness
pub mod Wait
pub mod Bounds
use psim.Prelude.{ℕ, ◌+◌, ◌-◌, ◌%◌, ◌^◌, Bool, true, false, not, ◌&&◌, ◌||◌, ◌==◌, if◌then◌else◌}
use psim.Prelude.{List, [], ◌∷◌, get_elem?, set, Option, none, some, inc}

-- The bit pattern of (ssize_t) -1
abbrev pub minus_one : ℕ
minus_one = 2 ^ 64 - 1

-- `memctl.queue`. A slot holds a processor's id, or -1, which is `none` here.
pub record Queue : Type 0 where
  pub hd : ℕ
  pub tl : ℕ
  pub arr : List (Option ℕ)

-- `memctl` with `shared`. A reserved address is the bit pattern of its ssize_t. The mutex is the
-- pthread library's: `lock_fails` says of the calls of pthread_mutex_lock to come which of them
-- fail; none does past its end.
pub record Memctl : Type 0 where
  pub shared : Bool
  pub used : Bool
  pub nshr : ℕ
  pub resaddr : List ℕ
  pub queue : Queue
  pub util : ℕ
  pub lock_fails : List Bool

-- The search loop of Mem_busacc: is the processor in one of the slots?
unfoldable pub contains : List (Option ℕ) → ℕ → Bool
contains [] prid = false
contains (none ∷ slots) prid = contains slots prid
contains (some p ∷ slots) prid = (p == prid) || contains slots prid

unfoldable pub enqueue : ℕ → Queue → ℕ → Queue
enqueue nshr q prid = record q { arr = set q.arr q.tl (some prid); tl = (q.tl + 1) % nshr }

-- Is the processor in the slot?
abbrev pub holds : Option (Option ℕ) → ℕ → Bool
holds (some (some p)) prid = p == prid
holds _ prid = false

-- The second half of Mem_busacc: the bus goes to the head of the queue if it is free.
unfoldable pub grant : Memctl → ℕ → Bool × Memctl
grant ctl prid =
    if not ctl.used && holds (get_elem? ctl.queue.arr ctl.queue.hd) prid
    then (
      true,
      record ctl {
        queue = record (ctl.queue) {
          arr = set ctl.queue.arr ctl.queue.hd none;
          hd = (ctl.queue.hd + 1) % ctl.nshr;
        };
        used = true;
        util = inc ctl.util;
      },
    )
    else (false, ctl)

-- The body of Mem_busacc between locking and unlocking
unfoldable pub arbitrate : Memctl → ℕ → Bool × Memctl
unfolding contains enqueue grant
arbitrate ctl prid =
    if contains ctl.queue.arr prid
    then grant ctl prid
    else grant (record ctl { queue = enqueue ctl.nshr ctl.queue prid }) prid

-- pthread_mutex_lock, by what is known of its outcomes
abbrev pub lock : Memctl → List Bool → Bool × Memctl
lock ctl [] = (false, ctl)
lock ctl (f ∷ fs) = (f, record ctl { lock_fails = fs })

abbrev pub when_locked : Bool × Memctl → ℕ → Bool × Memctl
when_locked (true, ctl) prid = (false, ctl)
when_locked (false, ctl) prid = arbitrate ctl prid

-- Mem_busacc; `true` is the return value 0, the bus is acquired.
unfoldable pub busacc : Memctl → ℕ → Bool × Memctl
unfolding arbitrate
busacc ctl prid = if ctl.shared then when_locked (lock ctl ctl.lock_fails) prid else (true, ctl)

-- Mem_busclr
unfoldable pub busclr : Memctl → Memctl
busclr ctl = record ctl { used = false }

-- Mem_busutil
unfoldable pub busutil : Memctl → ℕ
busutil ctl = ctl.util
