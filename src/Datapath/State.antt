-- ===== src/Datapath/State.antt =====
-- What a cycle of the datapath works on beside the processor, and what `execute` returns.
use psim.Prelude.{ℕ, List, Errno}
use psim.Cpu.{Cpu}
use psim.Bus.{Memctl}
use psim.Mem.{Mem}

-- What the program prints: by putchar, and by printf("%08x\n").
pub data Printed : Type 0 where
  char : ℕ → Printed
  hex_line : ℕ → Printed

-- The standard streams: the bytes that getchar is still to return, and what was printed, the
-- latest first.
pub record Console : Type 0 where
  pub input : List ℕ
  pub printed : List Printed

pub record Sys : Type 0 where
  pub mem : Mem
  pub bus : Memctl
  pub console : Console

-- `returned` carries the int that the function returns; `crashed` is undefined behaviour.
pub data Exec : Type 0 where
  returned : Errno → Cpu → Sys → Exec
  crashed : Exec
