-- ===== src/Isa/Cycle.antt =====
-- A cycle of the datapath that fetches the word of an instruction, against a step of the manual's.
use psim.Prelude.{◌≡◌, Bool, true, false}
use psim.Prelude.{success}
use psim.Cpu.{Cpu}
use psim.Mem
use psim.Datapath.State.{Sys, Exec, returned, crashed}
use psim.Datapath.Switch.{Case, jump}
use psim.Datapath.Cycle.{Cycle, cycled, broken, advance}
use psim.Isa.Jumps.{Agrees}
use psim.Isa.Reference.{Arch}

-- The mark that `decode` gives an instruction
abbrev is_jump : Case → Bool
is_jump (jump op) = true
is_jump _ = false

-- The code of a case succeeds, leaves the rest of the machine alone, and its processor goes on in the
-- state.
abbrev Reaches : Arch → Sys → Exec → Type 0
Reaches a s (returned e c s') = (e ≡ success) × (s' ≡ s) × Agrees a (advance c)
Reaches a s crashed = ⊥

-- A cycle succeeds, leaves the memory, the bus and the console alone, and its processor goes on in
-- the state.
abbrev pub Steps : Arch → Sys → Cycle → Type 0
Steps a s (cycled ret c s') = (ret ≡ true) × (s' ≡ s) × Agrees a c
Steps a s broken = ⊥
