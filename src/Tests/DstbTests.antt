-- ===== src/Tests/DstbTests.antt =====
-- The network of two nodes under a simulation, and the loading of a program into it.
use psim.Prelude.{ℕ, ◌≡◌, refl, arith, [], ◌∷◌, List, some, ok, none, true}
use psim.Cpu.{zero_cpu}
use psim.Mem.Load.{Phdr}
use psim.Net.State.{Node, Net}
use psim.Net.Execute.{net_execute}
use psim.Net.Frame.{SameNet}
use psim.Net.Untouched.{net_execute-SameNet}
use psim.Datapath.Stopping.{count_running}
use psim.DstbMem.{Sim, sim, progld}
use psim.DstbMem.Stops.{IsCounted, NetEnds, sim-NetEnds}
use psim.DstbMem.Loading.{Loads, progld-Loads}
use psim.Tests.SimTests.{unset, two_cpus, two_mem}
use psim.Tests.TransportTests.{idle, busy, net_of}

-- The state after a cycle, as computed
abbrev after : Net
after = elim (net_execute (net_of busy idle)) [ some (ret, net) ↦ net | none ↦ net_of busy idle ]

net_execute-SameNet_example : SameNet (net_of busy idle) after
net_execute-SameNet_example = net_execute-SameNet (net_of busy idle) after true done
  where
    done : net_execute (net_of busy idle) ≡ some (true, after)
    done = unfold net_execute in refl

-- Two processors whose first word is WAIT
abbrev waiting : Node
waiting = record idle { cpu = record zero_cpu { running = true }; mem = two_mem }

abbrev start : Sim
start = record { net = net_of waiting waiting; bus = unset; console = two_cpus.sys.console }

sim-NetEnds_example : NetEnds 2 (sim 3 start)
sim-NetEnds_example = sim-NetEnds 3 2 start counted
  where
    counted : IsCounted 2 start
    counted = record { number = refl; count = unfold count_running in refl; small = omega arith }

-- A segment of two bytes, for both nodes
abbrev segment : Phdr
segment = record { p_type = 1; p_offset = 0; p_paddr = 2; p_filesz = 2; p_flags = 6 }

abbrev with_bytes : List ℕ → Node
with_bytes bs = record idle { mem = record { size = 4; bytes = bs } }

abbrev blank : Net
blank = net_of (with_bytes (1 ∷ 2 ∷ 3 ∷ 4 ∷ [])) (with_bytes (5 ∷ 6 ∷ 7 ∷ 8 ∷ []))

abbrev filled : Net
filled = net_of (with_bytes (0 ∷ 0 ∷ 70 ∷ 80 ∷ [])) (with_bytes (0 ∷ 0 ∷ 70 ∷ 80 ∷ []))

progld-Loads_example : Loads blank 4 (70 ∷ 80 ∷ []) (segment ∷ []) filled
progld-Loads_example =
    progld-Loads blank filled 4 (70 ∷ 80 ∷ []) (segment ∷ []) (refl, (refl, tt)) made
  where
    made : progld blank 4 (70 ∷ 80 ∷ []) (segment ∷ []) ≡ ok filled
    made = unfold progld in refl
