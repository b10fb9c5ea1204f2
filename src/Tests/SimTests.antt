-- ===== src/Tests/SimTests.antt =====
-- Two processors that share a memory whose first word is WAIT.
use psim.Prelude.{some, refl, arith, [], ◌∷◌, none, true, false, replicate, set}
use psim.Mem.Create.{Alloc}
use psim.Cpu.{create_from, Cpu, zero_cpu, k0}
use psim.Bus.{Memctl, minus_one}
use psim.Mem.{Mem}
use psim.Datapath.Cycle.{datapath_execute}
use psim.Datapath.CycleLaws.{Counted, datapath_execute-Counted}
use psim.ShrMem.{Sim, sim}
use psim.ShrMem.Stops.{IsCounted, Ends, sim-Ends}
use psim.Datapath.Stopping.{count_running}

abbrev pub two_mem : Mem
two_mem = record { size = 4; bytes = 0x20 ∷ 0 ∷ 0 ∷ 0x42 ∷ [] }

abbrev pub two_ctl : Memctl
two_ctl = record {
  shared = true;
  used = false;
  nshr = 2;
  resaddr = minus_one ∷ minus_one ∷ [];
  queue = record { hd = 0; tl = 0; arr = none ∷ none ∷ [] };
  util = 0;
  lock_fails = [];
}

abbrev pub ready_cpu : Cpu
ready_cpu = record zero_cpu { running = true }

abbrev pub two_cpus : Sim
two_cpus = record {
  cpus = ready_cpu ∷ record ready_cpu { gpr = set (replicate 32 0) k0 1 } ∷ [];
  sys = record { mem = two_mem; bus = two_ctl; console = record { input = []; printed = [] } };
  nrun = 2;
}

sim-Ends_example : Ends 2 (sim 3 two_cpus)
sim-Ends_example = sim-Ends 3 2 two_cpus counted
  where
    counted : IsCounted 2 two_cpus
    counted = record { number = refl; count = unfold count_running in refl; small = omega arith }

datapath_execute-Counted_example : Counted ready_cpu (datapath_execute ready_cpu two_cpus.sys)
datapath_execute-Counted_example = datapath_execute-Counted ready_cpu two_cpus.sys refl

-- ShrMem_run for two processors and an image without segments
abbrev pub unset : Memctl
unset = record two_ctl {
  shared = false;
  nshr = 0;
  resaddr = [];
  queue = record { hd = 0; tl = 0; arr = [] };
}

abbrev pub granted : Alloc
granted = record {
  resaddr = some (minus_one ∷ minus_one ∷ []);
  slots = some (none ∷ none ∷ []);
  mutex_ok = true;
  object = true;
  storage = some (7 ∷ 7 ∷ 7 ∷ 7 ∷ []);
}

abbrev pub loaded : Sim
loaded = record {
  cpus = create_from 0 2 0;
  sys = record {
    mem = record { size = 4; bytes = 0 ∷ 0 ∷ 0 ∷ 0 ∷ [] };
    bus = two_ctl;
    console = two_cpus.sys.console;
  };
  nrun = 2;
}
