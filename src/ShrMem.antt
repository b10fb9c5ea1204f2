-- ===== src/ShrMem.antt =====
-- shrmem.c: processors that share a memory over the bus.
pub mod Stops
pub mod Safe
pub mod Start
use psim.Prelude.{ℕ, zero, suc, leb, length, u32, sub64, Bool, true, false, ◌==◌, if◌then◌else◌}
use psim.Prelude.{List, [], ◌∷◌, Option, none, some, Outcome, ok, err, fault}
use psim.Cpu
use psim.Cpu.{Cpu}
use psim.Bus.{Memctl, busclr}
use psim.Mem.Load
use psim.Mem.Load.{Phdr}
use psim.Mem.Create
use psim.Mem.Create.{Alloc}
use psim.Datapath.State.{Console, Sys}
use psim.Datapath.Cycle.{cycled, broken, datapath_execute}

-- What the loop of `sim` works on
pub record Sim : Type 0 where
  pub cpus : List Cpu
  pub sys : Sys
  pub nrun : ℕ

-- --nrun, when the processor has just stopped by itself
abbrev pub count_stop : Bool → Cpu → ℕ → ℕ
count_stop true cpu nrun = if cpu.running then nrun else sub64 nrun 1
count_stop false cpu nrun = nrun

-- The inner loop: a cycle of each processor in turn. `none` is undefined behaviour.
unfoldable pub run_cpus : List Cpu → Sys → ℕ → Option Sim
unfolding datapath_execute
run_cpus [] sys nrun = some (record { cpus = []; sys = sys; nrun = nrun })
run_cpus (c ∷ cs) sys nrun = elim (datapath_execute c sys) [
  | broken ↦ none
  | cycled ret c' sys' ↦ elim (run_cpus cs sys' (count_stop ret c' nrun)) [
    | none ↦ none
    | some s ↦ some (record s { cpus = c' ∷ s.cpus })
  ]
]

-- A round of the outer loop
unfoldable pub round : Sim → Option Sim
unfolding run_cpus busclr
round s = run_cpus s.cpus (record (s.sys) { bus = busclr s.sys.bus }) s.nrun

-- How the first `fuel` rounds of `sim` end
pub data Run : Type 0 where
  finished : Sim → Run
  running : Sim → Run
  broke : Run

-- sim
unfoldable pub sim : ℕ → Sim → Run
unfolding round
sim zero s = if s.nrun == 0 then finished s else running s
sim (suc fuel) s = elim (s.nrun == 0) [
  | true ↦ finished s
  | false ↦ elim (round s) [ none ↦ broke | some s' ↦ sim fuel s' ]
]

-- `sim` for `ncpu` processors in an array that may have fewer: its loop then leaves the array, which
-- is undefined.
unfoldable pub sim_of : ℕ → ℕ → Sim → Run
unfolding sim
sim_of ncpu fuel s = if leb ncpu (length s.cpus) then sim fuel s else broke

-- The steps of ShrMem_run before `sim`. The parameters of CPU_create have 32 bits, the others
-- have 64.
unfoldable pub prepare :
    ℕ → ℕ → Bool → Memctl → Alloc → ℕ → List ℕ → List Phdr → Console → Outcome Sim
unfolding Cpu.create Create.create Load.progld
prepare ncpu memsz allocated ctl a entry elf phs con =
    elim (Cpu.create allocated (u32 ncpu) (u32 entry)) [
      | err e ↦ err e
      | fault ↦ fault
      | ok cpus ↦ elim (Create.create ctl memsz ncpu a) [
        | err e ↦ err e
        | fault ↦ fault
        | ok (ctl', mem) ↦ elim (Load.progld mem elf phs) [
          | err e ↦ err e
          | fault ↦ fault
          | ok mem' ↦ ok (record {
            cpus = cpus;
            sys = record { mem = mem'; bus = ctl'; console = con };
            nrun = ncpu;
          })
        ]
      ]
    ]
