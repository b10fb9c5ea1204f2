-- ===== src/Runs.antt =====
-- ShrMem_run and DstbMem_run as a whole: the set-up, the simulation and the report of its counters.
-- What munmap returns is only printed, and the functions that free memory are left out.
use psim.Prelude.{ℕ, Bool, true, false, List, [], Outcome, ok, err, fault, if◌then◌else◌}
use psim.Prelude.{Option}
use psim.Bus.{Memctl}
use psim.Mem.Create
use psim.Mem.Load.{Phdr}
use psim.Datapath.State.{Console}
use psim.Net.State.{Msg, Net}
use psim.ShrMem
use psim.DstbMem
use psim.Report.{Line, shrmem_lines, dstbmem_lines}
use psim.Report.Path.{report_path}

-- `struct ProgInfo`; the size is only passed to munmap, and `segments` are the program headers of the
-- image.
pub record ProgInfo : Type 0 where
  pub entry : ℕ
  pub name : List ℕ
  pub elf : List ℕ
  pub segments : List Phdr

-- What the calls of open and close for the report return
pub record ReportCalls : Type 0 where
  pub opens : Bool
  pub closes : Bool

-- How a run ends, on a fuel of rounds: it returns, `true` for 0 and `false` for -1, and leaves the
-- lines of the report; the function exits the program; the rounds are not enough; or its behaviour is
-- undefined.
pub data Ran : Type 0 where
  returned : Bool → List Line → Ran
  exited : Ran
  unfinished : Ran
  crashed : Ran

-- perfct of shrmem.c: without a file it only warns.
unfoldable pub shrmem_perfct : Outcome (List ℕ) → ReportCalls → List Line → Ran
shrmem_perfct (ok path) calls lines = if calls.opens then returned true lines else returned true []
shrmem_perfct (err e) calls lines = crashed
shrmem_perfct fault calls lines = crashed

-- perfct of dstbmem.c, which exits the program when the file is not opened or not closed.
unfoldable pub dstbmem_perfct : Outcome (List ℕ) → ReportCalls → Bool → List Line → Ran
dstbmem_perfct (ok path) calls ret lines =
    if calls.opens then if calls.closes then returned ret lines else exited else exited
dstbmem_perfct (err e) calls ret lines = crashed
dstbmem_perfct fault calls ret lines = crashed

module _ (basename : List ℕ → List ℕ) (calls : ReportCalls) (prog : ProgInfo) (con : Console)
    (rounds : ℕ) where
  unfoldable pub shrmem_simulated : ShrMem.Run → Ran
  unfolding shrmem_perfct report_path shrmem_lines
  shrmem_simulated (ShrMem.finished s) =
      shrmem_perfct (report_path basename prog.name) calls (shrmem_lines s.cpus s.sys.bus)
  shrmem_simulated (ShrMem.running s) = unfinished
  shrmem_simulated ShrMem.broke = crashed

  unfoldable pub shrmem_prepared : ℕ → Outcome ShrMem.Sim → Ran
  unfolding shrmem_simulated ShrMem.sim_of
  shrmem_prepared ncpu (ok s) = shrmem_simulated (ShrMem.sim_of ncpu rounds s)
  shrmem_prepared ncpu (err e) = returned false []
  shrmem_prepared ncpu fault = crashed

  -- ShrMem_run
  unfoldable pub shrmem_run : ℕ → ℕ → Bool → Memctl → Create.Alloc → Ran
  unfolding shrmem_prepared ShrMem.prepare
  shrmem_run ncpu memsz allocated ctl a =
      shrmem_prepared ncpu
        (ShrMem.prepare ncpu memsz allocated ctl a prog.entry prog.elf prog.segments con)

  unfoldable pub dstbmem_simulated : DstbMem.Run → Ran
  unfolding dstbmem_perfct report_path dstbmem_lines
  dstbmem_simulated (DstbMem.finished s) =
      dstbmem_perfct (report_path basename prog.name) calls true (dstbmem_lines s.net)
  dstbmem_simulated (DstbMem.deadlocked s) =
      dstbmem_perfct (report_path basename prog.name) calls false (dstbmem_lines s.net)
  dstbmem_simulated (DstbMem.running s) = unfinished
  dstbmem_simulated DstbMem.broke = crashed

  unfoldable pub dstbmem_loaded : Memctl → Outcome Net → Ran
  unfolding dstbmem_simulated DstbMem.sim
  dstbmem_loaded ctl (ok net) =
      dstbmem_simulated (DstbMem.sim rounds (record { net = net; bus = ctl; console = con }))
  dstbmem_loaded ctl (err e) = returned false []
  dstbmem_loaded ctl fault = crashed

  unfoldable pub dstbmem_created : ℕ → Memctl → Outcome Net → Ran
  unfolding dstbmem_loaded DstbMem.progld
  dstbmem_created memsz ctl (ok net) =
      dstbmem_loaded ctl (DstbMem.progld net memsz prog.elf prog.segments)
  dstbmem_created memsz ctl (err e) = returned false []
  dstbmem_created memsz ctl fault = crashed

  -- DstbMem_run
  unfoldable pub dstbmem_run : ℕ → ℕ → ℕ → Memctl → DstbMem.Alloc → List (Option Msg) → Ran
  unfolding dstbmem_created DstbMem.create
  dstbmem_run x y memsz ctl a mallocs =
      dstbmem_created memsz ctl (DstbMem.create x y memsz prog.entry a mallocs)
