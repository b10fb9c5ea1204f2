-- ===== src/Report.antt =====
-- The function `perfct` of shrmem.c and that of dstbmem.c: the file of a simulation's counters.
pub mod Path
use psim.Prelude.{ℕ, ◌+◌, ◌-◌, ◌^◌, ltb, if◌then◌else◌, List, [], ◌∷◌, ◌++◌, length, map, get_or}
use psim.Prelude.{Outcome, ok, err, fault}
use psim.Cpu
use psim.Cpu.{Cpu, Counter, reg, k0, cop2_msg, cop2_msg_hops, cop2_msg_nmsg}
use psim.Bus
use psim.Bus.{Memctl, busutil}
use psim.Net.State.{Ports, Node, Net}

-- The names of the columns
pub data Column : Type 0 where
  id cycles loads ld_defer stores st_defer ll ll_defer sc sc_defer rmwfail ct0 : Column
  ninput noutput nalt waitin waitout waitalt hops nmsg : Column
  in_north in_east in_south in_west out_north out_east out_south out_west : Column

-- The lines that dprintf writes
pub data Line : Type 0 where
  bus_line : ℕ → Line
  net_line : ℕ → Line
  header : List Column → Line
  row : List ℕ → Line

-- cpu->perfct.ct[0].ct
abbrev pub first_counter : List Counter → ℕ
first_counter [] = 0
first_counter (c ∷ cs) = c.ct

-- The columns that both reports have
abbrev pub cpu_columns : List Column
cpu_columns =
    id ∷ cycles ∷ loads ∷ ld_defer ∷ stores ∷ st_defer ∷ ll ∷ ll_defer ∷ sc ∷ sc_defer ∷ rmwfail
    ∷ ct0 ∷ []

unfoldable pub cpu_fields : Cpu → List ℕ
cpu_fields cpu =
    let p = cpu.perfct in
    reg cpu k0
    ∷ p.cycle
    ∷ p.ld
    ∷ p.lddefer
    ∷ p.st
    ∷ p.stdefer
    ∷ p.ll
    ∷ p.lldefer
    ∷ p.sc
    ∷ p.scdefer
    ∷ p.rmwfail
    ∷ first_counter p.ct
    ∷ []

-- The report of shrmem.c writes the header again for each processor.
unfoldable pub cpu_lines : List Cpu → List Line
unfolding cpu_fields
cpu_lines [] = []
cpu_lines (c ∷ cs) = header cpu_columns ∷ row (cpu_fields c) ∷ cpu_lines cs

-- What perfct of shrmem.c writes
unfoldable pub shrmem_lines : List Cpu → Memctl → List Line
unfolding cpu_lines Bus.busutil
shrmem_lines cpus ctl = bus_line (busutil ctl) ∷ cpu_lines cpus

abbrev pub net_columns : List Column
net_columns =
    ninput ∷ noutput ∷ nalt ∷ waitin ∷ waitout ∷ waitalt ∷ hops ∷ nmsg ∷ in_north ∷ in_east
    ∷ in_south ∷ in_west ∷ out_north ∷ out_east ∷ out_south ∷ out_west ∷ []

-- The int64_t of CPU_mfc2, printed as an unsigned one
unfoldable pub printed_mfc2 : Cpu → ℕ → ℕ
unfolding Cpu.mfc2
printed_mfc2 cpu sel = elim (Cpu.mfc2 cpu cop2_msg sel) [ ok v ↦ v | _ ↦ 2 ^ 64 - 1 ]

abbrev pub port_fields : Ports ℕ → List ℕ
port_fields u = u.n ∷ u.e ∷ u.s ∷ u.w ∷ []

unfoldable pub node_fields : Node → List ℕ
unfolding cpu_fields printed_mfc2
node_fields nd =
    let p = nd.cpu.perfct in
    cpu_fields nd.cpu
    ++ (p.nin
        ∷ p.nout
        ∷ p.nalt
        ∷ p.waitin
        ∷ p.waitout
        ∷ p.waitalt
        ∷ printed_mfc2 nd.cpu cop2_msg_hops
        ∷ printed_mfc2 nd.cpu cop2_msg_nmsg
        ∷ [])
    ++ port_fields nd.util_in
    ++ port_fields nd.util_out

unfoldable pub node_lines : List Node → List Line
unfolding node_fields
node_lines [] = []
node_lines (nd ∷ nds) = row (node_fields nd) ∷ node_lines nds

-- What perfct of dstbmem.c writes
unfoldable pub dstbmem_lines : Net → List Line
unfolding node_lines
dstbmem_lines net = header (cpu_columns ++ net_columns) ∷ net_line net.cycle ∷ node_lines net.nd
