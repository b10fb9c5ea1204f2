-- ===== src/DstbMem.antt =====
-- dstbmem.c: a network of processors with private memories.
pub mod Stops
pub mod Loading
use psim.Prelude.{
  ℕ, zero, suc, ◌^◌, ltb, u32, u64, sub64, ◌*◌, Bool, true, false, not, ◌==◌, leb, if◌then◌else◌,
  inc,
}
use psim.Prelude.{List, [], ◌∷◌, ◌++◌, length, take, drop, Option, none, some}
use psim.Prelude.{Outcome, ok, err, fault, enomem}
use psim.Cpu
use psim.Cpu.{Cpu}
use psim.Bus.{Memctl}
use psim.Mem.{Mem}
use psim.Mem.Load
use psim.Mem.Load.{Phdr}
use psim.Mem.Create
use psim.Net.State.{Msg, all_ports, Node, Net}
use psim.Net.Execute.{net_execute}
use psim.Datapath.State.{Console}
use psim.Datapath.Cycle.{cycled, broken, datapath_execute}

-- The outcomes of the allocations of one `create`; `none` is NULL, else the block's contents.
pub record Alloc : Type 0 where
  pub net : Bool
  pub cpus : Bool
  pub objects : Bool
  pub storage : Option (List ℕ)
  pub mboxes : Option (List (Option Msg))
  pub nodes : Bool

-- The loop of `create`, which gives each node its processor, its memory and `size` mailboxes.
-- memset clears the rest of a node; the mailboxes stay as malloc gave them.
unfoldable pub make_nodes : ℕ → List Cpu → List Mem → List (Option Msg) → List Node
make_nodes size [] mems boxes = []
make_nodes size (c ∷ cs) [] boxes = []
make_nodes size (c ∷ cs) (m ∷ ms) boxes =
    record {
      cpu = c;
      mem = m;
      link_in = all_ports [];
      link_out = all_ports [];
      util_in = all_ports 0;
      util_out = all_ports 0;
      mbox_start = 0;
      mbox_new = 0;
      mbox = take size boxes;
    }
    ∷ make_nodes size cs ms (drop size boxes)

unfoldable pub make_net : ℕ → ℕ → List Cpu → List Mem → List (Option Msg) → List (Option Msg) → Net
unfolding make_nodes
make_net x y cpus mems boxes mallocs = record {
  cycle = 0;
  size = u64 (x * y);
  x = x;
  y = y;
  nrun = u64 (x * y);
  nd = make_nodes (u64 (x * y)) cpus mems boxes;
  mallocs = mallocs;
}

-- create. As its parameters have 32 bits, CPU_create gives too few processors for 2 ^ 32 nodes or more.
unfoldable pub create : ℕ → ℕ → ℕ → ℕ → Alloc → List (Option Msg) → Outcome Net
unfolding make_net Cpu.create Create.createarr
create x y memsz entry a mallocs =
    if not a.net then err enomem else elim (Cpu.create a.cpus (u32 (x * y)) (u32 entry)) [
      | err e ↦ err e
      | fault ↦ fault
      | ok cpus ↦ elim (Create.createarr a.objects a.storage memsz (u64 (x * y))) [
        | err e ↦ err e
        | fault ↦ fault
        | ok mems ↦ elim a.mboxes [
          | none ↦ err enomem
          | some boxes ↦
              if a.nodes
              then if ltb (u64 (x * y)) (2 ^ 32)
                then ok (make_net x y cpus mems boxes mallocs)
                else fault
              else err enomem
        ]
      ]
    ]

-- memcpy(dst, src, memsz), undefined where it leaves either memory
unfoldable pub copy_mem : ℕ → List ℕ → Mem → Option Mem
copy_mem memsz src dst =
    if leb memsz (length src)
    then if leb memsz (length dst.bytes)
      then some (record dst { bytes = take memsz src ++ drop memsz dst.bytes })
      else none
    else none

-- The loop of `progld` over the nodes but the first
unfoldable pub copy_all : ℕ → List ℕ → List Node → Option (List Node)
unfolding copy_mem
copy_all memsz src [] = some []
copy_all memsz src (nd ∷ nds) = elim (copy_mem memsz src nd.mem) [
  | none ↦ none
  | some m ↦ elim (copy_all memsz src nds) [
    | none ↦ none
    | some nds' ↦ some (record nd { mem = m } ∷ nds')
  ]
]

abbrev pub with_nodes : Net → Option (List Node) → Outcome Net
with_nodes net (some nds) = ok (record net { nd = nds })
with_nodes net none = fault

abbrev pub add_first : Node → Option (List Node) → Option (List Node)
add_first nd (some nds) = some (nd ∷ nds)
add_first nd none = none

unfoldable pub progld_nodes : Net → ℕ → List ℕ → List Phdr → List Node → Outcome Net
unfolding copy_all Load.progld
progld_nodes net memsz elf phs [] = fault
progld_nodes net memsz elf phs (nd ∷ nds) = elim (Load.progld nd.mem elf phs) [
  | err e ↦ err e
  | fault ↦ fault
  | ok m ↦ with_nodes net (add_first (record nd { mem = m }) (copy_all memsz m.bytes nds))
]

-- progld; the network needs a first node.
unfoldable pub progld : Net → ℕ → List ℕ → List Phdr → Outcome Net
unfolding progld_nodes
progld net memsz elf phs = progld_nodes net memsz elf phs net.nd

-- What the loop of `sim` works on: the network, and what its processors share beside it. The
-- memory controller is never set up in this mode, so `shared` is 0.
pub record Sim : Type 0 where
  pub net : Net
  pub bus : Memctl
  pub console : Console

-- What the inner loop of `sim` changes
pub record Pass : Type 0 where
  pub nodes : List Node
  pub nrun : ℕ
  pub bus : Memctl
  pub console : Console

-- --net->nrun, when the processor has just stopped by itself; it is a size_t.
abbrev pub count_stop : Bool → Cpu → ℕ → ℕ
count_stop true cpu nrun = if cpu.running then nrun else sub64 nrun 1
count_stop false cpu nrun = nrun

-- The inner loop: a cycle of each node's processor with its memory. `none` is undefined behaviour.
unfoldable pub run_nodes : List Node → ℕ → Memctl → Console → Option Pass
unfolding datapath_execute
run_nodes [] nrun ctl con = some (record { nodes = []; nrun = nrun; bus = ctl; console = con })
run_nodes (nd ∷ nds) nrun ctl con =
    elim (datapath_execute nd.cpu (record { mem = nd.mem; bus = ctl; console = con })) [
      | broken ↦ none
      | cycled ret c sys ↦ elim (run_nodes nds (count_stop ret c nrun) sys.bus sys.console) [
        | none ↦ none
        | some p ↦ some (record p { nodes = record nd { cpu = c; mem = sys.mem } ∷ p.nodes })
      ]
    ]

-- The network's half of a round; `false` is a deadlock.
abbrev pub netted : Pass → Option (Bool × Net) → Option (Bool × Sim)
netted p none = none
netted p (some (true, net)) =
    some (
      true,
      record { net = record net { cycle = inc net.cycle }; bus = p.bus; console = p.console },
    )
netted p (some (false, net)) = some (false, record { net = net; bus = p.bus; console = p.console })

-- A round of the outer loop
unfoldable pub round : Sim → Option (Bool × Sim)
unfolding run_nodes net_execute
round s = elim (run_nodes s.net.nd s.net.nrun s.bus s.console) [
  | none ↦ none
  | some p ↦ netted p (net_execute (record (s.net) { nd = p.nodes; nrun = p.nrun }))
]

-- How the first `fuel` rounds of `sim` end: by themselves, by a deadlock, not yet, or in undefined
-- behaviour.
pub data Run : Type 0 where
  finished : Sim → Run
  deadlocked : Sim → Run
  running : Sim → Run
  broke : Run

-- sim
unfoldable pub sim : ℕ → Sim → Run
unfolding round
sim zero s = if s.net.nrun == 0 then finished s else running s
sim (suc fuel) s = elim (s.net.nrun == 0) [
  | true ↦ finished s
  | false ↦ elim (round s) [
    | none ↦ broke
    | some (false, s') ↦ deadlocked s'
    | some (true, s') ↦ sim fuel s'
  ]
]
