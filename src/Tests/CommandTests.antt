-- ===== src/Tests/CommandTests.antt =====
-- A search of `alt` over four mailboxes: the clauses ask for the processors 2 and 0, both of which
-- have sent a message, and the turn is at mailbox 1.
use psim.Prelude.{ℕ, zero, suc, ◌≡◌, refl, arith, List, [], ◌∷◌, Option, none, some}
use psim.Cpu.{zero_cpu, cop2_msg_st_op, mfc2_u32}
use psim.Net.State.{Msg, Node, Net}
use psim.Net.Invariant.{Yields, IsLink, IsNode, IsNet}
use psim.Net.Commands.{operate}
use psim.Net.Commands.Safe.{HasMail, KeepsAll}
use psim.Net.Commands.Operate.{IsFeasible, operate-IsNet}
use psim.Tests.TransportTests.{idle, net_of}
use psim.Net.Commands.Search.{found, search}

abbrev from_node : ℕ → Option Msg
from_node p = some (record { to = 3; from = p; payload = 5; hops = 1; ack = 0 })

abbrev boxes : List (Option Msg)
boxes = from_node 0 ∷ from_node 1 ∷ from_node 2 ∷ none ∷ []

abbrev asked : List ℕ
asked = 2 ∷ 0 ∷ []

turn_example : search asked boxes 4 1 4 1 ≡ some (found 2)
unfolding search
turn_example = refl

-- Node 0 has the output of 42 to node 1 pending.
abbrev speaker : Node
speaker = record idle { cpu = record zero_cpu { cop2 = 1 ∷ 42 ∷ 2 ∷ 0 ∷ 0 ∷ 0 ∷ [] } }

abbrev spoken : Net
spoken = record (net_of speaker idle) { mallocs = from_node 9 ∷ [] }

empty-IsLink : IsLink 2 []
empty-IsLink = (omega arith, tt)

no-HasMail : HasMail 2 0 speaker
no-HasMail zero m e = cc
no-HasMail (suc zero) m e = cc
no-HasMail (suc (suc k)) m e = cc

speaker-IsNode : IsNode 2 speaker
speaker-IsNode = record {
  ins = (empty-IsLink, empty-IsLink, empty-IsLink, empty-IsLink);
  outs = (empty-IsLink, empty-IsLink, empty-IsLink, empty-IsLink);
  boxes = refl;
}

idle-IsNode : IsNode 2 idle
idle-IsNode = record {
  ins = (empty-IsLink, empty-IsLink, empty-IsLink, empty-IsLink);
  outs = (empty-IsLink, empty-IsLink, empty-IsLink, empty-IsLink);
  boxes = refl;
}

spoken-IsNet : IsNet spoken
spoken-IsNet = record {
  area = refl;
  wide = omega arith;
  small = omega arith;
  count = refl;
  nodes = (speaker-IsNode, (idle-IsNode, tt));
}

operate-IsNet_example : Yields (operate spoken 0) (KeepsAll spoken)
unfolding cop2_msg_st_op mfc2_u32
operate-IsNet_example =
    operate-IsNet spoken 0 spoken-IsNet (omega arith) (omega arith) speaker refl no-HasMail
      (omega arith) feasible
  where
    feasible : IsFeasible spoken 0 speaker 2 1
    feasible = record {
      sender = λ e. absurd (omega arith);
      receiver = λ e. (omega arith, omega arith);
      clauses = λ e. absurd (omega arith);
    }
