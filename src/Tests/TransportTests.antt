-- ===== src/Tests/TransportTests.antt =====
-- A network of one row of two nodes. A message from node 0 to node 1 waits on an output link of
-- node 0, and one for node 0 on an input link.
use psim.Prelude.{◌≡◌, refl, [], ◌∷◌, none, some}
use psim.Cpu.{zero_cpu}
use psim.Net.State.{Msg, all_ports, Node, Net}
use psim.Net.Transport.{fwd, hop}
use psim.Prelude.{arith}
use psim.Net.Execute.{fwd_all, hop_all}
use psim.Net.Invariant.{IsLink, IsNode, IsNet, Yields, Keeps}
use psim.Net.FwdLaws.{fwd_all-IsNet}
use psim.Net.HopLaws.{hop_all-IsNet}
use psim.Net.Conserve.{weigh_nodes, weigh-fwd, weigh-hop}

abbrev going : Msg
going = record { to = 1; from = 0; payload = 42; hops = 0; ack = 0 }

abbrev coming : Msg
coming = record { to = 0; from = 1; payload = 17; hops = 1; ack = 0 }

abbrev pub idle : Node
idle = record {
  cpu = zero_cpu;
  mem = record { size = 0; bytes = [] };
  link_in = all_ports [];
  link_out = all_ports [];
  util_in = all_ports 0;
  util_out = all_ports 0;
  mbox_start = 0;
  mbox_new = 0;
  mbox = none ∷ none ∷ [];
}

abbrev pub busy : Node
busy = record idle {
  link_in = record (all_ports []) { e = coming ∷ [] };
  link_out = record (all_ports []) { e = going ∷ [] };
}

abbrev pub net_of : Node → Node → Net
net_of a b = record { cycle = 0; size = 2; x = 1; y = 2; nrun = 2; nd = a ∷ b ∷ []; mallocs = [] }

-- `fwd` puts the message for node 0 into its mailbox 1.
abbrev posted : Node
posted = record busy {
  cpu = record zero_cpu { cop2 = 0 ∷ 0 ∷ 0 ∷ 1 ∷ 0 ∷ 0 ∷ [] };
  link_in = all_ports [];
  mbox_new = 1;
  mbox = none ∷ some coming ∷ [];
}

weigh-fwd_example :
    weigh_nodes (λ m. m.payload) (posted ∷ idle ∷ [])
    ≡ weigh_nodes (λ m. m.payload) (busy ∷ idle ∷ [])
weigh-fwd_example = weigh-fwd (λ m. m.payload) (net_of busy idle) (net_of posted idle) 0 moved
  where
    moved : fwd (net_of busy idle) 0 ≡ some (net_of posted idle)
    moved = unfold fwd in refl

-- `hop` takes the other one over to node 1.
abbrev left : Node
left = record busy { link_out = all_ports []; util_out = record (all_ports 0) { e = 1 } }

abbrev reached : Node
reached = record idle {
  link_in = record (all_ports []) { w = record going { hops = 1 } ∷ [] };
  util_in = record (all_ports 0) { w = 1 };
}

weigh-hop_example :
    weigh_nodes (λ m. m.payload) (left ∷ reached ∷ [])
    ≡ weigh_nodes (λ m. m.payload) (busy ∷ idle ∷ [])
weigh-hop_example =
    weigh-hop (λ m. m.payload) (net_of busy idle) (net_of left reached) 0 (λ m h. refl) moved
  where
    moved : hop (net_of busy idle) 0 ≡ some (net_of left reached)
    moved = unfold hop in refl

empty-IsLink : IsLink 2 []
empty-IsLink = (omega arith, tt)

idle-IsNode : IsNode 2 idle
idle-IsNode = record {
  ins = (empty-IsLink, empty-IsLink, empty-IsLink, empty-IsLink);
  outs = (empty-IsLink, empty-IsLink, empty-IsLink, empty-IsLink);
  boxes = refl;
}

busy-IsNode : IsNode 2 busy
busy-IsNode = record {
  ins = (empty-IsLink, (omega arith, ((omega arith, omega arith), tt)), empty-IsLink, empty-IsLink);
  outs =
      (empty-IsLink, (omega arith, ((omega arith, omega arith), tt)), empty-IsLink, empty-IsLink);
  boxes = refl;
}

mesh-IsNet : IsNet (net_of busy idle)
mesh-IsNet = record {
  area = refl;
  wide = omega arith;
  small = omega arith;
  count = refl;
  nodes = (busy-IsNode, (idle-IsNode, tt));
}

fwd_all-IsNet_example : Yields (fwd_all 2 0 (net_of busy idle)) (Keeps (net_of busy idle))
fwd_all-IsNet_example = fwd_all-IsNet (net_of busy idle) mesh-IsNet

hop_all-IsNet_example : Yields (hop_all 2 0 (net_of busy idle)) (Keeps (net_of busy idle))
hop_all-IsNet_example = hop_all-IsNet (net_of busy idle) mesh-IsNet
