-- ===== src/Net/Transport.antt =====
-- net.c: `fwd` and `hop`, which move messages inside a node and from node to node. `none` is
-- undefined behaviour: a read or write outside an array.
use psim.Prelude.{ℕ, ◌+◌, Bool, true, false, if◌then◌else◌, List, [], ◌∷◌}
use psim.Prelude.{get_elem?, set, Option, none, some, u32, inc}
use psim.Cpu
use psim.Cpu.{mfc2_u32, mtc2_drop, cop2_msg_nmsg}
use psim.Net.State.{LinkName, north, east, south, west, mbox, Msg, Link, port, set_port, Node, Net}
use psim.Net.Link.{link_insmsg, link_remmsg}
use psim.Net.Route.{guidance, neighbour}

abbrev pub link_names : List LinkName
link_names = north ∷ east ∷ south ∷ west ∷ []

-- The message leaves the input link for an output link, unless that is full.
unfoldable pub fwd_out : Node → LinkName → LinkName → Msg → Link → Option Node
unfolding link_insmsg
fwd_out nd ilink olink msg rest = elim (port nd.link_out olink) [
  | none ↦ none
  | some out ↦ elim (link_insmsg out msg) [
    | none ↦ some nd
    | some out' ↦ some (record nd {
      link_in = set_port nd.link_in ilink rest;
      link_out = set_port nd.link_out olink out';
    })
  ]
]

-- A message for this node is put into the mailbox of its sender, and counted.
abbrev pub post : Node → LinkName → Msg → Link → Node
unfolding Cpu.mfc2_u32 Cpu.mtc2_drop
post nd ilink msg rest = record nd {
  cpu = mtc2_drop nd.cpu cop2_msg_nmsg (u32 (mfc2_u32 nd.cpu cop2_msg_nmsg + 1));
  link_in = set_port nd.link_in ilink rest;
  mbox_new = inc nd.mbox_new;
  mbox = set nd.mbox msg.from (some msg);
}

-- Unless the mailbox of the sender is full, it takes the message.
unfoldable pub fwd_mbox : Node → LinkName → Msg → Link → Option Node
unfolding Cpu.mfc2_u32 Cpu.mtc2_drop
fwd_mbox nd ilink msg rest = elim (get_elem? nd.mbox msg.from) [
  | none ↦ none
  | some (some _) ↦ some nd
  | some none ↦ some (post nd ilink msg rest)
]

abbrev pub is_mbox : LinkName → Bool
is_mbox mbox = true
is_mbox _ = false

unfoldable pub fwd_msg : ℕ → ℕ → Node → LinkName → Msg → Link → Option Node
unfolding fwd_out fwd_mbox guidance
fwd_msg y id nd ilink msg rest =
    if is_mbox (guidance y id msg.to)
    then fwd_mbox nd ilink msg rest
    else fwd_out nd ilink (guidance y id msg.to) msg rest

-- The body of the loop of `fwd`
unfoldable pub fwd_link : ℕ → ℕ → Node → LinkName → Option Node
unfolding fwd_msg link_remmsg
fwd_link y id nd ilink = elim (port nd.link_in ilink) [
  | none ↦ none
  | some link ↦ elim (link_remmsg link) [
    | none ↦ some nd
    | some (msg, rest) ↦ fwd_msg y id nd ilink msg rest
  ]
]

unfoldable pub fwd_links : ℕ → ℕ → Node → List LinkName → Option Node
unfolding fwd_link
fwd_links y id nd [] = some nd
fwd_links y id nd (l ∷ ls) = elim (fwd_link y id nd l) [
  | none ↦ none
  | some nd' ↦ fwd_links y id nd' ls
]

-- net->nd[id] = nd
abbrev pub set_node : Net → ℕ → Node → Net
set_node net id nd = record net { nd = set net.nd id nd }

-- fwd
unfoldable pub fwd : Net → ℕ → Option Net
unfolding fwd_links
fwd net id = elim (get_elem? net.nd id) [
  | none ↦ none
  | some nd ↦ elim (fwd_links net.y id nd link_names) [
    | none ↦ none
    | some nd' ↦ some (set_node net id nd')
  ]
]

-- The sender's side of a hop: the link loses its first message, and is counted as used.
unfoldable pub depart : Node → LinkName → Link → Option Node
depart nd olink rest = elim (port nd.util_out olink) [
  | none ↦ none
  | some u ↦ some (record nd {
    link_out = set_port nd.link_out olink rest;
    util_out = set_port nd.util_out olink (inc u);
  })
]

-- The receiver's side: the message, one hop further, joins the link, which is counted as used.
-- `none` inside is a full link, where the message stays with the sender.
unfoldable pub arrive : Node → LinkName → Msg → Option (Option Node)
unfolding link_insmsg
arrive nd ilink msg = elim (port nd.link_in ilink) [
  | none ↦ none
  | some link ↦ elim (port nd.util_in ilink) [
    | none ↦ none
    | some u ↦ elim (link_insmsg link (record msg { hops = u32 (msg.hops + 1) })) [
      | none ↦ some none
      | some link' ↦ some (
          some (record nd {
            link_in = set_port nd.link_in ilink link';
            util_in = set_port nd.util_in ilink (inc u);
          }))
    ]
  ]
]

-- The move itself. The sender is written before the receiver is read, as they may be one node.
unfoldable pub transfer : Net → ℕ → ℕ → LinkName → LinkName → Msg → Link → Option Net
unfolding depart arrive
transfer net id nxt olink ilink msg rest = elim (get_elem? net.nd id) [
  | none ↦ none
  | some nd ↦ elim (depart nd olink rest) [
    | none ↦ none
    | some nd' ↦ elim (get_elem? (set_node net id nd').nd nxt) [
      | none ↦ none
      | some target ↦ elim (arrive target ilink msg) [
        | none ↦ none
        | some none ↦ some net
        | some (some target') ↦ some (set_node (set_node net id nd') nxt target')
      ]
    ]
  ]
]

-- The body of the loop of `hop`. A message that would leave the network stays on its link.
unfoldable pub hop_link : Net → ℕ → LinkName → Option Net
unfolding transfer neighbour link_remmsg
hop_link net id olink = elim (get_elem? net.nd id) [
  | none ↦ none
  | some nd ↦ elim (port nd.link_out olink) [
    | none ↦ none
    | some out ↦ elim (link_remmsg out) [
      | none ↦ some net
      | some (msg, rest) ↦
          let (nxt, ilink, oob) = neighbour net.y net.size id olink in
          if oob then some net else transfer net id nxt olink ilink msg rest
    ]
  ]
]

unfoldable pub hop_links : Net → ℕ → List LinkName → Option Net
unfolding hop_link
hop_links net id [] = some net
hop_links net id (l ∷ ls) = elim (hop_link net id l) [
  | none ↦ none
  | some net' ↦ hop_links net' id ls
]

-- hop
unfoldable pub hop : Net → ℕ → Option Net
unfolding hop_links
hop net id = hop_links net id link_names
