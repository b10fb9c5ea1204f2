-- ===== src/Net/Conserve.antt =====
-- Messages inside a node and between nodes: `fwd` and `hop` neither lose, duplicate nor alter one.
-- They are weighed by any function of messages, which a hop's count does not bear on.
use psim.Prelude.{ℕ, zero, suc, ◌+◌, ◌≡◌, ap, sym, ◌∙◌, arith, u32}
use psim.Prelude.{List, [], ◌∷◌, ◌++◌, get_elem?, set, Option, none, some}
use psim.Prelude.{Option-cases, Bool-cases, inl, inr}
use psim.Net.State.{
  LinkName, north, east, south, west, mbox, Msg, Link, Ports, port, set_port, Node, Net,
}
use psim.Net.Link.{link_insmsg, link_remmsg}
use psim.Net.Route.{guidance, neighbour}
use psim.Net.Transport.{
  fwd_out, fwd_mbox, fwd_msg, fwd_link, fwd_links, fwd, depart, arrive, transfer, hop_link,
  hop_links, hop, link_names, is_mbox,
}

module _ (f : Msg → ℕ) where
  abbrev pub weigh_link : Link → ℕ
  weigh_link [] = 0
  weigh_link (m ∷ ms) = f m + weigh_link ms

  abbrev pub weigh_ports : Ports Link → ℕ
  weigh_ports p = weigh_link p.n + weigh_link p.e + weigh_link p.s + weigh_link p.w

  abbrev pub weigh_mbox : List (Option Msg) → ℕ
  weigh_mbox [] = 0
  weigh_mbox (none ∷ ms) = weigh_mbox ms
  weigh_mbox (some m ∷ ms) = f m + weigh_mbox ms

  -- The messages of a node, in its links and mailboxes, and of the nodes of a network
  abbrev pub weigh_node : Node → ℕ
  weigh_node nd = weigh_ports nd.link_in + weigh_ports nd.link_out + weigh_mbox nd.mbox

  abbrev pub weigh_nodes : List Node → ℕ
  weigh_nodes [] = 0
  weigh_nodes (nd ∷ nds) = weigh_node nd + weigh_nodes nds

  weigh-append : (l : Link) (m : Msg) → weigh_link (l ++ (m ∷ [])) ≡ weigh_link l + f m
  weigh-append [] m = omega arith
  weigh-append (x ∷ l) m = omega (arith, weigh-append l m)

  weigh-insmsg :
      (l l' : Link) (m : Msg) → link_insmsg l m ≡ some l' → weigh_link l' ≡ weigh_link l + f m
  unfolding link_insmsg
  weigh-insmsg l l' m e = ground (arith, weigh-append l m)

  weigh-set_port :
      (p : Ports Link) (l : LinkName) (old new : Link)
      → port p l ≡ some old
      → weigh_ports (set_port p l new) + weigh_link old ≡ weigh_ports p + weigh_link new
  weigh-set_port p north old new e = ground arith
  weigh-set_port p east old new e = ground arith
  weigh-set_port p south old new e = ground arith
  weigh-set_port p west old new e = ground arith
  weigh-set_port p mbox old new e = ground arith

  weigh-set_mbox :
      (ms : List (Option Msg)) (i : ℕ) (m : Msg)
      → get_elem? ms i ≡ some none
      → weigh_mbox (set ms i (some m)) ≡ weigh_mbox ms + f m
  weigh-set_mbox [] i m e = absurd (ground arith)
  weigh-set_mbox (none ∷ ms) zero m e = omega arith
  weigh-set_mbox (some x ∷ ms) zero m e = absurd (ground arith)
  weigh-set_mbox (none ∷ ms) (suc i) m e = weigh-set_mbox ms i m e
  weigh-set_mbox (some x ∷ ms) (suc i) m e = omega (arith, weigh-set_mbox ms i m e)

  weigh-set_node :
      (nds : List Node) (i : ℕ) (old new : Node)
      → get_elem? nds i ≡ some old
      → weigh_nodes (set nds i new) + weigh_node old ≡ weigh_nodes nds + weigh_node new
  weigh-set_node [] i old new e = absurd (ground arith)
  weigh-set_node (nd ∷ nds) zero old new e =
      let same : nd ≡ old = cc in omega (arith, ap weigh_node same)
  weigh-set_node (nd ∷ nds) (suc i) old new e = omega (arith, weigh-set_node nds i old new e)

  weigh-fwd_out :
      (nd nd' : Node) (i o : LinkName) (m : Msg) (rest : Link)
      → port nd.link_in i ≡ some (m ∷ rest)
      → fwd_out nd i o m rest ≡ some nd'
      → weigh_node nd' ≡ weigh_node nd
  unfolding fwd_out
  weigh-fwd_out nd nd' i o m rest at e = elim (Option-cases (port nd.link_out o)) [
    | inl p ↦ absurd (ground arith)
    | inr (out, p) ↦ elim (Option-cases (link_insmsg out m)) [
      | inl q ↦ ground arith
      | inr (out', q) ↦ ground (
        arith,
        weigh-set_port nd.link_in i (m ∷ rest) rest at,
        weigh-set_port nd.link_out o out out' p,
        weigh-insmsg out out' m q,
      )
    ]
  ]

  weigh-fwd_mbox :
      (nd nd' : Node) (i : LinkName) (m : Msg) (rest : Link)
      → port nd.link_in i ≡ some (m ∷ rest)
      → fwd_mbox nd i m rest ≡ some nd'
      → weigh_node nd' ≡ weigh_node nd
  unfolding fwd_mbox
  weigh-fwd_mbox nd nd' i m rest at e = elim (Option-cases (get_elem? nd.mbox m.from)) [
    | inl p ↦ absurd (ground arith)
    | inr (none, p) ↦
        ground
          (arith, weigh-set_port nd.link_in i (m ∷ rest) rest at, weigh-set_mbox nd.mbox m.from m p)
    | inr (some other, p) ↦ ground arith
  ]

  weigh-fwd_link :
      (y id : ℕ) (nd nd' : Node) (l : LinkName)
      → fwd_link y id nd l ≡ some nd'
      → weigh_node nd' ≡ weigh_node nd
  unfolding fwd_link fwd_msg link_remmsg
  weigh-fwd_link y id nd nd' l e = elim (Option-cases (port nd.link_in l)) [
    | inl p ↦ absurd (ground arith)
    | inr ([], p) ↦ ground arith
    | inr (m ∷ rest, p) ↦ elim (Bool-cases (is_mbox (guidance y id m.to))) [
      | inl here ↦ weigh-fwd_mbox nd nd' l m rest p (ground arith)
      | inr there ↦ weigh-fwd_out nd nd' l (guidance y id m.to) m rest p (ground arith)
    ]
  ]

  weigh-fwd_links :
      (ls : List LinkName) (y id : ℕ) (nd nd' : Node)
      → fwd_links y id nd ls ≡ some nd'
      → weigh_node nd' ≡ weigh_node nd
  unfolding fwd_links
  weigh-fwd_links [] y id nd nd' e = let same : nd ≡ nd' = cc in ap weigh_node (sym same)
  weigh-fwd_links (l ∷ ls) y id nd nd' e = elim (Option-cases (fwd_link y id nd l)) [
    | inl p ↦ absurd (ground arith)
    | inr (mid, p) ↦ weigh-fwd_links ls y id mid nd' (ground arith) ∙ weigh-fwd_link y id nd mid l p
  ]

  -- Whatever messages are weighed by, `fwd` on a node leaves their total weight in the network: it
  -- neither loses, duplicates nor alters a message.
  pub weigh-fwd :
      (net net' : Net) (id : ℕ) → fwd net id ≡ some net' → weigh_nodes net'.nd ≡ weigh_nodes net.nd
  unfolding fwd
  weigh-fwd net net' id e = elim (Option-cases (get_elem? net.nd id)) [
    | inl p ↦ absurd (ground arith)
    | inr (nd, p) ↦ elim (Option-cases (fwd_links net.y id nd link_names)) [
      | inl q ↦ absurd (ground arith)
      | inr (nd', q) ↦
          ground
            (arith, weigh-set_node net.nd id nd nd' p, weigh-fwd_links link_names net.y id nd nd' q)
    ]
  ]

  -- The weight does not depend on the hops of a message.
  abbrev pub Blind : Type 0
  Blind = (m : Msg) (h : ℕ) → f (record m { hops = h }) ≡ f m

  weigh-depart :
      (nd nd' : Node) (o : LinkName) (m : Msg) (rest : Link)
      → port nd.link_out o ≡ some (m ∷ rest)
      → depart nd o rest ≡ some nd'
      → weigh_node nd' + f m ≡ weigh_node nd
  unfolding depart
  weigh-depart nd nd' o m rest at e =
      ground (arith, weigh-set_port nd.link_out o (m ∷ rest) rest at)

  weigh-arrive :
      (nd nd' : Node) (i : LinkName) (m : Msg)
      → Blind
      → arrive nd i m ≡ some (some nd')
      → weigh_node nd' ≡ weigh_node nd + f m
  unfolding arrive
  weigh-arrive nd nd' i m blind e = elim (Option-cases (port nd.link_in i)) [
    | inl p ↦ absurd (ground arith)
    | inr (link, p) ↦
        elim (Option-cases (link_insmsg link (record m { hops = u32 (m.hops + 1) }))) [
          | inl q ↦ absurd (ground arith)
          | inr (link', q) ↦ ground (
            arith,
            weigh-set_port nd.link_in i link link' p,
            weigh-insmsg link link' (record m { hops = u32 (m.hops + 1) }) q,
            blind m (u32 (m.hops + 1)),
          )
        ]
  ]

  weigh-transfer :
      (net net' : Net) (id nxt : ℕ) (o i : LinkName) (m : Msg) (rest : Link) (nd : Node)
      → Blind
      → get_elem? net.nd id ≡ some nd
      → port nd.link_out o ≡ some (m ∷ rest)
      → transfer net id nxt o i m rest ≡ some net'
      → weigh_nodes net'.nd ≡ weigh_nodes net.nd
  unfolding transfer
  weigh-transfer net net' id nxt o i m rest nd blind here at e =
      elim (Option-cases (depart nd o rest)) [
        | inl p ↦ absurd (ground arith)
        | inr (nd', p) ↦ elim (Option-cases (get_elem? (set net.nd id nd') nxt)) [
          | inl q ↦ absurd (ground arith)
          | inr (target, q) ↦ elim (Option-cases (arrive target i m)) [
            | inl r ↦ absurd (ground arith)
            | inr (none, r) ↦ ground arith
            | inr (some target', r) ↦ ground (
              arith,
              weigh-set_node net.nd id nd nd' here,
              weigh-set_node (set net.nd id nd') nxt target target' q,
              weigh-depart nd nd' o m rest at p,
              weigh-arrive target target' i m blind r,
            )
          ]
        ]
      ]

  weigh-hop_link :
      (net net' : Net) (id : ℕ) (o : LinkName)
      → Blind
      → hop_link net id o ≡ some net'
      → weigh_nodes net'.nd ≡ weigh_nodes net.nd
  unfolding hop_link link_remmsg
  weigh-hop_link net net' id o blind e = elim (Option-cases (get_elem? net.nd id)) [
    | inl p ↦ absurd (ground arith)
    | inr (nd, p) ↦ elim (Option-cases (port nd.link_out o)) [
      | inl q ↦ absurd (ground arith)
      | inr ([], q) ↦ ground arith
      | inr (m ∷ rest, q) ↦ elim (Bool-cases (neighbour net.y net.size id o).2) [
        | inl out ↦ ground arith
        | inr inside ↦
            weigh-transfer net net' id (neighbour net.y net.size id o).0 o
              (neighbour net.y net.size id o).1 m rest nd blind p q (ground arith)
      ]
    ]
  ]

  weigh-hop_links :
      (ls : List LinkName) (net net' : Net) (id : ℕ)
      → Blind
      → hop_links net id ls ≡ some net'
      → weigh_nodes net'.nd ≡ weigh_nodes net.nd
  unfolding hop_links
  weigh-hop_links [] net net' id blind e =
      let same : net ≡ net' = cc in ap (λ (t : Net). weigh_nodes t.nd) (sym same)
  weigh-hop_links (l ∷ ls) net net' id blind e = elim (Option-cases (hop_link net id l)) [
    | inl p ↦ absurd (ground arith)
    | inr (mid, p) ↦
        weigh-hop_links ls mid net' id blind (ground arith) ∙ weigh-hop_link net mid id l blind p
  ]

  -- Whatever messages are weighed by, but for their count of hops, `hop` on a node leaves their
  -- total weight in the network: a message that leaves one node arrives at another, unaltered, and
  -- one that finds its way blocked stays.
  pub weigh-hop :
      (net net' : Net) (id : ℕ)
      → Blind
      → hop net id ≡ some net'
      → weigh_nodes net'.nd ≡ weigh_nodes net.nd
  unfolding hop
  weigh-hop net net' id = weigh-hop_links link_names net net' id
