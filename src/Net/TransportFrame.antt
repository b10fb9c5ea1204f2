-- ===== src/Net/TransportFrame.antt =====
-- `fwd` and `hop` touch no memory and of a processor only coprocessor 2.
use psim.Prelude.{ℕ, zero, suc, ◌+◌, ◌≡◌, arith}
use psim.Prelude.{List, [], ◌∷◌, none, some, Option-cases, Bool-cases, inl, inr, get_elem?}
use mathlib.Core.Path.{subst}
use psim.Net.State.{LinkName, Msg, Link, Node, Net, port}
use psim.Net.Link.{link_remmsg}
use psim.Net.Route.{neighbour}
use psim.Net.Transport.{
  fwd, fwd_links, depart, arrive, transfer, hop_link, hop_links, hop, set_node, link_names,
}
use psim.Net.Execute.{fwd_all, hop_all}
use psim.Net.Frame.{
  SameNode, SameNet, refl-SameCpu, fwd_links-SameNode, refl-SameNet, trans-SameNet,
  set_node-SameNet,
}

fwd-SameNet : (net net' : Net) (id : ℕ) → fwd net id ≡ some net' → SameNet net net'
unfolding fwd
fwd-SameNet net net' id e = elim (Option-cases (get_elem? net.nd id)) [
  | inl p ↦ absurd (ground (arith, e, p))
  | inr (nd, p) ↦ elim (Option-cases (fwd_links net.y id nd link_names)) [
    | inl q ↦ absurd (ground (arith, e, p, q))
    | inr (nd', q) ↦
        let same : set_node net id nd' ≡ net' = ground (arith, e, p, q) in
        subst (SameNet net) same
          (set_node-SameNet net id nd nd' p (fwd_links-SameNode link_names net.y id nd nd' q))
  ]
]

module _ (nd nd' : Node) where
  depart-SameNode : (o : LinkName) (rest : Link) → depart nd o rest ≡ some nd' → SameNode nd nd'
  unfolding depart
  depart-SameNode o rest e = ground (arith, refl-SameCpu nd.cpu)

  arrive-SameNode : (i : LinkName) (m : Msg) → arrive nd i m ≡ some (some nd') → SameNode nd nd'
  unfolding arrive
  arrive-SameNode i m e = ground (arith, refl-SameCpu nd.cpu)

transfer-SameNet :
    (net net' : Net) (id nxt : ℕ) (o i : LinkName) (m : Msg) (rest : Link)
    → transfer net id nxt o i m rest ≡ some net'
    → SameNet net net'
unfolding transfer
transfer-SameNet net net' id nxt o i m rest e = elim (Option-cases (get_elem? net.nd id)) [
  | inl p ↦ absurd (ground (arith, e, p))
  | inr (nd, p) ↦ elim (Option-cases (depart nd o rest)) [
    | inl q ↦ absurd (ground (arith, e, p, q))
    | inr (nd', q) ↦
        let left = set_node-SameNet net id nd nd' p (depart-SameNode nd nd' o rest q) in
        elim (Option-cases (get_elem? (set_node net id nd').nd nxt)) [
          | inl r ↦ absurd (ground (arith, e, p, q, r))
          | inr (target, r) ↦ elim (Option-cases (arrive target i m)) [
            | inl t ↦ absurd (ground (arith, e, p, q, r, t))
            | inr (none, t) ↦
                let same : net ≡ net' = ground (arith, e, p, q, r, t) in
                subst (SameNet net) same (refl-SameNet net)
            | inr (some target', t) ↦
                let same : set_node (set_node net id nd') nxt target' ≡ net' =
                  ground (arith, e, p, q, r, t) in
                subst (SameNet net) same (
                  trans-SameNet net (set_node net id nd') _ left (
                    set_node-SameNet (set_node net id nd') nxt target target' r
                      (arrive-SameNode target target' i m t)))
          ]
        ]
  ]
]

hop_link-SameNet :
    (net net' : Net) (id : ℕ) (o : LinkName) → hop_link net id o ≡ some net' → SameNet net net'
unfolding hop_link
hop_link-SameNet net net' id o e = elim (Option-cases (get_elem? net.nd id)) [
  | inl p ↦ absurd (ground (arith, e, p))
  | inr (nd, p) ↦ elim (Option-cases (port nd.link_out o)) [
    | inl q ↦ absurd (ground (arith, e, p, q))
    | inr (out, q) ↦ elim (Option-cases (link_remmsg out)) [
      | inl r ↦
          let same : net ≡ net' = ground (arith, e, p, q, r) in
          subst (SameNet net) same (refl-SameNet net)
      | inr ((m, rest), r) ↦
          let (nxt, i, oob) = neighbour net.y net.size id o in
          elim (Bool-cases (neighbour net.y net.size id o).2) [
            | inl t ↦
                let same : net ≡ net' = ground (arith, e, p, q, r, t) in
                subst (SameNet net) same (refl-SameNet net)
            | inr t ↦ transfer-SameNet net net' id nxt o i m rest (ground (arith, e, p, q, r, t))
          ]
    ]
  ]
]

hop_links-SameNet :
    (ls : List LinkName) (net net' : Net) (id : ℕ)
    → hop_links net id ls ≡ some net'
    → SameNet net net'
unfolding hop_links
hop_links-SameNet [] net net' id e =
    let same : net ≡ net' = cc in subst (SameNet net) same (refl-SameNet net)
hop_links-SameNet (l ∷ ls) net net' id e = elim (Option-cases (hop_link net id l)) [
  | inl p ↦ absurd (ground (arith, e, p))
  | inr (mid, p) ↦
      trans-SameNet net mid net' (hop_link-SameNet net mid id l p)
        (hop_links-SameNet ls mid net' id (ground (arith, e, p)))
]

pub hop_all-SameNet : (n i : ℕ) (net net' : Net) → hop_all n i net ≡ some net' → SameNet net net'
unfolding hop_all hop
hop_all-SameNet zero i net net' e =
    let same : net ≡ net' = cc in subst (SameNet net) same (refl-SameNet net)
hop_all-SameNet (suc n) i net net' e = elim (Option-cases (hop net i)) [
  | inl p ↦ absurd (ground (arith, e, p))
  | inr (mid, p) ↦
      trans-SameNet net mid net' (hop_links-SameNet link_names net mid i p)
        (hop_all-SameNet n (i + 1) mid net' (ground (arith, e, p)))
]

pub fwd_all-SameNet : (n i : ℕ) (net net' : Net) → fwd_all n i net ≡ some net' → SameNet net net'
unfolding fwd_all
fwd_all-SameNet zero i net net' e =
    let same : net ≡ net' = cc in subst (SameNet net) same (refl-SameNet net)
fwd_all-SameNet (suc n) i net net' e = elim (Option-cases (fwd net i)) [
  | inl p ↦ absurd (ground (arith, e, p))
  | inr (mid, p) ↦
      trans-SameNet net mid net' (fwd-SameNet net mid i p)
        (fwd_all-SameNet n (i + 1) mid net' (ground (arith, e, p)))
]
