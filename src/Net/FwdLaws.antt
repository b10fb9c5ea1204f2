-- ===== src/Net/FwdLaws.antt =====
-- `fwd` on a well-formed network: it accesses no array outside its bounds, and keeps the network
-- well-formed.
use psim.Prelude.{ℕ, zero, suc, ◌+◌, ◌<◌, ◌≡◌, refl, ◌∙◌, arith, false}
use psim.Prelude.{List, [], ◌∷◌, get_elem?, All, All-set, All-get_elem?}
use psim.Prelude.{none, some, Option-cases, Bool-cases, inl, inr, length-set}
use psim.Prelude.{get_elem?-eq-get_or, get_elem?_of_lt, List-cases}
use mathlib.Core.Path.{subst}
use psim.Net.State.{
  LinkName, north, east, south, west, mbox, Msg, Link, Ports, port, set_port, Node, Net,
}
use psim.Net.Link.{link_insmsg, link_remmsg}
use psim.Net.Route.{guidance}
use psim.Net.Transport.{
  fwd_out, fwd_mbox, fwd_msg, fwd_link, fwd_links, fwd, post, set_node, link_names, is_mbox,
}
use psim.Net.Execute.{fwd_all}
use psim.Net.Invariant.{
  IsLink, IsNode, IsNet, insmsg-IsLink, port-IsLink, set_port-ArePorts, rest-IsLink, Yields, Keeps,
}

-- The names of the links that lead to neighbours have one.
pub port-some :
    {A : Type 0} (p : Ports A) (n : LinkName) → is_mbox n ≡ false → Yields (port p n) (λ a. Unit)
port-some p north h = (p.n, refl, tt)
port-some p east h = (p.e, refl, tt)
port-some p south h = (p.s, refl, tt)
port-some p west h = (p.w, refl, tt)
port-some p mbox h = cc

module _ (size : ℕ) (nd : Node) (valid : IsNode size nd) where
  fwd_out-Yields :
      (i o : LinkName) (m : Msg) (rest : Link)
      → is_mbox o ≡ false
      → IsLink size (m ∷ rest)
      → Yields (fwd_out nd i o m rest) (IsNode size)
  unfolding fwd_out
  fwd_out-Yields i o m rest there h =
      let (out, p, _) = port-some nd.link_out o there in
      let (after, addressed) = rest-IsLink size m rest h in
      elim (Option-cases (link_insmsg out m)) [
        | inl q ↦ (nd, rw (p, fwd_out) (rw (q, fwd_out)), valid)
        | inr (out', q) ↦ (
          record nd {
            link_in = set_port nd.link_in i rest;
            link_out = set_port nd.link_out o out';
          },
          ground arith,
          record {
            ins = set_port-ArePorts size nd.link_in i rest valid.ins after;
            outs = set_port-ArePorts size nd.link_out o out' valid.outs (
                insmsg-IsLink size out out' m (port-IsLink size nd.link_out o out valid.outs p)
                  addressed q);
            boxes = valid.boxes;
          },
        )
      ]

  fwd_mbox-Yields :
      (i : LinkName) (m : Msg) (rest : Link)
      → IsLink size (m ∷ rest)
      → Yields (fwd_mbox nd i m rest) (IsNode size)
  unfolding fwd_mbox
  fwd_mbox-Yields i m rest h =
      let (after, addressed) = rest-IsLink size m rest h in
      elim (Option-cases (get_elem? nd.mbox m.from)) [
        | inl p ↦ absurd (ground (arith, get_elem?-eq-get_or nd.mbox m.from none, valid.boxes))
        | inr (some other, p) ↦ (nd, ground arith, valid)
        | inr (none, p) ↦ (
          post nd i m rest,
          ground arith,
          record {
            ins = set_port-ArePorts size nd.link_in i rest valid.ins after;
            outs = valid.outs;
            boxes = length-set nd.mbox m.from (some m) ∙ valid.boxes;
          },
        )
      ]

  fwd_msg-Yields :
      (y id : ℕ) (i : LinkName) (m : Msg) (rest : Link)
      → IsLink size (m ∷ rest)
      → Yields (fwd_msg y id nd i m rest) (IsNode size)
  unfolding fwd_msg
  fwd_msg-Yields y id i m rest h = elim (Bool-cases (is_mbox (guidance y id m.to))) [
    | inl p ↦ rw p (fwd_mbox-Yields i m rest h)
    | inr p ↦ rw p (fwd_out-Yields i (guidance y id m.to) m rest p h)
  ]

  fwd_link-Yields :
      (y id : ℕ) (i : LinkName) → is_mbox i ≡ false → Yields (fwd_link y id nd i) (IsNode size)
  unfolding fwd_link link_remmsg
  fwd_link-Yields y id i there =
      let (l, p, _) = port-some nd.link_in i there in
      elim (List-cases l) [
        | inl q ↦ (nd, rw (p, fwd_link) (rw (q, fwd_link) refl), valid)
        | inr (m, rest, q) ↦
            rw (p, fwd_link)
              (rw (q, fwd_link)
                (fwd_msg-Yields y id i m rest
                  (subst (IsLink size) q (port-IsLink size nd.link_in i l valid.ins p))))
      ]

fwd_links-Yields :
    (size : ℕ) (ls : List LinkName) (y id : ℕ) (nd : Node)
    → IsNode size nd
    → All (λ l. is_mbox l ≡ false) ls
    → Yields (fwd_links y id nd ls) (IsNode size)
unfolding fwd_links
fwd_links-Yields size [] y id nd valid h = (nd, refl, valid)
fwd_links-Yields size (l ∷ ls) y id nd valid h =
    let (mid, p, after) = fwd_link-Yields size nd valid y id l h.0 in
    rw (p, fwd_links) (fwd_links-Yields size ls y id mid after h.1)

pub set_node-IsNet :
    (net : Net) (id : ℕ) (nd : Node) → IsNet net → IsNode net.size nd → IsNet (set_node net id nd)
set_node-IsNet net id nd valid h = record {
  area = valid.area;
  wide = valid.wide;
  small = valid.small;
  count = length-set net.nd id nd ∙ valid.count;
  nodes = All-set (IsNode net.size) net.nd id nd valid.nodes h;
}

-- Every node of a well-formed network is there.
pub get_elem?-Yields :
    (net : Net) (id : ℕ)
    → IsNet net
    → id < net.size
    → Yields (get_elem? net.nd id) (IsNode net.size)
get_elem?-Yields net id valid lt =
    let (nd, p) = get_elem?_of_lt net.nd id (omega (arith, valid.count)) in
    (nd, p, All-get_elem? (IsNode net.size) net.nd id nd valid.nodes p)

-- On a well-formed network `fwd` of a node of it accesses no array outside its bounds, and leaves a
-- well-formed network of the same size.
pub fwd-IsNet : (net : Net) (id : ℕ) → IsNet net → id < net.size → Yields (fwd net id) (Keeps net)
unfolding fwd
fwd-IsNet net id valid lt =
    let (nd, p, here) = get_elem?-Yields net id valid lt in
    let (nd', q, after) =
      fwd_links-Yields net.size link_names net.y id nd here (refl, (refl, (refl, (refl, tt)))) in
    (
      set_node net id nd',
      rw (p, fwd) (rw (q, fwd) refl),
      (set_node-IsNet net id nd' valid after, refl),
    )

fwd_all-from :
    (n i : ℕ) (net : Net) → IsNet net → n + i ≡ net.size → Yields (fwd_all n i net) (Keeps net)
unfolding fwd_all
fwd_all-from zero i net valid e = (net, refl, (valid, refl))
fwd_all-from (suc n) i net valid e =
    let (mid, p, (after, same)) = fwd-IsNet net i valid (omega (arith, e)) in
    let (end, q, (last, kept)) = fwd_all-from n (i + 1) mid after (omega (arith, e, same)) in
    (end, rw (p, fwd_all) q, (last, kept ∙ same))

-- In a well-formed network the first loop of Net_execute, `fwd` for every node, accesses no array
-- outside its bounds, and leaves a well-formed network of the same size: no link holds more than
-- four messages, and every message is addressed to and from a node of the network.
pub fwd_all-IsNet : (net : Net) → IsNet net → Yields (fwd_all net.size 0 net) (Keeps net)
fwd_all-IsNet net valid = fwd_all-from net.size 0 net valid (omega arith)
