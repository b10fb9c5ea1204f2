-- ===== src/Net/HopLaws.antt =====
-- `hop` on a well-formed network: it accesses no array outside its bounds, and keeps the network
-- well-formed.
use psim.Prelude.{ℕ, zero, suc, ◌+◌, ◌^◌, ◌<◌, ◌≡◌, refl, ap, ◌∙◌, arith, false, u32, inc}
use psim.Prelude.{List, [], ◌∷◌, All, List-cases}
use psim.Prelude.{Option, none, some, Option-cases, Bool-cases, inl, inr}
use psim.Prelude.{◌%◌, ==→ne}
use native.Mathlib.Nat.{mul-mod_left}
use native.Mathlib.Decide.{dec_lt, ℕ_discrete}
use mathlib.Core.Path.{subst}
use psim.Net.State.{LinkName, north, east, south, west, mbox, Msg, Link, set_port, Node, Net}
use psim.Net.Link.{link_insmsg, link_remmsg}
use psim.Net.Route.{neighbour}
use psim.Net.Transport.{
  depart, arrive, transfer, hop_link, hop_links, hop, set_node, link_names, is_mbox,
}
use psim.Net.Execute.{hop_all}
use psim.Net.Invariant.{
  Addressed, IsLink, IsNode, IsNet, insmsg-IsLink, port-IsLink, set_port-ArePorts, rest-IsLink,
  Yields, Keeps,
}
use psim.Net.FwdLaws.{port-some, get_elem?-Yields, set_node-IsNet}

-- A link that is not out of bounds leads to a node.
neighbour-lt :
    (net : Net) (id : ℕ) (l : LinkName)
    → IsNet net
    → id < net.size
    → (neighbour net.y net.size id l).2 ≡ false
    → (neighbour net.y net.size id l).0 < net.size
unfolding neighbour
neighbour-lt net id north valid lt h = ground arith
neighbour-lt net id east valid lt h =
    let whole : net.size % net.y ≡ 0 =
      ap (λ (s : ℕ). s % net.y) valid.area ∙ mul-mod_left net.x net.y in
    let ne = ==→ne (u32 (id + 1) % net.y) 0 h in
    elim (ℕ_discrete (id + 1) net.size) [
      | no p ↦ omega (arith, valid.small)
      | yes p ↦ elim (dec_lt net.size (2 ^ 32)) [
        | yes q ↦
            let same : u32 (id + 1) ≡ net.size = omega arith in
            absurd (ne (ap (λ (s : ℕ). s % net.y) same ∙ whole))
        | no q ↦ omega (arith, valid.small)
      ]
    ]
neighbour-lt net id south valid lt h = ground arith
neighbour-lt net id west valid lt h = ground arith
neighbour-lt net id mbox valid lt h = ground arith

-- A link receives at a link of its neighbour.
neighbour-receives :
    (y size id : ℕ) (l : LinkName) → is_mbox l ≡ false → is_mbox (neighbour y size id l).1 ≡ false
unfolding neighbour
neighbour-receives y size id north h = refl
neighbour-receives y size id east h = refl
neighbour-receives y size id south h = refl
neighbour-receives y size id west h = refl
neighbour-receives y size id mbox h = h

module _ (size : ℕ) (nd : Node) (valid : IsNode size nd) where
  depart-Yields :
      (o : LinkName) (rest : Link)
      → is_mbox o ≡ false
      → IsLink size rest
      → Yields (depart nd o rest) (IsNode size)
  unfolding depart
  depart-Yields o rest there h =
      let (u, p, _) = port-some nd.util_out o there in
      (
        record nd {
          link_out = set_port nd.link_out o rest;
          util_out = set_port nd.util_out o (inc u);
        },
        rw (p, depart) refl,
        record {
          ins = valid.ins;
          outs = set_port-ArePorts size nd.link_out o rest valid.outs h;
          boxes = valid.boxes;
        },
      )

  -- The node that a message reaches, unless its link is full.
  abbrev Kept : Option Node → Type 0
  Kept none = Unit
  Kept (some nd') = IsNode size nd'

  arrive-Yields :
      (i : LinkName) (m : Msg) → is_mbox i ≡ false → Addressed size m → Yields (arrive nd i m) Kept
  unfolding arrive
  arrive-Yields i m there h =
      let (l, p, _) = port-some nd.link_in i there in
      let (u, q, _) = port-some nd.util_in i there in
      let sent : Msg = record m { hops = u32 (m.hops + 1) } in
      elim (Option-cases (link_insmsg l sent)) [
        | inl r ↦ (none, rw (p, arrive) (rw (q, arrive) (rw (r, arrive) refl)), tt)
        | inr (l', r) ↦ (
          some (record nd {
            link_in = set_port nd.link_in i l';
            util_in = set_port nd.util_in i (inc u);
          }),
          rw (p, arrive) (rw (q, arrive) (rw (r, arrive) refl)),
          record {
            ins =
                set_port-ArePorts size nd.link_in i l' valid.ins
                  (insmsg-IsLink size l l' sent (port-IsLink size nd.link_in i l valid.ins p) h r);
            outs = valid.outs;
            boxes = valid.boxes;
          },
        )
      ]

transfer-Yields :
    (net : Net) (id nxt : ℕ) (o i : LinkName) (m : Msg) (rest : Link)
    → IsNet net
    → id < net.size
    → nxt < net.size
    → is_mbox o ≡ false
    → is_mbox i ≡ false
    → IsLink net.size (m ∷ rest)
    → Yields (transfer net id nxt o i m rest) (Keeps net)
unfolding transfer
transfer-Yields net id nxt o i m rest valid lt near out into h =
    let (after, addressed) = rest-IsLink net.size m rest h in
    let (nd, p, here) = get_elem?-Yields net id valid lt in
    let (nd', q, left) = depart-Yields net.size nd here o rest out after in
    let gone = set_node-IsNet net id nd' valid left in
    let (target, r, there) = get_elem?-Yields (set_node net id nd') nxt gone near in
    let (end, s, kept) = arrive-Yields net.size target there i m into addressed in
    elim (Option-cases end) [
      | inl t ↦ (
        net,
        rw (p, transfer) (rw (q, transfer) (rw (r, transfer) (rw (s ∙ ap some t, transfer) refl))),
        (valid, refl),
      )
      | inr (target', t) ↦ (
        set_node (set_node net id nd') nxt target',
        rw (p, transfer) (rw (q, transfer) (rw (r, transfer) (rw (s ∙ ap some t, transfer) refl))),
        (
          set_node-IsNet (set_node net id nd') nxt target' gone
              (subst (Kept net.size target there) t kept),
          refl,
        ),
      )
    ]

hop_link-Yields :
    (net : Net) (id : ℕ) (o : LinkName)
    → IsNet net
    → id < net.size
    → is_mbox o ≡ false
    → Yields (hop_link net id o) (Keeps net)
unfolding hop_link link_remmsg
hop_link-Yields net id o valid lt there =
    let (nd, p, here) = get_elem?-Yields net id valid lt in
    let (l, q, _) = port-some nd.link_out o there in
    let to = neighbour net.y net.size id o in
    elim (List-cases l) [
      | inl r ↦ (net, rw (p, hop_link) (rw (q, hop_link) (rw (r, hop_link) refl)), (valid, refl))
      | inr (m, rest, r) ↦ elim (Bool-cases to.2) [
        | inl oob ↦ (
          net,
          rw (p, hop_link) (rw (q, hop_link) (rw (r, hop_link) (rw (oob, hop_link) refl))),
          (valid, refl),
        )
        | inr inside ↦
            rw (p, hop_link)
              (rw (q, hop_link)
                (rw (r, hop_link)
                  (rw (inside, hop_link)
                    (transfer-Yields net id to.0 o to.1 m rest valid lt
                      (neighbour-lt net id o valid lt inside) there
                      (neighbour-receives net.y net.size id o there)
                      (subst (IsLink net.size) r
                        (port-IsLink net.size nd.link_out o l here.outs q))))))
      ]
    ]

hop_links-Yields :
    (ls : List LinkName) (net : Net) (id : ℕ)
    → IsNet net
    → id < net.size
    → All (λ l. is_mbox l ≡ false) ls
    → Yields (hop_links net id ls) (Keeps net)
unfolding hop_links
hop_links-Yields [] net id valid lt h = (net, refl, (valid, refl))
hop_links-Yields (l ∷ ls) net id valid lt h =
    let (mid, p, (after, same)) = hop_link-Yields net id l valid lt h.0 in
    let (end, q, (last, kept)) = hop_links-Yields ls mid id after (omega (arith, same)) h.1 in
    (end, rw (p, hop_links) q, (last, kept ∙ same))

-- On a well-formed network `hop` of a node of it accesses no array outside its bounds, and leaves a
-- well-formed network of the same size.
pub hop-IsNet : (net : Net) (id : ℕ) → IsNet net → id < net.size → Yields (hop net id) (Keeps net)
unfolding hop
hop-IsNet net id valid lt =
    hop_links-Yields link_names net id valid lt (refl, (refl, (refl, (refl, tt))))

hop_all-from :
    (n i : ℕ) (net : Net) → IsNet net → n + i ≡ net.size → Yields (hop_all n i net) (Keeps net)
unfolding hop_all
hop_all-from zero i net valid e = (net, refl, (valid, refl))
hop_all-from (suc n) i net valid e =
    let (mid, p, (after, same)) = hop-IsNet net i valid (omega (arith, e)) in
    let (end, q, (last, kept)) = hop_all-from n (i + 1) mid after (omega (arith, e, same)) in
    (end, rw (p, hop_all) q, (last, kept ∙ same))

-- In a well-formed network the last loop of Net_execute, `hop` for every node, accesses no array
-- outside its bounds, and leaves a well-formed network of the same size: no link holds more than
-- four messages, and every message is addressed to and from a node of the network.
pub hop_all-IsNet : (net : Net) → IsNet net → Yields (hop_all net.size 0 net) (Keeps net)
hop_all-IsNet net valid = hop_all-from net.size 0 net valid (omega arith)
