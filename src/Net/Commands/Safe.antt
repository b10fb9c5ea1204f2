-- ===== src/Net/Commands/Safe.antt =====
-- `operate` on a well-formed network: it accesses no array outside its bounds and uses no pointer that
-- is NULL, and keeps the network well-formed.
use psim.Prelude.{ℕ, ◌^◌, ◌≤◌, ◌<◌, ◌≡◌, ◌≢◌, refl, sym, ◌∙◌, arith, Bool, true, false, ◌==◌, leb}
use psim.Prelude.{
  length, get_elem?, set, length-set, get_elem?_of_lt, All-get_elem?, Option, none, some, bit_or,
}
use psim.Prelude.{
  Errno, success, eagain, enomem, enobufs, edeadlk, Bool-cases, Option-cases, inl, inr,
}
use mathlib.Core.Path.{subst}
use psim.Cpu.{Cpu, mfc2_u32, mtc2_drop, cop2_msg_st_sent, cop2_msg_st, cop2_msg_op_none}
use psim.Net.State.{link_bufsz, Msg, Link, set_port, Node, Net}
use psim.Net.Link.{link_insmsg}
use psim.Net.Route.{guidance}
use psim.Net.Transport.{is_mbox}
use psim.Net.Invariant.{
  Addressed, IsLink, IsNode, IsNet, insmsg-IsLink, port-IsLink, set_port-ArePorts, Yields, Keeps,
}
use psim.Net.FwdLaws.{port-some, set_node-IsNet}
use psim.Net.Commands.{
  malloc, Reply, ack_for, consume, insert, send, receive, reply, input, await_ack, message,
  send_output, output,
}

-- The link towards another node is no mailbox.
guidance-is_mbox : (y a b : ℕ) → a ≢ b → is_mbox (guidance y a b) ≡ false
unfolding guidance
guidance-is_mbox y a b ne = ground (arith, ne)

-- The node that a command leaves
abbrev pub Good : ℕ → Errno × Node → Type 0
Good size (e, nd) = IsNode size nd

abbrev WhenSent : ℕ → Option Node → Type 0
WhenSent size none = Unit
WhenSent size (some nd) = IsNode size nd

insert-IsLink :
    (size : ℕ) (l : Link) (m : Msg) → IsLink size l → Addressed size m → IsLink size (insert l m)
unfolding insert
insert-IsLink size l m h a = elim (Option-cases (link_insmsg l m)) [
  | inl p ↦ rw (p, insert) h
  | inr (l', p) ↦ rw (p, insert) (insmsg-IsLink size l l' m h a p)
]

module _ (size y id : ℕ) (nd : Node) (valid : IsNode size nd) where
  send-Yields :
      (dest : ℕ) (m : Msg)
      → id ≢ dest
      → Addressed size m
      → Yields (send y id dest nd m) (WhenSent size)
  unfolding send
  send-Yields dest m ne a =
      let (out, p, _) =
        port-some nd.link_out (guidance y id dest) (guidance-is_mbox y id dest ne) in
      elim (Bool-cases (leb link_bufsz (length out))) [
        | inl q ↦ (none, rw (p, send) (rw (q, send) refl), tt)
        | inr q ↦
            let link =
              insert-IsLink size out m (port-IsLink size nd.link_out _ out valid.outs p) a in
            (
              some (record nd {
                link_out = set_port nd.link_out (guidance y id dest) (insert out m);
              }),
              rw (p, send) (rw (q, send) refl),
              record {
                ins = valid.ins;
                outs = set_port-ArePorts size nd.link_out _ (insert out m) valid.outs link;
                boxes = valid.boxes;
              },
            )
      ]

consume-IsNode :
    (size : ℕ) (nd : Node) (from : ℕ) (m : Msg) → IsNode size nd → IsNode size (consume nd from m)
unfolding consume
consume-IsNode size nd from m h = record {
  ins = h.ins;
  outs = h.outs;
  boxes = length-set nd.mbox from none ∙ h.boxes;
}

pub cpu-IsNode :
    (size : ℕ) (nd : Node) (c : Cpu) → IsNode size nd → IsNode size (record nd { cpu = c })
cpu-IsNode size nd c h = record { ins = h.ins; outs = h.outs; boxes = h.boxes }

module _ (size y id : ℕ) (small : size ≤ 2 ^ 16) (inside : id < size) (nd : Node)
    (valid : IsNode size nd) where
  pub receive-Yields :
      (from : ℕ) (m : Msg) (block : Option Msg)
      → m.from < size
      → id ≢ m.from
      → Yields (receive y id from m block nd) (Good size)
  unfolding receive
  receive-Yields from m none lt ne = ((enomem, nd), refl, valid)
  receive-Yields from m (some block) lt ne =
      let (sent, p, good) =
        send-Yields size y id nd valid m.from (ack_for id m block) ne (lt, omega arith) in
      answered sent p good
    where
      answered :
          (sent : Option Node)
          → send y id m.from nd (ack_for id m block) ≡ some sent
          → WhenSent size sent
          → Yields (receive y id from m (some block) nd) (Good size)
      answered none p good = ((enobufs, nd), rw (p, receive) refl, valid)
      answered (some nd') p good =
          ((success, consume nd' from m), rw (p, receive) refl, consume-IsNode size nd' from m good)

  send_output-Yields :
      (to : ℕ) (block : Option Msg)
      → to < size
      → id ≢ to
      → Yields (send_output y id to block nd) (Good size)
  unfolding send_output
  send_output-Yields to none lt ne = ((enomem, nd), refl, valid)
  send_output-Yields to (some block) lt ne =
      let (sent, p, good) =
        send-Yields size y id nd valid to (message nd id to) ne (omega arith, omega arith) in
      answered sent p good
    where
      answered :
          (sent : Option Node)
          → send y id to nd (message nd id to) ≡ some sent
          → WhenSent size sent
          → Yields (send_output y id to (some block) nd) (Good size)
      answered none p good = ((enobufs, nd), rw (p, send_output) refl, valid)
      answered (some nd') p good =
          let status = bit_or (mfc2_u32 nd.cpu cop2_msg_st) 0x4 in
          let c = mtc2_drop nd'.cpu cop2_msg_st status in
          ((success, record nd' { cpu = c }), rw (p, send_output) refl, cpu-IsNode size nd' c good)

  await_ack-Yields : (to : ℕ) → to < size → Yields (await_ack to nd) (Good size)
  unfolding await_ack
  await_ack-Yields to lt =
      let (box, p) = get_elem?_of_lt nd.mbox to (omega (arith, valid.boxes)) in by_box box p
    where
      by_box :
          (box : Option Msg)
          → get_elem? nd.mbox to ≡ some box
          → Yields (await_ack to nd) (Good size)
      by_box none p = ((eagain, nd), rw (p, await_ack) refl, valid)
      by_box (some m) p = elim (Bool-cases (m.ack == 0)) [
        | inl q ↦ ((edeadlk, nd), rw (p, await_ack) (rw (q, await_ack) refl), valid)
        | inr q ↦ (
          (
            success,
            record nd {
              cpu = mtc2_drop nd.cpu cop2_msg_st cop2_msg_op_none;
              mbox = set nd.mbox to none;
            },
          ),
          rw (p, await_ack) (rw (q, await_ack) refl),
          record {
            ins = valid.ins;
            outs = valid.outs;
            boxes = length-set nd.mbox to none ∙ valid.boxes;
          },
        )
      ]

-- What a command does to the network
abbrev pub KeepsAll : Net → Errno × Net → Type 0
KeepsAll net (e, net') = Keeps net net'

pub reply-Yields :
    (net : Net) (id : ℕ) (calls : Bool) (r : Reply)
    → IsNet net
    → Yields r (Good net.size)
    → Yields (reply net id calls r) (KeepsAll net)
reply-Yields net id calls r h ((e, nd), p, good) =
    let k = set_node-IsNet net id nd h good in
    subst (λ o. Yields (reply net id calls o) (KeepsAll net)) (sym p)
      (
        _,
        refl,
        (
          record {
            area = k.area;
            wide = k.wide;
            small = k.small;
            count = k.count;
            nodes = k.nodes;
          },
          refl,
        ),
      )

-- The messages in the mailboxes of the node `id` are from other nodes.
abbrev pub HasMail : ℕ → ℕ → Node → Type 0
HasMail size id nd =
    (k : ℕ) (m : Msg) → get_elem? nd.mbox k ≡ some (some m) → (m.from < size) × (id ≢ m.from)

module _ (net : Net) (id : ℕ) (valid : IsNet net) (small : net.size ≤ 2 ^ 16) (lt : id < net.size)
    (nd : Node) (there : get_elem? net.nd id ≡ some nd) (mail : HasMail net.size id nd) where
  node : IsNode net.size nd
  node = All-get_elem? (IsNode net.size) net.nd id nd valid.nodes there

  pub input-Yields : (from : ℕ) → from < net.size → Yields (input net from id) (KeepsAll net)
  unfolding input
  input-Yields from h =
      let (box, p) = get_elem?_of_lt nd.mbox from (omega (arith, node.boxes)) in by_box box p
    where
      by_box :
          (box : Option Msg)
          → get_elem? nd.mbox from ≡ some box
          → Yields (input net from id) (KeepsAll net)
      by_box none p = ((eagain, net), rw (there, input) (rw (p, input) refl), (valid, refl))
      by_box (some m) p =
          let (known, ne) = mail from m p in
          let r = receive net.y id from m (malloc net.mallocs) nd in
          let (out, q, good) = reply-Yields net id true r valid (
            receive-Yields net.size net.y id small lt nd node from m (malloc net.mallocs) known
              ne) in
          (out, rw (there, input) (rw (p, input) q), good)

  pub output-Yields : (to : ℕ) → to < net.size → id ≢ to → Yields (output net to id) (KeepsAll net)
  unfolding output
  output-Yields to h ne = elim (Bool-cases (cop2_msg_st_sent (mfc2_u32 nd.cpu cop2_msg_st) == 0)) [
    | inl p ↦
        let (out, q, good) =
          reply-Yields net id true _ valid
            (send_output-Yields net.size net.y id small lt nd node to (malloc net.mallocs) h ne) in
        (out, rw (there, output) (rw (p, output) q), good)
    | inr p ↦
        let (out, q, good) =
          reply-Yields net id false _ valid
            (await_ack-Yields net.size net.y id small lt nd node to h) in
        (out, rw (there, output) (rw (p, output) q), good)
  ]
