-- ===== src/Net/CommandsFrame.antt =====
-- `input`, `output` and `alt` touch no memory, and of a processor only coprocessor 2 and K1.
use psim.Prelude.{ℕ, ◌^◌, leb, ◌≡◌, refl, Bool, true, false, ◌==◌, if◌then◌else◌}
use psim.Prelude.{
  List, Option, none, some, Errno, success, eagain, Option-cases, inl, inr, get_elem?, if_both,
  Outcome, ok, err, fault,
}
use psim.Cpu.{
  mfc2_u32, cop2_msg_st, cop2_msg_st_sent, cop2_msg_op_none, cop2_msg_ncl, cop2_msg_corr,
  cop2_msg_st_op, cop2_msg_op_in, cop2_msg_op_out, cop2_msg_op_alt,
}
use psim.Mem
use psim.Net.State.{Node, Net}
use psim.Net.Commands.{
  malloc, Reply, reply, input, output, take_default, alt_receive, start_after, alt_found,
  alt_clauses, alt, operate_by, operate,
}
use psim.Net.Commands.Search.{Found, found, exhausted, words_at}
use psim.Net.Frame.{
  SameNode, SameNet, refl-SameNode, trans-SameNode, refl-SameNet, set_node-SameNet,
}
use psim.Net.NodeFrame.{
  Kept, receive-Kept, await_ack-Kept, send_output-Kept, take_default-SameNode, tell_sender-Kept,
}

-- What a command does to the network
abbrev pub KeptNet : Net → Option (Errno × Net) → Type 0
KeptNet net none = Unit
KeptNet net (some (e, net')) = SameNet net net'

reply-KeptNet :
    (net : Net) (id : ℕ) (nd : Node) (calls : Bool) (r : Reply)
    → get_elem? net.nd id ≡ some nd
    → Kept nd r
    → KeptNet net (reply net id calls r)
reply-KeptNet net id nd calls none p h = tt
reply-KeptNet net id nd calls (some (e, nd')) p h =
    let k = set_node-SameNet net id nd nd' p h in
    record { same_size = refl; same_nrun = refl; alike = k.alike }

input-KeptNet : (net : Net) (from to : ℕ) → KeptNet net (input net from to)
unfolding input
input-KeptNet net from to = elim (Option-cases (get_elem? net.nd to)) [
  | inl p ↦ rw (p, input) tt
  | inr (nd, p) ↦ elim (Option-cases (get_elem? nd.mbox from)) [
    | inl q ↦ rw (p, input) (rw (q, input) tt)
    | inr (none, q) ↦ rw (p, input) (rw (q, input) (refl-SameNet net))
    | inr (some m, q) ↦
        rw (p, input)
          (rw (q, input) (reply-KeptNet net to nd true _ p (receive-Kept net.y to from m _ nd)))
  ]
]

output-KeptNet : (net : Net) (to from : ℕ) → KeptNet net (output net to from)
unfolding output
output-KeptNet net to from = elim (Option-cases (get_elem? net.nd from)) [
  | inl p ↦ rw (p, output) tt
  | inr (nd, p) ↦
      rw (p, output)
        (if_both (KeptNet net) (cop2_msg_st_sent (mfc2_u32 nd.cpu cop2_msg_st) == 0) _ _
          (λ q. reply-KeptNet net from nd true _ p (send_output-Kept net.y from to _ nd))
          (λ q. reply-KeptNet net from nd false _ p (await_ack-Kept to nd)))
]

Kept-after : (nd0 nd : Node) (r : Reply) → SameNode nd0 nd → Kept nd r → Kept nd0 r
Kept-after nd0 nd none h k = tt
Kept-after nd0 nd (some (e, nd')) h k = trans-SameNode nd0 nd nd' h k

module _ (net : Net) (to : ℕ) (nd0 : Node) (there : get_elem? net.nd to ≡ some nd0) where
  alt_receive-KeptNet :
      (from : ℕ) (nd : Node) → SameNode nd0 nd → KeptNet net (alt_receive net to from nd)
  unfolding alt_receive
  alt_receive-KeptNet from nd h = elim (Option-cases (get_elem? nd.mbox from)) [
    | inl q ↦ rw (q, alt_receive) tt
    | inr (none, q) ↦ rw (q, alt_receive) tt
    | inr (some m, q) ↦
        rw (q, alt_receive)
          (reply-KeptNet net to nd0 true _ there (
            Kept-after nd0 nd _ h
              (tell_sender-Kept nd from _ (receive-Kept net.y to from m (malloc net.mallocs) nd))))
  ]

  start_after-SameNode :
      (cur : ℕ) (nd : Node) → SameNode nd0 nd → SameNode nd0 (start_after net cur nd)
  start_after-SameNode cur nd h = record { same_mem = h.same_mem; same_cpu = h.same_cpu }

  alt_found-KeptNet :
      (df : Bool) (f : Option Found) (nd : Node)
      → SameNode nd0 nd
      → KeptNet net (alt_found net df to f nd)
  unfolding alt_found
  alt_found-KeptNet df none nd h = tt
  alt_found-KeptNet df (some (exhausted cur)) nd h =
      reply-KeptNet net to nd0 false (some (if df then success else eagain, start_after net cur nd))
        there (start_after-SameNode cur nd h)
  alt_found-KeptNet df (some (found cur)) nd h =
      alt_receive-KeptNet cur _ (start_after-SameNode cur nd h)

  alt_clauses-KeptNet :
      (clauses : List ℕ) (df : Bool) → KeptNet net (alt_clauses net to nd0 clauses df)
  unfolding alt_clauses
  alt_clauses-KeptNet clauses df = alt_found-KeptNet df _ _ (
      if_both (SameNode nd0) df (take_default nd0) nd0 (λ p. take_default-SameNode nd0)
        (λ p. refl-SameNode nd0))

alt-KeptNet : (net : Net) (clauses : Outcome ℕ) (to : ℕ) → KeptNet net (alt net clauses to)
unfolding alt
alt-KeptNet net clauses to = elim (Option-cases (get_elem? net.nd to)) [
  | inl p ↦ rw (p, alt) tt
  | inr (nd, p) ↦
      rw (p, alt)
        (if_both (KeptNet net) (mfc2_u32 nd.cpu cop2_msg_ncl == 0) _ _ (λ q. refl-SameNet net)
          (λ q. by_clauses nd p clauses))
]
  where
    by_words :
        (nd : Node)
        → get_elem? net.nd to ≡ some nd
        → (ws : Option (List ℕ × ℕ))
        → KeptNet net (elim ws [
          | some (cs, last) ↦ alt_clauses net to nd cs (leb (2 ^ 31) last)
          | none ↦ none
        ])
    by_words nd p none = tt
    by_words nd p (some (cs, last)) = alt_clauses-KeptNet net to nd p cs (leb (2 ^ 31) last)

    by_clauses :
        (nd : Node)
        → get_elem? net.nd to ≡ some nd
        → (o : Outcome ℕ)
        → KeptNet net (elim o [
          | ok k ↦ elim (words_at nd.mem k (mfc2_u32 nd.cpu cop2_msg_ncl)) [
            | some (cs, last) ↦ alt_clauses net to nd cs (leb (2 ^ 31) last)
            | none ↦ none
          ]
          | _ ↦ none
        ])
    by_clauses nd p (ok k) = by_words nd p (words_at nd.mem k (mfc2_u32 nd.cpu cop2_msg_ncl))
    by_clauses nd p (err e) = tt
    by_clauses nd p fault = tt

operate_by-KeptNet :
    (op corr : ℕ) (net : Net) (id : ℕ) (nd : Node) → KeptNet net (operate_by op corr net id nd)
unfolding operate_by
operate_by-KeptNet op corr net id nd =
    if_both (KeptNet net) (op == cop2_msg_op_none) _ _ (λ p. refl-SameNet net)
      (λ p.
        if_both (KeptNet net) (op == cop2_msg_op_in) _ _ (λ q. input-KeptNet net corr id)
          (λ q.
            if_both (KeptNet net) (op == cop2_msg_op_out) _ _ (λ r. output-KeptNet net corr id)
              (λ r.
                if_both (KeptNet net) (op == cop2_msg_op_alt) _ _
                  (λ t. alt-KeptNet net (Mem.getptr nd.mem corr) id) (λ t. refl-SameNet net))))

pub operate-KeptNet : (net : Net) (id : ℕ) → KeptNet net (operate net id)
unfolding operate
operate-KeptNet net id = elim (Option-cases (get_elem? net.nd id)) [
  | inl p ↦ rw (p, operate) tt
  | inr (nd, p) ↦
      rw (p, operate)
        (operate_by-KeptNet (cop2_msg_st_op (mfc2_u32 nd.cpu cop2_msg_st))
          (mfc2_u32 nd.cpu cop2_msg_corr) net id nd)
]
