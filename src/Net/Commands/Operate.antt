-- ===== src/Net/Commands/Operate.antt =====
-- `operate` of a well-formed network: which commands access no array outside its bounds and use no
-- pointer that is NULL, and that they keep the network well-formed.
use psim.Prelude.{
  ℕ, ◌^◌, ◌≤◌, ◌<◌, ◌≡◌, ◌≢◌, refl, sym, Bool, true, false, ◌&&◌, ◌==◌, leb, if◌then◌else◌,
}
use psim.Prelude.{List, get_elem?, All-get_elem?, Option, none, some}
use psim.Prelude.{
  Errno, success, eagain, enomem, enobufs, edeadlk, einval, enotsup, ebusy, eaddrnotavail, efault,
  eoverflow, enospc, ==→eq, Bool-cases, inl, inr, Outcome, ok,
}
use mathlib.Core.Path.{subst}
use psim.Cpu.{
  mfc2_u32, set_reg, k1, cop2_msg_st_op, cop2_msg_corr, cop2_msg_st, cop2_msg_ncl, cop2_msg_op_none,
  cop2_msg_op_in, cop2_msg_op_out, cop2_msg_op_alt,
}
use psim.Mem
use psim.Net.State.{Msg, Node, Net}
use psim.Net.Invariant.{IsNode, IsNet, Yields}
use psim.Net.Commands.{
  malloc, Reply, receive, take_default, tell_sender, alt_receive, start_after, alt_found,
  alt_clauses, alt, operate_by, operate,
}
use psim.Net.Commands.Search.{Found, found, exhausted, words_at, ready, is_full, belongs}
use psim.Net.Commands.SearchLaws.{IsFirst, search-IsFirst}
use psim.Net.Commands.Safe.{
  Good, KeepsAll, HasMail, cpu-IsNode, receive-Yields, reply-Yields, input-Yields, output-Yields,
}

tell_sender-Yields :
    (size from : ℕ) (r : Reply) → Yields r (Good size) → Yields (tell_sender from r) (Good size)
tell_sender-Yields size from r ((e, nd), p, good) =
    subst (λ o. Yields (tell_sender from o) (Good size)) (sym p) (by_error e)
  where
    by_error : (e : Errno) → Yields (tell_sender from (some (e, nd))) (Good size)
    by_error success =
        ((success, record nd { cpu = set_reg nd.cpu k1 from }), refl, cpu-IsNode size nd _ good)
    by_error einval = ((einval, nd), refl, good)
    by_error enotsup = ((enotsup, nd), refl, good)
    by_error ebusy = ((ebusy, nd), refl, good)
    by_error eaddrnotavail = ((eaddrnotavail, nd), refl, good)
    by_error efault = ((efault, nd), refl, good)
    by_error eoverflow = ((eoverflow, nd), refl, good)
    by_error eagain = ((eagain, nd), refl, good)
    by_error enomem = ((enomem, nd), refl, good)
    by_error enobufs = ((enobufs, nd), refl, good)
    by_error edeadlk = ((edeadlk, nd), refl, good)
    by_error enospc = ((enospc, nd), refl, good)

both : (a b : Bool) → (a && b) ≡ true → b ≡ true
both true b e = e
both false b e = cc

full-some : (b : Option (Option Msg)) → is_full b ≡ true → (m : Msg) × (b ≡ some (some m))
full-some none e = cc
full-some (some none) e = cc
full-some (some (some m)) e = (m, refl)

module _ (net : Net) (id : ℕ) (valid : IsNet net) (small : net.size ≤ 2 ^ 16)
    (lt : id < net.size) where
  alt_receive-Yields :
      (from : ℕ) (nd : Node) (m : Msg)
      → IsNode net.size nd
      → get_elem? nd.mbox from ≡ some (some m)
      → m.from < net.size
      → id ≢ m.from
      → Yields (alt_receive net id from nd) (KeepsAll net)
  unfolding alt_receive
  alt_receive-Yields from nd m h p known ne =
      let r = receive net.y id from m (malloc net.mallocs) nd in
      let (out, q, good) = reply-Yields net id true (tell_sender from r) valid (
        tell_sender-Yields net.size from r
          (receive-Yields net.size net.y id small lt nd h from m (malloc net.mallocs) known ne)) in
      (out, rw (p, alt_receive) q, good)

  alt_found-Yields :
      (df : Bool) (clauses : List ℕ) (start : ℕ) (f : Found) (nd : Node)
      → IsNode net.size nd
      → HasMail net.size id nd
      → IsFirst clauses nd.mbox net.size start f
      → Yields (alt_found net df id (some f) nd) (KeepsAll net)
  unfolding alt_found ready
  alt_found-Yields df clauses start (exhausted cur) nd h mail first =
      reply-Yields net id false _ valid
        (_, refl, record { ins = h.ins; outs = h.outs; boxes = h.boxes })
  alt_found-Yields df clauses start (found cur) nd h mail first =
      let (m, p) = full-some (get_elem? nd.mbox cur) (both (belongs clauses cur) _ first.3) in
      let (known, ne) = mail cur m p in
      alt_receive-Yields cur (start_after net cur nd) m
        (record { ins = h.ins; outs = h.outs; boxes = h.boxes }) p known ne

  alt_clauses-Yields :
      (nd : Node) (clauses : List ℕ) (df : Bool)
      → IsNode net.size nd
      → HasMail net.size id nd
      → nd.mbox_start < net.size
      → Yields (alt_clauses net id nd clauses df) (KeepsAll net)
  unfolding alt_clauses take_default
  alt_clauses-Yields nd clauses df h mail inside =
      let (f, p, first) = search-IsFirst clauses nd.mbox net.size nd.mbox_start inside in
      subst
        (λ o. Yields (alt_found net df id o (if df then take_default nd else nd)) (KeepsAll net))
        (sym p) (by_default df f first)
    where
      by_default :
          (b : Bool) (f : Found)
          → IsFirst clauses nd.mbox net.size nd.mbox_start f
          → Yields (alt_found net b id (some f) (if b then take_default nd else nd)) (KeepsAll net)
      by_default true f first =
          alt_found-Yields true clauses nd.mbox_start f (take_default nd)
            (cpu-IsNode net.size nd _ h) mail first
      by_default false f first = alt_found-Yields false clauses nd.mbox_start f nd h mail first

-- The command that the node has pending is one that the network can carry out: its partner is another
-- node of the network, and the clauses of an alternative lie in the memory.
pub record IsFeasible (net : Net) (id : ℕ) (nd : Node) (op corr : ℕ) : Type 0 where
  pub sender : op ≡ cop2_msg_op_in → corr < net.size
  pub receiver : op ≡ cop2_msg_op_out → (corr < net.size) × (id ≢ corr)
  pub clauses :
      op ≡ cop2_msg_op_alt
      → (k : ℕ) × (ws : List ℕ × ℕ) × (Mem.getptr nd.mem corr ≡ ok k)
        × (words_at nd.mem k (mfc2_u32 nd.cpu cop2_msg_ncl) ≡ some ws)

module _ (net : Net) (id : ℕ) (valid : IsNet net) (small : net.size ≤ 2 ^ 16) (lt : id < net.size)
    (nd : Node) (there : get_elem? net.nd id ≡ some nd) (mail : HasMail net.size id nd)
    (inside : nd.mbox_start < net.size) where
  alt-Yields :
      (o : Outcome ℕ) (k : ℕ) (ws : List ℕ × ℕ)
      → o ≡ ok k
      → words_at nd.mem k (mfc2_u32 nd.cpu cop2_msg_ncl) ≡ some ws
      → Yields (alt net o id) (KeepsAll net)
  unfolding alt
  alt-Yields o k (cs, last) p q = elim (Bool-cases (mfc2_u32 nd.cpu cop2_msg_ncl == 0)) [
    | inl r ↦ ((edeadlk, net), rw (there, alt) (rw (r, alt) refl), (valid, refl))
    | inr r ↦
        let node = All-get_elem? (IsNode net.size) net.nd id nd valid.nodes there in
        let (out, e, good) =
          alt_clauses-Yields net id valid small lt nd cs (leb (2 ^ 31) last) node mail inside in
        (out, rw (there, alt) (rw (r, alt) (rw (p, alt) (rw (q, alt) e))), good)
  ]

  operate_by-Yields :
      (op corr : ℕ)
      → IsFeasible net id nd op corr
      → Yields (operate_by op corr net id nd) (KeepsAll net)
  unfolding operate_by
  operate_by-Yields op corr h = elim (Bool-cases (op == cop2_msg_op_none)) [
    | inl p ↦ ((success, net), rw (p, operate_by) refl, (valid, refl))
    | inr p ↦ elim (Bool-cases (op == cop2_msg_op_in)) [
      | inl q ↦
          let (out, e, good) =
            input-Yields net id valid small lt nd there mail corr (h.sender (==→eq _ _ q)) in
          (out, rw (p, operate_by) (rw (q, operate_by) e), good)
      | inr q ↦ elim (Bool-cases (op == cop2_msg_op_out)) [
        | inl r ↦
            let (known, ne) = h.receiver (==→eq _ _ r) in
            let (out, e, good) = output-Yields net id valid small lt nd there mail corr known ne in
            (out, rw (p, operate_by) (rw (q, operate_by) (rw (r, operate_by) e)), good)
        | inr r ↦ elim (Bool-cases (op == cop2_msg_op_alt)) [
          | inl t ↦
              let (k, ws, o, w) = h.clauses (==→eq _ _ t) in
              let (out, e, good) = alt-Yields (Mem.getptr nd.mem corr) k ws o w in
              (
                out,
                rw (p, operate_by) (rw (q, operate_by) (rw (r, operate_by) (rw (t, operate_by) e))),
                good,
              )
          | inr t ↦ (
            (einval, net),
            rw (p, operate_by) (rw (q, operate_by) (rw (r, operate_by) (rw (t, operate_by) refl))),
            (valid, refl),
          )
        ]
      ]
    ]
  ]

  -- In a well-formed network of at most 2 ^ 16 nodes: `operate` of a node of it, whose mailboxes hold
  -- messages of other nodes, whose search starts at one of them and whose pending command is feasible,
  -- accesses no array outside its bounds, uses no pointer that is NULL, and leaves a well-formed
  -- network of the same size, whether the command is carried out, fails or is tried again.
  pub operate-IsNet :
      IsFeasible net id nd
        (cop2_msg_st_op (mfc2_u32 nd.cpu cop2_msg_st))
        (mfc2_u32 nd.cpu cop2_msg_corr)
      → Yields (operate net id) (KeepsAll net)
  unfolding operate
  operate-IsNet h =
      let (out, e, good) = operate_by-Yields _ _ h in (out, rw (there, operate) e, good)
