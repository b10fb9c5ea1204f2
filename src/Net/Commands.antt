-- ===== src/Net/Commands.antt =====
-- net.c: `input`, `output`, `alt` and `operate`, the communication commands of a node. `none` is
-- undefined behaviour: an access outside an array or through a NULL pointer.
pub mod Search
pub mod SearchLaws
pub mod Safe
pub mod Operate
use psim.Prelude.{ℕ, ◌+◌, ◌-◌, ◌%◌, ◌^◌, Bool, true, false, ◌==◌, leb, if◌then◌else◌}
use psim.Prelude.{length, List, [], ◌∷◌, get_elem?, set, Option, none, some, u16, u32, bit_or}
use psim.Prelude.{Errno, success, eagain, enomem, enobufs, edeadlk, einval}
use psim.Prelude.{Outcome, ok, err, fault}
use psim.Cpu
use psim.Cpu.{Cpu, mfc2_u32, mtc2_drop, set_reg, k1, cop2_msg_st_op, cop2_msg_st_sent}
use psim.Cpu.{cop2_msg_corr, cop2_msg_data, cop2_msg_st, cop2_msg_hops, cop2_msg_ncl}
use psim.Cpu.{cop2_msg_op_none, cop2_msg_op_in, cop2_msg_op_out, cop2_msg_op_alt}
use psim.Mem
use psim.Mem.{Mem}
use psim.Net.State.{link_bufsz, Msg, Link, port, set_port, Node, Net}
use psim.Net.Link.{link_insmsg}
use psim.Net.Route.{guidance}
use psim.Net.Transport.{set_node}
use Search.{Found, found, exhausted, search, words_at}

-- The next outcome of malloc
abbrev pub malloc : List (Option Msg) → Option Msg
malloc [] = none
malloc (b ∷ bs) = b

abbrev pub rest_of : List (Option Msg) → List (Option Msg)
rest_of [] = []
rest_of (b ∷ bs) = bs

-- A command's error number, with the node that it leaves.
abbrev pub Reply : Type 0
Reply = Option (Errno × Node)

-- The acknowledge that `input` and `alt` send for a message; `data` stays as malloc gave it.
abbrev pub ack_for : ℕ → Msg → Msg → Msg
ack_for to msg block = record {
  to = msg.from;
  from = u16 to;
  payload = block.payload;
  hops = msg.hops;
  ack = 1;
}

-- The receiver's registers and mailbox once the acknowledge is on its way
unfoldable pub consume : Node → ℕ → Msg → Node
unfolding Cpu.mfc2_u32 Cpu.mtc2_drop
consume nd from msg =
    let c1 = mtc2_drop nd.cpu cop2_msg_data msg.payload in
    let c2 = mtc2_drop c1 cop2_msg_hops (u32 (mfc2_u32 c1 cop2_msg_hops + msg.hops)) in
    record nd { cpu = mtc2_drop c2 cop2_msg_st cop2_msg_op_none; mbox = set nd.mbox from none }

-- link_insmsg, whose result its callers here do not look at
unfoldable insert : Link → Msg → Link
unfolding link_insmsg
insert out msg = elim (link_insmsg out msg) [ none ↦ out | some out' ↦ out' ]

-- Puts a message on the output link towards `dest`; `none` inside is a full link.
unfoldable pub send : ℕ → ℕ → ℕ → Node → Msg → Option (Option Node)
unfolding guidance insert
send y id dest nd msg = elim (port nd.link_out (guidance y id dest)) [
  | none ↦ none
  | some out ↦
      if leb link_bufsz (length out)
      then some none
      else some (
          some
            (record nd { link_out = set_port nd.link_out (guidance y id dest) (insert out msg) }))
]

-- What `input` and `alt` do with the message of the mailbox `from`
unfoldable pub receive : ℕ → ℕ → ℕ → Msg → Option Msg → Node → Reply
unfolding send Cpu.mfc2_u32 Cpu.mtc2_drop
receive y to from msg none nd = some (enomem, nd)
receive y to from msg (some block) nd = elim (send y to msg.from nd (ack_for to msg block)) [
  | none ↦ none
  | some none ↦ some (enobufs, nd)
  | some (some nd') ↦ some (success, consume nd' from msg)
]

-- A command's reply, put back into the network; `calls` tells whether malloc was called.
abbrev pub reply : Net → ℕ → Bool → Reply → Option (Errno × Net)
reply net id calls none = none
reply net id calls (some (e, nd)) = some (
  e,
  record (set_node net id nd) { mallocs = if calls then rest_of net.mallocs else net.mallocs },
)

-- input
unfoldable pub input : Net → ℕ → ℕ → Option (Errno × Net)
unfolding receive
input net from to = elim (get_elem? net.nd to) [
  | none ↦ none
  | some nd ↦ elim (get_elem? nd.mbox from) [
    | none ↦ none
    | some none ↦ some (eagain, net)
    | some (some msg) ↦ reply net to true (receive net.y to from msg (malloc net.mallocs) nd)
  ]
]

-- The half of `output` that waits for the acknowledge
unfoldable pub await_ack : ℕ → Node → Reply
unfolding Cpu.mtc2_drop
await_ack to nd = elim (get_elem? nd.mbox to) [
  | none ↦ none
  | some none ↦ some (eagain, nd)
  | some (some msg) ↦
      if msg.ack == 0
      then some (edeadlk, nd)
      else some (
        success,
        record nd {
          cpu = mtc2_drop nd.cpu cop2_msg_st cop2_msg_op_none;
          mbox = set nd.mbox to none;
        },
      )
]

abbrev pub message : Node → ℕ → ℕ → Msg
unfolding Cpu.mfc2_u32
message nd from to = record {
  to = u16 to;
  from = u16 from;
  payload = mfc2_u32 nd.cpu cop2_msg_data;
  hops = 0;
  ack = 0;
}

-- The half of `output` that sends
unfoldable pub send_output : ℕ → ℕ → ℕ → Option Msg → Node → Reply
unfolding send Cpu.mfc2_u32 Cpu.mtc2_drop
send_output y from to none nd = some (enomem, nd)
send_output y from to (some block) nd = elim (send y from to nd (message nd from to)) [
  | none ↦ none
  | some none ↦ some (enobufs, nd)
  | some (some nd') ↦ some (
    success,
    record nd' { cpu = mtc2_drop nd'.cpu cop2_msg_st (bit_or (mfc2_u32 nd.cpu cop2_msg_st) 0x4) },
  )
]

-- output
unfoldable pub output : Net → ℕ → ℕ → Option (Errno × Net)
unfolding await_ack send_output Cpu.mfc2_u32 Cpu.cop2_msg_st_sent
output net to from = elim (get_elem? net.nd from) [
  | none ↦ none
  | some nd ↦
      if cop2_msg_st_sent (mfc2_u32 nd.cpu cop2_msg_st) == 0
      then reply net from true (send_output net.y from to (malloc net.mallocs) nd)
      else reply net from false (await_ack to nd)
]

-- The default clause: K1 is -1 and the command is over.
unfoldable pub take_default : Node → Node
unfolding Cpu.mtc2_drop
take_default nd = record nd {
  cpu = mtc2_drop (set_reg nd.cpu k1 (2 ^ 32 - 1)) cop2_msg_st cop2_msg_op_none;
}

-- gpr[K1] = from, after a successful receive
abbrev pub tell_sender : ℕ → Reply → Reply
tell_sender from (some (success, nd)) = some (success, record nd { cpu = set_reg nd.cpu k1 from })
tell_sender from r = r

-- What `alt` does with the mailbox that its search found
unfoldable pub alt_receive : Net → ℕ → ℕ → Node → Option (Errno × Net)
unfolding receive
alt_receive net to from nd = elim (get_elem? nd.mbox from) [
  | some (some msg) ↦
      reply net to true (tell_sender from (receive net.y to from msg (malloc net.mallocs) nd))
  | _ ↦ none
]

-- The mailbox after the one where the search ended is the first of the next search.
abbrev pub start_after : Net → ℕ → Node → Node
start_after net cur nd = record nd { mbox_start = (cur + 1) % net.size }

unfoldable pub alt_found : Net → Bool → ℕ → Option Found → Node → Option (Errno × Net)
unfolding alt_receive
alt_found net df to none nd = none
alt_found net df to (some (exhausted cur)) nd =
    reply net to false (some (if df then success else eagain, start_after net cur nd))
alt_found net df to (some (found cur)) nd = alt_receive net to cur (start_after net cur nd)

-- `alt` once the clauses are read; the last one tells whether there is a default.
unfoldable pub alt_clauses : Net → ℕ → Node → List ℕ → Bool → Option (Errno × Net)
unfolding alt_found search Cpu.mtc2_drop
alt_clauses net to nd clauses df =
    let nd' = if df then take_default nd else nd in
    alt_found net df to (search clauses nd.mbox net.size nd.mbox_start net.size nd.mbox_start) nd'

-- alt; `clauses` is the index of the word that the pointer shows, or an error for NULL.
unfoldable pub alt : Net → Outcome ℕ → ℕ → Option (Errno × Net)
unfolding alt_clauses words_at Cpu.mfc2_u32
alt net clauses to = elim (get_elem? net.nd to) [
  | none ↦ none
  | some nd ↦
      let ncl = mfc2_u32 nd.cpu cop2_msg_ncl in
      if ncl == 0 then some (edeadlk, net) else elim clauses [
        | ok k ↦ elim (words_at nd.mem k ncl) [
          | some (cs, last) ↦ alt_clauses net to nd cs (leb (2 ^ 31) last)
          | none ↦ none
        ]
        | _ ↦ none
      ]
]

-- The switch in `operate` on the pending operation
unfoldable pub operate_by : ℕ → ℕ → Net → ℕ → Node → Option (Errno × Net)
unfolding input output alt Mem.getptr
operate_by op corr net id nd =
    if op == cop2_msg_op_none
    then some (success, net)
    else if op == cop2_msg_op_in
    then input net corr id
    else if op == cop2_msg_op_out
    then output net corr id
    else if op == cop2_msg_op_alt
    then alt net (Mem.getptr nd.mem corr) id
    else some (einval, net)

-- operate
unfoldable pub operate : Net → ℕ → Option (Errno × Net)
unfolding operate_by Cpu.mfc2_u32 Cpu.cop2_msg_st_op
operate net id = elim (get_elem? net.nd id) [
  | none ↦ none
  | some nd ↦
      operate_by (cop2_msg_st_op (mfc2_u32 nd.cpu cop2_msg_st)) (mfc2_u32 nd.cpu cop2_msg_corr) net
        id nd
]
