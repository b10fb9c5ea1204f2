-- ===== src/Net/NodeFrame.antt =====
-- The commands' work on their node touches no memory, and of the processor only coprocessor 2 and K1.
use psim.Prelude.{ℕ, ◌+◌, ◌-◌, ◌^◌, u32, bit_or, ◌≡◌, refl, sym, arith}
use psim.Prelude.{Option, none, some, success, Option-cases, inl, inr, get_or-set_ne}
use psim.Cpu.{
  Cpu, mtc2_drop, k1, set_reg, mfc2_u32, cop2_msg_st, cop2_msg_data, cop2_msg_hops,
  cop2_msg_op_none,
}
use psim.Net.State.{Msg, Node}
use psim.Net.Commands.{
  Reply, ack_for, message, send, receive, consume, await_ack, send_output, take_default,
  tell_sender,
}
use psim.Net.Frame.{
  SameCpu, SameNode, mtc2_drop-SameCpu, refl-SameCpu, trans-SameCpu, refl-SameNode, trans-SameNode,
}

-- What the commands do to the node that carries them out
abbrev pub Kept : Node → Reply → Type 0
Kept nd none = Unit
Kept nd (some (e, nd')) = SameNode nd nd'

send-SameNode :
    (y id dest : ℕ) (nd nd' : Node) (m : Msg)
    → send y id dest nd m ≡ some (some nd')
    → SameNode nd nd'
unfolding send
send-SameNode y id dest nd nd' m e = ground (arith, refl-SameCpu nd.cpu)

cpu-SameNode : (nd : Node) (c : Cpu) → SameCpu nd.cpu c → SameNode nd (record nd { cpu = c })
cpu-SameNode nd c h = record { same_mem = refl; same_cpu = h }

consume-SameNode : (nd : Node) (from : ℕ) (m : Msg) → SameNode nd (consume nd from m)
unfolding consume
consume-SameNode nd from m = record {
  same_mem = refl;
  same_cpu =
      let c1 = mtc2_drop nd.cpu cop2_msg_data m.payload in
      let total = u32 (mfc2_u32 c1 cop2_msg_hops + m.hops) in
      let c2 = mtc2_drop c1 cop2_msg_hops total in
      trans-SameCpu nd.cpu c1 _ (mtc2_drop-SameCpu nd.cpu cop2_msg_data m.payload) (
        trans-SameCpu c1 c2 _ (mtc2_drop-SameCpu c1 cop2_msg_hops total)
          (mtc2_drop-SameCpu c2 cop2_msg_st cop2_msg_op_none));
}

pub receive-Kept :
    (y to from : ℕ) (m : Msg) (block : Option Msg) (nd : Node)
    → Kept nd (receive y to from m block nd)
unfolding receive
receive-Kept y to from m none nd = refl-SameNode nd
receive-Kept y to from m (some block) nd =
    elim (Option-cases (send y to m.from nd (ack_for to m block))) [
      | inl p ↦ rw (p, receive) tt
      | inr (none, p) ↦ rw (p, receive) (refl-SameNode nd)
      | inr (some nd', p) ↦
          rw (p, receive)
            (trans-SameNode nd nd' _ (send-SameNode y to m.from nd nd' _ p)
              (consume-SameNode nd' from m))
    ]

pub await_ack-Kept : (to : ℕ) (nd : Node) → Kept nd (await_ack to nd)
unfolding await_ack
await_ack-Kept to nd = ground (arith, refl-SameCpu nd.cpu, mtc2_drop-SameCpu nd.cpu)

pub send_output-Kept :
    (y from to : ℕ) (block : Option Msg) (nd : Node) → Kept nd (send_output y from to block nd)
unfolding send_output
send_output-Kept y from to none nd = refl-SameNode nd
send_output-Kept y from to (some block) nd =
    let status = bit_or (mfc2_u32 nd.cpu cop2_msg_st) 0x4 in
    elim (Option-cases (send y from to nd (message nd from to))) [
      | inl p ↦ rw (p, send_output) tt
      | inr (none, p) ↦ rw (p, send_output) (refl-SameNode nd)
      | inr (some nd', p) ↦
          rw (p, send_output)
            (trans-SameNode nd nd' _ (send-SameNode y from to nd nd' _ p)
              (cpu-SameNode nd' _ (mtc2_drop-SameCpu nd'.cpu cop2_msg_st status)))
    ]

set_k1-SameCpu : (c : Cpu) (v : ℕ) → SameCpu c (set_reg c k1 v)
set_k1-SameCpu c v = record {
  same_running = refl;
  same_pc = refl;
  same_hi = refl;
  same_lo = refl;
  same_dec = refl;
  same_perfct = refl;
  same_gpr = λ i ne. get_or-set_ne c.gpr k1 i v 0 (λ p. ne (sym p));
}

pub take_default-SameNode : (nd : Node) → SameNode nd (take_default nd)
unfolding take_default
take_default-SameNode nd =
    let c = set_reg nd.cpu k1 (2 ^ 32 - 1) in
    cpu-SameNode nd _ (
      trans-SameCpu nd.cpu c _ (set_k1-SameCpu nd.cpu (2 ^ 32 - 1))
        (mtc2_drop-SameCpu c cop2_msg_st cop2_msg_op_none))

pub tell_sender-Kept : (nd : Node) (from : ℕ) (r : Reply) → Kept nd r → Kept nd (tell_sender from r)
tell_sender-Kept nd from none h = tt
tell_sender-Kept nd from (some (success, nd')) h =
    trans-SameNode nd nd' _ h (cpu-SameNode nd' _ (set_k1-SameCpu nd'.cpu from))
tell_sender-Kept nd from (some (_, nd')) h = h
