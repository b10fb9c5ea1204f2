-- ===== src/Net/Untouched.antt =====
-- Net_execute touches no memory, and of a processor only coprocessor 2 and K1.
use psim.Prelude.{ℕ, zero, suc, ◌+◌, ◌≡◌, arith, Bool}
use psim.Prelude.{some, Option-cases, Bool-cases, inl, inr}
use mathlib.Core.Path.{subst}
use psim.Net.State.{Net}
use psim.Net.Commands.{operate}
use psim.Net.Execute.{fwd_all, hop_all, operate_all, is_deadlock, net_execute}
use psim.Net.Frame.{SameNet, refl-SameNet, trans-SameNet}
use psim.Net.TransportFrame.{fwd_all-SameNet, hop_all-SameNet}
use psim.Net.CommandsFrame.{KeptNet, operate-KeptNet}

operate_all-SameNet :
    (n i : ℕ) (net net' : Net) (ret : Bool)
    → operate_all n i net ≡ some (ret, net')
    → SameNet net net'
unfolding operate_all
operate_all-SameNet zero i net net' ret e =
    let same : net ≡ net' = cc in subst (SameNet net) same (refl-SameNet net)
operate_all-SameNet (suc n) i net net' ret e = elim (Option-cases (operate net i)) [
  | inl p ↦ absurd (ground (arith, e, p))
  | inr ((x, mid), p) ↦
      let once : SameNet net mid = subst (KeptNet net) p (operate-KeptNet net i) in
      elim (Bool-cases (is_deadlock x)) [
        | inl q ↦ let same : mid ≡ net' = ground (arith, e, p, q) in subst (SameNet net) same once
        | inr q ↦
            trans-SameNet net mid net' once
              (operate_all-SameNet n (i + 1) mid net' ret (ground (arith, e, p, q)))
      ]
]

-- A cycle of the network, ended by a deadlock or not, leaves every node its memory, and of every
-- processor whether it runs, its program counter, HI and LO, its decoder, its counters and its
-- registers but K1. The number of nodes and `nrun` stay too.
pub net_execute-SameNet :
    (net net' : Net) (ret : Bool) → net_execute net ≡ some (ret, net') → SameNet net net'
unfolding net_execute
net_execute-SameNet net net' ret e = elim (Option-cases (fwd_all net.size 0 net)) [
  | inl p ↦ absurd (ground (arith, e, p))
  | inr (net1, p) ↦
      let first = fwd_all-SameNet net.size 0 net net1 p in
      elim (Option-cases (operate_all net1.size 0 net1)) [
        | inl q ↦ absurd (ground (arith, e, p, q))
        | inr ((go, net2), q) ↦
            let two =
              trans-SameNet net net1 net2 first (operate_all-SameNet net1.size 0 net1 net2 go q) in
            elim (Bool-cases go) [
              | inl r ↦ elim (Option-cases (hop_all net2.size 0 net2)) [
                | inl t ↦ absurd (ground (arith, e, p, q, r, t))
                | inr (net3, t) ↦
                    let same : net3 ≡ net' = ground (arith, e, p, q, r, t) in
                    subst (SameNet net) same
                      (trans-SameNet net net2 net3 two (hop_all-SameNet net2.size 0 net2 net3 t))
              ]
              | inr r ↦
                  let same : net2 ≡ net' = ground (arith, e, p, q, r) in
                  subst (SameNet net) same two
            ]
      ]
]
