-- ===== src/Net/Execute.antt =====
-- net.c: Net_execute, a cycle of the network.
use psim.Prelude.{ℕ, zero, suc, ◌+◌, Bool, true, false, Option, none, some}
use psim.Prelude.{Errno}
use psim.Prelude.{edeadlk}
use psim.Net.State.{Net}
use psim.Net.Transport.{fwd, hop}
use psim.Net.Commands.{operate}

-- The loops over the nodes, from node `i` on with `n` rounds left
unfoldable pub fwd_all : ℕ → ℕ → Net → Option Net
unfolding fwd
fwd_all zero i net = some net
fwd_all (suc n) i net = elim (fwd net i) [ none ↦ none | some net' ↦ fwd_all n (i + 1) net' ]

unfoldable pub hop_all : ℕ → ℕ → Net → Option Net
unfolding hop
hop_all zero i net = some net
hop_all (suc n) i net = elim (hop net i) [ none ↦ none | some net' ↦ hop_all n (i + 1) net' ]

abbrev pub is_deadlock : Errno → Bool
is_deadlock edeadlk = true
is_deadlock _ = false

-- `false` is a deadlock, at which the loop stops; other errors are tried again in the next cycle.
unfoldable pub operate_all : ℕ → ℕ → Net → Option (Bool × Net)
unfolding operate
operate_all zero i net = some (true, net)
operate_all (suc n) i net = elim (operate net i) [
  | none ↦ none
  | some (e, net') ↦ elim (is_deadlock e) [
    | true ↦ some (false, net')
    | false ↦ operate_all n (i + 1) net'
  ]
]

-- Net_execute; `false` is the return value -1.
unfoldable pub net_execute : Net → Option (Bool × Net)
unfolding fwd_all operate_all hop_all
net_execute net = elim (fwd_all net.size 0 net) [
  | none ↦ none
  | some net1 ↦ elim (operate_all net1.size 0 net1) [
    | none ↦ none
    | some (false, net2) ↦ some (false, net2)
    | some (true, net2) ↦ elim (hop_all net2.size 0 net2) [
      | none ↦ none
      | some net3 ↦ some (true, net3)
    ]
  ]
]
