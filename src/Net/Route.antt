-- ===== src/Net/Route.antt =====
-- net.c: `guidance`, and the neighbour that `hop` reaches over a link.
pub mod Mesh
use psim.Prelude.{ℕ, ◌+◌, ◌-◌, ◌%◌, ◌^◌, Bool, true, false, ◌||◌, ltb, leb, ◌==◌, if◌then◌else◌}
use psim.Prelude.{u32, sub32, sub64}
use psim.Net.State.{LinkName, north, east, south, west, mbox}

-- guidance, in a network whose rows have `y` nodes. The network has a node, so `y` is not 0.
unfoldable pub guidance : ℕ → ℕ → ℕ → LinkName
guidance y from to =
    if ltb from to
    then if ltb (from % y) (to % y) then east else north
    else if ltb to from
    then if ltb (to % y) (from % y) then west else south
    else mbox

-- The switch in `hop`: the node behind the link, the link on which it receives, and `oob`.
unfoldable pub neighbour : ℕ → ℕ → ℕ → LinkName → ℕ × LinkName × Bool
neighbour y size id north = let nxt = u32 (id + y) in (nxt, south, leb size nxt || ltb nxt id)
neighbour y size id east = let nxt = u32 (id + 1) in (nxt, west, nxt % y == 0)
neighbour y size id south = let nxt = u32 (sub64 id y) in (nxt, north, ltb id nxt)
neighbour y size id west = let nxt = sub32 id 1 in (nxt, east, (nxt % y == sub64 y 1) || ltb id nxt)
neighbour y size id mbox = (0, mbox, false)
