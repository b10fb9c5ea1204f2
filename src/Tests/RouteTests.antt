-- ===== src/Tests/RouteTests.antt =====
-- A mesh of 3 rows of 4 nodes.
use psim.Prelude.{◌*◌, ◌≡◌, refl, arith}
use psim.Net.State.{south}
use psim.Net.Route.{guidance}
use psim.Net.Route.Mesh.{IsStep, walk, guidance-IsStep, walk-dist}

-- From node 9 (row 2, column 1) to node 3 (row 0, column 3) the way is south, south, east, east.
first_step : guidance 4 9 3 ≡ south
unfolding guidance
first_step = refl

guidance-IsStep_example : IsStep 4 (3 * 4) 9 3 (guidance 4 9 3)
guidance-IsStep_example =
    guidance-IsStep 3 4 (omega arith) (omega arith) 9 3 (omega arith) (omega arith) (omega arith)

walk-dist_example : walk 4 (3 * 4) 4 9 3 ≡ 3
walk-dist_example = walk-dist 3 4 (omega arith) (omega arith) 4 9 3 (omega arith) (omega arith) refl
