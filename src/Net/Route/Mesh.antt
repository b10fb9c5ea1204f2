-- ===== src/Net/Route/Mesh.antt =====
-- Routing in the mesh: each hop that `guidance` chooses stays inside and comes one step closer.
use psim.Prelude.{ℕ, zero, suc, ◌+◌, ◌-◌, ◌*◌, ◌/◌, ◌%◌, ◌^◌, ◌≤◌, ◌<◌, ◌≡◌, ap}
use psim.Prelude.{sub32, sub64, u32, false, arith, ◌≢◌, lt→ltb, not-lt→ltb}
use native.Mathlib.Nat.{div-add-mod, mod-lt, div-lt_iff_lt-mul, div-eq_of_lt, mul-le-mul_right}
use native.Mathlib.Decide.{dec_lt, ℕ_discrete}
use mathlib.Core.Path.{subst}
use psim.Net.State.{LinkName, north, east, south, west}
use psim.Net.Route.{guidance, neighbour}

abbrev pub gap : ℕ → ℕ → ℕ
gap a b = (a - b) + (b - a)

-- The number of hops between two nodes, for rows of `y` nodes
abbrev pub dist : ℕ → ℕ → ℕ → ℕ
dist y a b = gap (a / y) (b / y) + gap (a % y) (b % y)

-- One step along a row or along a column, in coordinates
coords : (y r c : ℕ) → c < y → ((r * y + c) / y ≡ r) × ((r * y + c) % y ≡ c)
coords y r c h = grind arith

module _ (y : ℕ) (pos : 0 < y) where
  east_coords : (a : ℕ) → a % y + 1 < y → ((a + 1) / y ≡ a / y) × ((a + 1) % y ≡ a % y + 1)
  east_coords a h = grind arith

  north_coords : (a : ℕ) → ((a + y) / y ≡ a / y + 1) × ((a + y) % y ≡ a % y)
  north_coords a = grind arith

  west_coords : (a : ℕ) → 0 < a % y → ((a - 1) / y ≡ a / y) × ((a - 1) % y + 1 ≡ a % y)
  west_coords a h = grind arith

  south_coords : (a : ℕ) → y ≤ a → ((a - y) / y + 1 ≡ a / y) × ((a - y) % y ≡ a % y)
  south_coords a h = grind arith

  -- A later node that is not in a later column is in a later row.
  row-lt : (a b : ℕ) → a < b → b % y ≤ a % y → a / y < b / y
  row-lt a b h k = grind arith

-- A hop over `link` stays in the network and brings the message from `a` one step closer to `b`.
pub record IsStep (y size a b : ℕ) (link : LinkName) : Type 0 where
  pub inside : (neighbour y size a link).2 ≡ false
  pub in_range : (neighbour y size a link).0 < size
  pub closer : dist y (neighbour y size a link).0 b + 1 ≡ dist y a b

-- The node that a message from `a` for `b` has reached after `n` hops
abbrev pub walk : ℕ → ℕ → ℕ → ℕ → ℕ → ℕ
walk y size zero a b = a
walk y size (suc n) a b = walk y size n (neighbour y size a (guidance y a b)).0 b

module _ (x y : ℕ) (pos : 0 < y) (small : x * y ≤ 2 ^ 32) where
  -- The row above that of a node is in the network if a later row is.
  above-lt : (a b : ℕ) → b < x * y → a / y < b / y → a + y < x * y
  above-lt a b h k =
      let room : a / y + 2 ≤ x =
        omega (arith, (div-lt_iff_lt-mul {k = y} {x = b} {y = x} pos).1 h) in
      let whole : (a / y + 2) * y ≤ x * y = mul-le-mul_right y room in
      omega (arith, div-add-mod a y, mod-lt a {m = y} pos)

  le_of_row : (a b : ℕ) → b / y < a / y → y ≤ a
  le_of_row a b h = elim (dec_lt a y) [ yes p ↦ omega (arith, div-eq_of_lt p) | no p ↦ omega arith ]

  width-le : (a : ℕ) → a < x * y → y ≤ x * y
  width-le a h = elim (dec_lt 0 x) [
    | yes p ↦ omega (arith, mul-le-mul_right {m = 1} {n = x} y p)
    | no p ↦ let none : x ≡ 0 = omega arith in absurd (omega (arith, ap (λ (t : ℕ). t * y) none))
  ]

  east-IsStep : (a b : ℕ) → b < x * y → a < b → a % y < b % y → IsStep y (x * y) a b east
  unfolding neighbour
  east-IsStep a b hb h k = record {
    inside = ground (arith, east_coords y pos a, mod-lt b {m = y} pos);
    in_range = omega arith;
    closer = ground (arith, east_coords y pos a, mod-lt b {m = y} pos);
  }

  north-IsStep : (a b : ℕ) → b < x * y → a < b → b % y ≤ a % y → IsStep y (x * y) a b north
  unfolding neighbour
  north-IsStep a b hb h k =
      let up = row-lt y pos a b h k in
      let room = above-lt a b hb up in
      record {
        inside = ground arith;
        in_range = omega arith;
        closer = ground (arith, north_coords y pos a);
      }

  west-IsStep : (a b : ℕ) → a < x * y → b < a → b % y < a % y → IsStep y (x * y) a b west
  unfolding neighbour
  west-IsStep a b ha h k =
      let fits = width-le a ha in
      let here : sub32 a 1 ≡ a - 1 = omega arith in
      record {
        inside = ground (arith, here, west_coords y pos a, mod-lt a {m = y} pos);
        in_range = omega arith;
        closer = ground (arith, here, west_coords y pos a);
      }

  south-IsStep : (a b : ℕ) → a < x * y → b < a → a % y ≤ b % y → IsStep y (x * y) a b south
  unfolding neighbour
  south-IsStep a b ha h k =
      let up = row-lt y pos b a h k in
      let down = le_of_row a b up in
      let here : u32 (sub64 a y) ≡ a - y = omega arith in
      record {
        inside = ground (arith, here);
        in_range = omega arith;
        closer = ground (arith, here, south_coords y pos a);
      }

  -- In a mesh of `x` rows of `y` nodes, no more than 2 ^ 32: the link that `guidance` chooses for a
  -- message of another node leads to a node of the mesh, not out of it, and that node is one step
  -- closer to the target, by rows and columns.
  pub guidance-IsStep :
      (a b : ℕ) → a < x * y → b < x * y → a ≢ b → IsStep y (x * y) a b (guidance y a b)
  unfolding guidance
  guidance-IsStep a b ha hb ne = elim (dec_lt a b) [
    | yes p ↦ elim (dec_lt (a % y) (b % y)) [
      | yes q ↦ rw (lt→ltb a b p, lt→ltb (a % y) (b % y) q) (east-IsStep a b hb p q)
      | no q ↦ rw (lt→ltb a b p, not-lt→ltb (a % y) (b % y) q) (north-IsStep a b hb p (omega arith))
    ]
    | no p ↦
        let back : b < a = omega arith in
        elim (dec_lt (b % y) (a % y)) [
          | yes q ↦
              rw (not-lt→ltb a b p, lt→ltb b a back, lt→ltb (b % y) (a % y) q)
                (west-IsStep a b ha back q)
          | no q ↦
              rw (not-lt→ltb a b p, lt→ltb b a back, not-lt→ltb (b % y) (a % y) q)
                (south-IsStep a b ha back (omega arith))
        ]
  ]

  same_coords : (a b : ℕ) → a / y ≡ b / y → a % y ≡ b % y → a ≡ b
  same_coords a b p q = omega (arith, div-add-mod a y, div-add-mod b y, ap (λ (t : ℕ). y * t) p)

  dist-ne-zero : (a b : ℕ) → a ≢ b → dist y a b ≢ 0
  dist-ne-zero a b ne e = ne (same_coords a b (omega arith) (omega arith))

  dist_self : (a : ℕ) → dist y a a ≡ 0
  dist_self a = omega arith

  -- In such a mesh a message that follows `guidance` from `a` is at its target `b` after exactly as
  -- many hops as the two are rows and columns apart.
  pub walk-dist : (n a b : ℕ) → a < x * y → b < x * y → dist y a b ≡ n → walk y (x * y) n a b ≡ b
  walk-dist zero a b ha hb e = elim (ℕ_discrete a b) [
    | yes p ↦ p
    | no p ↦ absurd (dist-ne-zero a b p e)
  ]
  walk-dist (suc n) a b ha hb e =
      let apart : a ≢ b =
        λ p. absurd (omega (arith, dist_self b, subst (λ t. dist y t b ≡ suc n) p e)) in
      let step = guidance-IsStep a b ha hb apart in
      walk-dist n (neighbour y (x * y) a (guidance y a b)).0 b step.in_range hb
        (omega (arith, step.closer))
