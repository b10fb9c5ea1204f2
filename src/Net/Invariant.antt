-- ===== src/Net/Invariant.antt =====
-- The well-formed networks: every link within its buffer, every message addressed to a node, and
-- one mailbox for each sender.
use psim.Prelude.{ℕ, ◌*◌, ◌^◌, ◌≤◌, ◌<◌, ◌≡◌, arith}
use psim.Prelude.{[], ◌∷◌, ◌++◌, length, All, Option, some, ◌==◌}
use psim.Prelude.{Bool-cases, inl, inr, length-append}
use mathlib.Core.Path.{subst}
use mathlib.Core.Option.{some-injective}
use psim.Prelude.{==→ne}
use psim.Net.State.{
  LinkName, north, east, south, west, mbox, Msg, Link, Ports, port, set_port, Node, Net, link_bufsz,
}
use psim.Net.Link.{link_insmsg}

-- The message's sender and receiver are nodes of the network.
abbrev pub Addressed : ℕ → Msg → Type 0
Addressed size m = (m.to < size) × (m.from < size)

abbrev pub IsLink : ℕ → Link → Type 0
IsLink size l = (length l ≤ link_bufsz) × All (Addressed size) l

abbrev pub ArePorts : ℕ → Ports Link → Type 0
ArePorts size p = IsLink size p.n × IsLink size p.e × IsLink size p.s × IsLink size p.w

pub record IsNode (size : ℕ) (nd : Node) : Type 0 where
  pub ins : ArePorts size nd.link_in
  pub outs : ArePorts size nd.link_out
  pub boxes : length nd.mbox ≡ size

-- A mesh of `x` rows of `y` nodes
pub record IsNet (net : Net) : Type 0 where
  pub area : net.size ≡ net.x * net.y
  pub wide : 0 < net.y
  pub small : net.size ≤ 2 ^ 32
  pub count : length net.nd ≡ net.size
  pub nodes : All (IsNode net.size) net.nd

All-append :
    (size : ℕ) (l : Link) (m : Msg)
    → All (Addressed size) l
    → Addressed size m
    → All (Addressed size) (l ++ (m ∷ []))
All-append size [] m h a = (a, tt)
All-append size (x ∷ l) m h a = (h.0, All-append size l m h.1 a)

-- A message that a link takes leaves it within its buffer.
pub insmsg-IsLink :
    (size : ℕ) (l l' : Link) (m : Msg)
    → IsLink size l
    → Addressed size m
    → link_insmsg l m ≡ some l'
    → IsLink size l'
unfolding link_insmsg
insmsg-IsLink size l l' m h a e =
    let all = All-append size l m h.1 a in
    elim (Bool-cases (length l == link_bufsz)) [
      | inl full ↦ absurd (ground arith)
      | inr space ↦
          let same : l ++ (m ∷ []) ≡ l' = ground arith in
          subst (IsLink size) same
            (omega (arith, h.0, ==→ne (length l) 4 space, length-append l (m ∷ [])), all)
    ]

pub port-IsLink :
    (size : ℕ) (p : Ports Link) (n : LinkName) (l : Link)
    → ArePorts size p
    → port p n ≡ some l
    → IsLink size l
port-IsLink size p north l h e = subst (IsLink size) (some-injective p.n l e) h.0
port-IsLink size p east l h e = subst (IsLink size) (some-injective p.e l e) h.1
port-IsLink size p south l h e = subst (IsLink size) (some-injective p.s l e) h.2
port-IsLink size p west l h e = subst (IsLink size) (some-injective p.w l e) h.3
port-IsLink size p mbox l h e = cc

pub set_port-ArePorts :
    (size : ℕ) (p : Ports Link) (n : LinkName) (l : Link)
    → ArePorts size p
    → IsLink size l
    → ArePorts size (set_port p n l)
set_port-ArePorts size p north l h k = (k, h.1, h.2, h.3)
set_port-ArePorts size p east l h k = (h.0, k, h.2, h.3)
set_port-ArePorts size p south l h k = (h.0, h.1, k, h.3)
set_port-ArePorts size p west l h k = (h.0, h.1, h.2, k)
set_port-ArePorts size p mbox l h k = h

-- Removing the first message keeps a link, and the message was addressed.
pub rest-IsLink :
    (size : ℕ) (m : Msg) (l : Link) → IsLink size (m ∷ l) → IsLink size l × Addressed size m
rest-IsLink size m l h = ((omega (arith, h.0), h.1.1), h.1.0)

-- The partial operation has a result, and that is as `P` says.
abbrev pub Yields : {A : Type 0} → Option A → (A → Type 0) → Type 0
Yields {A = A} o P = (a : A) × (o ≡ some a) × P a

-- A well-formed network of the same size
abbrev pub Keeps : Net → Net → Type 0
Keeps net net' = IsNet net' × (net'.size ≡ net.size)
