-- ===== src/Net/Frame.antt =====
-- What a cycle of the network leaves of the nodes as it is: the memories, and the processors apart from
-- coprocessor 2 and the register K1.
use psim.Prelude.{ℕ, zero, suc, ◌≡◌, ◌≢◌, refl, ◌∙◌, arith, leb}
use psim.Prelude.{List, [], ◌∷◌, some, Option-cases, Bool-cases, inl, inr, get_elem?, set}
use mathlib.Core.Path.{subst}
use psim.Cpu
use psim.Cpu.{Cpu, mtc2_drop, k1, reg, set_reg, cop2_nsel, mfc2_u32}
use psim.Net.State.{LinkName, Msg, Link, Node, Net}
use psim.Net.Route.{guidance}
use psim.Net.Transport.{fwd_out, fwd_mbox, fwd_msg, fwd_link, fwd_links, set_node}

pub record SameCpu (c c' : Cpu) : Type 0 where
  pub same_running : c'.running ≡ c.running
  pub same_pc : c'.pc ≡ c.pc
  pub same_hi : c'.hi ≡ c.hi
  pub same_lo : c'.lo ≡ c.lo
  pub same_dec : c'.dec ≡ c.dec
  pub same_perfct : c'.perfct ≡ c.perfct
  pub same_gpr : (i : ℕ) → i ≢ k1 → reg c' i ≡ reg c i

pub record SameNode (nd nd' : Node) : Type 0 where
  pub same_mem : nd'.mem ≡ nd.mem
  pub same_cpu : SameCpu nd.cpu nd'.cpu

pub refl-SameCpu : (c : Cpu) → SameCpu c c
refl-SameCpu c = record {
  same_running = refl;
  same_pc = refl;
  same_hi = refl;
  same_lo = refl;
  same_dec = refl;
  same_perfct = refl;
  same_gpr = λ i ne. refl;
}

pub trans-SameCpu : (a b c : Cpu) → SameCpu a b → SameCpu b c → SameCpu a c
trans-SameCpu a b c h k = record {
  same_running = k.same_running ∙ h.same_running;
  same_pc = k.same_pc ∙ h.same_pc;
  same_hi = k.same_hi ∙ h.same_hi;
  same_lo = k.same_lo ∙ h.same_lo;
  same_dec = k.same_dec ∙ h.same_dec;
  same_perfct = k.same_perfct ∙ h.same_perfct;
  same_gpr = λ i ne. k.same_gpr i ne ∙ h.same_gpr i ne;
}

pub mtc2_drop-SameCpu : (c : Cpu) (sel v : ℕ) → SameCpu c (mtc2_drop c sel v)
unfolding mtc2_drop Cpu.mtc2
mtc2_drop-SameCpu c sel v = elim (Bool-cases (leb cop2_nsel sel)) [
  | inl p ↦ rw (p, mtc2_drop) (refl-SameCpu c)
  | inr p ↦
      rw (p, mtc2_drop)
        (record {
          same_running = refl;
          same_pc = refl;
          same_hi = refl;
          same_lo = refl;
          same_dec = refl;
          same_perfct = refl;
          same_gpr = λ i ne. refl;
        })
]

module _ (nd nd' : Node) (i : LinkName) where
  fwd_out-SameNode :
      (o : LinkName) (m : Msg) (rest : Link) → fwd_out nd i o m rest ≡ some nd' → SameNode nd nd'
  unfolding fwd_out
  fwd_out-SameNode o m rest e = ground (arith, refl-SameCpu nd.cpu)

  fwd_mbox-SameNode : (m : Msg) (rest : Link) → fwd_mbox nd i m rest ≡ some nd' → SameNode nd nd'
  unfolding fwd_mbox
  fwd_mbox-SameNode m rest e = ground (arith, refl-SameCpu nd.cpu, mtc2_drop-SameCpu nd.cpu)

  fwd_msg-SameNode :
      (y id : ℕ) (m : Msg) (rest : Link) → fwd_msg y id nd i m rest ≡ some nd' → SameNode nd nd'
  unfolding fwd_msg
  fwd_msg-SameNode y id m rest e =
      ground (arith, fwd_mbox-SameNode m rest, fwd_out-SameNode (guidance y id m.to) m rest)

  fwd_link-SameNode : (y id : ℕ) → fwd_link y id nd i ≡ some nd' → SameNode nd nd'
  unfolding fwd_link
  fwd_link-SameNode y id e = ground (arith, refl-SameCpu nd.cpu, fwd_msg-SameNode y id)

pub refl-SameNode : (nd : Node) → SameNode nd nd
refl-SameNode nd = record { same_mem = refl; same_cpu = refl-SameCpu nd.cpu }

pub trans-SameNode : (a b c : Node) → SameNode a b → SameNode b c → SameNode a c
trans-SameNode a b c h k = record {
  same_mem = k.same_mem ∙ h.same_mem;
  same_cpu = trans-SameCpu a.cpu b.cpu c.cpu h.same_cpu k.same_cpu;
}

pub fwd_links-SameNode :
    (ls : List LinkName) (y id : ℕ) (nd nd' : Node)
    → fwd_links y id nd ls ≡ some nd'
    → SameNode nd nd'
unfolding fwd_links
fwd_links-SameNode [] y id nd nd' e =
    let same : nd ≡ nd' = cc in subst (SameNode nd) same (refl-SameNode nd)
fwd_links-SameNode (l ∷ ls) y id nd nd' e = elim (Option-cases (fwd_link y id nd l)) [
  | inl p ↦ absurd (ground (arith, e, p))
  | inr (mid, p) ↦
      trans-SameNode nd mid nd' (fwd_link-SameNode nd mid l y id p)
        (fwd_links-SameNode ls y id mid nd' (ground (arith, e, p)))
]

-- The list of nodes is the other one, node by node.
abbrev pub Alike : List Node → List Node → Type 0
Alike [] [] = Unit
Alike (a ∷ xs) (b ∷ ys) = SameNode a b × Alike xs ys
Alike _ _ = ⊥

pub refl-Alike : (xs : List Node) → Alike xs xs
refl-Alike [] = tt
refl-Alike (a ∷ xs) = (refl-SameNode a, refl-Alike xs)

pub trans-Alike : (xs ys zs : List Node) → Alike xs ys → Alike ys zs → Alike xs zs
trans-Alike [] [] [] h k = tt
trans-Alike (a ∷ xs) (b ∷ ys) (c ∷ zs) h k =
    (trans-SameNode a b c h.0 k.0, trans-Alike xs ys zs h.1 k.1)
trans-Alike [] [] (c ∷ zs) h k = absurd k
trans-Alike [] (b ∷ ys) zs h k = absurd h
trans-Alike (a ∷ xs) [] zs h k = absurd h
trans-Alike (a ∷ xs) (b ∷ ys) [] h k = absurd k

pub set-Alike :
    (xs : List Node) (i : ℕ) (a b : Node)
    → get_elem? xs i ≡ some a
    → SameNode a b
    → Alike xs (set xs i b)
set-Alike [] i a b e h = tt
set-Alike (x ∷ xs) zero a b e h =
    let same : a ≡ x = cc in (subst (λ k. SameNode k b) same h, refl-Alike xs)
set-Alike (x ∷ xs) (suc i) a b e h = (refl-SameNode x, set-Alike xs i a b e h)

-- A cycle of the network may change the links, the mailboxes and the counters of the links.
pub record SameNet (net net' : Net) : Type 0 where
  pub same_size : net'.size ≡ net.size
  pub same_nrun : net'.nrun ≡ net.nrun
  pub alike : Alike net.nd net'.nd

pub refl-SameNet : (net : Net) → SameNet net net
refl-SameNet net = record { same_size = refl; same_nrun = refl; alike = refl-Alike net.nd }

pub trans-SameNet : (a b c : Net) → SameNet a b → SameNet b c → SameNet a c
trans-SameNet a b c h k = record {
  same_size = k.same_size ∙ h.same_size;
  same_nrun = k.same_nrun ∙ h.same_nrun;
  alike = trans-Alike a.nd b.nd c.nd h.alike k.alike;
}

pub set_node-SameNet :
    (net : Net) (id : ℕ) (nd nd' : Node)
    → get_elem? net.nd id ≡ some nd
    → SameNode nd nd'
    → SameNet net (set_node net id nd')
set_node-SameNet net id nd nd' e h = record {
  same_size = refl;
  same_nrun = refl;
  alike = set-Alike net.nd id nd nd' e h;
}
