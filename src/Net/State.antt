-- ===== src/Net/State.antt =====
-- net.h: messages, links, nodes and the network.
use psim.Prelude.{ℕ, List, Option, none, some}
use psim.Cpu.{Cpu}
use psim.Mem.{Mem}

abbrev pub link_bufsz : ℕ
link_bufsz = 4

-- enum LinkName
pub data LinkName : Type 0 where
  north east south west mbox : LinkName

-- `struct Msg`; the pointer `nxt` is the order of the link's list, and `data` is `payload`.
pub record Msg : Type 0 where
  pub to : ℕ
  pub from : ℕ
  pub payload : ℕ
  pub hops : ℕ
  pub ack : ℕ

-- `struct Link`: the messages from `hd` to `tl`; `len` is the length of the list.
abbrev pub Link : Type 0
Link = List Msg

-- An array over the LINK_NAMES links that lead to neighbours
pub record Ports (A : Type 0) : Type 0 where
  pub n : A
  pub e : A
  pub s : A
  pub w : A

-- Indexing such an array; LINK_MBOX, which is LINK_NAMES, lies outside.
abbrev pub port : {A : Type 0} → Ports A → LinkName → Option A
port p north = some p.n
port p east = some p.e
port p south = some p.s
port p west = some p.w
port p mbox = none

abbrev pub set_port : {A : Type 0} → Ports A → LinkName → A → Ports A
set_port p north a = record p { n = a }
set_port p east a = record p { e = a }
set_port p south a = record p { s = a }
set_port p west a = record p { w = a }
set_port p mbox a = p

abbrev pub all_ports : {A : Type 0} → A → Ports A
all_ports a = record { n = a; e = a; s = a; w = a }

-- `struct Node`: link[LINK_IN], link[LINK_OUT] and their utilization are fields of their own.
pub record Node : Type 0 where
  pub cpu : Cpu
  pub mem : Mem
  pub link_in : Ports Link
  pub link_out : Ports Link
  pub util_in : Ports ℕ
  pub util_out : Ports ℕ
  pub mbox_start : ℕ
  pub mbox_new : ℕ
  pub mbox : List (Option Msg)

-- `Net`. `mallocs` is what the next calls of malloc return for a message: `none` for NULL, else a
-- block with its indeterminate contents; past its end malloc returns NULL.
pub record Net : Type 0 where
  pub cycle : ℕ
  pub size : ℕ
  pub x : ℕ
  pub y : ℕ
  pub nrun : ℕ
  pub nd : List Node
  pub mallocs : List (Option Msg)
