-- ===== src/Mem.antt =====
-- mem.h and mem.c: simulated memories and the accesses to them. The bus is Bus.antt,
-- the creation of memories and program loading are Mem/Create.antt and Mem/Load.antt.
mod CopyLaws
pub mod LoadLaws
pub mod LoadBounds
pub mod Bytes
pub mod Load
pub mod Create
pub mod Laws
pub mod Reserve
pub mod Bounds
use psim.Prelude.{ℕ, ◌+◌, ◌*◌, ◌/◌, ◌%◌, ◌^◌, Bool, true, false, not, leb, ◌==◌, if◌then◌else◌}
use psim.Prelude.{List, [], ◌∷◌, get_elem?, set, map, length, ltb, Option, none, some, u8, shl, shr}
use psim.Prelude.{Outcome, ok, err, fault, ◌>>=◌, Errno, eaddrnotavail, efault, eoverflow, eagain}
use psim.Prelude.{bit_and}
use psim.Bus.{Memctl, minus_one}

-- `Mem`; `bytes` is the storage that both members of the union `data` point to.
pub record Mem : Type 0 where
  pub size : ℕ
  pub bytes : List ℕ

-- data.b[i], undefined outside the storage
unfoldable pub byte_at : Mem → ℕ → Outcome ℕ
byte_at mem i = elim (get_elem? mem.bytes i) [ some b ↦ ok b | none ↦ fault ]

-- data.w[k], the lowest byte first as on the little-endian hosts that the simulator is for
unfoldable pub word_at : Mem → ℕ → Outcome ℕ
unfolding byte_at
word_at mem k = do
  b0 ← byte_at mem (k * 4)
  b1 ← byte_at mem (k * 4 + 1)
  b2 ← byte_at mem (k * 4 + 2)
  b3 ← byte_at mem (k * 4 + 3)
  ok (b0 + shl b1 8 + shl b2 16 + shl b3 24)

-- The four bytes of a word, written from index `i` on
unfoldable pub set_bytes : List ℕ → ℕ → ℕ → List ℕ
set_bytes bytes i w =
    let one = set bytes i (u8 w) in
    let two = set one (i + 1) (u8 (shr w 8)) in
    let three = set two (i + 2) (u8 (shr w 16)) in set three (i + 3) (u8 (shr w 24))

-- data.w[k] = w
unfoldable pub set_word : Mem → ℕ → ℕ → Outcome Mem
unfolding set_bytes
set_word mem k w =
    if ltb (k * 4 + 3) (length mem.bytes)
    then ok (record mem { bytes = set_bytes mem.bytes (k * 4) w })
    else fault

-- The two guards that the word accesses share.
unfoldable pub check_word : Mem → ℕ → Outcome ℕ
check_word mem addr =
    if leb mem.size addr
    then err eaddrnotavail
    else if not (bit_and addr 3 == 0)
    then err efault
    else ok (shr addr 2)

-- Mem_lw
unfoldable pub lw : Mem → ℕ → Outcome ℕ
unfolding check_word word_at
lw mem addr = check_word mem addr >>= word_at mem

-- The loop of Mem_sw and Mem_sc over the reserved addresses: -1 is written over each `addr`.
unfoldable pub unreserve : ℕ → List ℕ → List ℕ
unreserve addr rs = map (λ r. if r == addr then minus_one else r) rs

unfoldable pub clear_reservations : Memctl → ℕ → Memctl
unfolding unreserve
clear_reservations ctl addr = record ctl { resaddr = unreserve addr ctl.resaddr }

-- Mem_sw; the reservations are dropped before the address is checked.
unfoldable pub sw : Memctl → Mem → ℕ → ℕ → Memctl × Outcome Mem
unfolding clear_reservations check_word set_word
sw ctl mem addr w = (
  if ctl.shared then clear_reservations ctl addr else ctl,
  check_word mem addr >>= λ k. set_word mem k w,
)

-- Mem_ll
unfoldable pub ll : Memctl → Mem → ℕ → ℕ → Memctl × Outcome ℕ
unfolding lw
ll ctl mem prid addr =
    if ctl.shared
    then if leb ctl.nshr prid
      then (ctl, err eoverflow)
      else (record ctl { resaddr = set ctl.resaddr prid addr }, lw mem addr)
    else (ctl, lw mem addr)

-- Mem_sc behind its test of the reservation
unfoldable pub store_reserved : Memctl → Mem → ℕ → ℕ → ℕ → Memctl × Outcome Mem
unfolding clear_reservations check_word set_word
store_reserved ctl mem r addr w =
    if r == addr
    then (clear_reservations ctl addr, check_word mem addr >>= λ k. set_word mem k w)
    else (ctl, err eagain)

-- Mem_sc
unfoldable pub sc : Memctl → Mem → ℕ → ℕ → ℕ → Memctl × Outcome Mem
unfolding store_reserved check_word set_word
sc ctl mem prid addr w =
    if ctl.shared
    then if leb ctl.nshr prid then (ctl, err eoverflow) else elim (get_elem? ctl.resaddr prid) [
      | some r ↦ store_reserved ctl mem r addr w
      | none ↦ (ctl, fault)
    ]
    else (ctl, check_word mem addr >>= λ k. set_word mem k w)

-- Mem_lb
unfoldable pub lb : Mem → ℕ → Outcome ℕ
unfolding byte_at
lb mem addr = if leb mem.size addr then err eaddrnotavail else byte_at mem addr

-- Mem_sb
unfoldable pub sb : Mem → ℕ → ℕ → Outcome Mem
sb mem addr b =
    if leb mem.size addr
    then err eaddrnotavail
    else if ltb addr (length mem.bytes)
    then ok (record mem { bytes = set mem.bytes addr (u8 b) })
    else fault

-- Mem_getptr: the pointer is the index of the word that it points to.
unfoldable pub getptr : Mem → ℕ → Outcome ℕ
getptr mem addr = if leb mem.size addr then err eaddrnotavail else ok (shr addr 2)
