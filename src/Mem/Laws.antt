-- ===== src/Mem/Laws.antt =====
-- The accesses to a memory: which addresses they accept, and loads after stores.
use mathlib.Core.Path.{subst}
use psim.Prelude.{ℕ, ◌+◌, ◌*◌, ◌/◌, ◌%◌, ◌^◌, ◌≤◌, ◌<◌, ◌≡◌, ◌∙◌, ap, sym, arith, ◌≢◌}
use psim.Prelude.{if◌then◌else◌, leb, ◌==◌, length, length-set}
use psim.Prelude.{Outcome, ok, err, ◌>>=◌, eaddrnotavail, efault, u8}
use psim.Prelude.{set, get_or-set_self, get_or-set_ne}
use psim.Prelude.Bits.{bit_and-three}
use psim.Bus.{Memctl}
use psim.Mem.{Mem, check_word, lw, sw, lb, sb, set_bytes, set_word, word_at}
use psim.Mem.Bytes.{
  byte, word, byte_at-ok, word_at-ok, set_word-ok, length-set_bytes, word-set_bytes,
  word-set_bytes_ne,
}

-- A memory with as many bytes as its size says, a whole number of words
pub record IsMem (m : Mem) : Type 0 where
  pub storage : length m.bytes ≡ m.size
  pub whole : m.size % 4 ≡ 0

check_word-ok :
    (m : Mem) (addr : ℕ) → addr < m.size → addr % 4 ≡ 0 → check_word m addr ≡ ok (addr / 4)
unfolding check_word
check_word-ok m addr h k = ground (arith, bit_and-three addr)

check_word-unaligned :
    (m : Mem) (addr : ℕ) → addr < m.size → addr % 4 ≢ 0 → check_word m addr ≡ err efault
unfolding check_word
check_word-unaligned m addr h k = ground (arith, bit_and-three addr)

check_word-outside : (m : Mem) (addr : ℕ) → m.size ≤ addr → check_word m addr ≡ err eaddrnotavail
unfolding check_word
check_word-outside m addr h = ground arith

-- The last byte of an accepted word is in the storage.
room :
    (m : Mem) (addr : ℕ)
    → IsMem m
    → addr < m.size
    → addr % 4 ≡ 0
    → addr / 4 * 4 + 3 < length m.bytes
room m addr v h k = omega arith

pub lw-ok :
    (m : Mem) (addr : ℕ)
    → IsMem m
    → addr < m.size
    → addr % 4 ≡ 0
    → lw m addr ≡ ok (word m.bytes addr)
unfolding lw
lw-ok m addr v h k =
    let start : addr / 4 * 4 ≡ addr = omega arith in
    ap (λ r. r >>= word_at m) (check_word-ok m addr h k)
    ∙ word_at-ok m (addr / 4) (room m addr v h k)
    ∙ ap (λ i. ok (word m.bytes i)) start

lw-unaligned : (m : Mem) (addr : ℕ) → addr < m.size → addr % 4 ≢ 0 → lw m addr ≡ err efault
unfolding lw
lw-unaligned m addr h k = ap (λ r. r >>= word_at m) (check_word-unaligned m addr h k)

lw-outside : (m : Mem) (addr : ℕ) → m.size ≤ addr → lw m addr ≡ err eaddrnotavail
unfolding lw
lw-outside m addr h = ap (λ r. r >>= word_at m) (check_word-outside m addr h)

-- What an access to an address comes to: the value, or the error that the address gives.
abbrev pub checked {ℓ} : {A : Type ℓ} → Mem → ℕ → A → Outcome A
checked m addr a =
    if leb m.size addr then err eaddrnotavail else if addr % 4 == 0 then ok a else err efault

-- Mem_lw, of a memory with whole words: EADDRNOTAVAIL for an address outside the memory, EFAULT for
-- one that is no multiple of four, and otherwise the four bytes as a little-endian word. It never
-- reads past the storage.
pub lw_lem : (m : Mem) (addr : ℕ) → IsMem m → lw m addr ≡ checked m addr (word m.bytes addr)
lw_lem m addr v = ground (arith, lw-ok m addr v, lw-unaligned m addr, lw-outside m addr)

-- The memory after a word is stored
abbrev pub stored : Mem → ℕ → ℕ → Mem
stored m addr w = record m { bytes = set_bytes m.bytes addr w }

store-ok :
    (m : Mem) (addr w : ℕ)
    → IsMem m
    → addr < m.size
    → addr % 4 ≡ 0
    → (check_word m addr >>= λ k. set_word m k w) ≡ ok (stored m addr w)
store-ok m addr w v h k =
    let start : addr / 4 * 4 ≡ addr = omega arith in
    ap (λ r. r >>= λ k. set_word m k w) (check_word-ok m addr h k)
    ∙ set_word-ok m (addr / 4) w (room m addr v h k)
    ∙ ap (λ i. ok (stored m i w)) start

store-unaligned :
    (m : Mem) (addr w : ℕ)
    → addr < m.size
    → addr % 4 ≢ 0
    → (check_word m addr >>= λ k. set_word m k w) ≡ err efault
store-unaligned m addr w h k = ap (λ r. r >>= λ k. set_word m k w) (check_word-unaligned m addr h k)

store-outside :
    (m : Mem) (addr w : ℕ)
    → m.size ≤ addr
    → (check_word m addr >>= λ k. set_word m k w) ≡ err eaddrnotavail
store-outside m addr w h = ap (λ r. r >>= λ k. set_word m k w) (check_word-outside m addr h)

-- The store that Mem_sw and Mem_sc share, on every address
pub store_lem :
    (m : Mem) (addr w : ℕ)
    → IsMem m
    → (check_word m addr >>= λ k. set_word m k w) ≡ checked m addr (stored m addr w)
store_lem m addr w v =
    ground (arith, store-ok m addr w v, store-unaligned m addr w, store-outside m addr w)

-- Mem_sw, of a memory with whole words, has the same errors as Mem_lw, and otherwise writes the
-- word's four bytes.
pub sw_lem :
    (ctl : Memctl) (m : Mem) (addr w : ℕ)
    → IsMem m
    → (sw ctl m addr w).1 ≡ checked m addr (stored m addr w)
unfolding sw
sw_lem ctl m addr w v = store_lem m addr w v

pub stored-IsMem : (m : Mem) (addr w : ℕ) → IsMem m → IsMem (stored m addr w)
stored-IsMem m addr w v = omega (arith, length-set_bytes m.bytes addr w)

pub accepted :
    (m : Mem) (addr : ℕ) (a a' : Mem)
    → checked m addr a ≡ ok a'
    → (addr < m.size) × (addr % 4 ≡ 0) × (a ≡ a')
accepted m addr a a' e = ground arith

pub accepted_byte :
    (m : Mem) (addr : ℕ) (a a' : Mem)
    → (if leb m.size addr then err eaddrnotavail else ok a) ≡ ok a'
    → (addr < m.size) × (a ≡ a')
accepted_byte m addr a a' e = ground arith

lw-stored_ne :
    (m : Mem) (addr w a : ℕ) → IsMem m → addr % 4 ≡ 0 → a ≢ addr → lw (stored m addr w) a ≡ lw m a
lw-stored_ne m addr w a v aligned ne = ground (
  arith,
  lw_lem (stored m addr w) a (stored-IsMem m addr w v),
  lw_lem m a v,
  λ (k : a % 4 ≡ 0). word-set_bytes_ne m.bytes addr w a (omega arith),
)

-- After a store that Mem_sw accepts, Mem_lw gives the stored word at its address, and at every
-- other address, accepted or not, what it gave before; the memory stays whole.
pub lw-sw :
    (ctl : Memctl) (m m' : Mem) (addr w : ℕ)
    → IsMem m
    → w < 2 ^ 32
    → (sw ctl m addr w).1 ≡ ok m'
    → (lw m' addr ≡ ok w) × ((a : ℕ) → a ≢ addr → lw m' a ≡ lw m a) × IsMem m'
lw-sw ctl m m' addr w v lt e =
    let (inside, aligned, is) =
      accepted m addr (stored m addr w) m' (sym (sw_lem ctl m addr w v) ∙ e) in
    subst (λ t. (lw t addr ≡ ok w) × ((a : ℕ) → a ≢ addr → lw t a ≡ lw m a) × IsMem t) is
      (
        lw-ok (stored m addr w) addr (stored-IsMem m addr w v) inside aligned
            ∙ ap ok (word-set_bytes m.bytes addr w (omega (arith, v.storage, v.whole)) lt),
        λ a ne. lw-stored_ne m addr w a v aligned ne,
        stored-IsMem m addr w v,
      )

-- Mem_lb of a memory with its storage: the byte, or EADDRNOTAVAIL outside the memory.
pub lb_lem :
    (m : Mem) (addr : ℕ)
    → IsMem m
    → lb m addr ≡ (if leb m.size addr then err eaddrnotavail else ok (byte m.bytes addr))
unfolding lb
lb_lem m addr v = ground (arith, byte_at-ok m addr)

pub sb_lem :
    (m : Mem) (addr b : ℕ)
    → IsMem m
    → sb m addr b ≡ (
        if leb m.size addr
        then err eaddrnotavail
        else ok (record m { bytes = set m.bytes addr (u8 b) }))
unfolding sb
sb_lem m addr b v = ground arith

pub byte_stored-IsMem :
    (m : Mem) (addr b : ℕ) → IsMem m → IsMem (record m { bytes = set m.bytes addr b })
byte_stored-IsMem m addr b v = omega (arith, length-set m.bytes addr b)

-- After a store that Mem_sb accepts, Mem_lb gives the stored byte at its address, and at every
-- other address what it gave before; the memory stays whole.
pub lb-sb :
    (m m' : Mem) (addr b : ℕ)
    → IsMem m
    → sb m addr b ≡ ok m'
    → (lb m' addr ≡ ok (u8 b)) × ((a : ℕ) → a ≢ addr → lb m' a ≡ lb m a) × IsMem m'
lb-sb m m' addr b v e =
    let (inside, is) = accepted_byte m addr _ m' (sym (sb_lem m addr b v) ∙ e) in
    let new : Mem = record m { bytes = set m.bytes addr (u8 b) } in
    let valid : IsMem new = byte_stored-IsMem m addr (u8 b) v in
    subst (λ t. (lb t addr ≡ ok (u8 b)) × ((a : ℕ) → a ≢ addr → lb t a ≡ lb m a) × IsMem t) is
      (
        ground (
          arith,
          lb_lem new addr valid,
          get_or-set_self m.bytes addr (u8 b) 0 (omega (arith, v.storage)),
        ),
        λ a ne. ground (
          arith,
          lb_lem new a valid,
          lb_lem m a v,
          get_or-set_ne m.bytes addr a (u8 b) 0 (λ p. ne (sym p)),
        ),
        valid,
      )
