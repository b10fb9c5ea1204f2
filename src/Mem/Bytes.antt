-- ===== src/Mem/Bytes.antt =====
-- Bytes and words of the storage: the four bytes of a word are its little-endian digits.
use psim.Prelude.{ℕ, ◌+◌, ◌*◌, ◌^◌, ◌<◌, ◌≡◌, ◌∙◌, sym, arith}
use psim.Prelude.{◌≢◌, ◌⊎◌, List, length, get_or, u8, shl, shr}
use psim.Prelude.{get_elem?-eq-get_or, get_or-set_self, get_or-set_ne, length-set}
use psim.Prelude.{ok, lt→ltb}
use psim.Mem.{Mem, byte_at, word_at, set_bytes, set_word}

abbrev pub byte : List ℕ → ℕ → ℕ
byte bs i = get_or bs i 0

-- The word in the four bytes from index `i` on
abbrev pub word : List ℕ → ℕ → ℕ
word bs i =
    byte bs i + shl (byte bs (i + 1)) 8 + shl (byte bs (i + 2)) 16 + shl (byte bs (i + 3)) 24

pub byte_at-ok : (m : Mem) (i : ℕ) → i < length m.bytes → byte_at m i ≡ ok (byte m.bytes i)
unfolding byte_at
byte_at-ok m i h = rw (get_elem?-eq-get_or m.bytes i 0 h, byte_at)

pub word_at-ok :
    (m : Mem) (k : ℕ) → k * 4 + 3 < length m.bytes → word_at m k ≡ ok (word m.bytes (k * 4))
unfolding word_at
word_at-ok m k h = ground (
  arith,
  byte_at-ok m (k * 4) (omega arith),
  byte_at-ok m (k * 4 + 1) (omega arith),
  byte_at-ok m (k * 4 + 2) (omega arith),
  byte_at-ok m (k * 4 + 3) h,
)

pub set_word-ok :
    (m : Mem) (k w : ℕ)
    → k * 4 + 3 < length m.bytes
    → set_word m k w ≡ ok (record m { bytes = set_bytes m.bytes (k * 4) w })
unfolding set_word
set_word-ok m k w h = rw (lt→ltb (k * 4 + 3) (length m.bytes) h)

module _ (bs : List ℕ) (i w : ℕ) where
  pub length-set_bytes : length (set_bytes bs i w) ≡ length bs
  unfolding set_bytes
  length-set_bytes =
      length-set _ (i + 3) _ ∙ length-set _ (i + 2) _ ∙ length-set _ (i + 1) _ ∙ length-set bs i _

  -- The bytes outside the word stay.
  pub byte-set_bytes_ne :
      (j : ℕ) → j ≢ i → j ≢ i + 1 → j ≢ i + 2 → j ≢ i + 3 → byte (set_bytes bs i w) j ≡ byte bs j
  unfolding set_bytes
  byte-set_bytes_ne j n0 n1 n2 n3 =
      get_or-set_ne _ (i + 3) j _ 0 (λ e. n3 (sym e))
      ∙ get_or-set_ne _ (i + 2) j _ 0 (λ e. n2 (sym e))
      ∙ get_or-set_ne _ (i + 1) j _ 0 (λ e. n1 (sym e))
      ∙ get_or-set_ne bs i j _ 0 (λ e. n0 (sym e))

  -- The bytes of the word are its digits.
  pub bytes-set_bytes :
      i + 3 < length bs
      → (byte (set_bytes bs i w) i ≡ u8 w)
        × (byte (set_bytes bs i w) (i + 1) ≡ u8 (shr w 8))
        × (byte (set_bytes bs i w) (i + 2) ≡ u8 (shr w 16))
        × (byte (set_bytes bs i w) (i + 3) ≡ u8 (shr w 24))
  unfolding set_bytes
  bytes-set_bytes h = (
    get_or-set_ne _ (i + 3) i _ 0 (omega arith)
        ∙ get_or-set_ne _ (i + 2) i _ 0 (omega arith)
        ∙ get_or-set_ne _ (i + 1) i _ 0 (omega arith)
        ∙ get_or-set_self bs i _ 0 (omega arith),
    get_or-set_ne _ (i + 3) (i + 1) _ 0 (omega arith)
        ∙ get_or-set_ne _ (i + 2) (i + 1) _ 0 (omega arith)
        ∙ get_or-set_self _ (i + 1) _ 0 (rw length-set (omega arith)),
    get_or-set_ne _ (i + 3) (i + 2) _ 0 (omega arith)
        ∙ get_or-set_self _ (i + 2) _ 0 (rw (length-set, length-set) (omega arith)),
    get_or-set_self _ (i + 3) _ 0 (rw (length-set, length-set, length-set) h),
  )

  -- A word that is written is read back.
  pub word-set_bytes : i + 3 < length bs → w < 2 ^ 32 → word (set_bytes bs i w) i ≡ w
  word-set_bytes h lt = omega (arith, bytes-set_bytes h)

  -- A word elsewhere stays.
  pub word-set_bytes_ne :
      (j : ℕ) → (j + 3 < i) ⊎ (i + 3 < j) → word (set_bytes bs i w) j ≡ word bs j
  word-set_bytes_ne j apart = omega (
    arith,
    byte-set_bytes_ne j (omega arith) (omega arith) (omega arith) (omega arith),
    byte-set_bytes_ne (j + 1) (omega arith) (omega arith) (omega arith) (omega arith),
    byte-set_bytes_ne (j + 2) (omega arith) (omega arith) (omega arith) (omega arith),
    byte-set_bytes_ne (j + 3) (omega arith) (omega arith) (omega arith) (omega arith),
  )
