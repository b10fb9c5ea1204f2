-- ===== src/Tests/MemTests.antt =====
-- A memory of two words, shared by two processors.
use psim.Prelude.{ℕ, ◌≡◌, ◌≢◌, refl, arith, true, false, if◌then◌else◌, List, [], ◌∷◌}
use psim.Prelude.{All, none, ok, err, eaddrnotavail, efault, eagain}
use psim.Bus.{Memctl, minus_one}
use psim.Mem
use psim.Mem.{Mem, lw, sw, lb, sb}
use psim.Mem.Bytes.{word}
use psim.Mem.Laws.{IsMem, checked, stored, lw_lem, lw-sw, lb-sb}
use psim.Mem.Reserve.{Op, ll, sc, IsReady, reserved, run, linked, sc-run, InSystem}

abbrev two_words : Mem
two_words = record { size = 8; bytes = 1 ∷ 2 ∷ 3 ∷ 4 ∷ 5 ∷ 6 ∷ 7 ∷ 8 ∷ [] }

abbrev shared_ctl : Memctl
shared_ctl = record {
  shared = true;
  used = false;
  nshr = 2;
  resaddr = minus_one ∷ minus_one ∷ [];
  queue = record { hd = 0; tl = 0; arr = none ∷ none ∷ [] };
  util = 0;
  lock_fails = [];
}

abbrev after_store : Mem
after_store = record { size = 8; bytes = 1 ∷ 2 ∷ 3 ∷ 4 ∷ 0x0d ∷ 0x0c ∷ 0x0b ∷ 0x0a ∷ [] }

two_words-IsMem : IsMem two_words
two_words-IsMem = omega arith

loads :
    (lw two_words 4 ≡ ok 0x08070605)
    × (lw two_words 6 ≡ err efault)
    × (lw two_words 8 ≡ err eaddrnotavail)
unfolding lw
loads = (refl, refl, refl)

lw_example : lw two_words 4 ≡ checked two_words 4 (word two_words.bytes 4)
lw_example = lw_lem two_words 4 two_words-IsMem

lw-sw_example :
    (lw after_store 4 ≡ ok 0x0a0b0c0d)
    × ((a : ℕ) → a ≢ 4 → lw after_store a ≡ lw two_words a)
    × IsMem after_store
lw-sw_example =
    lw-sw shared_ctl two_words after_store 4 0x0a0b0c0d two_words-IsMem (omega arith) accepted
  where
    accepted : (sw shared_ctl two_words 4 0x0a0b0c0d).1 ≡ ok after_store
    accepted = unfold sw in refl

abbrev after_byte : Mem
after_byte = record { size = 8; bytes = 1 ∷ 2 ∷ 3 ∷ 4 ∷ 5 ∷ 0x34 ∷ 7 ∷ 8 ∷ [] }

lb-sb_example :
    (lb after_byte 5 ≡ ok 0x34)
    × ((a : ℕ) → a ≢ 5 → lb after_byte a ≡ lb two_words a)
    × IsMem after_byte
lb-sb_example = lb-sb two_words after_byte 5 0x1234 two_words-IsMem accepted
  where
    accepted : sb two_words 5 0x1234 ≡ ok after_byte
    accepted = unfold sb in refl

-- Both processors load linked, and processor 1 stores conditionally first.
abbrev race : List Op
race = sc 1 4 9 ∷ ll 1 4 ∷ ll 0 4 ∷ []

-- Processor 0 is too late, and processor 1 would have been in time.
race_links :
    (linked (reserved shared_ctl) 0 4 race ≡ false)
    × (linked (reserved shared_ctl) 1 4 (ll 1 4 ∷ ll 0 4 ∷ []) ≡ true)
unfolding linked
race_links = (refl, refl)

sc-run_example :
    (Mem.sc (run (shared_ctl, two_words) race).0 (run (shared_ctl, two_words) race).1 0 4 5).1 ≡ (
      if linked (reserved shared_ctl) 0 4 race
      then checked
          (run (shared_ctl, two_words) race).1
          4
          (stored (run (shared_ctl, two_words) race).1 4 5)
      else err eagain)
sc-run_example =
    sc-run 2 (shared_ctl, two_words) ready 4 (omega arith) race 0 5 in_system (omega arith)
      two_words-IsMem
  where
    ready : IsReady 2 shared_ctl
    ready = record { shared = refl; count = refl; slots = refl }

    in_system : All (InSystem 2) race
    in_system = omega arith
