-- ===== src/Mem/Bounds.antt =====
-- The accesses to a memory of bytes: no access leaves the storage, and the storage holds bytes.
use psim.Prelude.{
  ℕ, ◌^◌, ◌%◌, ◌<◌, ◌≡◌, refl, sym, arith, Bool, true, false, leb, ◌==◌, if◌then◌else◌,
}
use psim.Prelude.{All, All-set, All-get_or, Bool-cases, inl, inr, u8, List, get_elem?_of_lt}
use psim.Prelude.{length-map, length-set, Outcome, ok, err, fault, ◌>>=◌}
use mathlib.Core.Path.{subst}
use psim.Bus.{Memctl}
use psim.Bus.Bounds.{IsBus, resaddr-IsBus}
use psim.Mem
use psim.Mem.{
  Mem, check_word, set_word, set_bytes, clear_reservations, store_reserved, lw, lb, sb, unreserve,
}
use psim.Mem.Laws.{
  IsMem, checked, stored, lw_lem, lb_lem, sb_lem, store_lem, stored-IsMem, byte_stored-IsMem,
}

abbrev pub IsByte : ℕ → Type 0
IsByte b = b < 2 ^ 8

-- A memory of whole words whose storage holds bytes
pub record IsStore (m : Mem) : Type 0 where
  pub mem : IsMem m
  pub bytes : All IsByte m.bytes

-- The operation gives a value as `P` says, or an error; its behaviour is never undefined.
abbrev pub Gives : {A : Type 0} → (A → Type 0) → Outcome A → Type 0
Gives P (ok a) = P a
Gives P (err e) = Unit
Gives P fault = ⊥

checked-Gives :
    {A : Type 0} (P : A → Type 0) (m : Mem) (addr : ℕ) (a : A) → P a → Gives P (checked m addr a)
checked-Gives P m addr a p = elim (Bool-cases (leb m.size addr)) [
  | inl q ↦ rw q tt
  | inr q ↦ elim (Bool-cases (addr % 4 == 0)) [ inl r ↦ rw q (rw r p) | inr r ↦ rw q (rw r tt) ]
]

pub lw-Gives : (m : Mem) (addr : ℕ) → IsMem m → Gives (λ w. Unit) (lw m addr)
lw-Gives m addr h = subst (Gives (λ w. Unit)) (sym (lw_lem m addr h)) (checked-Gives _ m addr _ tt)

pub lb-Gives : (m : Mem) (addr : ℕ) → IsStore m → Gives IsByte (lb m addr)
lb-Gives m addr h = rw (lb_lem m addr h.mem) (elim (Bool-cases (leb m.size addr)) [
  | inl q ↦ rw q tt
  | inr q ↦ rw q (All-get_or IsByte m.bytes addr 0 h.bytes (omega arith))
])

All-set_bytes : (bs : List ℕ) (i w : ℕ) → All IsByte bs → All IsByte (set_bytes bs i w)
unfolding set_bytes
All-set_bytes bs i w h =
    All-set IsByte _ _ _
      (All-set IsByte _ _ _
        (All-set IsByte _ _ _ (All-set IsByte _ _ _ h (omega arith)) (omega arith)) (omega arith))
      (omega arith)

stored-IsStore : (m : Mem) (addr w : ℕ) → IsStore m → IsStore (stored m addr w)
stored-IsStore m addr w h = record {
  mem = stored-IsMem m addr w h.mem;
  bytes = All-set_bytes m.bytes addr w h.bytes;
}

set_word-Gives :
    (m : Mem) (addr w : ℕ) → IsStore m → Gives IsStore (check_word m addr >>= λ k. set_word m k w)
set_word-Gives m addr w h =
    subst (Gives IsStore) (sym (store_lem m addr w h.mem))
      (checked-Gives IsStore m addr _ (stored-IsStore m addr w h))

pub sb-Gives : (m : Mem) (addr b : ℕ) → IsStore m → Gives IsStore (sb m addr b)
sb-Gives m addr b h = rw (sb_lem m addr b h.mem) (elim (Bool-cases (leb m.size addr)) [
  | inl q ↦ rw q tt
  | inr q ↦ rw q (record {
    mem = byte_stored-IsMem m addr (u8 b) h.mem;
    bytes = All-set IsByte m.bytes addr (u8 b) h.bytes (omega arith);
  })
])

clear-IsBus : (ctl : Memctl) (addr : ℕ) → IsBus ctl → IsBus (clear_reservations ctl addr)
unfolding clear_reservations
clear-IsBus ctl addr h = resaddr-IsBus ctl _ h (length-map ctl.resaddr _)

-- What an access leaves of the controller, and gives
pub record IsSound {A : Type 0} (P : A → Type 0) (r : Memctl × Outcome A) : Type 0 where
  pub bus : IsBus r.0
  pub gives : Gives P r.1

if-IsBus : (b : Bool) (x y : Memctl) → IsBus x → IsBus y → IsBus (if b then x else y)
if-IsBus true x y h k = h
if-IsBus false x y h k = k

if-IsSound :
    {A : Type 0} (P : A → Type 0) (b : Bool) (x y : Memctl × Outcome A)
    → (b ≡ true → IsSound P x)
    → (b ≡ false → IsSound P y)
    → IsSound P (if b then x else y)
if-IsSound P true x y h k = h refl
if-IsSound P false x y h k = k refl

module _ (ctl : Memctl) (m : Mem) (b : IsBus ctl) (h : IsStore m) where
  pub sw-IsSound : (addr w : ℕ) → IsSound IsStore (Mem.sw ctl m addr w)
  unfolding Mem.sw
  sw-IsSound addr w = record {
    bus = if-IsBus ctl.shared _ _ (clear-IsBus ctl addr b) b;
    gives = set_word-Gives m addr w h;
  }

  pub ll-IsSound : (p addr : ℕ) → IsSound (λ w. Unit) (Mem.ll ctl m p addr)
  unfolding Mem.ll
  ll-IsSound p addr =
      if-IsSound (λ w. Unit) ctl.shared _ _
        (λ s.
          if-IsSound (λ w. Unit) (leb ctl.nshr p) _ _ (λ _. record { bus = b; gives = tt })
            (λ _. record {
              bus = resaddr-IsBus ctl _ b (length-set ctl.resaddr p addr);
              gives = lw-Gives m addr h.mem;
            }))
        (λ s. record { bus = b; gives = lw-Gives m addr h.mem })

  store_reserved-IsSound : (r addr w : ℕ) → IsSound IsStore (store_reserved ctl m r addr w)
  unfolding store_reserved
  store_reserved-IsSound r addr w =
      if-IsSound IsStore (r == addr) _ _
        (λ _. record { bus = clear-IsBus ctl addr b; gives = set_word-Gives m addr w h })
        (λ _. record { bus = b; gives = tt })

  pub sc-IsSound : (p addr w : ℕ) → IsSound IsStore (Mem.sc ctl m p addr w)
  unfolding Mem.sc
  sc-IsSound p addr w =
      if-IsSound IsStore ctl.shared _ _
        (λ s.
          if-IsSound IsStore (leb ctl.nshr p) _ _ (λ _. record { bus = b; gives = tt })
            (λ q.
              let (r, e) = get_elem?_of_lt ctl.resaddr p (ground (arith, b.resaddrs s)) in
              rw e (store_reserved-IsSound r addr w)))
        (λ s. record { bus = b; gives = set_word-Gives m addr w h })
