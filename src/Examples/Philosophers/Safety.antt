-- ===== src/Examples/Philosophers/Safety.antt =====
-- d_dining-philosophers.c: the footman and the philosophers as they take their turns.
use psim.Prelude.{ℕ, ◌+◌, ◌-◌, ◌<◌, ◌≡◌, refl, sym, ◌∙◌, arith, ◌==◌, if◌then◌else◌, true}
use psim.Prelude.{
  ◌⊎◌, List, [], ◌∷◌, length, get_elem?, set, take, some, none, Option, length-set, inl, inr,
  Option-cases, if_both,
}
use mathlib.Core.Path.{subst}
use psim.Examples.Philosophers.{
  philos, philo, a_sitdown, a_getup, a_done, Table, Philosopher, Room, Turn, waits, broken, goes,
  act, receive, is_clause, accepts, to_footman, next, received, message, turn, step, run, start,
}
use psim.Examples.Philosophers.Seating.{IsSeated, sitdown-IsSeated, getup-IsSeated}
use psim.Examples.Philosophers.Seats.{seat, sits, sits-set, sits-own, count-is_clause}

-- The table holds exactly the philosophers that sit.
pub record IsServed (r : Room) : Type 0 where
  pub number : length r.seats ≡ philos
  pub table : IsSeated r.footman.table (λ v. sits v philo r.seats)

abbrev pub Serves : Turn → Type 0
Serves waits = Unit
Serves broken = ⊥
Serves (goes r) = IsServed r

-- What a philosopher's next message is, and whether it sits before and after
stage-cases :
    (p : Philosopher)
    → ((to_footman p.stage ≡ none) × (seat (next p).stage ≡ seat p.stage))
      ⊎ ((to_footman p.stage ≡ some a_sitdown) × (seat p.stage ≡ 0) × (seat (next p).stage ≡ 1))
      ⊎ ((to_footman p.stage ≡ some a_getup) × (seat p.stage ≡ 1) × (seat (next p).stage ≡ 0))
      ⊎ ((to_footman p.stage ≡ some a_done) × (seat p.stage ≡ 0) × (seat (next p).stage ≡ 0))
unfolding to_footman next
stage-cases p = ground arith

IsSeated-same : (t : Table) (w w' : ℕ → ℕ) → IsSeated t w → ((v : ℕ) → w' v ≡ w v) → IsSeated t w'
IsSeated-same t w w' h e = record {
  places = h.places;
  few = h.few;
  exact = λ v. h.exact v ∙ sym (e v);
}

module _ (r : Room) (j id : ℕ) (p : Philosopher) (h : IsServed r)
    (here : get_elem? philo j ≡ some id) (there : get_elem? r.seats j ≡ some p) where
  after : List Philosopher
  after = set r.seats j (next p)

  after-length : length after ≡ philos
  unfolding after
  after-length = length-set r.seats j (next p) ∙ h.number

  change :
      (v : ℕ)
      → sits v philo after + (if id == v then seat p.stage else 0)
        ≡ sits v philo r.seats + (if id == v then seat (next p).stage else 0)
  unfolding after
  change v = sits-set v j id philo r.seats p (next p) here there

  own : sits id philo r.seats ≡ seat p.stage
  own = sits-own philo r.seats j id p (refl, (refl, (refl, (refl, (refl, tt))))) here there

  kept : seat (next p).stage ≡ seat p.stage → (v : ℕ) → sits v philo after ≡ sits v philo r.seats
  kept e v = ground (arith, change v, e)

  -- A philosopher whom the full table lets in sits at it.
  accepted_sits : r.footman.table.seated ≡ 4 → accepts r.footman id ≡ true → 0 < seat p.stage
  unfolding accepts
  accepted_sits full a =
      let t = r.footman.table in
      let at_table : is_clause id (take t.seated t.arr) ≡ true = ground (arith, full, a) in
      omega (arith, count-is_clause id t.seated t.arr at_table, h.table.exact id, own)

  sitdown-Serves :
      accepts r.footman id ≡ true
      → seat p.stage ≡ 0
      → seat (next p).stage ≡ 1
      → Serves (received (receive a_sitdown id r.footman) after)
  unfolding receive act
  sitdown-Serves a e f =
      let not_full : r.footman.table.seated < 4 =
        ground (arith, h.table.few, accepted_sits, a, e) in
      let (t, made, ok_table) =
        sitdown-IsSeated r.footman.table (λ v. sits v philo r.seats) h.table id not_full in
      let result : receive a_sitdown id r.footman ≡ some (record (r.footman) { table = t }) =
        ground (arith, not_full, made) in
      subst (λ o. Serves (received o after)) (sym result)
        record {
          number = after-length;
          table = IsSeated-same t _ _ ok_table (λ v. ground (arith, change v, e, f));
        }

  getup-Serves :
      seat p.stage ≡ 1
      → seat (next p).stage ≡ 0
      → Serves (received (receive a_getup id r.footman) after)
  unfolding receive act
  getup-Serves e f =
      let (t, made, ok_table) =
        getup-IsSeated r.footman.table (λ v. sits v philo r.seats) h.table id
          (λ v. sits v philo after) (omega (arith, own)) (λ v. ground (arith, change v, e, f)) in
      let result : receive a_getup id r.footman ≡ some (record (r.footman) { table = t }) =
        ground (arith, made) in
      subst (λ o. Serves (received o after)) (sym result)
        record { number = after-length; table = ok_table }

  done-Serves :
      seat (next p).stage ≡ seat p.stage → Serves (received (receive a_done id r.footman) after)
  unfolding receive act
  done-Serves e =
      let (np, result) : (np : ℕ) × (receive a_done id r.footman
            ≡ some (record (r.footman) { np = np })) =
        (if r.footman.table.seated == 4 then r.footman.np else r.footman.np - 1, ground arith) in
      subst (λ o. Serves (received o after)) (sym result)
        record { number = after-length; table = IsSeated-same r.footman.table _ _ h.table (kept e) }

  turn-Serves : Serves (turn j id p r)
  unfolding turn message after
  turn-Serves = elim (stage-cases p) [
    | inl (a, e) ↦
        subst (λ o. Serves (message o id r after)) (sym a)
          record {
            number = after-length;
            table = IsSeated-same r.footman.table _ _ h.table (kept e);
          }
    | inr (inl (a, e, f)) ↦
        subst (λ o. Serves (message o id r after)) (sym a)
          (if_both Serves (accepts r.footman id) _ _ (λ in_turn. sitdown-Serves in_turn e f)
            (λ out. tt))
    | inr (inr (inl (a, e, f))) ↦
        subst (λ o. Serves (message o id r after)) (sym a)
          (if_both Serves (accepts r.footman id) _ _ (λ in_turn. getup-Serves e f) (λ out. tt))
    | inr (inr (inr (a, e, f))) ↦
        subst (λ o. Serves (message o id r after)) (sym a)
          (if_both Serves (accepts r.footman id) _ _ (λ in_turn. done-Serves (f ∙ sym e))
            (λ out. tt))
  ]

step-Serves : (j : ℕ) (r : Room) → IsServed r → Serves (step j r)
unfolding step
step-Serves j r h = elim (Option-cases (get_elem? philo j)) [
  | inl p ↦ rw (p, Serves) tt
  | inr (id, p) ↦ elim (Option-cases (get_elem? r.seats j)) [
    | inl q ↦ rw (p, Serves) (rw (q, Serves) tt)
    | inr (who, q) ↦ rw (p, Serves) (rw (q, Serves) (turn-Serves r j id who h p q))
  ]
]

-- The result of a run
abbrev pub ServesAll : Option Room → Type 0
ServesAll none = ⊥
ServesAll (some r) = IsServed r

run-ServesAll : (js : List ℕ) (r : Room) → IsServed r → ServesAll (run js r)
unfolding run
run-ServesAll [] r h = h
run-ServesAll (j ∷ js) r h = by_turn (step j r) (step-Serves j r h) (run-ServesAll js)
  where
    by_turn :
        (t : Turn)
        → Serves t
        → ((r' : Room) → IsServed r' → ServesAll (run js r'))
        → ServesAll (elim t [ waits ↦ run js r | broken ↦ none | goes r' ↦ run js r' ])
    by_turn waits v go_on = go_on r h
    by_turn broken v go_on = absurd v
    by_turn (goes r') v go_on = go_on r' v

start-IsServed : (ideas : ℕ) → IsServed (start ideas)
start-IsServed ideas = record {
  number = refl;
  table = record { places = refl; few = omega arith; exact = λ v. ground arith };
}

-- Whatever the order in which the philosophers' messages go over: the footman's table is never
-- written or read outside its array, four philosophers sit at most, and each processor stands among
-- the first places of the array as often as it is that of a philosopher between its SITDOWN and its
-- GETUP.
pub start-ServesAll : (ideas : ℕ) (schedule : List ℕ) → ServesAll (run schedule (start ideas))
start-ServesAll ideas schedule = run-ServesAll schedule (start ideas) (start-IsServed ideas)
