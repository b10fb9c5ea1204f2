-- ===== src/Examples/Philosophers.antt =====
-- d_dining-philosophers.c: the footman, its table, and the philosophers as a sequence of messages.
-- A message goes over in one step, from the philosopher to the process that accepts it. The forks
-- are left open: a message to one of them may go over at any time.
pub mod Counts
pub mod Seating
pub mod Seats
pub mod Safety
use psim.Prelude.{ℕ, zero, suc, ◌+◌, ◌-◌, Bool, false, ◌&&◌, ◌||◌, ◌==◌, ltb, if◌then◌else◌}
use psim.Prelude.{List, [], ◌∷◌, length, get_elem?, set, take, replicate, Option, none, some}

abbrev pub philos : ℕ
philos = 5

-- enum Actions
pub data Action : Type 0 where
  a_sitdown a_getup a_pickup a_putdown a_done : Action

-- philo: the processors of the philosophers
abbrev pub philo : List ℕ
philo = 0 ∷ 1 ∷ 3 ∷ 4 ∷ 5 ∷ []

-- table
pub record Table : Type 0 where
  pub seated : ℕ
  pub arr : List ℕ

-- find; `none` is -1.
unfoldable pub find : List ℕ → ℕ → ℕ → Option ℕ
find arr zero elem = none
find [] (suc size) elem = none
find (x ∷ xs) (suc size) elem =
    if x == elem then some 0 else elim (find xs size elem) [ none ↦ none | some i ↦ some (suc i) ]

-- sitdown; `none` is a write past the array.
unfoldable pub sitdown : ℕ → Table → Option Table
sitdown new t =
    if ltb t.seated (length t.arr)
    then some (record { seated = t.seated + 1; arr = set t.arr t.seated new })
    else none

-- getup, from the place that find gives on; `none` is a read before the array or past it.
unfoldable pub leave : Option ℕ → Table → Option Table
leave none t = some t
leave (some i) t = if t.seated == 0 then none else elim (get_elem? t.arr (t.seated - 1)) [
  | none ↦ none
  | some last ↦ some (record { seated = t.seated - 1; arr = set t.arr i last })
]

unfoldable pub getup : ℕ → Table → Option Table
unfolding leave find
getup exiting t = leave (find t.arr (philos - 1) exiting) t

pub record Footman : Type 0 where
  pub np : ℕ
  pub table : Table

abbrev pub seat_at : Footman → Option Table → Option Footman
seat_at f none = none
seat_at f (some t) = some (record f { table = t })

-- The switch of `footman` on an action
unfoldable pub act : Action → ℕ → Footman → Option Footman
unfolding sitdown getup
act a_sitdown from f = seat_at f (sitdown from f.table)
act a_getup from f = seat_at f (getup from f.table)
act a_done from f = some (record f { np = f.np - 1 })
act _ from f = some f

-- The body of its loop, once a message has come
unfoldable pub receive : Action → ℕ → Footman → Option Footman
unfolding act getup
receive a_getup from f = act a_getup from f
receive a from f = if f.table.seated == philos - 1 then some f else act a from f

abbrev pub is_clause : ℕ → List ℕ → Bool
is_clause v [] = false
is_clause v (x ∷ xs) = (x == v) || is_clause v xs

-- Does its C2_alt take a message of the processor?
unfoldable pub accepts : Footman → ℕ → Bool
accepts f from =
    ltb 0 f.np
    && is_clause from
        (if f.table.seated == philos - 1 then take f.table.seated f.table.arr else philo)

-- Where `philosopher` is: before each of its messages, and at the end
pub data Stage : Type 0 where
  s_sit s_own s_nbr s_put_nbr s_put_own s_getup s_done_own s_done_nbr s_done s_end : Stage

pub record Philosopher : Type 0 where
  pub ideas : ℕ
  pub stage : Stage

-- The message to the footman that comes next, if it is one
unfoldable pub to_footman : Stage → Option Action
to_footman s_sit = some a_sitdown
to_footman s_getup = some a_getup
to_footman s_done = some a_done
to_footman _ = none

-- The test of the loop of `philosopher`
abbrev pub round : ℕ → Philosopher
round ideas = record { ideas = ideas; stage = if ltb 0 ideas then s_sit else s_done_own }

-- After the message
unfoldable pub next : Philosopher → Philosopher
next p = elim p.stage [
  | s_sit ↦ record p { stage = s_own }
  | s_own ↦ record p { stage = s_nbr }
  | s_nbr ↦ record p { stage = s_put_nbr }
  | s_put_nbr ↦ record p { stage = s_put_own }
  | s_put_own ↦ record p { stage = s_getup }
  | s_getup ↦ round (p.ideas - 1)
  | s_done_own ↦ record p { stage = s_done_nbr }
  | s_done_nbr ↦ record p { stage = s_done }
  | s_done ↦ record p { stage = s_end }
  | s_end ↦ p
]

-- The footman and the philosophers
pub record Room : Type 0 where
  pub footman : Footman
  pub seats : List Philosopher

-- What a philosopher's turn does: nothing, if the message has to wait; an access outside the table's
-- array; or a new state.
pub data Turn : Type 0 where
  waits broken : Turn
  goes : Room → Turn

abbrev pub received : Option Footman → List Philosopher → Turn
received none ps = broken
received (some f) ps = goes (record { footman = f; seats = ps })

unfoldable pub message : Option Action → ℕ → Room → List Philosopher → Turn
unfolding receive accepts
message none id r ps = goes (record r { seats = ps })
message (some a) id r ps =
    if accepts r.footman id then received (receive a id r.footman) ps else waits

-- The next message of the philosopher `j`, whose processor is `id`
unfoldable pub turn : ℕ → ℕ → Philosopher → Room → Turn
unfolding message to_footman next
turn j id p r = message (to_footman p.stage) id r (set r.seats j (next p))

unfoldable pub step : ℕ → Room → Turn
unfolding turn
step j r = elim (get_elem? philo j) [
  | none ↦ waits
  | some id ↦ elim (get_elem? r.seats j) [ none ↦ waits | some p ↦ turn j id p r ]
]

-- A run of turns; `none` is an access outside the array.
unfoldable pub run : List ℕ → Room → Option Room
unfolding step
run [] r = some r
run (j ∷ js) r = elim (step j r) [ waits ↦ run js r | broken ↦ none | goes r' ↦ run js r' ]

-- The start of `footman`, and of the five philosophers with IDEAS rounds; the array is static.
abbrev pub start : ℕ → Room
start ideas = record {
  footman = record { np = philos; table = record { seated = 0; arr = replicate 4 0 } };
  seats = replicate philos (round ideas);
}
