-- ===== src/Examples/Philosophers/Seating.antt =====
-- d_dining-philosophers.c: sitdown and getup on the footman's table, whatever its order.
use psim.Prelude.{ℕ, suc, ◌+◌, ◌-◌, ◌≤◌, ◌<◌, ◌≡◌, ap, sym, ◌∙◌, arith}
use psim.Prelude.{length, get_elem?, set, some, length-set, get_elem?_of_lt, get_elem?-set_self}
use mathlib.Core.Option.{some-injective}
use native.Mathlib.Decide.{dec_lt}
use psim.Examples.Philosophers.{philos, Table, sitdown, leave, getup}
use psim.Examples.Philosophers.Counts.{
  one_if, count, count-suc, count-set, count-set_after, find-count,
}

-- Each processor `v` stands `w v` times among the seated ones.
pub record IsSeated (t : Table) (w : ℕ → ℕ) : Type 0 where
  pub places : length t.arr ≡ philos - 1
  pub few : t.seated ≤ philos - 1
  pub exact : (v : ℕ) → count v t.seated t.arr ≡ w v

module _ (t : Table) (w : ℕ → ℕ) (h : IsSeated t w) where
  pub sitdown-IsSeated :
      (new : ℕ)
      → t.seated < philos - 1
      → (t' : Table) × (sitdown new t ≡ some t') × IsSeated t' (λ v. w v + one_if new v)
  unfolding sitdown
  sitdown-IsSeated new space =
      let (old, at) = get_elem?_of_lt t.arr t.seated (omega (arith, h.places)) in
      let put = set t.arr t.seated new in
      let there : get_elem? put t.seated ≡ some new =
        get_elem?-set_self t.arr t.seated new (omega (arith, h.places)) in
      (
        record { seated = t.seated + 1; arr = put },
        ground (arith, h.places, space),
        record {
          places = length-set t.arr t.seated new ∙ h.places;
          few = omega arith;
          exact = λ v. omega (
            arith,
            count-suc v t.seated new put there,
            count-set_after v t.seated t.seated new t.arr (omega arith),
            h.exact v,
            ap (λ (n : ℕ). count v n put) plus_one,
          );
        },
      )
    where
      plus_one : t.seated + 1 ≡ suc t.seated
      plus_one = omega arith

  leave-exact :
      (m i v last u : ℕ)
      → t.seated ≡ suc m
      → i < suc m
      → get_elem? t.arr i ≡ some v
      → get_elem? t.arr m ≡ some last
      → count u m (set t.arr i last) + one_if v u ≡ w u
  leave-exact m i v last u s lt at last_at =
      let all = sym (ap (λ (n : ℕ). count u n t.arr) s) ∙ h.exact u in
      let more = count-suc u m last t.arr last_at in
      elim (dec_lt i m) [
        | yes before ↦ omega (arith, count-set u m i v last t.arr before at, more, all)
        | no no_less ↦
            let here : i ≡ m = omega arith in
            let same : v ≡ last =
              some-injective v last (sym at ∙ ap (get_elem? t.arr) here ∙ last_at) in
            omega (
              arith,
              count-set_after u m i last t.arr (omega arith),
              more,
              all,
              ap (λ (x : ℕ). one_if x u) same,
            )
      ]

  pub getup-IsSeated :
      (v : ℕ) (w' : ℕ → ℕ)
      → 0 < w v
      → ((u : ℕ) → w' u + one_if v u ≡ w u)
      → (t' : Table) × (getup v t ≡ some t') × IsSeated t' w'
  unfolding getup leave
  getup-IsSeated v w' sits less =
      let (i, found, lt, at) =
        find-count t.arr (philos - 1) v t.seated h.few (omega (arith, h.exact v)) in
      let (last, last_at) = get_elem?_of_lt t.arr (t.seated - 1) (omega (arith, h.places, h.few)) in
      (
        record { seated = t.seated - 1; arr = set t.arr i last },
        ground (arith, found, lt, last_at),
        record {
          places = length-set t.arr i last ∙ h.places;
          few = omega (arith, h.few);
          exact = λ u. omega (
            arith,
            leave-exact (t.seated - 1) i v last u (omega arith) (omega arith) at last_at,
            less u,
          );
        },
      )
