-- ===== src/Cpu/Moves.antt =====
-- CPU_mtc2 and CPU_mfc2: what is moved to coprocessor 2 can be moved from it.
use psim.Prelude.{ℕ, ◌+◌, ◌*◌, ◌<◌, ◌≡◌, ◌≢◌, arith, length, ok, Bool-cases, inl, inr}
use psim.Prelude.{◌||◌, leb, get_elem?-set_self, get_elem?-set_ne}
use psim.Cpu.{Cpu, mfc2, mtc2, cop2_nreg, cop2_nsel}

-- In a processor with all registers of the coprocessor: a move that CPU_mtc2 accepts is to register 0
-- and a selection below 6. CPU_mfc2 then gives the value at that place, and what it gave before at
-- every other, accepted or not.
pub mfc2-mtc2 :
    (c c' : Cpu) (dest sel v : ℕ)
    → length c.cop2 ≡ cop2_nreg * cop2_nsel
    → mtc2 c dest sel v ≡ ok c'
    → (dest ≡ 0)
      × (sel < 6)
      × (mfc2 c' dest sel ≡ ok v)
      × ((src s : ℕ) → s ≢ sel → mfc2 c' src s ≡ mfc2 c src s)
unfolding mfc2 mtc2
mfc2-mtc2 c c' dest sel v full e = elim (Bool-cases (leb cop2_nreg dest || leb cop2_nsel sel)) [
  | inl p ↦ absurd (ground arith)
  | inr p ↦
      let low : (dest ≡ 0) × (sel < 6) = ground arith in
      (
        low.0,
        low.1,
        ground (arith, get_elem?-set_self c.cop2 (dest * cop2_nsel + sel) v),
        λ src s ne.
            ground
              (arith, get_elem?-set_ne c.cop2 (dest * cop2_nsel + sel) (src * cop2_nsel + s) v),
      )
]
