-- ===== src/Datapath/Words/Cycle.antt =====
-- `execute` and Datapath_execute keep the processor and its surroundings well-formed, and what they do
-- is defined unless a product, a quotient or a shift leaves the range that C defines.
use psim.Prelude.{ℕ, ◌+◌, ◌^◌, ◌<◌, ◌≤◌, ◌≡◌, refl, arith, Bool, true, false, ◌==◌, ◌||◌}
use psim.Prelude.{if_both, Bool-cases, inl, inr, ◌⊎◌, Outcome, ok, err, fault, enotsup, some, none}
use psim.Prelude.{u64, set, signed32, fits_int, quot, ◌*ℤ◌, Option}
use psim.Cpu.{Cpu, Perfct, cop2_msg_op_none}
use psim.Mem.Bounds.{lw-Gives, Gives}
use psim.Instr.{lsb, msbd}
use psim.Datapath.Alu.{exec_alu, exec_mult, exec_div, exec_ext, rs_of, rt_of}
use psim.Datapath.Decode.{decode}
use psim.Datapath.DecodeLaws.{decode-fields, decode-imm, decode-npc}
use psim.Datapath.Jumps.{exec_jump, branch, taken}
use psim.Datapath.Immediates.{exec_immediate, immediate_value}
use psim.Datapath.State.{Sys, Exec, returned, crashed}
use psim.Datapath.Switch.{
  Case, alu, jump, immediate, cop, access, case_of, Alu, movz, movn, mult, div, ext, Jump, jr, j,
  jal, bltz, bgez, beq, bne, blez, bgtz, Immediate, addiu, slti, sltiu, andi, ori, xori, lui,
}
use psim.Datapath.Cycle.{
  Cycle, cycled, broken, computed, execute_case, execute, inc_cycle, advance, executed, is_success,
  decoded, fetched, fetch, begin, cycle_by, pending, datapath_execute,
}
use psim.Datapath.Words.{IsCpu, set_reg-IsCpu, dec-IsDecoder, record-IsCpu}
use psim.Datapath.Words.Registers.{IfOk, exec_alu-IfOk, exec_jump-IfOk, exec_immediate-IfOk}
use psim.Datapath.Words.Accesses.{IsSys, Sound, exec_access-Sound}
use psim.Datapath.Words.Cops.{exec_cop-Sound}

-- The instructions that C does not define on the operands of the processor: MULT with a product
-- outside `int`, DIV by zero or with a quotient outside `int`, and EXT with a field that lies
-- outside the word
abbrev pub Undefined : Alu → Cpu → Type 0
Undefined mult c = fits_int (signed32 (rs_of c) *ℤ signed32 (rt_of c)) ≡ false
Undefined div c =
    (rt_of c ≡ 0) ⊎ (fits_int (quot (signed32 (rs_of c)) (signed32 (rt_of c))) ≡ false)
Undefined ext c = (32 ≤ lsb c.dec.raw) ⊎ (31 < msbd c.dec.raw)
Undefined _ c = ⊥

exec_alu-Undefined : (op : Alu) (c : Cpu) → exec_alu op c ≡ fault → Undefined op c
unfolding exec_alu exec_mult exec_div exec_ext
exec_alu-Undefined mult c e = ground (arith, e)
exec_alu-Undefined div c e = ground (arith, e)
exec_alu-Undefined ext c e = ground (arith, e)
exec_alu-Undefined movz c e = ground (arith, e)
exec_alu-Undefined movn c e = ground (arith, e)
exec_alu-Undefined _ c e = cc

-- A branch that is taken, over a negative distance: the code shifts it left.
abbrev pub IsBackward : Jump → Cpu → Type 0
IsBackward jr c = ⊥
IsBackward j c = ⊥
IsBackward jal c = ⊥
IsBackward op c = (taken op c ≡ true) × (2 ^ 15 ≤ c.dec.imm)

branch-fault : (b : Bool) (c : Cpu) → branch b c ≡ fault → (b ≡ true) × (2 ^ 15 ≤ c.dec.imm)
unfolding branch
branch-fault true c e = ground (arith, e)
branch-fault false c e = cc

exec_jump-IsBackward : (op : Jump) (c : Cpu) → exec_jump op c ≡ fault → IsBackward op c
unfolding exec_jump
exec_jump-IsBackward jr c e = cc
exec_jump-IsBackward j c e = cc
exec_jump-IsBackward jal c e = cc
exec_jump-IsBackward bltz c e = branch-fault (taken bltz c) c e
exec_jump-IsBackward bgez c e = branch-fault (taken bgez c) c e
exec_jump-IsBackward beq c e = branch-fault (taken beq c) c e
exec_jump-IsBackward bne c e = branch-fault (taken bne c) c e
exec_jump-IsBackward blez c e = branch-fault (taken blez c) c e
exec_jump-IsBackward bgtz c e = branch-fault (taken bgtz c) c e

-- LUI of a negative immediate, which the code shifts left
abbrev pub IsNegative : Immediate → Cpu → Type 0
IsNegative lui c = 2 ^ 15 ≤ c.dec.imm
IsNegative _ c = ⊥

exec_immediate-IsNegative :
    (op : Immediate) (c : Cpu) → exec_immediate op c ≡ fault → IsNegative op c
unfolding exec_immediate immediate_value
exec_immediate-IsNegative lui c e = ground (arith, e)
exec_immediate-IsNegative addiu c e = cc
exec_immediate-IsNegative slti c e = cc
exec_immediate-IsNegative sltiu c e = cc
exec_immediate-IsNegative andi c e = cc
exec_immediate-IsNegative ori c e = cc
exec_immediate-IsNegative xori c e = cc

-- The instruction behind the label is one that C does not define.
abbrev pub Stuck : Option Case → Cpu → Type 0
Stuck (some (alu op)) c = Undefined op c
Stuck (some (jump op)) c = IsBackward op c
Stuck (some (immediate op)) c = IsNegative op c
Stuck _ c = ⊥

-- A result of `execute`, or one of a cycle, that is well-formed, or undefined because of `X`
abbrev pub SoundOr : Type 0 → Exec → Type 0
SoundOr X (returned e c s) = IsCpu c × IsSys s
SoundOr X crashed = X

abbrev pub KeptOr : Type 0 → Cycle → Type 0
KeptOr X (cycled ret c s) = IsCpu c × IsSys s
KeptOr X broken = X

sound : (X : Type 0) (r : Exec) → Sound r → SoundOr X r
sound X (returned e c s) h = h
sound X crashed h = absurd h

computed-SoundOr :
    (X : Type 0) (o : Outcome Cpu) (c : Cpu) (s : Sys)
    → IfOk o
    → (o ≡ fault → X)
    → IsCpu c
    → IsSys s
    → SoundOr X (computed o c s)
computed-SoundOr X (ok d) c s v u h k = (v, k)
computed-SoundOr X (err e) c s v u h k = (h, k)
computed-SoundOr X fault c s v u h k = u refl

execute_case-SoundOr :
    (x : Case) (c : Cpu) (s : Sys)
    → IsCpu c
    → IsSys s
    → SoundOr (Stuck (some x) c) (execute_case x c s)
unfolding execute_case
execute_case-SoundOr (alu op) c s h k =
    computed-SoundOr _ (exec_alu op c) c s (exec_alu-IfOk c h op) (exec_alu-Undefined op c) h k
execute_case-SoundOr (jump op) c s h k =
    computed-SoundOr _ (exec_jump op c) c s (exec_jump-IfOk op c h) (exec_jump-IsBackward op c) h k
execute_case-SoundOr (immediate op) c s h k =
    computed-SoundOr _ (exec_immediate op c) c s (exec_immediate-IfOk c h op)
      (exec_immediate-IsNegative op c) h k
execute_case-SoundOr (cop op) c s h k = sound _ _ (exec_cop-Sound op c s h k)
execute_case-SoundOr (access op) c s h k = sound _ _ (exec_access-Sound op c s h k)

execute-SoundOr :
    (c : Cpu) (s : Sys) → IsCpu c → IsSys s → SoundOr (Stuck (case_of c.dec.sign) c) (execute c s)
unfolding execute
execute-SoundOr c s h k = by_label (case_of c.dec.sign)
  where
    by_label :
        (x : Option Case)
        → SoundOr (Stuck x c) (elim x [ some y ↦ execute_case y c s | none ↦ returned enotsup c s ])
    by_label (some y) = execute_case-SoundOr y c s h k
    by_label none = (h, k)

pub begin-IsCpu : (c : Cpu) → IsCpu c → IsCpu (begin c)
unfolding begin
begin-IsCpu c h =
    record-IsCpu (record c { gpr = set c.gpr 0 0 }) c.running
      (record (c.dec) { stall = false; rmwfail = false }) c.perfct
      (set_reg-IsCpu c 0 0 h (omega arith)) (omega arith)

counted-IsCpu : (c : Cpu) (p : Perfct) → IsCpu c → IsCpu (record c { perfct = p })
counted-IsCpu c p h = record-IsCpu c c.running c.dec p h (dec-IsDecoder c h)

inc_cycle-KeptOr :
    (X : Type 0) (ret : Bool) (c : Cpu) (s : Sys) → IsCpu c → IsSys s → KeptOr X (inc_cycle ret c s)
unfolding inc_cycle
inc_cycle-KeptOr X ret c s h k = (counted-IsCpu c _ h, k)

pc-IsCpu : (c : Cpu) (n : ℕ) → IsCpu c → n < 2 ^ 64 → IsCpu (record c { pc = n })
pc-IsCpu c n h w = record {
  regs = h.regs;
  words = h.words;
  cop_regs = h.cop_regs;
  cop_words = h.cop_words;
  hi_word = h.hi_word;
  lo_word = h.lo_word;
  pc_word = w;
  npc_word = h.npc_word;
  rs_reg = h.rs_reg;
  rt_reg = h.rt_reg;
  rd_reg = h.rd_reg;
  imm_half = h.imm_half;
}

advance-IsCpu : (c : Cpu) → IsCpu c → IsCpu (advance c)
unfolding advance
advance-IsCpu c h =
    if_both IsCpu c.dec.isjump _ _ (λ p. pc-IsCpu c c.dec.npc h (omega (arith, h.npc_word)))
      (λ p.
        if_both IsCpu c.dec.stall _ _ (λ q. h) (λ q. pc-IsCpu c (u64 (c.pc + 4)) h (omega arith)))

executed-KeptOr : (X : Type 0) (x : Exec) → SoundOr X x → KeptOr X (executed x)
unfolding executed
executed-KeptOr X (returned e c s) h =
    elim (Bool-cases (is_success e || (c.dec.rmwfail || c.dec.stall))) [
      | inl p ↦ rw p (inc_cycle-KeptOr X true (advance c) s (advance-IsCpu c h.0) h.1)
      | inr p ↦ rw p (inc_cycle-KeptOr X false c s h.0 h.1)
    ]
executed-KeptOr X crashed h = h

-- The processor that `execute` gets, once the word `instr` is decoded
abbrev pub decoded_cpu : ℕ → Cpu → Cpu
decoded_cpu instr c = record c { dec = (decode (record (c.dec) { raw = instr })).1 }

pub decode-IsCpu : (c : Cpu) (instr : ℕ) → IsCpu c → IsCpu (decoded_cpu instr c)
decode-IsCpu c instr h =
    let d = record (c.dec) { raw = instr } in
    record-IsCpu c c.running (decode d).1 c.perfct h
      (omega (arith, decode-fields d, decode-imm d, decode-npc d, h.npc_word))

-- The word that is fetched is one that C does not define, for the operands at hand.
pub record IsStuck (c : Cpu) (s : Sys) : Type 0 where
  pub word : ℕ
  pub is_fetched : fetch (begin c) s.mem ≡ ok word
  pub is_stuck : Stuck (case_of (decoded_cpu word (begin c)).dec.sign) (decoded_cpu word (begin c))

fetched-KeptOr :
    (X : Type 0) (o : Outcome ℕ) (c : Cpu) (s : Sys)
    → Gives (λ w. Unit) o
    → ((w : ℕ) → o ≡ ok w → Stuck (case_of (decoded_cpu w c).dec.sign) (decoded_cpu w c) → X)
    → IsCpu c
    → IsSys s
    → KeptOr X (fetched o c s)
unfolding fetched decoded
fetched-KeptOr X (ok w) c s g u h k = by_known (decode (record (c.dec) { raw = w })).0
  where
    stuck :
        (x : Exec)
        → SoundOr (Stuck (case_of (decoded_cpu w c).dec.sign) (decoded_cpu w c)) x
        → SoundOr X x
    stuck (returned e c' s') v = v
    stuck crashed v = u w refl v

    by_known : (b : Bool) → KeptOr X (decoded b (decoded_cpu w c) s)
    by_known true = executed-KeptOr X _ (stuck _ (execute-SoundOr _ s (decode-IsCpu c w h) k))
    by_known false = inc_cycle-KeptOr X false _ s (decode-IsCpu c w h) k
fetched-KeptOr X (err e) c s g u h k = inc_cycle-KeptOr X false c s h k
fetched-KeptOr X fault c s g u h k = absurd g

-- A cycle of a well-formed processor, on a memory of whole words that holds bytes, a controller
-- whose indices are in range and an input of bytes, leaves all of them well-formed: every register
-- is a word of 32 bits and every index is in range, whatever the instruction is and whether the
-- cycle succeeds, fails, stalls or waits. The only cycles whose behaviour C does not define are those
-- that fetch a MULT whose product is no `int`, a DIV by zero or whose quotient is no `int`, an EXT
-- with a field outside the word, a branch that is taken over a negative distance, or a LUI of a
-- negative immediate: the code shifts the last two left as signed numbers.
pub datapath_execute-Kept :
    (c : Cpu) (s : Sys) → IsCpu c → IsSys s → KeptOr (IsStuck c s) (datapath_execute c s)
unfolding datapath_execute cycle_by fetch
datapath_execute-Kept c s h k =
    if_both (KeptOr (IsStuck c s)) c.running _ _
      (λ p.
        if_both (KeptOr (IsStuck c s)) (pending (begin c) == cop2_msg_op_none) _ _
          (λ q.
            fetched-KeptOr (IsStuck c s) (fetch (begin c) s.mem) (begin c) s
              (lw-Gives s.mem (begin c).pc k.store.mem)
              (λ w f x. record { word = w; is_fetched = f; is_stuck = x }) (begin-IsCpu c h) k)
          (λ q.
            inc_cycle-KeptOr (IsStuck c s) true _ s (counted-IsCpu (begin c) _ (begin-IsCpu c h))
              k))
      (λ p. (h, k))
