-- ===== src/Main/Status.antt =====
-- The exit status of `main`.
use psim.Prelude.{
  ℕ, ◌≡◌, ◌↔◌, refl, arith, Bool, true, false, List, Option, some, inl, inr, Bool-cases, ◌^◌, ap,
  sym, ◌∙◌, All, [], ◌∷◌, get_or,
}
use mathlib.Core.Path.{subst}
use psim.Runs.{ProgInfo, Ran, returned, exited, unfinished, crashed}
use psim.Main.{
  Opt, Options, default_options, Failure, Parsed, parsed, refused, broke, parse, is_mips32el, File,
  success, failure, finish, dispatch, with_file, with_options, with_parsed, is_none, main, Ehdr,
  Org, opt_c, opt_n, opt_m, missing_operand, unrecognized,
}
use psim.Report.{Line}

-- The program that the file holds
abbrev pub program : File → List ℕ → ProgInfo
program f name = record { entry = f.eh.e_entry; name = name; elf = f.elf; segments = f.segments }

-- What a run simulates: processors that share a memory, or the nodes of a mesh
pub data Mode : Type 0 where
  shared : ℕ → Mode
  mesh : ℕ → ℕ → Mode

-- An option that getopt knows, with its operand, both numbers of it for -n
abbrev pub IsFaultless : Opt → Type 0
IsFaultless (opt_c n) = Unit
IsFaultless (opt_n x (some y)) = Unit
IsFaultless (opt_n x Option.none) = ⊥
IsFaultless (opt_m n) = Unit
IsFaultless missing_operand = ⊥
IsFaultless unrecognized = ⊥

-- What the options -c and -n ask for, and the sizes that the options -m give
abbrev pub modes : List Opt → List (Option Mode)
modes [] = []
modes (opt_c n ∷ opts) = some (shared n) ∷ modes opts
modes (opt_n x (some y) ∷ opts) = some (mesh x y) ∷ modes opts
modes (_ ∷ opts) = modes opts

abbrev pub sizes : List Opt → List ℕ
sizes [] = []
sizes (opt_m n ∷ opts) = n ∷ sizes opts
sizes (_ ∷ opts) = sizes opts

-- The last element, or the one given
abbrev pub last_of {ℓ} : {A : Type ℓ} → A → List A → A
last_of a [] = a
last_of a (x ∷ xs) = last_of x xs

-- The first fields of the header, and what they are in a MIPS32 EL executable: 0x7F "ELF", 32 bits,
-- the lowest byte first, executable, MIPS
abbrev pub header : Ehdr → List ℕ
header eh =
    eh.mag0 ∷ eh.mag1 ∷ eh.mag2 ∷ eh.mag3 ∷ eh.ei_class ∷ eh.ei_data ∷ eh.e_type ∷ eh.e_machine ∷ []

abbrev pub mips_header : List ℕ
mips_header = 0x7F ∷ 0x45 ∷ 0x4C ∷ 0x46 ∷ 1 ∷ 1 ∷ 2 ∷ 8 ∷ []

is_mips32el-header : (eh : Ehdr) → is_mips32el eh ≡ true → header eh ≡ mips_header
unfolding is_mips32el
is_mips32el-header eh e =
    let (p0, p1, p2, p3, p4, p5, p6, p7) : (eh.mag0 ≡ 0x7F)
        × (eh.mag1 ≡ 0x45)
        × (eh.mag2 ≡ 0x4C)
        × (eh.mag3 ≡ 0x46)
        × (eh.ei_class ≡ 1)
        × (eh.ei_data ≡ 1)
        × (eh.e_type ≡ 2)
        × (eh.e_machine ≡ 8) =
      ground (arith, e) in
    rw (p0, p1, p2, p3, p4, p5, p6, p7) refl

header-is_mips32el : (eh : Ehdr) → header eh ≡ mips_header → is_mips32el eh ≡ true
unfolding is_mips32el
header-is_mips32el eh e =
    let field : (i : ℕ) → get_or (header eh) i 0 ≡ get_or mips_header i 0 =
      λ i. ap (λ xs. get_or xs i 0) e in
    rw (field 0, field 1, field 2, field 3, field 4, field 5, field 6, field 7) refl

-- What the variables that the options set ask for
abbrev mode_by : Org → Options → Option Mode
mode_by Org.none o = Option.none
mode_by Org.shrmem o = some (shared o.ncpu)
mode_by Org.net o = some (mesh o.x o.y)

mode_by-memsz :
    (fl : Org) (o : Options) (n : ℕ) → mode_by fl (record o { memsz = n }) ≡ mode_by fl o
mode_by-memsz Org.none o n = refl
mode_by-memsz Org.shrmem o n = refl
mode_by-memsz Org.net o n = refl

parse_lem :
    (opts : List Opt) (o o' : Options)
    → parse opts o ≡ parsed o'
    → All IsFaultless opts
      × (mode_by o'.flag o' ≡ last_of (mode_by o.flag o) (modes opts))
      × (o'.memsz ≡ last_of o.memsz (sizes opts))
unfolding parse
parse_lem [] o o' e =
    let same : o ≡ o' = cc in
    subst (λ (k : Options). Unit × (mode_by k.flag k ≡ mode_by o.flag o) × (k.memsz ≡ o.memsz)) same
      (tt, refl, refl)
parse_lem (opt_c n ∷ opts) o o' e = let k = parse_lem opts _ o' e in ((tt, k.0), k.1, k.2)
parse_lem (opt_n x (some y) ∷ opts) o o' e = let k = parse_lem opts _ o' e in ((tt, k.0), k.1, k.2)
parse_lem (opt_n x Option.none ∷ opts) o o' e = cc
parse_lem (opt_m n ∷ opts) o o' e =
    let k = parse_lem opts _ o' e in
    let same = ap (λ (m : Option Mode). last_of m (modes opts)) (mode_by-memsz o.flag o n) in
    ((tt, k.0), k.1 ∙ same, k.2)
parse_lem (missing_operand ∷ opts) o o' e = cc
parse_lem (unrecognized ∷ opts) o o' e = cc

-- Faultless options are accepted.
parse-parsed :
    (opts : List Opt) (o : Options)
    → All IsFaultless opts
    → (o' : Options) × (parse opts o ≡ parsed o')
unfolding parse
parse-parsed [] o h = (o, refl)
parse-parsed (opt_c n ∷ opts) o h = parse-parsed opts _ h.1
parse-parsed (opt_n x (some y) ∷ opts) o h = parse-parsed opts _ h.1
parse-parsed (opt_n x Option.none ∷ opts) o h = absurd h.0
parse-parsed (opt_m n ∷ opts) o h = parse-parsed opts _ h.1
parse-parsed (missing_operand ∷ opts) o h = absurd h.0
parse-parsed (unrecognized ∷ opts) o h = absurd h.0

module _ (run_shrmem : ℕ → ℕ → ProgInfo → Ran) (run_net : ℕ → ℕ → ℕ → ProgInfo → Ran) where
  -- The run of a mode, with a size of memory
  abbrev pub run_mode : Mode → ℕ → ProgInfo → Ran
  run_mode (shared n) size prog = run_shrmem n size prog
  run_mode (mesh x y) size prog = run_net x y size prog

  -- All that has to go well for EXIT_SUCCESS
  pub record Succeeds (opts : List Opt) (f : File) : Type 0 where
    pub mode : Mode
    pub program_name : List ℕ
    pub faultless : All IsFaultless opts
    pub has_mode : last_of Option.none (modes opts) ≡ some mode
    pub is_named : f.name ≡ some program_name
    pub is_open : f.opens ≡ true
    pub has_stat : f.fstats ≡ true
    pub is_mapped : f.maps ≡ true
    pub is_mips : header f.eh ≡ mips_header
    pub is_closed : f.closes ≡ true
    pub result : Bool
    pub report : List Line
    pub ran :
        run_mode mode (last_of (2 ^ 24) (sizes opts)) (program f program_name)
        ≡ returned result report

  -- The options that the loop leaves have a mode exactly if their flag is set, and `main` runs it.
  mode-dispatch :
      (fl : Org) (o : Options) (mode : Mode) (prog : ProgInfo)
      → o.flag ≡ fl
      → mode_by fl o ≡ some mode
      → (is_none o.flag ≡ false) × (dispatch run_shrmem run_net o prog ≡ run_mode mode o.memsz prog)
  unfolding dispatch
  mode-dispatch Org.none o mode prog e p = cc
  mode-dispatch Org.shrmem o mode prog e p =
      let same : shared o.ncpu ≡ mode = cc in
      (ap is_none e, rw (dispatch, e) (ap (λ m. run_mode m o.memsz prog) same))
  mode-dispatch Org.net o mode prog e p =
      let same : mesh o.x o.y ≡ mode = cc in
      (ap is_none e, rw (dispatch, e) (ap (λ m. run_mode m o.memsz prog) same))

  has-mode :
      (fl : Org) (o : Options) → is_none fl ≡ false → (mode : Mode) × (mode_by fl o ≡ some mode)
  has-mode Org.none o p = cc
  has-mode Org.shrmem o p = (shared o.ncpu, refl)
  has-mode Org.net o p = (mesh o.x o.y, refl)

  finish-success :
      (f : File) (r : Ran)
      → finish f r ≡ success
      → (f.closes ≡ true) × (ret : Bool) × (lines : List Line) × (r ≡ returned ret lines)
  unfolding finish
  finish-success f (returned ret lines) e = (ground (arith, e), ret, lines, refl)
  finish-success f exited e = cc
  finish-success f unfinished e = cc
  finish-success f crashed e = cc

  with_file-success :
      (opts : List Opt) (o : Options) (f : File) (name : List ℕ)
      → parse opts default_options ≡ parsed o
      → is_none o.flag ≡ false
      → f.name ≡ some name
      → with_file run_shrmem run_net o f name ≡ success
      → Succeeds opts f
  unfolding with_file
  with_file-success opts o f name p q n e =
      let checks : (f.opens ≡ true)
          × (f.fstats ≡ true)
          × (f.maps ≡ true)
          × (is_mips32el f.eh ≡ true)
          × (finish f (dispatch run_shrmem run_net o (program f name)) ≡ success) =
        ground (arith, e) in
      let (closed, ret, lines, ran) = finish-success f _ checks.4 in
      let (clean, asked, size) = parse_lem opts default_options o p in
      let (mode, is_mode) = has-mode o.flag o q in
      let (_, runs) = mode-dispatch o.flag o mode (program f name) refl is_mode in
      record {
        mode = mode;
        program_name = name;
        faultless = clean;
        has_mode = sym asked ∙ is_mode;
        is_named = n;
        is_open = checks.0;
        has_stat = checks.1;
        is_mapped = checks.2;
        is_mips = is_mips32el-header f.eh checks.3;
        is_closed = closed;
        result = ret;
        report = lines;
        ran = ap (λ n. run_mode mode n (program f name)) (sym size) ∙ sym runs ∙ ran;
      }

  success-Succeeds :
      (opts : List Opt) (f : File) → main run_shrmem run_net opts f ≡ success → Succeeds opts f
  unfolding main
  success-Succeeds opts f e = by_options (parse opts default_options) refl e
    where
      by_name :
          (o : Options) (n : Option (List ℕ))
          → parse opts default_options ≡ parsed o
          → is_none o.flag ≡ false
          → f.name ≡ n
          → elim n [
            | Option.none ↦ failure Failure.no_name
            | some name ↦ with_file run_shrmem run_net o f name
          ]
            ≡ success
          → Succeeds opts f
      by_name o Option.none p q n x = cc
      by_name o (some name) p q n x = with_file-success opts o f name p q n x

      by_options :
          (ps : Parsed)
          → parse opts default_options ≡ ps
          → with_parsed run_shrmem run_net ps f ≡ success
          → Succeeds opts f
      by_options (parsed o) p x = elim (Bool-cases (is_none o.flag)) [
        | inl q ↦ absurd (ground (arith, x, q))
        | inr q ↦ by_name o f.name p q refl (ground (arith, x, q))
      ]
      by_options (refused e) p x = cc
      by_options broke p x = cc

  Succeeds-success :
      (opts : List Opt) (f : File) → Succeeds opts f → main run_shrmem run_net opts f ≡ success
  unfolding main with_options with_file finish
  Succeeds-success opts f h =
      let (o, parses) = parse-parsed opts default_options h.faultless in
      let (_, asked, size) = parse_lem opts default_options o parses in
      let prog = program f h.program_name in
      let (flagged, runs) = mode-dispatch o.flag o h.mode prog refl (asked ∙ h.has_mode) in
      let done : dispatch run_shrmem run_net o prog ≡ returned h.result h.report =
        runs ∙ ap (λ n. run_mode h.mode n prog) size ∙ h.ran in
      ground (
        arith,
        parses,
        flagged,
        h.is_named,
        h.is_open,
        h.has_stat,
        h.is_mapped,
        header-is_mips32el f.eh h.is_mips,
        h.is_closed,
        done,
      )

  -- The program exits with EXIT_SUCCESS exactly if: getopt finds no faulty option, and -n has both its
  -- numbers; there is a -c or -n; the file is named, opened, measured, mapped, closed, and starts with
  -- the header of a MIPS32 EL executable; and the run returns, whatever it returns. It is ShrMem_run
  -- with the number of the last -c, or DstbMem_run with those of the last -n, whichever option came
  -- last, with the size of the last -m, or 2 ^ 24 bytes without one.
  pub main-success :
      (opts : List Opt) (f : File) → (main run_shrmem run_net opts f ≡ success) ↔ Succeeds opts f
  main-success opts f = (success-Succeeds opts f, Succeeds-success opts f)
