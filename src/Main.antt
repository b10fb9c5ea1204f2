-- ===== src/Main.antt =====
-- main.c: the options, the checks of the program file, and the run of the simulation. What getopt
-- finds, and what the calls on the file return, are parameters.
pub mod Status
use psim.Prelude.{ℕ, ◌^◌, Bool, true, false, not, ◌==◌, ◌&&◌, ◌||◌, if◌then◌else◌}
use psim.Prelude.{List, [], ◌∷◌, Option, some}
use psim.Mem.Load.{Phdr}
use psim.Runs.{ProgInfo, Ran, returned, exited, unfinished, crashed}

-- enum Org of simutil.h
pub data Org : Type 0 where
  none shrmem net : Org

-- What getopt returns, with the numbers that strtoul reads from the operand. strtok gives `-n` one
-- part or two; without the second one strtoul reads through NULL.
pub data Opt : Type 0 where
  opt_c : ℕ → Opt
  opt_n : ℕ → Option ℕ → Opt
  opt_m : ℕ → Opt
  missing_operand : Opt
  unrecognized : Opt

-- The variables that the options set
pub record Options : Type 0 where
  pub flag : Org
  pub ncpu : ℕ
  pub x : ℕ
  pub y : ℕ
  pub memsz : ℕ

abbrev pub default_options : Options
default_options = record { flag = Org.none; ncpu = 1; x = 1; y = 1; memsz = 2 ^ 24 }

-- The calls of err and errx
pub data Failure : Type 0 where
  no_operand bad_option no_mode no_name open_failed fstat_failed mmap_failed : Failure
  not_mips close_failed : Failure

pub data Parsed : Type 0 where
  parsed : Options → Parsed
  refused : Failure → Parsed
  broke : Parsed

-- The loop over the options
unfoldable pub parse : List Opt → Options → Parsed
parse [] o = parsed o
parse (opt_c n ∷ opts) o = parse opts (record o { flag = Org.shrmem; ncpu = n })
parse (opt_n x (some y) ∷ opts) o = parse opts (record o { flag = Org.net; x = x; y = y })
parse (opt_n x Option.none ∷ opts) o = broke
parse (opt_m n ∷ opts) o = parse opts (record o { memsz = n })
parse (missing_operand ∷ opts) o = refused no_operand
parse (unrecognized ∷ opts) o = refused bad_option

-- The fields of Elf32_Ehdr that `main` reads
pub record Ehdr : Type 0 where
  pub mag0 : ℕ
  pub mag1 : ℕ
  pub mag2 : ℕ
  pub mag3 : ℕ
  pub ei_class : ℕ
  pub ei_data : ℕ
  pub e_type : ℕ
  pub e_machine : ℕ
  pub e_entry : ℕ

-- IS_ELF, with ELFMAG0 to ELFMAG3 of <elf.h>
abbrev pub is_elf : Ehdr → Bool
is_elf eh = (eh.mag0 == 0x7F) && ((eh.mag1 == 0x45) && ((eh.mag2 == 0x4C) && (eh.mag3 == 0x46)))

-- ELFCLASS32, ELFDATA2LSB, ET_EXEC and EM_MIPS of <elf.h>
abbrev pub elfclass32 : ℕ
elfclass32 = 1

abbrev pub elfdata2lsb : ℕ
elfdata2lsb = 1

abbrev pub et_exec : ℕ
et_exec = 2

abbrev pub em_mips : ℕ
em_mips = 8

-- The condition of the check is the negation of this.
unfoldable pub is_mips32el : Ehdr → Bool
is_mips32el eh =
    is_elf eh
    && ((eh.ei_class == elfclass32)
        && ((eh.ei_data == elfdata2lsb) && ((eh.e_type == et_exec) && (eh.e_machine == em_mips))))

-- What argv and the calls on the program file give
pub record File : Type 0 where
  pub name : Option (List ℕ)
  pub opens : Bool
  pub fstats : Bool
  pub maps : Bool
  pub closes : Bool
  pub eh : Ehdr
  pub elf : List ℕ
  pub segments : List Phdr

-- How `main` ends: with EXIT_SUCCESS, with EXIT_FAILURE after a message of its own or in a function that
-- it calls, not within the rounds given, or in undefined behaviour
pub data Exit : Type 0 where
  success : Exit
  failure : Failure → Exit
  inner_failure : Exit
  still_running : Exit
  crash : Exit

-- What follows the run
unfoldable pub finish : File → Ran → Exit
finish f (returned ret lines) = if f.closes then success else failure close_failed
finish f exited = inner_failure
finish f unfinished = still_running
finish f crashed = crash

abbrev pub is_none : Org → Bool
is_none Org.none = true
is_none _ = false

module _ (run_shrmem : ℕ → ℕ → ProgInfo → Ran) (run_net : ℕ → ℕ → ℕ → ProgInfo → Ran) where
  -- The calls of ShrMem_run and DstbMem_run
  unfoldable pub dispatch : Options → ProgInfo → Ran
  dispatch o prog = elim o.flag [
    | Org.none ↦ run_net o.x o.y o.memsz prog
    | Org.shrmem ↦ run_shrmem o.ncpu o.memsz prog
    | Org.net ↦ run_net o.x o.y o.memsz prog
  ]

  -- From the opening of the file on
  unfoldable pub with_file : Options → File → List ℕ → Exit
  unfolding dispatch finish is_mips32el
  with_file o f name =
      if not f.opens
      then failure open_failed
      else if not f.fstats
      then failure fstat_failed
      else if not f.maps
      then failure mmap_failed
      else if not (is_mips32el f.eh)
      then failure not_mips
      else finish f (
          dispatch o
            (record { entry = f.eh.e_entry; name = name; elf = f.elf; segments = f.segments }))

  unfoldable pub with_options : Options → File → Exit
  unfolding with_file
  with_options o f =
      if is_none o.flag
      then failure no_mode
      else elim f.name [ Option.none ↦ failure no_name | some name ↦ with_file o f name ]

  abbrev pub with_parsed : Parsed → File → Exit
  unfolding with_options
  with_parsed (parsed o) f = with_options o f
  with_parsed (refused e) f = failure e
  with_parsed broke f = crash

  -- main
  unfoldable pub main : List Opt → File → Exit
  unfolding parse with_options
  main opts f = with_parsed (parse opts default_options) f
