-- ===== src/Tests/MainTests.antt =====
-- The command line and the report's name at small inputs.
use psim.Prelude.{ℕ, ◌≡◌, ◌↔◌, refl, [], ◌∷◌, List, some, true, false}
use psim.Runs.{ProgInfo, Ran, returned}
use psim.Main.{opt_c, opt_m, File, success, main}
use psim.Main.Status.{Succeeds, main-success}

-- "a.out"
abbrev name : List ℕ
name = 97 ∷ 46 ∷ 111 ∷ 117 ∷ 116 ∷ []

abbrev same_name : List ℕ → List ℕ
same_name n = n

abbrev mips_file : File
mips_file = record {
  name = some name;
  opens = true;
  fstats = true;
  maps = true;
  closes = true;
  eh = record {
    mag0 = 0x7F;
    mag1 = 0x45;
    mag2 = 0x4C;
    mag3 = 0x46;
    ei_class = 1;
    ei_data = 1;
    e_type = 2;
    e_machine = 8;
    e_entry = 0;
  };
  elf = [];
  segments = [];
}

-- Runs that fail
abbrev fails : ℕ → ℕ → ProgInfo → Ran
fails n m p = returned false []

abbrev net_fails : ℕ → ℕ → ℕ → ProgInfo → Ran
net_fails x y m p = returned false []

main-success_example :
    (main fails net_fails (opt_c 2 ∷ opt_m 4 ∷ []) mips_file ≡ success)
    ↔ Succeeds fails net_fails (opt_c 2 ∷ opt_m 4 ∷ []) mips_file
main-success_example = main-success fails net_fails (opt_c 2 ∷ opt_m 4 ∷ []) mips_file

-- A failed run exits with success.
failed_run : main fails net_fails (opt_c 2 ∷ opt_m 4 ∷ []) mips_file ≡ success
unfolding main
failed_run = refl
