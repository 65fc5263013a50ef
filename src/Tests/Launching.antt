-- ===== src/Tests/Launching.antt =====
-- The launcher at concrete inputs.
use driver_uu_remote.Base.{ℕ, ◌≡◌, refl, true, false, List, [], ◌∷◌, none, some}
use driver_uu_remote.Launcher.Text.{
  is_blank, skip_quote, skip_to_quote, skip_blanks, is_separator, skip_program_name,
  replace_filename, file_start,
}
use driver_uu_remote.Launcher.Run.{Answers}

-- The texts `C:\a`, `"a b" -x y` and `b.exe`.
abbrev server_path : List ℕ
server_path = 67 ∷ 58 ∷ 92 ∷ 97 ∷ []

abbrev given_line : List ℕ
given_line = 34 ∷ 97 ∷ 32 ∷ 98 ∷ 34 ∷ 32 ∷ 45 ∷ 120 ∷ 32 ∷ 121 ∷ []

abbrev new_name : List ℕ
new_name = 98 ∷ 46 ∷ 101 ∷ 120 ∷ 101 ∷ []

given_arguments : skip_program_name given_line ≡ 45 ∷ 120 ∷ 32 ∷ 121 ∷ []
unfolding skip_program_name skip_quote skip_to_quote skip_blanks is_blank
given_arguments = refl

replaced : replace_filename server_path 260 new_name ≡ some (67 ∷ 58 ∷ 92 ∷ new_name)
unfolding replace_filename file_start is_separator
replaced = refl

-- The wait for the loader thread times out.
abbrev timed_out : Answers
timed_out = record {
  module_path = some server_path;
  command_line = given_line;
  created = true;
  allocated = true;
  written = true;
  found = true;
  threaded = true;
  waited = false;
  asked = false;
  loader_result = 0;
  process_exit = none;
}
