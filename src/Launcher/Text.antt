-- ===== src/Launcher/Text.antt =====
-- The text routines of src/server_launcher.c. A string is the list of its code units, without the
-- terminator that ends it.
use driver_uu_remote.Base.{
  ℕ, zero, suc, ◌+◌, ◌%◌, ◌^◌, Bool, ◌||◌, List, [], ◌∷◌, ◌++◌, Option, none, some, take, length,
  get_or, ◌==◌, ltb, if◌then◌else◌,
}

abbrev pub quote : ℕ
quote = 34

unfoldable pub is_blank : ℕ → Bool
is_blank c = (c == 32) || (c == 9)

unfoldable pub is_separator : ℕ → Bool
is_separator c = (c == 92) || (c == 47)

-- The loops of `skip_program_name`, in the order they stand in.
unfoldable pub skip_to_quote : List ℕ → List ℕ
skip_to_quote [] = []
skip_to_quote (c ∷ cs) = let rest = skip_to_quote cs in if c == quote then c ∷ cs else rest

unfoldable pub skip_quote : List ℕ → List ℕ
skip_quote [] = []
skip_quote (c ∷ cs) = if c == quote then cs else c ∷ cs

unfoldable pub skip_word : List ℕ → List ℕ
unfolding is_blank
skip_word [] = []
skip_word (c ∷ cs) = let rest = skip_word cs in if is_blank c then c ∷ cs else rest

unfoldable pub skip_blanks : List ℕ → List ℕ
unfolding is_blank
skip_blanks [] = []
skip_blanks (c ∷ cs) = let rest = skip_blanks cs in if is_blank c then rest else c ∷ cs

unfoldable pub skip_program_name : List ℕ → List ℕ
unfolding skip_to_quote skip_quote skip_word skip_blanks
skip_program_name [] = skip_blanks (skip_word [])
skip_program_name (c ∷ cs) =
    skip_blanks (if c == quote then skip_quote (skip_to_quote cs) else skip_word (c ∷ cs))

-- The index of `cursor` once its loop has ended, which starts at the second argument.
unfoldable pub file_start : List ℕ → ℕ → ℕ
unfolding is_separator
file_start path zero = zero
file_start path (suc n) =
    let earlier = file_start path n in if is_separator (get_or path n 0) then suc n else earlier

-- `none` where `replace_filename` is false, which leaves the path alone.
unfoldable pub replace_filename : List ℕ → ℕ → List ℕ → Option (List ℕ)
unfolding file_start
replace_filename path capacity name =
    let cursor = file_start path (length path) in
    if ltb capacity ((cursor + length name + 1) % 2 ^ 32)
    then none
    else some (take cursor path ++ name)

-- The file names that the launcher puts in place of its own.
abbrev pub real_server : List ℕ
real_server =
    71 ∷ 97 ∷ 109 ∷ 101 ∷ 86 ∷ 105 ∷ 101 ∷ 119 ∷ 101 ∷ 114 ∷ 83 ∷ 101 ∷ 114 ∷ 118 ∷ 101 ∷ 114 ∷ 46
    ∷ 114 ∷ 101 ∷ 97 ∷ 108 ∷ 46 ∷ 101 ∷ 120 ∷ 101 ∷ []

abbrev pub compat_hook : List ℕ
compat_hook =
    117 ∷ 117 ∷ 45 ∷ 115 ∷ 101 ∷ 114 ∷ 118 ∷ 101 ∷ 114 ∷ 45 ∷ 99 ∷ 111 ∷ 109 ∷ 112 ∷ 97 ∷ 116 ∷ 46
    ∷ 100 ∷ 108 ∷ 108 ∷ []

-- The command line that `run` builds, from `command[0]` to its last character.
unfoldable pub launch_command : List ℕ → List ℕ → List ℕ
launch_command executable [] = quote ∷ executable ++ (quote ∷ [])
launch_command executable (c ∷ cs) = quote ∷ executable ++ (quote ∷ 32 ∷ c ∷ cs)
