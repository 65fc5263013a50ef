-- ===== src/Launcher/Arguments.antt =====
-- The arguments that pass through the launcher, and the paths it builds.
use driver_uu_remote.Base.{
  ℕ, zero, suc, ◌+◌, ◌%◌, ◌^◌, ◌≤◌, ◌<◌, true, false, Bool-cases, inl, inr, List, [], ◌∷◌, ◌++◌,
  none, some, ◌≡◌, ◌≢◌, refl, sym, ap, take, length, All, ◌==◌, arith, if◌then◌else◌, get_or,
  length-append, append_assoc, length-take, take-append, ltb,
}
use driver_uu_remote.Launcher.Text.{
  quote, is_blank, is_separator, skip_to_quote, skip_quote, skip_word, skip_blanks,
  skip_program_name, file_start, replace_filename,
}

-- A character that a path in quotes may have.
unfoldable pub IsUnquoted : ℕ → Type 0
IsUnquoted c = (c == quote) ≡ false

skip_blanks_again : (line : List ℕ) → skip_blanks (skip_blanks line) ≡ skip_blanks line
unfolding skip_blanks
skip_blanks_again [] = refl
skip_blanks_again (c ∷ cs) = elim (Bool-cases (is_blank c)) [
  | inl b ↦ rw b (skip_blanks_again cs)
  | inr b ↦ rw (b, skip_blanks, b) refl
]

pub skip_blanks-skip_program_name :
    (line : List ℕ) → skip_blanks (skip_program_name line) ≡ skip_program_name line
unfolding skip_program_name
skip_blanks-skip_program_name [] = skip_blanks_again (skip_word [])
skip_blanks-skip_program_name (c ∷ cs) =
    skip_blanks_again (if c == quote then skip_quote (skip_to_quote cs) else skip_word (c ∷ cs))

-- A character of a file's name.
unfoldable pub IsPlain : ℕ → Type 0
IsPlain c = is_separator c ≡ false

get_or-append : (xs ys : List ℕ) (i : ℕ) → get_or (xs ++ ys) (length xs + i) 0 ≡ get_or ys i 0
get_or-append [] ys i = let e : zero + i ≡ i = omega arith in rw e
get_or-append (x ∷ xs) ys i =
    let e : suc (length xs) + i ≡ suc (length xs + i) = omega arith in rw e (get_or-append xs ys i)

get_or-IsPlain : (file : List ℕ) (i : ℕ) → All IsPlain file → IsPlain (get_or file i 0)
unfolding IsPlain is_separator
get_or-IsPlain [] i h = refl
get_or-IsPlain (c ∷ cs) zero h = h.0
get_or-IsPlain (c ∷ cs) (suc i) h = get_or-IsPlain cs i h.1

file_start-append :
    (directory file : List ℕ) (separator k : ℕ)
    → is_separator separator ≡ true
    → All IsPlain file
    → file_start (directory ++ (separator ∷ file)) (suc (length directory + k))
      ≡ suc (length directory)
unfolding file_start IsPlain
file_start-append directory file separator zero s h =
    rw (get_or-append directory (separator ∷ file) zero, s) (omega arith)
file_start-append directory file separator (suc k) s h =
    rw (get_or-append directory (separator ∷ file) (suc k), get_or-IsPlain file k h)
      (let e : length directory + suc k ≡ suc (length directory + k) = omega arith in
        rw e (file_start-append directory file separator k s h))

-- Replacing the name of a file keeps the directory it is in, separator included, where the new
-- path and its terminator fit into the buffer.
pub replace_filename-append :
    (directory file name : List ℕ) (separator capacity : ℕ)
    → is_separator separator ≡ true
    → All IsPlain file
    → length directory + length name + 2 ≤ capacity
    → capacity < 2 ^ 32
    → replace_filename (directory ++ (separator ∷ file)) capacity name
      ≡ some (directory ++ (separator ∷ name))
unfolding replace_filename
replace_filename-append directory file name separator capacity s h fits small =
    rw (long, file_start-append directory file separator (length file) s h, no_overflow, kept)
      (ap some (append_assoc directory (separator ∷ []) name))
  where
    long : length (directory ++ (separator ∷ file)) ≡ suc (length directory + length file)
    long = omega (arith, length-append directory (separator ∷ file))

    no_overflow : ltb capacity ((suc (length directory) + length name + 1) % 2 ^ 32) ≡ false
    no_overflow = ground arith

    one_more : suc (length directory) ≡ length (directory ++ (separator ∷ []))
    one_more = omega (arith, length-append directory (separator ∷ []))

    kept :
        take (suc (length directory)) (directory ++ (separator ∷ file))
        ≡ directory ++ (separator ∷ [])
    kept =
        rw (one_more, sym (append_assoc directory (separator ∷ []) file))
          (take-append (directory ++ (separator ∷ [])) file)

file_start-le : (path : List ℕ) (n : ℕ) → file_start path n ≤ n
unfolding file_start
file_start-le path zero = omega arith
file_start-le path (suc n) = ground (arith, file_start-le path n)

-- A replaced path and its terminator fit into the buffer, if the lengths of path and name do not
-- wrap.
pub replace_filename-fits :
    (path name replaced : List ℕ) (capacity : ℕ)
    → length path + length name + 1 < 2 ^ 32
    → replace_filename path capacity name ≡ some replaced
    → length replaced + 1 ≤ capacity
unfolding replace_filename
replace_filename-fits path name replaced capacity small e =
    elim (Bool-cases (ltb capacity ((start + length name + 1) % 2 ^ 32))) [
      | inl full ↦ absurd (some-ne (rw full at e))
      | inr fits ↦ rw (← some-same (rw fits at e)) (within fits)
    ]
  where
    start : ℕ
    start = file_start path (length path)

    some-ne : none ≢ some replaced
    some-ne p = cc

    some-same : some (take start path ++ name) ≡ some replaced → take start path ++ name ≡ replaced
    some-same h = cc

    within :
        ltb capacity ((start + length name + 1) % 2 ^ 32) ≡ false
        → length (take start path ++ name) + 1 ≤ capacity
    within h = ground (
      arith,
      file_start-le path (length path),
      length-append (take start path) name,
      length-take start path,
    )
