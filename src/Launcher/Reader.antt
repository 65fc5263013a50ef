-- ===== src/Launcher/Reader.antt =====
-- How a started program finds its arguments: the rule of the Microsoft C runtime for the first word of a
-- command line. A quotation mark opens or closes a quoted part and is dropped; the word ends at the
-- first blank outside of one, and the blanks that follow belong to nothing.
use driver_uu_remote.Base.{ℕ, Bool, not, ◌&&◌, ◌||◌, List, [], ◌∷◌, ◌==◌, if◌then◌else◌}

unfoldable pub past_blanks : List ℕ → List ℕ
past_blanks [] = []
past_blanks (c ∷ cs) = let rest = past_blanks cs in if (c == 32) || (c == 9) then rest else c ∷ cs

-- The program's name and its arguments, from within a quoted part or outside.
unfoldable pub read_program : Bool → List ℕ → List ℕ × List ℕ
unfolding past_blanks
read_program quoted [] = ([], [])
read_program quoted (c ∷ cs) =
    let turned = read_program (not quoted) cs in
    let (name, arguments) = read_program quoted cs in
    if c == 34
    then turned
    else if not quoted && ((c == 32) || (c == 9))
    then ([], past_blanks cs)
    else (c ∷ name, arguments)
