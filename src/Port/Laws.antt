-- ===== src/Port/Laws.antt =====
-- All three readers take a decimal number from 1 to 65535, and the default for anything else.
use driver_uu_remote.Base.{
  ℕ, ◌+◌, ◌-◌, ◌*◌, ◌≤◌, ◌<◌, ◌≡◌, refl, List, [], ◌∷◌, Option, none, some, length, ltb, leb, ◌==◌,
  ◌&&◌, not, if◌then◌else◌, arith,
}
use driver_uu_remote.Wire.{helper_default_port}
use driver_uu_remote.Port.{
  is_digit, parse_loop, parse_port, port_loop, at_end, helper_port, capture_default_port,
  capture_loop, configured_capture_port,
}

-- The value of a text of digits, `acc` being that of the digits before.
unfoldable pub decimal : ℕ → List ℕ → Option ℕ
decimal acc [] = some acc
decimal acc (c ∷ text) =
    let rest = decimal (acc * 10 + (c - b'0')) text in if is_digit c then rest else none

abbrev pub accept : ℕ → Option ℕ → ℕ
accept fallback none = fallback
accept fallback (some value) = if ltb 0 value && leb value 65535 then value else fallback

-- The port that a text stands for.
unfoldable pub port_of : ℕ → Option (List ℕ) → ℕ
unfolding decimal
port_of fallback none = fallback
port_of fallback (some []) = fallback
port_of fallback (some (c ∷ text)) = accept fallback (decimal 0 (c ∷ text))

-- A number that has grown too large stays so.
too_large :
    (fallback acc : ℕ) (text : List ℕ) → 65535 < acc → accept fallback (decimal acc text) ≡ fallback
unfolding decimal
too_large fallback acc [] h = ground arith
too_large fallback acc (c ∷ text) h =
    ground (arith, too_large fallback (acc * 10 + (c - b'0')) text (omega arith))

parse_loop-decimal :
    (fallback acc : ℕ) (text : List ℕ)
    → acc ≤ 65535
    → parse_loop fallback acc text ≡ accept fallback (decimal acc text)
unfolding parse_loop decimal
parse_loop-decimal fallback acc [] h = ground arith
parse_loop-decimal fallback acc (c ∷ text) h = ground (
  arith,
  too_large fallback (acc * 10 + (c - b'0')) text,
  parse_loop-decimal fallback (acc * 10 + (c - b'0')) text,
)

-- `parse_port` reads the port that the text stands for.
pub parse_port-port_of :
    (text : Option (List ℕ)) (fallback : ℕ) → parse_port text fallback ≡ port_of fallback text
unfolding parse_port port_of
parse_port-port_of none fallback = refl
parse_port-port_of (some []) fallback = refl
parse_port-port_of (some (c ∷ text)) fallback =
    parse_loop-decimal fallback 0 (c ∷ text) (omega arith)

abbrev settle : ℕ × List ℕ → ℕ
settle (parsed, cursor) =
    if at_end cursor && (not (parsed == 0) && leb parsed 65535) then parsed else helper_default_port

port_loop-decimal :
    (acc : ℕ) (text : List ℕ)
    → acc ≤ 65535
    → settle (port_loop acc text) ≡ accept helper_default_port (decimal acc text)
unfolding port_loop decimal
port_loop-decimal acc [] h = ground arith
port_loop-decimal acc (c ∷ text) h = ground (
  arith,
  too_large helper_default_port (acc * 10 + (c - b'0')) text,
  port_loop-decimal (acc * 10 + (c - b'0')) text,
)

-- `helper_port` reads the port that the text stands for, with the helper's default.
pub helper_port-port_of :
    (text : Option (List ℕ)) → helper_port text ≡ port_of helper_default_port text
unfolding helper_port port_of
helper_port-port_of none = refl
helper_port-port_of (some []) = refl
helper_port-port_of (some (c ∷ text)) = port_loop-decimal 0 (c ∷ text) (omega arith)

capture_loop-decimal :
    (acc : ℕ) (text : List ℕ)
    → acc ≤ 65535
    → capture_loop acc text ≡ accept capture_default_port (decimal acc text)
unfolding capture_loop decimal
capture_loop-decimal acc [] h = ground arith
capture_loop-decimal acc (c ∷ text) h = ground (
  arith,
  too_large capture_default_port (acc * 10 + (c - b'0')) text,
  capture_loop-decimal (acc * 10 + (c - b'0')) text,
)

-- `configured_capture_port` reads the port that a text of up to 15 bytes stands for, and takes
-- its default for a longer text, also where leading zeros make it long.
pub configured_capture_port-port_of :
    (text : List ℕ)
    → configured_capture_port (some text) ≡ (
        if ltb (length text) 16
        then port_of capture_default_port (some text)
        else capture_default_port)
unfolding configured_capture_port port_of
configured_capture_port-port_of [] = refl
configured_capture_port-port_of (c ∷ text) =
    ground (arith, capture_loop-decimal 0 (c ∷ text) (omega arith))

port_of-range :
    (fallback : ℕ) (text : Option (List ℕ))
    → 0 < fallback
    → fallback ≤ 65535
    → (0 < port_of fallback text) × (port_of fallback text ≤ 65535)
unfolding port_of
port_of-range fallback none h k = (h, k)
port_of-range fallback (some []) h k = (h, k)
port_of-range fallback (some (c ∷ text)) h k = in_range (decimal 0 (c ∷ text))
  where
    in_range : (o : Option ℕ) → (0 < accept fallback o) × (accept fallback o ≤ 65535)
    in_range none = (h, k)
    in_range (some value) = ground arith
