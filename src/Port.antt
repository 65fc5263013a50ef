-- ===== src/Port.antt =====
-- The three readers of a port number: `parse_port` of src/amfrt_bridge.c, `helper_port` of
-- src/dxva_bridge.c and `configured_capture_port` of src/wayland_capture_hook.c.
-- A text is the list of its bytes without the final zero; `none` is a variable that is not set.
pub mod Laws
use driver_uu_remote.Base.{
  ℕ, ◌+◌, ◌-◌, ◌*◌, Bool, List, [], ◌∷◌, Option, none, some, length, ltb, leb, ◌==◌, ◌&&◌, ◌||◌,
  if◌then◌else◌, not,
}
use driver_uu_remote.Wire.{helper_default_port}

abbrev pub is_digit : ℕ → Bool
is_digit c = leb b'0' c && leb c b'9'

unfoldable pub parse_loop : ℕ → ℕ → List ℕ → ℕ
parse_loop fallback value [] = if not (value == 0) then value else fallback
parse_loop fallback value (c ∷ text) =
    let next = value * 10 + (c - b'0') in
    let rest = parse_loop fallback next text in
    if is_digit c then (if ltb 65535 next then fallback else rest) else fallback

unfoldable pub parse_port : Option (List ℕ) → ℕ → ℕ
unfolding parse_loop
parse_port none fallback = fallback
parse_port (some []) fallback = fallback
parse_port (some (c ∷ text)) fallback = parse_loop fallback 0 (c ∷ text)

-- The loop of `helper_port`: the number read, and what `cursor` points at.
unfoldable pub port_loop : ℕ → List ℕ → ℕ × List ℕ
port_loop parsed [] = (parsed, [])
port_loop parsed (c ∷ cursor) =
    let next = parsed * 10 + (c - b'0') in
    let rest = port_loop next cursor in
    if is_digit c
    then (if ltb 65535 next then (next, c ∷ cursor) else rest)
    else (parsed, c ∷ cursor)

abbrev pub at_end : List ℕ → Bool
at_end [] = Bool.true
at_end (c ∷ cursor) = Bool.false

unfoldable pub helper_port : Option (List ℕ) → ℕ
unfolding port_loop
helper_port none = helper_default_port
helper_port (some []) = helper_default_port
helper_port (some (c ∷ text)) =
    let (parsed, cursor) = port_loop 0 (c ∷ text) in
    if at_end cursor && (not (parsed == 0) && leb parsed 65535) then parsed else helper_default_port

abbrev pub capture_default_port : ℕ
capture_default_port = 47892

unfoldable pub capture_loop : ℕ → List ℕ → ℕ
capture_loop value [] = if not (value == 0) then value else capture_default_port
capture_loop value (c ∷ text) =
    let next = value * 10 + (c - b'0') in
    let rest = capture_loop next text in
    if ltb c b'0' || ltb b'9' c
    then capture_default_port
    else (if ltb 65535 next then capture_default_port else rest)

-- `GetEnvironmentVariableA` with room for 16 bytes answers 0 for a variable that is not set, the
-- text's length if it fits with its final zero, and else the room needed, which is more than 15.
abbrev pub variable_length : Option (List ℕ) → ℕ
variable_length none = 0
variable_length (some text) = if ltb (length text) 16 then length text else length text + 1

unfoldable pub configured_capture_port : Option (List ℕ) → ℕ
unfolding capture_loop
configured_capture_port none = capture_default_port
configured_capture_port (some text) =
    let size = variable_length (some text) in
    if (size == 0) || leb 16 size then capture_default_port else capture_loop 0 text
