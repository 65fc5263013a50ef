-- ===== src/Capture/Helper/Uinput.antt =====
-- Input through the kernel's uinput devices: `emit_event`, `wheel_value`, `send_mouse_uinput` and
-- `send_keyboard_uinput` of src/wayland_capture_helper.cpp.
-- What the kernel answers to the writes is a list, and what it has taken another.
pub mod Laws
pub mod Total
use driver_uu_remote.Base.{
  ℕ, ◌+◌, ◌-◌, ◌*◌, ◌/◌, ◌%◌, ◌^◌, Bool, true, false, not, ◌&&◌, ◌||◌, List, [], ◌∷◌, ◌++◌, bit_and,
  ltb, leb, ◌==◌, if◌then◌else◌,
}
use driver_uu_remote.Base.Int.{ℤ, pos, negsuc}
use driver_uu_remote.Capture.Protocol.{CaptureInputEvent}
use driver_uu_remote.Capture.Helper.Keys.{Key, extended_scan_code, virtual_key_code}

-- The axes and buttons of <linux/input.h> that the file names.
pub data Axis : Type 0 where
  abs_x abs_y rel_x rel_y rel_wheel rel_hwheel : Axis

pub data Button : Type 0 where
  btn_left btn_right btn_middle btn_side btn_extra : Button

-- `struct input_event` for one of the two devices: EV_ABS or EV_REL, EV_KEY of a button, EV_KEY of a
-- key's number, and the SYN_REPORT of either device.
pub data InputEvent : Type 0 where
  axis : Axis → ℤ → InputEvent
  button : Button → Bool → InputEvent
  key : ℕ → Bool → InputEvent
  mouse_report keyboard_report : InputEvent

pub record Uinput : Type 0 where
  pub answers : List Bool
  pub taken : List InputEvent

-- A write whose answer is missing fails.
unfoldable pub emit_answered : List Bool → InputEvent → List InputEvent → Bool × Uinput
emit_answered [] event taken = (false, record { answers = []; taken = taken })
emit_answered (true ∷ answers) event taken =
    (true, record { answers = answers; taken = taken ++ (event ∷ []) })
emit_answered (false ∷ answers) event taken = (false, record { answers = answers; taken = taken })

unfoldable pub emit_event : InputEvent → Uinput → Bool × Uinput
unfolding emit_answered
emit_event event device = emit_answered device.answers event device.taken

-- Writes joined by `&&`.
unfoldable pub emit_all : List InputEvent → Uinput → Bool × Uinput
unfolding emit_event
emit_all [] device = (true, device)
emit_all (event ∷ events) device =
    let (done, written) = emit_event event device in
    let rest = emit_all events written in if done then rest else (false, written)

-- The bit pattern as an `int32_t`.
unfoldable pub signed32 : ℕ → ℤ
signed32 data_ = if ltb data_ (2 ^ 31) then pos data_ else negsuc (2 ^ 32 - 1 - data_)

-- C's division rounds towards 0; a number that is not 0 keeps its sign.
unfoldable pub wheel_value : ℕ → ℤ
unfolding signed32
wheel_value data_ = elim (signed32 data_) [
  | pos n ↦ let result = n / 120 in if result == 0 && not (n == 0) then pos 1 else pos result
  | negsuc n ↦ let result = (n + 1) / 120 in if result == 0 then negsuc 0 else negsuc (result - 1)
]

unfoldable pub has : ℕ → ℕ → Bool
has flags flag = not (bit_and flags flag == 0)

-- A statement `if (flags & flag) ok = ... && ok;`
pub record Turn : Type 0 where
  pub flag : ℕ
  pub events : List InputEvent

unfoldable pub also : Bool → List InputEvent → Bool × Uinput → Bool × Uinput
unfolding emit_all
also false events state = state
also true events (ok, device) =
    let (done, written) = emit_all events device in (done && ok, written)

unfoldable pub run_turns : ℕ → List Turn → Bool × Uinput → Bool × Uinput
unfolding also has
run_turns flags [] state = state
run_turns flags (turn ∷ turns) state =
    run_turns flags turns (also (has flags turn.flag) turn.events state)

unfoldable pub x_button : CaptureInputEvent → Button
x_button event = if event.mouse_data / 2 ^ 16 == 1 then btn_side else btn_extra

unfoldable pub move_events : CaptureInputEvent → List InputEvent
unfolding has signed32
move_events event =
    if has event.flags 0x8000
    then axis abs_x (signed32 event.dx) ∷ axis abs_y (signed32 event.dy) ∷ []
    else axis rel_x (signed32 event.dx) ∷ axis rel_y (signed32 event.dy) ∷ []

abbrev turn : ℕ → List InputEvent → Turn
turn flag events = record { flag = flag; events = events }

-- The flags in the order in which they are tested.
unfoldable pub mouse_turns : CaptureInputEvent → List Turn
unfolding move_events x_button wheel_value
mouse_turns event =
    turn 0x0001 (move_events event)
    ∷ turn 0x0002 (button btn_left true ∷ [])
    ∷ turn 0x0004 (button btn_left false ∷ [])
    ∷ turn 0x0008 (button btn_right true ∷ [])
    ∷ turn 0x0010 (button btn_right false ∷ [])
    ∷ turn 0x0020 (button btn_middle true ∷ [])
    ∷ turn 0x0040 (button btn_middle false ∷ [])
    ∷ turn 0x0080 (button (x_button event) true ∷ [])
    ∷ turn 0x0100 (button (x_button event) false ∷ [])
    ∷ turn 0x0800 (axis rel_wheel (wheel_value event.mouse_data) ∷ [])
    ∷ turn 0x1000 (axis rel_hwheel (wheel_value event.mouse_data) ∷ [])
    ∷ []

unfoldable pub send_mouse_uinput : CaptureInputEvent → Uinput → Bool × Uinput
unfolding emit_event run_turns mouse_turns
send_mouse_uinput event device =
    let (ok, parts) = run_turns event.flags (mouse_turns event) (true, device) in
    let (reported, written) = emit_event mouse_report parts in (reported && ok, written)

-- `code` is the number of a key.
module _ (code : Key → ℕ) where
  unfoldable pub keyboard_code : CaptureInputEvent → ℕ
  unfolding has
  keyboard_code event =
      if has event.flags 0x0008
      then (if has event.flags 0x0001
          then extended_scan_code code event.scan_code
          else bit_and event.scan_code 0xff)
      else virtual_key_code code event.virtual_key

-- `btn_misc` is the number of the first button.
module _ (code : Key → ℕ) (btn_misc : ℕ) where
  -- `code <= 0 || code >= BTN_MISC`
  unfoldable pub out_of_range : ℕ → Bool
  out_of_range number = (number == 0) || leb btn_misc number

  unfoldable pub send_keyboard_uinput : CaptureInputEvent → Uinput → Bool × Uinput
  unfolding emit_all keyboard_code out_of_range has
  send_keyboard_uinput event device =
      let number = keyboard_code code event in
      let sent =
        emit_all (key (number % 2 ^ 16) (not (has event.flags 0x0002)) ∷ keyboard_report ∷ [])
          device in
      if has event.flags 0x0004
      then (false, device)
      else if out_of_range number
      then (false, device)
      else sent
