-- ===== src/Capture/Helper/Eis/Send.antt =====
-- `send_mouse_eis` and `send_keyboard_eis` of src/wayland_capture_helper.cpp.
use driver_uu_remote.Base.{
  ℕ, zero, suc, ◌+◌, ◌-◌, ◌*◌, Bool, true, false, not, ◌||◌, List, [], ◌∷◌, ◌++◌, Option, none,
  some, ltb, if◌then◌else◌,
}
use driver_uu_remote.Base.Int.{ℤ, pos, negsuc}
use driver_uu_remote.Capture.Protocol.{CaptureInputEvent}
use driver_uu_remote.Capture.Helper.Keys.{Key}
use driver_uu_remote.Capture.Helper.Uinput.{
  Button, btn_left, btn_right, btn_middle, has, x_button, signed32, wheel_value, keyboard_code,
  out_of_range,
}
use driver_uu_remote.Capture.Helper.Eis.{
  Capability, EisCall, motion_absolute, motion, button_button, scroll_discrete, keyboard_key, frame,
  Eis, dispatch_eis,
}

-- The coordinate within 0 and 65535.
unfoldable pub normalized : ℤ → ℕ
normalized (negsuc n) = 0
normalized (pos n) = if ltb 65535 n then 65535 else n

unfoldable pub times_120 : ℤ → ℤ
times_120 (pos n) = pos (n * 120)
times_120 (negsuc n) = negsuc ((n + 1) * 120 - 1)

unfoldable pub negated : ℤ → ℤ
negated (pos zero) = pos zero
negated (pos (suc n)) = negsuc n
negated (negsuc n) = pos (n + 1)

-- A call on a device, and `frame_eis` of it.
unfoldable pub call_on : Option ℕ → (ℕ → EisCall) → Eis → Bool × Eis
call_on none call eis = (false, eis)
call_on (some device) call eis =
    (true, record eis { calls = eis.calls ++ (call device ∷ frame device ∷ []) })

-- The steps go on where the one before answers true.
unfoldable pub then_eis : (Eis → Bool × Eis) → (Eis → Bool × Eis) → Eis → Bool × Eis
then_eis first second eis =
    let (done, after) = first eis in
    let rest = second after in if done then rest else (false, after)

-- The lambda `button`.
unfoldable pub press : Bool → Button → Bool → Eis → Bool × Eis
unfolding call_on
press false code pressed eis = (true, eis)
press true code pressed eis =
    call_on eis.button_device (λ device. button_button device code pressed) eis

-- A call of `button` with one of the flags.
pub record Press : Type 0 where
  pub flag : ℕ
  pub code : Button
  pub pressed : Bool

abbrev pressing : ℕ → Button → Bool → Press
pressing flag code pressed = record { flag = flag; code = code; pressed = pressed }

unfoldable pub presses : CaptureInputEvent → List Press
unfolding x_button
presses event =
    pressing 0x0002 btn_left true
    ∷ pressing 0x0004 btn_left false
    ∷ pressing 0x0008 btn_right true
    ∷ pressing 0x0010 btn_right false
    ∷ pressing 0x0020 btn_middle true
    ∷ pressing 0x0040 btn_middle false
    ∷ pressing 0x0080 (x_button event) true
    ∷ pressing 0x0100 (x_button event) false
    ∷ []

unfoldable pub press_all : ℕ → List Press → Eis → Bool × Eis
unfolding then_eis press has
press_all flags [] eis = (true, eis)
press_all flags (one ∷ more) eis =
    then_eis (press (has flags one.flag) one.code one.pressed) (press_all flags more) eis

module _ (has_capability : ℕ → Capability → Bool) (has_region : ℕ → Bool) where
  unfoldable pub region_of : Option ℕ → Option ℕ
  region_of none = none
  region_of (some device) = if has_region device then some device else none

  unfoldable pub move_eis : CaptureInputEvent → Eis → Bool × Eis
  unfolding call_on region_of has signed32 normalized
  move_eis event eis =
      let x = signed32 event.dx in
      let y = signed32 event.dy in
      if has event.flags 0x0001
      then (if has event.flags 0x8000
          then call_on (region_of eis.absolute_device)
              (λ device. motion_absolute device (normalized x) (normalized y)) eis
          else call_on eis.pointer_device (λ device. motion device x y) eis)
      else (true, eis)

  unfoldable pub scroll_eis : CaptureInputEvent → Eis → Bool × Eis
  unfolding call_on has wheel_value times_120 negated
  scroll_eis event eis =
      let amount = times_120 (wheel_value event.mouse_data) in
      let across = if has event.flags 0x1000 then amount else pos 0 in
      let down = if has event.flags 0x0800 then negated amount else pos 0 in
      if has event.flags 0x0800 || has event.flags 0x1000
      then call_on eis.scroll_device (λ device. scroll_discrete device across down) eis
      else (true, eis)

  -- After the dispatch.
  unfoldable pub mouse_steps : CaptureInputEvent → Eis → Bool × Eis
  unfolding then_eis move_eis press_all presses scroll_eis
  mouse_steps event =
      then_eis (move_eis event)
        (then_eis (press_all event.flags (presses event)) (scroll_eis event))

  unfoldable pub send_mouse_eis : CaptureInputEvent → Eis → Bool × Eis
  unfolding mouse_steps
  send_mouse_eis event eis =
      let dispatched = (dispatch_eis has_capability eis).1 in
      let sent = mouse_steps event dispatched in
      if dispatched.context then sent else (false, dispatched)

  module _ (code : Key → ℕ) (btn_misc : ℕ) where
    unfoldable pub send_keyboard_eis : CaptureInputEvent → Eis → Bool × Eis
    unfolding call_on
    send_keyboard_eis event eis =
        let dispatched = (dispatch_eis has_capability eis).1 in
        let number = keyboard_code code event in
        let sent =
          call_on dispatched.keyboard_device
            (λ device. keyboard_key device number (not (has event.flags 0x0002))) dispatched in
        if not dispatched.context
        then (false, dispatched)
        else if has event.flags 0x0004
        then (false, dispatched)
        else if out_of_range code btn_misc number
        then (false, dispatched)
        else sent
