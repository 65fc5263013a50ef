-- ===== src/Capture/Helper/Bridge.antt =====
-- `InputBridge::send` and `ensure_uinput` of src/wayland_capture_helper.cpp.
pub mod Laws
use driver_uu_remote.Base.{ℕ, suc, Bool, true, false, not, ◌&&◌, List, [], ◌∷◌, ◌==◌, if◌then◌else◌}
use driver_uu_remote.Capture.Protocol.{
  capture_input_mouse, capture_input_keyboard, CaptureInputEvent,
}
use driver_uu_remote.Capture.Helper.Keys.{Key}
use driver_uu_remote.Capture.Helper.Uinput.{Uinput, send_mouse_uinput, send_keyboard_uinput}
use driver_uu_remote.Capture.Helper.Eis.{Capability, Eis, Setup, ensure_eis}
use driver_uu_remote.Capture.Helper.Eis.Send.{send_mouse_eis, send_keyboard_eis}

-- `keyboard_open` and `mouse_open` tell that the two file descriptors are not negative.
pub record Bridge : Type 0 where
  pub eis : Eis
  pub uinput : Uinput
  pub keyboard_open : Bool
  pub mouse_open : Bool

-- The clock, KWin's answer, and whether `create_keyboard` and `create_mouse` get their devices.
pub record BridgeWorld : Type 0 where
  pub now : ℕ
  pub later : ℕ
  pub setup : Setup
  pub keyboard_created : Bool
  pub mouse_created : Bool

unfoldable pub ensure_uinput : BridgeWorld → Bridge → Bool × Bridge
ensure_uinput world bridge =
    if bridge.keyboard_open && bridge.mouse_open
    then (true, bridge)
    else if world.keyboard_created && world.mouse_created
    then (true, record bridge { keyboard_open = true; mouse_open = true })
    else (false, record bridge { keyboard_open = false; mouse_open = false })

unfoldable pub with_uinput : Bridge → Bool × Uinput → Bool × Bridge
with_uinput bridge (ok, uinput) = (ok, record bridge { uinput = uinput })

unfoldable pub with_eis : Bridge → Bool × Eis → Bool × Bridge
with_eis bridge (ok, eis) = (ok, record bridge { eis = eis })

module _ (has_capability : ℕ → Capability → Bool) (has_region : ℕ → Bool) (code : Key → ℕ)
    (btn_misc : ℕ) where
  -- An event of the loop.
  unfoldable pub send_event : Bool → CaptureInputEvent → Bridge → Bool × Bridge
  unfolding with_uinput with_eis
  send_event use_eis event bridge =
      let mouse =
        if use_eis
        then with_eis bridge (send_mouse_eis has_capability has_region event bridge.eis)
        else with_uinput bridge (send_mouse_uinput event bridge.uinput) in
      let keyboard =
        if use_eis
        then with_eis bridge
            (send_keyboard_eis has_capability has_region code btn_misc event bridge.eis)
        else with_uinput bridge (send_keyboard_uinput code btn_misc event bridge.uinput) in
      if event.type == capture_input_mouse
      then mouse
      else if event.type == capture_input_keyboard
      then keyboard
      else (false, bridge)

  -- The number accepted.
  unfoldable pub send_events : Bool → List CaptureInputEvent → Bridge → ℕ × Bridge
  unfolding send_event
  send_events use_eis [] bridge = (0, bridge)
  send_events use_eis (event ∷ events) bridge =
      let (ok, sent) = send_event use_eis event bridge in
      let (accepted, rest) = send_events use_eis events sent in
      if ok then (suc accepted, rest) else (0, sent)

  -- `send` of all of the events.
  unfoldable pub send : BridgeWorld → List CaptureInputEvent → Bridge → ℕ × Bridge
  unfolding ensure_uinput send_events
  send world events bridge =
      let (use_eis, eis) = ensure_eis has_capability world.now world.later world.setup bridge.eis in
      let ready = record bridge { eis = eis } in
      let (use_uinput, opened) = ensure_uinput world ready in
      if use_eis
      then send_events true events ready
      else if use_uinput
      then send_events false events opened
      else (0, opened)
