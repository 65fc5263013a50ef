-- ===== src/Capture/Helper/Eis.antt =====
-- Input through KWin's EIS server: the slots of `InputBridge` in src/wayland_capture_helper.cpp, and
-- `clear_eis_device`, `reset_eis`, `set_eis_device`, `dispatch_eis` and `ensure_eis`.
-- libei is what it delivers, and the list of the calls made on its devices.
pub mod Send
pub mod Laws
pub mod Sound
use driver_uu_remote.Base.{
  ℕ, zero, suc, ◌+◌, ◌-◌, ◌*◌, ◌/◌, ◌^◌, Bool, true, false, not, ◌&&◌, ◌||◌, List, [], ◌∷◌, ◌++◌,
  Option, none, some, ltb, ◌==◌, if◌then◌else◌,
}
use driver_uu_remote.Base.Int.{ℤ}
use driver_uu_remote.Capture.Helper.Uinput.{Button}

pub data Capability : Type 0 where
  pointer pointer_absolute buttons scroll keyboard : Capability

-- The events that change a member, with the device's number if the event has one.
pub data EisEvent : Type 0 where
  device_resumed device_paused device_removed : Option ℕ → EisEvent
  disconnect other : EisEvent

-- The calls made on a device; the scaling to its region is left out of an absolute motion.
pub data EisCall : Type 0 where
  motion_absolute : ℕ → ℕ → ℕ → EisCall
  motion : ℕ → ℤ → ℤ → EisCall
  button_button : ℕ → Button → Bool → EisCall
  scroll_discrete : ℕ → ℤ → ℤ → EisCall
  keyboard_key : ℕ → ℕ → Bool → EisCall
  frame : ℕ → EisCall

-- What a dispatch finds: whether `poll` fails with an error but EINTR, and the events.
pub record Round : Type 0 where
  pub poll_failed : Bool
  pub events : List EisEvent

-- The members of `InputBridge`; `context` tells that `eis_` is set, and `rounds` is what the next
-- dispatches find.
pub record Eis : Type 0 where
  pub context : Bool
  pub pointer_device : Option ℕ
  pub absolute_device : Option ℕ
  pub button_device : Option ℕ
  pub scroll_device : Option ℕ
  pub keyboard_device : Option ℕ
  pub retry_after : ℕ
  pub rounds : List Round
  pub calls : List EisCall

unfoldable pub clear_slot : ℕ → Option ℕ → Option ℕ
clear_slot device none = none
clear_slot device (some held) = if held == device then none else some held

unfoldable pub clear_eis_device : ℕ → Eis → Eis
unfolding clear_slot
clear_eis_device device eis = record eis {
  pointer_device = clear_slot device eis.pointer_device;
  absolute_device = clear_slot device eis.absolute_device;
  button_device = clear_slot device eis.button_device;
  scroll_device = clear_slot device eis.scroll_device;
  keyboard_device = clear_slot device eis.keyboard_device;
}

unfoldable pub reset_eis : Eis → Eis
reset_eis eis = record eis {
  context = false;
  pointer_device = none;
  absolute_device = none;
  button_device = none;
  scroll_device = none;
  keyboard_device = none;
}

unfoldable pub next_round : List Round → Round
next_round [] = record { poll_failed = false; events = [] }
next_round (round ∷ rounds) = round

abbrev pub later_rounds : List Round → List Round
later_rounds [] = []
later_rounds (round ∷ rounds) = rounds

abbrev pub is_set : Option ℕ → Bool
is_set none = false
is_set (some device) = true

-- `pointer_device_ && button_device_ && keyboard_device_`
unfoldable pub complete : Eis → Bool
complete eis = is_set eis.pointer_device && (is_set eis.button_device && is_set eis.keyboard_device)

-- What comes of the call of KWin and of libei's setup.
pub data Setup : Type 0 where
  refused no_backend connected : Setup

module _ (has_capability : ℕ → Capability → Bool) where
  unfoldable pub set_eis_device : Capability → ℕ → Option ℕ → Option ℕ
  set_eis_device capability device none =
      if has_capability device capability then some device else none
  set_eis_device capability device (some held) = some held

  -- One event of the loop; the first component is `disconnected`.
  unfoldable pub handle_event : EisEvent → Bool × Eis → Bool × Eis
  unfolding set_eis_device clear_eis_device
  handle_event (device_resumed (some device)) (disconnected, eis) = (
    disconnected,
    record eis {
      pointer_device = set_eis_device pointer device eis.pointer_device;
      absolute_device = set_eis_device pointer_absolute device eis.absolute_device;
      button_device = set_eis_device buttons device eis.button_device;
      scroll_device = set_eis_device scroll device eis.scroll_device;
      keyboard_device = set_eis_device keyboard device eis.keyboard_device;
    },
  )
  handle_event (device_resumed none) state = state
  handle_event (device_paused (some device)) (disconnected, eis) =
      (disconnected, clear_eis_device device eis)
  handle_event (device_paused none) state = state
  handle_event (device_removed (some device)) (disconnected, eis) =
      (disconnected, clear_eis_device device eis)
  handle_event (device_removed none) state = state
  handle_event disconnect (disconnected, eis) = (true, eis)
  handle_event other state = state

  unfoldable pub handle_events : List EisEvent → Bool × Eis → Bool × Eis
  unfolding handle_event
  handle_events [] state = state
  handle_events (event ∷ events) state = handle_events events (handle_event event state)

  unfoldable pub dispatch_eis : Eis → Bool × Eis
  unfolding next_round handle_events reset_eis
  dispatch_eis eis =
      let round = next_round eis.rounds in
      let waiting = record eis { rounds = later_rounds eis.rounds } in
      let (disconnected, handled) = handle_events round.events (false, waiting) in
      if not eis.context
      then (false, eis)
      else if round.poll_failed
      then (false, waiting)
      else if disconnected
      then (false, record (reset_eis handled) { retry_after = 0 })
      else (true, handled)

  -- The attempts of a new connection; `attempts` is 40.
  unfoldable pub await_devices : ℕ → Eis → Eis
  unfolding dispatch_eis complete
  await_devices zero eis = eis
  await_devices (suc attempts) eis =
      let (going, dispatched) = dispatch_eis eis in
      let rest = await_devices attempts dispatched in
      if complete eis then eis else if going then rest else dispatched

  unfoldable pub finish_setup : Setup → Eis → Bool × Eis
  unfolding reset_eis await_devices complete
  finish_setup refused eis = (false, eis)
  finish_setup no_backend eis = (false, reset_eis eis)
  finish_setup connected eis =
      let ready = await_devices 40 (record eis { context = true }) in
      if complete ready then (true, record ready { retry_after = 0 }) else (false, reset_eis ready)

  -- `now` and `later` are the two readings of the clock, in seconds.
  unfoldable pub ensure_eis : ℕ → ℕ → Setup → Eis → Bool × Eis
  unfolding dispatch_eis finish_setup complete
  ensure_eis now later setup eis =
      let dispatched = (dispatch_eis eis).1 in
      if eis.context
      then (complete dispatched, dispatched)
      else if ltb now eis.retry_after
      then (false, eis)
      else finish_setup setup (record eis { retry_after = later + 5 })
