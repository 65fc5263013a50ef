-- ===== src/Capture/Helper/Bridge/Laws.antt =====
-- What `InputBridge::send` has done where it accepts events.
use driver_uu_remote.Base.{
  ℕ, suc, ◌≤◌, ◌^◌, ◌≡◌, sym, ap, ◌∙◌, inl, inr, Bool, true, false, ◌&&◌, Bool-cases, List, [], ◌∷◌,
  ◌++◌, length, append_assoc, append-nil, ◌==◌, if◌then◌else◌, if-cases, false-ne-true, arith,
}
use driver_uu_remote.Capture.Protocol.{
  capture_input_mouse, capture_input_keyboard, CaptureInputEvent,
}
use driver_uu_remote.Capture.Helper.Keys.{Key}
use driver_uu_remote.Capture.Helper.Uinput.{InputEvent}
use driver_uu_remote.Capture.Helper.Uinput.Laws.{
  mouse_events, key_events, send_mouse_uinput-Appends, send_keyboard_uinput-Appends,
}
use driver_uu_remote.Capture.Helper.Eis.{Capability, ensure_eis}
use driver_uu_remote.Capture.Helper.Eis.Laws.{IsSound}
use driver_uu_remote.Capture.Helper.Eis.Sound.{
  ensure_eis-IsSound, send_mouse_eis-Keeps, send_keyboard_eis-Keeps,
}
use driver_uu_remote.Capture.Helper.Bridge.{
  Bridge, BridgeWorld, ensure_uinput, with_uinput, with_eis, send_event, send_events, send,
}

module _ (has_capability : ℕ → Capability → Bool) (has_region : ℕ → Bool) (code : Key → ℕ)
    (btn_misc : ℕ) where
  abbrev one : Bool → CaptureInputEvent → Bridge → Bool × Bridge
  one = send_event has_capability has_region code btn_misc

  abbrev all : Bool → List CaptureInputEvent → Bridge → ℕ × Bridge
  all = send_events has_capability has_region code btn_misc

  -- No more events are accepted than there are.
  pub send_events_bounded :
      (use_eis : Bool) (events : List CaptureInputEvent) (bridge : Bridge)
      → (all use_eis events bridge).0 ≤ length events
  unfolding send_events
  send_events_bounded use_eis [] bridge = omega arith
  send_events_bounded use_eis (event ∷ events) bridge =
      let (ok, sent) = one use_eis event bridge in
      let (accepted, rest) = all use_eis events sent in
      let more = send_events_bounded use_eis events sent in
      if-cases (λ (r : ℕ × Bridge). r.0 ≤ suc (length events)) ok (suc accepted, rest) (0, sent)
        (λ e. omega (arith, more)) (λ e. omega arith)

  -- The events that the kernel gets for one of the client's.
  unfoldable pub device_events : CaptureInputEvent → List InputEvent
  unfolding mouse_events key_events
  device_events event =
      if event.type == capture_input_mouse
      then mouse_events event
      else if event.type == capture_input_keyboard
      then key_events code btn_misc event
      else []

  unfoldable pub all_device_events : List CaptureInputEvent → List InputEvent
  unfolding device_events
  all_device_events [] = []
  all_device_events (event ∷ events) = device_events event ++ all_device_events events

  send_event-uinput :
      btn_misc ≤ 2 ^ 16
      → (event : CaptureInputEvent) (bridge : Bridge) → (one false event bridge).0 ≡ true
      → (one false event bridge).1.uinput.taken ≡ bridge.uinput.taken ++ device_events event
  unfolding send_event device_events with_uinput
  send_event-uinput small event bridge h = elim (Bool-cases (event.type == capture_input_mouse)) [
    | inl m ↦ rw m (send_mouse_uinput-Appends event bridge.uinput (rw m at h))
    | inr m ↦ elim (Bool-cases (event.type == capture_input_keyboard)) [
      | inl k ↦
          rw (m, k)
            (send_keyboard_uinput-Appends code btn_misc small event bridge.uinput (rw (m, k) at h))
      | inr k ↦ false-ne-true (rw (m, k) at h)
    ]
  ]

  -- Where every event is accepted through uinput, the kernel has got the events of each of them,
  -- in their order and nothing else, if the numbers of keys fit 16 bits.
  pub send_events-all_device_events :
      btn_misc ≤ 2 ^ 16
      → (events : List CaptureInputEvent) (bridge : Bridge)
      → (all false events bridge).0 ≡ length events
      → (all false events bridge).1.uinput.taken ≡ bridge.uinput.taken ++ all_device_events events
  unfolding send_events all_device_events
  send_events-all_device_events small [] bridge h = sym (append-nil bridge.uinput.taken)
  send_events-all_device_events small (event ∷ events) bridge h =
      let (ok, sent) = one false event bridge in
      elim (Bool-cases ok) [
        | inl e ↦
            let rest = send_events-all_device_events small events sent in
            let more : (all false events sent).0 ≡ length events =
              let h = rw e at h in omega (arith, h) in
            rw e (
              rest more
              ∙ ap (λ es. es ++ all_device_events events) (send_event-uinput small event bridge e)
              ∙ append_assoc bridge.uinput.taken (device_events event) (all_device_events events))
        | inr e ↦ absurd (let h = rw e at h in omega (arith, h))
      ]

  abbrev Sound : Bridge → Type 0
  Sound bridge = IsSound has_capability bridge.eis

  send_event-Sound :
      (use_eis : Bool) (event : CaptureInputEvent) (bridge : Bridge)
      → Sound bridge
      → Sound (one use_eis event bridge).1
  unfolding send_event with_uinput with_eis
  send_event-Sound false event bridge s =
      let P : Bool × Bridge → Type 0 = λ r. Sound r.1 in
      if-cases P (event.type == capture_input_mouse) _ _ (λ m. s)
        (λ m. if-cases P (event.type == capture_input_keyboard) _ _ (λ k. s) (λ k. s))
  send_event-Sound true event bridge s =
      let P : Bool × Bridge → Type 0 = λ r. Sound r.1 in
      if-cases P (event.type == capture_input_mouse) _ _
        (λ m. send_mouse_eis-Keeps has_capability has_region event bridge.eis s)
        (λ m.
          if-cases P (event.type == capture_input_keyboard) _ _
            (λ k.
              send_keyboard_eis-Keeps has_capability has_region code btn_misc event bridge.eis s)
            (λ k. s))

  send_events-Sound :
      (use_eis : Bool) (events : List CaptureInputEvent) (bridge : Bridge)
      → Sound bridge
      → Sound (all use_eis events bridge).1
  unfolding send_events
  send_events-Sound use_eis [] bridge s = s
  send_events-Sound use_eis (event ∷ events) bridge s =
      let (ok, sent) = one use_eis event bridge in
      let now = send_event-Sound use_eis event bridge s in
      if-cases (λ (r : ℕ × Bridge). Sound r.1) ok _ _
        (λ e. send_events-Sound use_eis events sent now) (λ e. now)

  -- A call of `send` keeps the invariant of the EIS connection: its slots hold devices with the
  -- slot's capability, none without a connection, and every call made goes to a device with the
  -- capability for it.
  pub send-IsSound :
      (world : BridgeWorld) (events : List CaptureInputEvent) (bridge : Bridge)
      → IsSound has_capability bridge.eis
      → IsSound has_capability
          (send has_capability has_region code btn_misc world events bridge).1.eis
  unfolding send ensure_uinput
  send-IsSound world events bridge s =
      let (use_eis, eis) = ensure_eis has_capability world.now world.later world.setup bridge.eis in
      let ready = record bridge { eis = eis } in
      let sound =
        ensure_eis-IsSound has_capability world.now world.later world.setup bridge.eis s in
      let (use_uinput, opened) = ensure_uinput world ready in
      let open_sound : Sound opened =
        if-cases (λ (r : Bool × Bridge). Sound r.1) (ready.keyboard_open && ready.mouse_open) _ _
          (λ e. sound)
          (λ e.
            if-cases (λ (r : Bool × Bridge). Sound r.1)
              (world.keyboard_created && world.mouse_created) _ _ (λ f. sound) (λ f. sound)) in
      if-cases (λ (r : ℕ × Bridge). Sound r.1) use_eis _ _
        (λ e. send_events-Sound true events ready sound)
        (λ e.
          if-cases (λ (r : ℕ × Bridge). Sound r.1) use_uinput _ _
            (λ f. send_events-Sound false events opened open_sound) (λ f. open_sound))
