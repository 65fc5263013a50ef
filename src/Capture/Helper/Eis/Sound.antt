-- ===== src/Capture/Helper/Eis/Sound.antt =====
-- The slots of the EIS connection hold devices with the slot's capability, none without a connection,
-- and calls go to such devices only: `IsSound` is kept by all that changes the connection.
use driver_uu_remote.Base.{
  ℕ, zero, suc, ◌+◌, ◌≡◌, sym, ◌∙◌, subst, inl, inr, Bool, true, false, not, ◌||◌, Bool-cases, List,
  [], ◌∷◌, Option, none, some, All, All-append, ltb, if◌then◌else◌, false-ne-true, if-cases,
  not-false,
}
use driver_uu_remote.Capture.Protocol.{CaptureInputEvent}
use driver_uu_remote.Capture.Helper.Keys.{Key}
use driver_uu_remote.Capture.Helper.Uinput.{Button, has, out_of_range, keyboard_code}
use driver_uu_remote.Capture.Helper.Eis.{
  Capability, pointer, pointer_absolute, buttons, scroll, keyboard, EisCall, button_button, Round,
  Eis, reset_eis, next_round, later_rounds, complete, handle_events, dispatch_eis, await_devices,
  Setup, refused, no_backend, connected, finish_setup, ensure_eis,
}
use driver_uu_remote.Capture.Helper.Eis.Send.{
  call_on, then_eis, press, Press, presses, press_all, region_of, move_eis, scroll_eis, mouse_steps,
  send_mouse_eis, send_keyboard_eis,
}
use driver_uu_remote.Capture.Helper.Eis.Laws.{
  Holds, Valid, IsSound, handle_events-Kept, reset_eis-IsSound,
}

module _ (has_capability : ℕ → Capability → Bool) where
  -- The slots and calls stay the same.
  with_rounds :
      (rounds : List Round) (retry_after : ℕ) (eis : Eis)
      → IsSound has_capability eis
      → IsSound has_capability (record eis { rounds = rounds; retry_after = retry_after })
  with_rounds rounds retry_after eis s = record {
    slots = record {
      pointer_slot = s.slots.pointer_slot;
      absolute_slot = s.slots.absolute_slot;
      button_slot = s.slots.button_slot;
      scroll_slot = s.slots.scroll_slot;
      keyboard_slot = s.slots.keyboard_slot;
    };
    closed = s.closed;
    valid = s.valid;
  }

  pub dispatch_eis-IsSound :
      (eis : Eis)
      → IsSound has_capability eis
      → IsSound has_capability (dispatch_eis has_capability eis).1
  unfolding dispatch_eis
  dispatch_eis-IsSound eis s =
      let round = next_round eis.rounds in
      let waiting = record eis { rounds = later_rounds eis.rounds } in
      let w = with_rounds (later_rounds eis.rounds) eis.retry_after eis s in
      let kept = handle_events-Kept has_capability round.events false waiting w.slots in
      let handled = handle_events has_capability round.events (false, waiting) in
      let valid : All (Valid has_capability) handled.1.calls =
        subst (λ calls. All (Valid has_capability) calls) (sym kept.calls) s.valid in
      let reset = reset_eis-IsSound has_capability handled.1 valid in
      let Sound : Bool × Eis → Type 0 = λ r. IsSound has_capability r.1 in
      if-cases Sound (not eis.context) _ _ (λ off. s)
        (λ on.
          if-cases Sound round.poll_failed _ _ (λ f. w)
            (λ f.
              if-cases Sound handled.0 _ _
                (λ gone. with_rounds handled.1.rounds 0 (reset_eis handled.1) reset)
                (λ stays. record {
                  slots = kept.slots;
                  closed = λ off. false-ne-true (sym off ∙ kept.context ∙ not-false eis.context on);
                  valid = valid;
                })))

  await_devices-IsSound :
      (attempts : ℕ) (eis : Eis)
      → IsSound has_capability eis
      → IsSound has_capability (await_devices has_capability attempts eis)
  unfolding await_devices
  await_devices-IsSound zero eis s = s
  await_devices-IsSound (suc attempts) eis s =
      let next = dispatch_eis-IsSound eis s in
      elim (Bool-cases (complete eis)) [
        | inl e ↦ rw e s
        | inr e ↦ elim (Bool-cases (dispatch_eis has_capability eis).0) [
          | inl g ↦
              rw (e, g) (await_devices-IsSound attempts (dispatch_eis has_capability eis).1 next)
          | inr g ↦ rw (e, g) next
        ]
      ]

  finish_setup-IsSound :
      (setup : Setup) (eis : Eis)
      → IsSound has_capability eis
      → IsSound has_capability (finish_setup has_capability setup eis).1
  unfolding finish_setup
  finish_setup-IsSound refused eis s = s
  finish_setup-IsSound no_backend eis s = reset_eis-IsSound has_capability eis s.valid
  finish_setup-IsSound connected eis s =
      let opened = record eis { context = true } in
      let ready = await_devices has_capability 40 opened in
      let now : IsSound has_capability opened = record {
        slots = record {
          pointer_slot = s.slots.pointer_slot;
          absolute_slot = s.slots.absolute_slot;
          button_slot = s.slots.button_slot;
          scroll_slot = s.slots.scroll_slot;
          keyboard_slot = s.slots.keyboard_slot;
        };
        closed = λ off. false-ne-true (sym off);
        valid = s.valid;
      } in
      let r = await_devices-IsSound 40 opened now in
      elim (Bool-cases (complete ready)) [
        | inl e ↦ rw e (with_rounds ready.rounds 0 ready r)
        | inr e ↦ rw e (reset_eis-IsSound has_capability ready r.valid)
      ]

  pub ensure_eis-IsSound :
      (now later : ℕ) (setup : Setup) (eis : Eis)
      → IsSound has_capability eis
      → IsSound has_capability (ensure_eis has_capability now later setup eis).1
  unfolding ensure_eis
  ensure_eis-IsSound now later setup eis s =
      let Sound : Bool × Eis → Type 0 = λ r. IsSound has_capability r.1 in
      if-cases Sound eis.context _ _ (λ on. dispatch_eis-IsSound eis s)
        (λ off.
          if-cases Sound (ltb now eis.retry_after) _ _ (λ wait. s)
            (λ due.
              finish_setup-IsSound setup (record eis { retry_after = later + 5 })
                (with_rounds eis.rounds (later + 5) eis s)))

  finish_setup_ready :
      (setup : Setup) (eis : Eis)
      → (finish_setup has_capability setup eis).0 ≡ true
      → complete (finish_setup has_capability setup eis).1 ≡ true
  unfolding finish_setup
  finish_setup_ready refused eis = λ h. false-ne-true h
  finish_setup_ready no_backend eis = λ h. false-ne-true h
  finish_setup_ready connected eis =
      let ready = await_devices has_capability 40 (record eis { context = true }) in
      if-cases (λ (r : Bool × Eis). r.0 ≡ true → complete r.1 ≡ true) (complete ready)
        (true, record ready { retry_after = 0 }) (false, reset_eis ready)
        (λ e h. unfold complete in e) (λ e h. false-ne-true h)

  -- Where `ensure_eis` answers true, there is a connection, with a pointer, buttons and a keyboard.
  pub ensure_eis_ready :
      (now later : ℕ) (setup : Setup) (eis : Eis)
      → (ensure_eis has_capability now later setup eis).0 ≡ true
      → complete (ensure_eis has_capability now later setup eis).1 ≡ true
  unfolding ensure_eis
  ensure_eis_ready now later setup eis =
      let Ready : Bool × Eis → Type 0 = λ r. r.0 ≡ true → complete r.1 ≡ true in
      let dispatched = (dispatch_eis has_capability eis).1 in
      let finished = finish_setup has_capability setup (record eis { retry_after = later + 5 }) in
      if-cases Ready eis.context (complete dispatched, dispatched)
        (if ltb now eis.retry_after then (false, eis) else finished) (λ on h. h)
        (λ off.
          if-cases Ready (ltb now eis.retry_after) (false, eis) finished (λ wait h. false-ne-true h)
            (λ due. finish_setup_ready setup (record eis { retry_after = later + 5 })))

  pub complete-context :
      (eis : Eis) → IsSound has_capability eis → complete eis ≡ true → eis.context ≡ true
  unfolding complete
  complete-context eis s h = elim (Bool-cases eis.context) [
    | inl on ↦ on
    | inr off ↦ let none_pointer = (s.closed off).0 in false-ne-true (rw none_pointer at h)
  ]

  -- The steps that keep the invariant.
  abbrev Keeps : (Eis → Bool × Eis) → Type 0
  Keeps step = (eis : Eis) → IsSound has_capability eis → IsSound has_capability (step eis).1

  then_eis-Keeps :
      (first second : Eis → Bool × Eis) → Keeps first → Keeps second → Keeps (then_eis first second)
  unfolding then_eis
  then_eis-Keeps first second k l eis s =
      if-cases (λ (r : Bool × Eis). IsSound has_capability r.1) (first eis).0 _ _
        (λ done. l (first eis).1 (k eis s)) (λ failed. k eis s)

  call_on-IsSound :
      (capability : Capability) (slot : Option ℕ) (call : ℕ → EisCall)
      → Holds has_capability capability slot
      → ((device : ℕ)
          → Holds has_capability capability (some device)
          → Valid has_capability (call device))
      → Keeps (call_on slot call)
  unfolding call_on Valid
  call_on-IsSound capability none call h v eis s = s
  call_on-IsSound capability (some device) call h v eis s = record {
    slots = record {
      pointer_slot = s.slots.pointer_slot;
      absolute_slot = s.slots.absolute_slot;
      button_slot = s.slots.button_slot;
      scroll_slot = s.slots.scroll_slot;
      keyboard_slot = s.slots.keyboard_slot;
    };
    closed = s.closed;
    valid = All-append (Valid has_capability) eis.calls _ s.valid (v device h, (tt, tt));
  }

  press-Keeps : (test : Bool) (code : Button) (pressed : Bool) → Keeps (press test code pressed)
  unfolding press Valid Holds
  press-Keeps false code pressed eis s = s
  press-Keeps true code pressed eis s =
      call_on-IsSound buttons eis.button_device (λ device. button_button device code pressed)
        s.slots.button_slot (λ device h. h) eis s

  press_all-Keeps : (flags : ℕ) (ps : List Press) → Keeps (press_all flags ps)
  unfolding press_all
  press_all-Keeps flags [] eis s = s
  press_all-Keeps flags (one ∷ more) eis s =
      then_eis-Keeps (press (has flags one.flag) one.code one.pressed) (press_all flags more)
        (press-Keeps (has flags one.flag) one.code one.pressed) (press_all-Keeps flags more) eis s

  module _ (has_region : ℕ → Bool) where
    region_of-Holds :
        (slot : Option ℕ)
        → Holds has_capability pointer_absolute slot
        → Holds has_capability pointer_absolute (region_of has_capability has_region slot)
    unfolding region_of Holds
    region_of-Holds none h = tt
    region_of-Holds (some device) h =
        if-cases (λ slot. Holds has_capability pointer_absolute slot) (has_region device) _ _
          (λ e. h) (λ e. tt)

    move_eis-Keeps : (event : CaptureInputEvent) → Keeps (move_eis has_capability has_region event)
    unfolding move_eis Valid Holds
    move_eis-Keeps event eis s =
        let Sound : Bool × Eis → Type 0 = λ r. IsSound has_capability r.1 in
        if-cases Sound (has event.flags 0x0001) _ _
          (λ moves.
            if-cases Sound (has event.flags 0x8000) _ _
              (λ absolute.
                call_on-IsSound pointer_absolute
                  (region_of has_capability has_region eis.absolute_device) _
                  (region_of-Holds eis.absolute_device s.slots.absolute_slot) (λ device h. h) eis s)
              (λ relative.
                call_on-IsSound pointer eis.pointer_device _ s.slots.pointer_slot (λ device h. h)
                  eis s))
          (λ rests. s)

    scroll_eis-Keeps :
        (event : CaptureInputEvent) → Keeps (scroll_eis has_capability has_region event)
    unfolding scroll_eis Valid Holds
    scroll_eis-Keeps event eis s =
        if-cases (λ (r : Bool × Eis). IsSound has_capability r.1)
          (has event.flags 0x0800 || has event.flags 0x1000) _ _
          (λ e.
            call_on-IsSound scroll eis.scroll_device _ s.slots.scroll_slot (λ device h. h) eis s)
          (λ e. s)

    -- `send_mouse_eis` keeps the invariant.
    pub send_mouse_eis-Keeps :
        (event : CaptureInputEvent) → Keeps (send_mouse_eis has_capability has_region event)
    unfolding send_mouse_eis mouse_steps
    send_mouse_eis-Keeps event eis s =
        let d = dispatch_eis-IsSound eis s in
        if-cases (λ (r : Bool × Eis). IsSound has_capability r.1)
          (dispatch_eis has_capability eis).1.context _ _
          (λ on.
            let move = move_eis has_capability has_region event in
            let press = press_all event.flags (presses event) in
            let scrolls = scroll_eis has_capability has_region event in
            then_eis-Keeps move (then_eis press scrolls) (move_eis-Keeps event)
              (then_eis-Keeps press scrolls (press_all-Keeps event.flags (presses event))
                (scroll_eis-Keeps event))
              (dispatch_eis has_capability eis).1 d)
          (λ off. d)

    -- `send_keyboard_eis` keeps the invariant.
    pub send_keyboard_eis-Keeps :
        (code : Key → ℕ) (btn_misc : ℕ) (event : CaptureInputEvent)
        → Keeps (send_keyboard_eis has_capability has_region code btn_misc event)
    unfolding send_keyboard_eis Valid Holds
    send_keyboard_eis-Keeps code btn_misc event eis s =
        let d = dispatch_eis-IsSound eis s in
        let after = (dispatch_eis has_capability eis).1 in
        let Sound : Bool × Eis → Type 0 = λ r. IsSound has_capability r.1 in
        if-cases Sound (not after.context) _ _ (λ off. d)
          (λ on.
            if-cases Sound (has event.flags 0x0004) _ _ (λ unicode. d)
              (λ plain.
                if-cases Sound (out_of_range code btn_misc (keyboard_code code event)) _ _
                  (λ out. d)
                  (λ fits.
                    call_on-IsSound keyboard after.keyboard_device _ d.slots.keyboard_slot
                      (λ device h. h) after d)))
