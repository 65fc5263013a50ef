-- ===== src/Capture/Helper/Uinput/Laws.antt =====
-- What a call that answers true has written to the devices, and when it does answer true.
use driver_uu_remote.Base.{
  ℕ, ◌%◌, ◌^◌, ◌≤◌, ◌≡◌, refl, sym, ap, ◌∙◌, inl, inr, Bool, true, false, not, ◌&&◌, ◌||◌,
  Bool-cases, List, [], ◌∷◌, ◌++◌, append_assoc, append-nil, ◌==◌, leb, if◌then◌else◌, both,
  false-ne-true, arith,
}
use driver_uu_remote.Capture.Protocol.{CaptureInputEvent}
use driver_uu_remote.Capture.Helper.Keys.{Key}
use driver_uu_remote.Capture.Helper.Uinput.{
  InputEvent, key, mouse_report, keyboard_report, Uinput, emit_answered, emit_event, emit_all, has,
  Turn, also, run_turns, mouse_turns, send_mouse_uinput, keyboard_code, out_of_range,
  send_keyboard_uinput,
}

-- The events of the flags that are set, in the order of the turns.
unfoldable pub flagged : ℕ → List Turn → List InputEvent
flagged flags [] = []
flagged flags (turn ∷ turns) =
    if has flags turn.flag then turn.events ++ flagged flags turns else flagged flags turns

unfoldable pub mouse_events : CaptureInputEvent → List InputEvent
unfolding flagged mouse_turns
mouse_events event = flagged event.flags (mouse_turns event) ++ (mouse_report ∷ [])

-- A way to send that, where it answers true, has written just these events.
abbrev pub Appends : (Uinput → Bool × Uinput) → List InputEvent → Type 0
Appends send events =
    (device : Uinput) → (send device).0 ≡ true → (send device).1.taken ≡ device.taken ++ events

emit_answered-lem :
    (answers : List Bool) (event : InputEvent) (taken : List InputEvent)
    → (emit_answered answers event taken).0 ≡ true
    → (emit_answered answers event taken).1.taken ≡ taken ++ (event ∷ [])
unfolding emit_answered
emit_answered-lem [] event taken h = cc
emit_answered-lem (true ∷ answers) event taken h = refl
emit_answered-lem (false ∷ answers) event taken h = cc

pub emit_event-Appends : (event : InputEvent) → Appends (emit_event event) (event ∷ [])
unfolding emit_event
emit_event-Appends event device h = emit_answered-lem device.answers event device.taken h

pub emit_all-Appends : (events : List InputEvent) → Appends (emit_all events) events
unfolding emit_all
emit_all-Appends [] device h = sym (append-nil device.taken)
emit_all-Appends (event ∷ events) device h = elim (Bool-cases (emit_event event device).0) [
  | inl e ↦ rw e (
      emit_all-Appends events (emit_event event device).1 (rw e at h)
      ∙ ap (λ es. es ++ events) (emit_event-Appends event device e)
      ∙ append_assoc device.taken (event ∷ []) events)
  | inr e ↦ false-ne-true (rw e at h)
]

run_turns-true :
    (flags : ℕ) (turns : List Turn) (ok : Bool) (device : Uinput)
    → (run_turns flags turns (ok, device)).0 ≡ true
    → (ok ≡ true)
      × ((run_turns flags turns (ok, device)).1.taken ≡ device.taken ++ flagged flags turns)
unfolding run_turns flagged also
run_turns-true flags [] ok device h = (h, sym (append-nil device.taken))
run_turns-true flags (turn ∷ turns) ok device h = elim (Bool-cases (has flags turn.flag)) [
  | inr e ↦
      rw (run_turns, flagged, e) (run_turns-true flags turns ok device (rw (run_turns, e) at h))
  | inl e ↦
      let (done, device2) = emit_all turn.events device in
      let (going, rest) =
        run_turns-true flags turns (done && ok) device2 (rw (run_turns, e) at h) in
      let (sent, before) = both done ok going in
      rw (run_turns, flagged, e)
        (
          before,
          rest
              ∙ ap (λ es. es ++ flagged flags turns) (emit_all-Appends turn.events device sent)
              ∙ append_assoc device.taken turn.events (flagged flags turns),
        )
]

pub send_mouse_uinput-Appends :
    (event : CaptureInputEvent) → Appends (send_mouse_uinput event) (mouse_events event)
unfolding send_mouse_uinput mouse_events
send_mouse_uinput-Appends event device h =
    let turns = mouse_turns event in
    let (ok, parts) = run_turns event.flags turns (true, device) in
    let (reported, going) = both (emit_event mouse_report parts).0 ok h in
    emit_event-Appends mouse_report parts reported
    ∙ ap (λ es. es ++ (mouse_report ∷ [])) (run_turns-true event.flags turns true device going).1
    ∙ append_assoc device.taken (flagged event.flags turns) (mouse_report ∷ [])

module _ (code : Key → ℕ) (btn_misc : ℕ) where
  -- The events of a key.
  unfoldable pub key_events : CaptureInputEvent → List InputEvent
  key_events event =
      key (keyboard_code code event) (not (has event.flags 0x0002)) ∷ keyboard_report ∷ []

  pub send_keyboard_uinput-Appends :
      btn_misc ≤ 2 ^ 16
      → (event : CaptureInputEvent)
      → Appends (send_keyboard_uinput code btn_misc event) (key_events event)
  unfolding send_keyboard_uinput key_events out_of_range
  send_keyboard_uinput-Appends small event device h = elim (Bool-cases (has event.flags 0x0004)) [
    | inl u ↦ false-ne-true (rw u at h)
    | inr u ↦
        elim (Bool-cases
          ((keyboard_code code event == 0) || leb btn_misc (keyboard_code code event))) [
            | inl r ↦ false-ne-true (rw (u, r) at h)
            | inr r ↦
                let fits : keyboard_code code event % 2 ^ 16 ≡ keyboard_code code event =
                  ground arith in
                rw (u, r, fits) (emit_all-Appends _ device (rw (u, r, fits) at h))
          ]
  ]
