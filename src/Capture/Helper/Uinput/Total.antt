-- ===== src/Capture/Helper/Uinput/Total.antt =====
-- Where the kernel takes every write, the calls answer true.
use driver_uu_remote.Base.{
  ℕ, suc, ◌+◌, ◌≤◌, ◌≡◌, refl, inl, inr, Bool, true, false, not, ◌%◌, ◌^◌, Bool-cases, List, [],
  ◌∷◌, All, length, length-append, arith,
}
use driver_uu_remote.Capture.Protocol.{CaptureInputEvent}
use driver_uu_remote.Capture.Helper.Keys.{Key}
use driver_uu_remote.Capture.Helper.Uinput.{
  InputEvent, key, mouse_report, keyboard_report, Uinput, emit_answered, emit_event, emit_all, has,
  Turn, also, run_turns, mouse_turns, send_mouse_uinput, keyboard_code, out_of_range,
  send_keyboard_uinput,
}
use driver_uu_remote.Capture.Helper.Uinput.Laws.{flagged, mouse_events}

-- The next `count` writes succeed.
pub record Ready (count : ℕ) (device : Uinput) : Type 0 where
  pub good : All (λ (b : Bool). b ≡ true) device.answers
  pub enough : count ≤ length device.answers

emit_answered-Ready :
    (answers : List Bool) (event : InputEvent) (taken : List InputEvent) (count : ℕ)
    → All (λ (b : Bool). b ≡ true) answers
    → suc count ≤ length answers
    → ((emit_answered answers event taken).0 ≡ true)
      × Ready count (emit_answered answers event taken).1
unfolding emit_answered
emit_answered-Ready [] event taken count good enough = absurd (omega arith)
emit_answered-Ready (true ∷ answers) event taken count good enough =
    (refl, record { good = good.1; enough = omega arith })
emit_answered-Ready (false ∷ answers) event taken count good enough = absurd (bad good.0)
  where
    bad : false ≡ true → ⊥
    bad p = cc

pub emit_event-Ready :
    (event : InputEvent) (device : Uinput) (count : ℕ)
    → Ready (suc count) device
    → ((emit_event event device).0 ≡ true) × Ready count (emit_event event device).1
unfolding emit_event
emit_event-Ready event device count r =
    emit_answered-Ready device.answers event device.taken count r.good r.enough

pub emit_all-Ready :
    (events : List InputEvent) (device : Uinput) (count : ℕ)
    → Ready (length events + count) device
    → ((emit_all events device).0 ≡ true) × Ready count (emit_all events device).1
unfolding emit_all
emit_all-Ready [] device count r =
    (refl, record { good = r.good; enough = omega (arith, r.enough) })
emit_all-Ready (event ∷ events) device count r =
    let now : Ready (suc (length events + count)) device = record {
      good = r.good;
      enough = omega (arith, r.enough);
    } in
    let (sent, next) = emit_event-Ready event device (length events + count) now in
    rw sent (emit_all-Ready events (emit_event event device).1 count next)

run_turns-Ready :
    (flags : ℕ) (turns : List Turn) (device : Uinput) (count : ℕ)
    → Ready (length (flagged flags turns) + count) device
    → ((run_turns flags turns (true, device)).0 ≡ true)
      × Ready count (run_turns flags turns (true, device)).1
unfolding run_turns flagged also
run_turns-Ready flags [] device count r =
    (refl, record { good = r.good; enough = omega (arith, r.enough) })
run_turns-Ready flags (turn ∷ turns) device count r = elim (Bool-cases (has flags turn.flag)) [
  | inr e ↦ rw (run_turns, e) (run_turns-Ready flags turns device count (rw (flagged, e) at r))
  | inl e ↦
      let here = rw (flagged, e) at r in
      let more = length (flagged flags turns) + count in
      let now : Ready (length turn.events + more) device = record {
        good = here.good;
        enough = omega (arith, here.enough, length-append turn.events (flagged flags turns));
      } in
      let (sent, next) = emit_all-Ready turn.events device more now in
      rw (run_turns, e, sent)
        (run_turns-Ready flags turns (emit_all turn.events device).1 count next)
]

pub send_mouse_uinput-Ready :
    (event : CaptureInputEvent) (device : Uinput) (count : ℕ)
    → Ready (length (mouse_events event) + count) device
    → ((send_mouse_uinput event device).0 ≡ true) × Ready count (send_mouse_uinput event device).1
unfolding send_mouse_uinput mouse_events
send_mouse_uinput-Ready event device count r =
    let turns = mouse_turns event in
    let now : Ready (length (flagged event.flags turns) + suc count) device = record {
      good = r.good;
      enough =
          omega (arith, r.enough, length-append (flagged event.flags turns) (mouse_report ∷ []));
    } in
    let (ok, next) = run_turns-Ready event.flags turns device (suc count) now in
    let (reported, rest) =
      emit_event-Ready mouse_report (run_turns event.flags turns (true, device)).1 count next in
    (rw (ok, reported) refl, rest)

-- A key without the Unicode flag whose code is in range.
pub send_keyboard_uinput-Ready :
    (code : Key → ℕ) (btn_misc : ℕ) (event : CaptureInputEvent) (device : Uinput) (count : ℕ)
    → has event.flags 0x0004 ≡ false
    → out_of_range code btn_misc (keyboard_code code event) ≡ false
    → Ready (2 + count) device
    → ((send_keyboard_uinput code btn_misc event device).0 ≡ true)
      × Ready count (send_keyboard_uinput code btn_misc event device).1
unfolding send_keyboard_uinput
send_keyboard_uinput-Ready code btn_misc event device count u o r =
    let events =
      key (keyboard_code code event % 2 ^ 16) (not (has event.flags 0x0002))
      ∷ keyboard_report
      ∷ [] in
    rw (u, o) (emit_all-Ready events device count r)
