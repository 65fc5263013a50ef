-- ===== src/Tests/Capturing.antt =====
-- The forwarding of input at concrete inputs.
use driver_uu_remote.Base.{◌+◌, ◌≡◌, true, List, [], ◌∷◌, some}
use driver_uu_remote.Transport.{Conn, moved}
use driver_uu_remote.Capture.Input.{Input, mouse, keyboard, send_loop_input, capture_send_input}
use driver_uu_remote.Capture.Input.Laws.{
  IsBounded, capture_send_input-IsBounded, capture_send_input-fuel,
}

abbrev three_inputs : List Input
three_inputs = mouse 5 7 0 1 ∷ keyboard 65 30 0 ∷ keyboard 65 30 2 ∷ []

-- The helper takes two of them, magic, type, version and status before their number.
abbrev input_link : Conn
input_link = record {
  incoming =
      0x55 ∷ 0x43 ∷ 0x50 ∷ 0x31 ∷ 4 ∷ 0 ∷ 0 ∷ 0 ∷ 2 ∷ 0 ∷ 0 ∷ 0 ∷ 0 ∷ 0 ∷ 0 ∷ 0 ∷ 2 ∷ 0 ∷ 0 ∷ 0
      ∷ [];
  answers = moved 99 ∷ moved 99 ∷ moved 99 ∷ [];
  sent = [];
}

capture_send_input-IsBounded_example :
    IsBounded (capture_send_input true [] (some input_link) three_inputs).0 3
capture_send_input-IsBounded_example =
    capture_send_input-IsBounded true [] (some input_link) three_inputs

capture_send_input-fuel_example :
    send_loop_input (3 + 2) true true [] (some input_link) three_inputs
    ≡ capture_send_input true [] (some input_link) three_inputs
capture_send_input-fuel_example = capture_send_input-fuel 2 true [] (some input_link) three_inputs
