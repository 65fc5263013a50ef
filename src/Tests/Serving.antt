-- ===== src/Tests/Serving.antt =====
-- The capture helper and its clients at concrete inputs.
use driver_uu_remote.Base.{
  ℕ, zero, suc, ◌*◌, ◌^◌, length, All, ◌≡◌, refl, ap, true, false, Bool, List, [], ◌∷◌, ◌++◌, none,
  some, take, replicate, get_or, arith,
}
use driver_uu_remote.Transport.{Conn, moved, send_all, socket_send_all, socket_recv_all}
use driver_uu_remote.Wire.{le_bytes, read_le}
use driver_uu_remote.Transport.Total.{Moves}
use driver_uu_remote.Transport.Supply.{Supplied}
use driver_uu_remote.Capture.Protocol.{CaptureInputEvent}
use driver_uu_remote.Capture.Helper.Keys.{Key}
use driver_uu_remote.Capture.Helper.Uinput.{send_mouse_uinput, send_keyboard_uinput}
use driver_uu_remote.Capture.Helper.Eis.{Capability, Eis, refused}
use driver_uu_remote.Capture.Helper.Eis.Laws.{Holds, IsSound}
use driver_uu_remote.Capture.Helper.Bridge.{Bridge, BridgeWorld, send_events, send}
use driver_uu_remote.Capture.Helper.Bridge.Laws.{
  all_device_events, send_events-all_device_events, send-IsSound,
}
use driver_uu_remote.Capture.Helper.Frames.{FrameState, Screenshot, capture_kwin_workspace}
use driver_uu_remote.Capture.Helper.Frames.Laws.{IsFrame, capture_kwin_workspace-IsFrame}
use driver_uu_remote.Capture.Helper.Server.{Server, ClientRound, handle_client, serve_frame}
use driver_uu_remote.Capture.Helper.Server.Laws.{refusal, handle_client-refusal}
use driver_uu_remote.Capture.Input.{present}
use driver_uu_remote.Capture.Messages.{capture_reply_bytes, request_bytes, read_capture_reply}
use driver_uu_remote.Capture.Frames.{Frame, HookWorld, request_frame}
use driver_uu_remote.Capture.Bitblt.{Blit, Gdi, stretched, capture_bitblt, capture_bitblt-InBuffer}
use driver_uu_remote.Capture.Frames.Laws.{served_reply, request_frame-serve_frame}

abbrev any_capability : ℕ → Capability → Bool
any_capability device capability = true

abbrev any_region : ℕ → Bool
any_region device = true

abbrev one_code : Key → ℕ
one_code key = 30

abbrev idle_eis : Eis
idle_eis = record {
  context = false;
  pointer_device = none;
  absolute_device = none;
  button_device = none;
  scroll_device = none;
  keyboard_device = none;
  retry_after = 0;
  rounds = [];
  calls = [];
}

abbrev open_bridge : Bridge
open_bridge = record {
  eis = idle_eis;
  uinput = record { answers = replicate 20 true; taken = [] };
  keyboard_open = true;
  mouse_open = true;
}

abbrev quiet_world : BridgeWorld
quiet_world = record {
  now = 10;
  later = 10;
  setup = refused;
  keyboard_created = false;
  mouse_created = false;
}

-- The left button goes down, and a key by its scan code.
abbrev two_events : List CaptureInputEvent
two_events =
    record { type = 0; dx = 3; dy = 4; mouse_data = 0; flags = 3; virtual_key = 0; scan_code = 0 }
    ∷ record {
      type = 1;
      dx = 0;
      dy = 0;
      mouse_data = 0;
      flags = 8;
      virtual_key = 0;
      scan_code = 30;
    }
    ∷ []

both_accepted :
    (send_events any_capability any_region one_code 256 false two_events open_bridge).0 ≡ 2
unfolding send_events send_mouse_uinput send_keyboard_uinput
both_accepted = refl

send_events-all_device_events_example :
    (send_events any_capability any_region one_code 256 false two_events open_bridge).1.uinput.taken
    ≡ [] ++ all_device_events any_capability any_region one_code 256 two_events
send_events-all_device_events_example =
    send_events-all_device_events any_capability any_region one_code 256 (omega arith) two_events
      open_bridge both_accepted

idle-IsSound : IsSound any_capability idle_eis
unfolding Holds
idle-IsSound = record {
  slots = record {
    pointer_slot = tt;
    absolute_slot = tt;
    button_slot = tt;
    scroll_slot = tt;
    keyboard_slot = tt;
  };
  closed = λ e. (refl, refl, refl, refl, refl);
  valid = tt;
}

send-IsSound_example :
    IsSound any_capability
      (send any_capability any_region one_code 256 quiet_world two_events open_bridge).1.eis
send-IsSound_example =
    send-IsSound any_capability any_region one_code 256 quiet_world two_events open_bridge
      idle-IsSound

abbrev no_frame : FrameState
no_frame = record { pixels = []; width = 0; height = 0; generation = 0 }

-- One pixel in a row of eight bytes, of a format whose bytes are exchanged.
abbrev shot : Screenshot
shot = record {
  width = 1;
  height = 1;
  stride = 8;
  format = 17;
  pipe = record {
    incoming = 1 ∷ 2 ∷ 3 ∷ 4 ∷ 0 ∷ 0 ∷ 0 ∷ 0 ∷ [];
    answers = moved 99 ∷ [];
    sent = [];
  };
}

no_frame-IsFrame : IsFrame no_frame
no_frame-IsFrame = record { size = refl; small = omega arith }

capture_kwin_workspace-IsFrame_example : IsFrame (capture_kwin_workspace (some shot) no_frame).1
capture_kwin_workspace-IsFrame_example =
    capture_kwin_workspace-IsFrame shot no_frame (omega arith) no_frame-IsFrame

abbrev token_server : Server
token_server = record {
  required_auth_token = replicate 64 7;
  kwin_capture_on_request = false;
  frame = no_frame;
  bridge = open_bridge;
}

abbrev quiet_round : ClientRound
quiet_round = record { screenshot = none; published = none; input = quiet_world }

-- A request for the token, with a wrong one behind it.
abbrev wrong_token : Conn
wrong_token = record {
  incoming =
      0x55 ∷ 0x43 ∷ 0x50 ∷ 0x31 ∷ 5 ∷ 0 ∷ 0 ∷ 0 ∷ 2 ∷ 0 ∷ 0 ∷ 0 ∷ 64 ∷ 0 ∷ 0 ∷ 0 ∷ replicate 64 8;
  answers = moved 99 ∷ moved 99 ∷ moved 99 ∷ [];
  sent = [];
}

handle_client-refusal_example :
    let after =
      handle_client any_capability any_region one_code 256
        (quiet_round ∷ quiet_round ∷ [])
        wrong_token
        token_server in
    (after.server ≡ token_server) × ((count : ℕ) × (after.conn.sent ≡ [] ++ take count refusal))
handle_client-refusal_example =
    handle_client-refusal any_capability any_region one_code 256 (quiet_round ∷ quiet_round ∷ [])
      wrong_token token_server refl (λ e. eight-seven (ap (λ xs. get_or xs 0 0) e))
  where
    eight-seven : ((◌≡◌ {A = ℕ}) 8 7) → ⊥
    eight-seven h = omega (arith, h)

abbrev one_pixel : FrameState
one_pixel = record { pixels = 9 ∷ 8 ∷ 7 ∷ 255 ∷ []; width = 1; height = 1; generation = 1 }

abbrev peer : Conn
peer = record { incoming = []; answers = moved 99 ∷ moved 99 ∷ []; sent = [] }

abbrev served_bytes : List ℕ
served_bytes =
    0x55 ∷ 0x43 ∷ 0x50 ∷ 0x31 ∷ 2 ∷ 0 ∷ 0 ∷ 0 ∷ 2 ∷ 0 ∷ 0 ∷ 0 ∷ 0 ∷ 0 ∷ 0 ∷ 0 ∷ 1 ∷ 0 ∷ 0 ∷ 0 ∷ 1
    ∷ 0 ∷ 0 ∷ 0 ∷ 4 ∷ 0 ∷ 0 ∷ 0 ∷ 4 ∷ 0 ∷ 0 ∷ 0 ∷ 9 ∷ 8 ∷ 7 ∷ 255 ∷ []

abbrev hook_link : Conn
hook_link = record {
  incoming = served_bytes ++ (5 ∷ []);
  answers = replicate 52 (moved 99);
  sent = [];
}

abbrev hook_world : HookWorld
hook_world = record {
  started = true;
  has_socket = true;
  port = none;
  token = none;
  connect = λ port. none;
}

served : (serve_frame one_pixel peer).0 ≡ true
unfolding serve_frame send_all capture_reply_bytes le_bytes
served = refl

served_all : (serve_frame one_pixel peer).1.sent ≡ [] ++ served_bytes
unfolding serve_frame send_all capture_reply_bytes le_bytes
served_all = refl

replicate-Moves : (n : ℕ) → All Moves (replicate n (moved 99))
unfolding Moves
replicate-Moves zero = tt
replicate-Moves (suc n) = (tt, replicate-Moves n)

supplied : Supplied 52 hook_link
supplied = record { moving = replicate-Moves 52; enough = omega arith }

request_frame-serve_frame_example :
    ((request_frame true hook_world (some hook_link)).0
      ≡ some (served_reply one_pixel, one_pixel.pixels))
    × ((after : Conn) × ((request_frame true hook_world (some hook_link)).1 ≡ some after)
        × (after.incoming ≡ 5 ∷ []))
request_frame-serve_frame_example =
    request_frame-serve_frame one_pixel peer hook_link hook_world served_bytes (5 ∷ [])
      (record { whole = record { size = refl; small = omega arith }; filled = refl }) (omega arith)
      served served_all refl supplied

-- A copy of the screen that asks for its layers.
abbrev screen_blit : Blit
screen_blit = record {
  destination = 1;
  x_destination = 0;
  y_destination = 0;
  width = 1;
  height = 1;
  source = 2;
  x_source = 0;
  y_source = 0;
  operation = 2 ^ 30;
}

abbrev desk : Gdi
desk = record {
  screen_width = 1;
  screen_height = 1;
  original_bitblt = λ b. false;
  stretch = λ b f. 1;
}

abbrev pixel_frame : Frame
pixel_frame = (served_reply one_pixel, one_pixel.pixels)

drawn :
    (capture_bitblt true hook_world desk screen_blit (some hook_link)).0.drawing
    ≡ stretched screen_blit pixel_frame
unfolding capture_bitblt request_frame present socket_send_all request_bytes le_bytes
    socket_recv_all read_capture_reply read_le served_reply
drawn = refl

capture_bitblt-InBuffer_example :
    (screen_blit ≡ screen_blit)
    × (length pixel_frame.1 ≡ pixel_frame.0.width * pixel_frame.0.height * 4)
unfolding served_reply
capture_bitblt-InBuffer_example =
    capture_bitblt-InBuffer true hook_world desk screen_blit screen_blit pixel_frame
      (some hook_link) drawn (omega arith)
