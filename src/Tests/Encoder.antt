-- ===== src/Tests/Encoder.antt =====
-- The encoder of Amf at concrete inputs.
use driver_uu_remote.Base.{
  ℕ, ◌^◌, ◌<◌, ◌≡◌, ◌⊎◌, refl, sym, true, false, List, [], ◌∷◌, ◌++◌, none, some, replicate, arith,
}
use driver_uu_remote.Base.Int.{pos}
use driver_uu_remote.Wire.{
  HelperInitMessage, HelperReply, init_bytes, read_init, reply_bytes, read_reply, frame_bytes,
  le_bytes, read_le, init_reply_bytes, read_init_reply,
}
use driver_uu_remote.Transport.{Conn, moved, socket_send_all, send_loop, socket_recv_all, recv_loop}
use driver_uu_remote.Amf.Results.{ok}
use driver_uu_remote.Amf.Store.{VariantOps, Store, property_find, property_set}
use driver_uu_remote.Amf.Store.Laws.{find-property_set, IsStore, property_set-IsStore}
use driver_uu_remote.Amf.Outputs.{
  BridgeBuffer, Outputs, no_outputs, component_queue_output, component_query_output,
}
use driver_uu_remote.Amf.Outputs.Fifo.{Queues, window, queue_output-append, query_output-cons}
use driver_uu_remote.Amf.Component.{
  Component, nv12, other, InitWorld, open_helper, component_init, component_terminate,
  component_drain, component_flush, query_output, Surface, SubmitWorld, surface, component_submit,
  frame_header, exchange, receive_packet, init_message, accepts, init_session, handshake, answered,
  answered_size, replied,
}
use driver_uu_remote.Amf.Component.Session.{
  Asks, Opened, component_init-IsSession, Fits, session-read_init,
}
use driver_uu_remote.Amf.Component.Submit.{
  Exchanged, exchange-Exchanged, Queued, Refusal, receive_packet-Queued,
}
use driver_uu_remote.Amf.Component.Lifecycle.{
  IsValid, component_init-IsValid, component_submit-IsValid, operations-IsValid,
}

abbrev packet : ℕ → BridgeBuffer
packet n = record { bytes = n ∷ []; pts = n; duration = 1 }

-- Two packets, of which the first stands in the last slot.
abbrev round_end : Outputs
round_end = record {
  slots = some (packet 2) ∷ none ∷ none ∷ none ∷ none ∷ none ∷ none ∷ some (packet 1) ∷ [];
  head = 7;
  count = 2;
}

abbrev two_packets : List BridgeBuffer
two_packets = packet 1 ∷ packet 2 ∷ []

round_end-Queues : Queues two_packets round_end
unfolding window
round_end-Queues = record {
  slots = refl;
  head = omega arith;
  count = refl;
  few = omega arith;
  holds = refl;
}

queue_output-append_example :
    ((component_queue_output round_end (packet 3)).0 ≡ true)
    × Queues (two_packets ++ (packet 3 ∷ [])) (component_queue_output round_end (packet 3)).1
queue_output-append_example =
    queue_output-append two_packets (packet 3) round_end round_end-Queues (omega arith)

query_output-cons_example :
    let (result, out, o') = component_query_output false round_end in
    (result ≡ ok) × (out ≡ some (packet 1)) × Queues (packet 2 ∷ []) o'
query_output-cons_example =
    query_output-cons false (packet 1) (packet 2 ∷ []) round_end round_end-Queues

-- A variant that is a number.
abbrev number_ops : VariantOps
number_ops = record { Variant = ℕ; empty = 0; copy = λ value. (ok, value) }

abbrev one_property : Store number_ops
one_property = (66 ∷ [], 1) ∷ []

was_set : (property_set number_ops true one_property (some (67 ∷ [])) 5).0 ≡ ok
unfolding property_set property_find
was_set = refl

find-property_set_example :
    property_find number_ops
      (property_set number_ops true one_property (some (67 ∷ [])) 5).1
      (67 ∷ [])
    ≡ some 5
find-property_set_example =
    find-property_set number_ops true one_property (67 ∷ []) (67 ∷ []) 5 was_set

one_property-IsStore : IsStore number_ops one_property
unfolding property_find
one_property-IsStore = record { bounded = omega arith; distinct = (refl, tt) }

property_set-IsStore_example :
    IsStore number_ops (property_set number_ops true one_property (some (67 ∷ [])) 5).1
property_set-IsStore_example =
    property_set-IsStore number_ops true one_property (some (67 ∷ [])) 5 one_property-IsStore

abbrev fresh_component : Component
fresh_component = record {
  helper = none;
  outputs = no_outputs;
  width = 0;
  height = 0;
  format = other 0;
  next_pts = 0;
  initialized = false;
  draining = false;
}

fresh-IsValid : IsValid fresh_component
fresh-IsValid = record {
  ring = record { slots = refl; head = omega arith; count = omega arith };
  connected = λ e. cc;
}

-- The helper's answer to a session, and to a frame.
abbrev init_link : Conn
init_link = record {
  incoming = init_reply_bytes (record { enabled = 1; protocol_version = 2 });
  answers = moved 99 ∷ moved 99 ∷ [];
  sent = [];
}

abbrev init_world : InitWorld
init_world = record {
  host = none;
  port = none;
  now = 5000;
  later = 5020;
  has_socket = true;
  connect = λ host port. some init_link;
  rate_num = 60;
  rate_den = 1;
  bitrate = 8000000;
}

opened : (component_init init_world 0 fresh_component nv12 (pos 128) (pos 128)).0 ≡ ok
unfolding component_init init_session open_helper handshake answered accepts socket_send_all
    send_loop socket_recv_all recv_loop init_bytes init_reply_bytes read_init_reply le_bytes read_le
    init_message
opened = refl

component_init-IsSession_example :
    Opened init_world 0 fresh_component nv12
      (pos 128)
      (pos 128)
      (component_init init_world 0 fresh_component nv12 (pos 128) (pos 128))
component_init-IsSession_example =
    component_init-IsSession init_world 0 fresh_component nv12 (pos 128) (pos 128) opened

sent_nothing : (conn : Conn) → (open_helper init_world 0 none).0 ≡ some conn → conn.sent ≡ []
unfolding open_helper
sent_nothing conn e = cc

sides_fit : Fits init_world (pos 128) (pos 128)
sides_fit = record {
  wide = λ w e. same w (sym e);
  tall = λ h e. same h (sym e);
  bitrate = omega arith;
  rate_num = omega arith;
  rate_den = omega arith;
}
  where
    same : (n : ℕ) → pos n ≡ pos 128 → n < 2 ^ 31
    same n e = let k : n ≡ 128 = cc in omega (arith, k)

session-read_init_example :
    (link : Conn) × ((component_init init_world 0 fresh_component nv12 (pos 128) (pos 128)).1.helper
      ≡ some link)
    × ((message : HelperInitMessage) × (w : ℕ) × (h : ℕ) × (pos 128 ≡ pos w)
        × (pos 128 ≡ pos h)
        × Asks init_world w h message
        × (read_init link.sent ≡ some (message, [])))
session-read_init_example =
    session-read_init init_world 0 fresh_component nv12 (pos 128) (pos 128) sides_fit opened
      sent_nothing

component_init-IsValid_example :
    IsValid (component_init init_world 0 fresh_component nv12 (pos 128) (pos 128)).1
component_init-IsValid_example =
    component_init-IsValid init_world 0 fresh_component nv12 (pos 128) (pos 128) fresh-IsValid

-- A surface of two by two pixels whose rows are four bytes apart.
abbrev small_surface : Surface
small_surface = record {
  is_nv12 = true;
  width = 2;
  height = 2;
  pitch = 4;
  pixels = λ i. i;
  pts = 7;
  duration = 1;
}

abbrev submit_world : SubmitWorld
submit_world = record {
  has_staging = true;
  is_mapped = true;
  frame_memory = λ size. some (replicate size 0);
  has_packet_memory = true;
  has_buffer = true;
}

abbrev packet_reply : HelperReply
packet_reply = record {
  magic = 0x31464d41;
  type = 3;
  status = 0;
  payload_size = 2;
  width = 0;
  height = 0;
}

abbrev frame_link : Conn
frame_link = record {
  incoming = reply_bytes packet_reply ++ (200 ∷ 201 ∷ []);
  answers = moved 99 ∷ moved 99 ∷ moved 99 ∷ moved 99 ∷ [];
  sent = [];
}

abbrev ready_component : Component
ready_component = record fresh_component {
  helper = some frame_link;
  width = 2;
  height = 2;
  format = nv12;
  initialized = true;
}

ready-IsValid : IsValid ready_component
ready-IsValid = record { ring = fresh-IsValid.ring; connected = λ e. (frame_link, refl) }

component_submit-IsValid_example :
    IsValid (component_submit submit_world ready_component (surface small_surface)).1
component_submit-IsValid_example =
    component_submit-IsValid submit_world ready_component (surface small_surface) ready-IsValid

operations-IsValid_example :
    IsValid (component_terminate ready_component).1
    × IsValid (component_drain ready_component).1
    × IsValid (component_flush ready_component).1
    × IsValid (query_output true ready_component).2
operations-IsValid_example = operations-IsValid true ready_component ready-IsValid

abbrev frame_bytes_sent : List ℕ
frame_bytes_sent = 0 ∷ 1 ∷ 4 ∷ 5 ∷ 8 ∷ 9 ∷ []

replied_two :
    (exchange frame_link (frame_header small_surface frame_bytes_sent) frame_bytes_sent).0 ≡ some 2
unfolding exchange answered_size replied socket_send_all send_loop socket_recv_all recv_loop
    frame_bytes reply_bytes read_reply le_bytes read_le frame_header
replied_two = refl

exchange-Exchanged_example :
    Exchanged frame_link
      (frame_header small_surface frame_bytes_sent)
      frame_bytes_sent
      2
      (exchange frame_link (frame_header small_surface frame_bytes_sent) frame_bytes_sent).1
exchange-Exchanged_example =
    exchange-Exchanged frame_link (frame_header small_surface frame_bytes_sent) frame_bytes_sent 2
      replied_two

abbrev packet_link : Conn
packet_link = record frame_link { incoming = 200 ∷ 201 ∷ [] }

ready-Queues : Queues [] no_outputs
unfolding window
ready-Queues = record {
  slots = refl;
  head = omega arith;
  count = refl;
  few = omega arith;
  holds = refl;
}

receive_packet-Queued_example :
    let (result, after) = receive_packet submit_world ready_component small_surface packet_link 2 in
    ((result ≡ ok) × Queued [] small_surface packet_link 2 after)
    ⊎ (Refusal submit_world [] packet_link 2 result × (after.outputs ≡ no_outputs))
receive_packet-Queued_example =
    receive_packet-Queued submit_world ready_component small_surface packet_link 1 [] ready-Queues
