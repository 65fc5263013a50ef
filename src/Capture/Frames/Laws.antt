-- ===== src/Capture/Frames/Laws.antt =====
-- A frame that the helper serves is the frame that the hook gets.
use driver_uu_remote.Base.{
  ℕ, zero, suc, ◌+◌, ◌*◌, ◌%◌, ◌^◌, ◌≤◌, ◌<◌, ◌≡◌, refl, sym, ap, ◌∙◌, Bool, true, false, List, [],
  ◌∷◌, ◌++◌, Option, none, some, length, append_assoc, append-nil, leb, ◌==◌, ==_iff, if◌then◌else◌,
  if-cases, false-ne-true, arith,
}
use native.Mathlib.Nat.{mul-le-mul_left}
use driver_uu_remote.Transport.{Conn, socket_send_all, socket_recv_all, send_all}
use driver_uu_remote.Transport.Laws.{socket_send_all-Sent}
use driver_uu_remote.Transport.Helper.{send_all-Sent}
use driver_uu_remote.Transport.Supply.{Supplied, socket_send_all-Supplied, socket_recv_all_front}
use driver_uu_remote.Capture.Protocol.{capture_magic, capture_protocol_version}
use driver_uu_remote.Capture.Messages.{
  capture_reply, CaptureReply, request_bytes, capture_reply_bytes, read_capture_reply,
}
use driver_uu_remote.Capture.Messages.Laws.{
  IsCaptureReply, read_capture_reply-capture_reply_bytes, length-capture_reply_bytes,
  length-request_bytes,
}
use driver_uu_remote.Capture.Helper.Frames.{FrameState}
use driver_uu_remote.Capture.Helper.Frames.Laws.{IsFrame}
use driver_uu_remote.Capture.Helper.Server.{is_empty, frame_reply, serve_frame}
use driver_uu_remote.Capture.Input.{present}
use driver_uu_remote.Capture.Frames.{
  frame_request, servable, finish_frame, read_pixels, exchange_frame, request_frame, HookWorld,
}

-- A frame with pixels whose numbers fit the reply's fields.
pub record IsServed (frame : FrameState) : Type 0 where
  pub whole : IsFrame frame
  pub filled : is_empty frame.pixels ≡ false

-- What the sizes of such a frame are.
record Sizes (frame : FrameState) : Type 0 where
  wide : 0 < frame.width
  tall : 0 < frame.height
  row : frame.width * 4 % 2 ^ 32 ≡ frame.width * 4
  area : frame.width * 4 * frame.height ≡ length frame.pixels
  column : frame.height < 2 ^ 32

positive_factors : (a b : ℕ) → 0 < a * b * 4 → (0 < a) × (0 < b)
positive_factors zero b h = absurd (omega arith)
positive_factors (suc a) zero h = absurd (omega arith)
positive_factors (suc a) (suc b) h = (omega arith, omega arith)

IsServed-Sizes : (frame : FrameState) → IsServed frame → Sizes frame
IsServed-Sizes frame s =
    let some_bytes : 0 < length frame.pixels = filled frame.pixels s.filled in
    let product : frame.width * frame.height * 4 ≡ length frame.pixels = sym s.whole.size in
    let (wide, tall) =
      positive_factors frame.width frame.height (omega (arith, some_bytes, product)) in
    let across : frame.width * 1 ≤ frame.width * frame.height = mul-le-mul_left frame.width tall in
    let down : frame.height * 1 ≤ frame.height * frame.width = mul-le-mul_left frame.height wide in
    record {
      wide = wide;
      tall = tall;
      row = omega (arith, across, product, s.whole.small);
      area = omega (arith, product);
      column = omega (arith, down, product, s.whole.small);
    }
  where
    filled : (bytes : List ℕ) → is_empty bytes ≡ false → 0 < length bytes
    filled [] h = cc
    filled (b ∷ bs) h = omega arith

-- The reply for such a frame.
unfoldable pub served_reply : FrameState → CaptureReply
served_reply frame = record {
  magic = capture_magic;
  type = capture_reply;
  protocol_version = capture_protocol_version;
  status = 0;
  width = frame.width;
  height = frame.height;
  stride = frame.width * 4;
  payload_size = length frame.pixels;
}

frame_reply-served_reply :
    (frame : FrameState) → IsServed frame → frame_reply frame ≡ served_reply frame
unfolding frame_reply served_reply
frame_reply-served_reply frame s =
    let sizes = IsServed-Sizes frame s in
    let small : length frame.pixels % 2 ^ 32 ≡ length frame.pixels = omega (arith, s.whole.small) in
    rw (s.filled, sizes.row, small) refl

eq_true : (a b : ℕ) → a ≡ b → (a == b) ≡ true
eq_true a b h = (==_iff a b).1 h

nonzero : (a : ℕ) → 0 < a → (a == 0) ≡ false
nonzero a h = ground arith

served_reply-servable : (frame : FrameState) → IsServed frame → servable (served_reply frame) ≡ true
unfolding served_reply servable
served_reply-servable frame s =
    let sizes = IsServed-Sizes frame s in
    let payload : length frame.pixels ≡ frame.width * 4 * frame.height % 2 ^ 32 =
      omega (arith, sizes.area, s.whole.small) in
    let cap : leb (length frame.pixels) (2 ^ 28) ≡ true = ground arith in
    rw
      (
        nonzero frame.width sizes.wide,
        nonzero frame.height sizes.tall,
        eq_true (frame.width * 4) (frame.width * 4 % 2 ^ 32) (sym sizes.row),
        eq_true (length frame.pixels) (frame.width * 4 * frame.height % 2 ^ 32) payload,
        cap,
      )
      refl

served_reply-IsCaptureReply :
    (frame : FrameState)
    → IsServed frame
    → frame.width < 2 ^ 32
    → IsCaptureReply (served_reply frame)
unfolding served_reply
served_reply-IsCaptureReply frame s w =
    let sizes = IsServed-Sizes frame s in
    record {
      magic = omega arith;
      type = omega arith;
      protocol_version = omega arith;
      status = omega arith;
      width = w;
      height = sizes.column;
      stride = omega (arith, sizes.row);
      payload_size = omega (arith, s.whole.small);
    }

-- What `serve_frame` has sent where it succeeds.
serve_frame_sent :
    (frame : FrameState) (peer : Conn)
    → IsServed frame
    → (serve_frame frame peer).0 ≡ true
    → (serve_frame frame peer).1.sent
      ≡ peer.sent ++ (capture_reply_bytes (served_reply frame) ++ frame.pixels)
unfolding serve_frame
serve_frame_sent frame peer s =
    let reply = capture_reply_bytes (frame_reply frame) in
    let (replied, conn1) = send_all peer reply in
    let (sent, conn2) = send_all conn1 frame.pixels in
    let Sent_all : Bool × Conn → Type 0 = λ r.
      r.0 ≡ true
      → r.1.sent ≡ peer.sent ++ (capture_reply_bytes (served_reply frame) ++ frame.pixels) in
    let first = send_all-Sent peer reply in
    let second = send_all-Sent conn1 frame.pixels in
    if-cases Sent_all replied (if is_empty frame.pixels then (true, conn1) else (sent, conn2))
      (false, conn1)
      (λ e.
        if-cases Sent_all (is_empty frame.pixels) (true, conn1) (sent, conn2)
          (λ nothing h. false-ne-true (sym s.filled ∙ nothing))
          (λ filled done.
            second.prefix
            ∙ ap (λ ps. conn1.sent ++ ps) (second.whole done)
            ∙ ap (λ xs. xs ++ frame.pixels)
                (first.prefix ∙ ap (λ bs. peer.sent ++ bs) (first.whole e))
            ∙ append_assoc peer.sent reply frame.pixels
            ∙ ap (λ r. peer.sent ++ (capture_reply_bytes r ++ frame.pixels))
                (frame_reply-served_reply frame s)))
      (λ e h. false-ne-true h)

append_cancel : (xs : List ℕ) {ys zs : List ℕ} → xs ++ ys ≡ xs ++ zs → ys ≡ zs
append_cancel [] h = h
append_cancel (x ∷ xs) h = append_cancel xs (cc)

read_pixels_served :
    (frame : FrameState) (conn : Conn) (reply : List ℕ) {rest : List ℕ}
    → IsServed frame
    → read_capture_reply reply ≡ some (served_reply frame, [])
    → (socket_recv_all conn (length frame.pixels)).0 ≡ some frame.pixels
    → (socket_recv_all conn (length frame.pixels)).1.incoming ≡ rest
    → ((read_pixels true (some reply) conn).0 ≡ some (served_reply frame, frame.pixels))
      × ((after : Conn) × ((read_pixels true (some reply) conn).1 ≡ some after)
          × (after.incoming ≡ rest))
unfolding read_pixels
read_pixels_served frame conn reply s parsed pixels ended =
    rw (read_pixels, parsed, served_reply-servable frame s)
      (finished (served_reply frame) (socket_recv_all conn (served_reply frame).payload_size)
        (unfold served_reply in pixels) (unfold served_reply in ended))
  where
    finished :
        (r : CaptureReply) (result : Option (List ℕ) × Conn) {bytes rest : List ℕ}
        → result.0 ≡ some bytes
        → result.1.incoming ≡ rest
        → ((finish_frame r result).0 ≡ some (r, bytes))
          × ((after : Conn) × ((finish_frame r result).1 ≡ some after) × (after.incoming ≡ rest))
    finished r (none, conn) e f = cc
    finished r (some bytes, conn) e f = (cc, (conn, refl, f))

-- `exchange_frame` where the reply and the pixels come next.
exchange_frame_served :
    (frame : FrameState) (conn : Conn) (rest : List ℕ)
    → IsServed frame
    → frame.width < 2 ^ 32
    → conn.incoming ≡ capture_reply_bytes (served_reply frame) ++ (frame.pixels ++ rest)
    → Supplied (48 + length frame.pixels) conn
    → ((exchange_frame true (some conn)).0 ≡ some (served_reply frame, frame.pixels))
      × ((after : Conn) × ((exchange_frame true (some conn)).1 ≡ some after)
          × (after.incoming ≡ rest))
unfolding exchange_frame
exchange_frame_served frame conn rest s w come supply =
    let size = length frame.pixels in
    let reply = capture_reply_bytes (served_reply frame) in
    let ask = request_bytes frame_request in
    let (sent, supply1) = socket_send_all-Supplied conn ask (32 + size) (record {
      moving = supply.moving;
      enough = omega (arith, supply.enough, length-request_bytes frame_request);
    }) in
    let asked = (socket_send_all conn ask).1 in
    let came : asked.incoming ≡ reply ++ (frame.pixels ++ rest) =
      (socket_send_all-Sent conn ask).unread ∙ come in
    let (got, left, supply2) =
      socket_recv_all_front asked 32 size reply (frame.pixels ++ rest) came
        (length-capture_reply_bytes (served_reply frame)) supply1 in
    let reply_conn = (socket_recv_all asked 32).1 in
    let supply3 : Supplied (size + 0) reply_conn = record {
      moving = supply2.moving;
      enough = omega (arith, supply2.enough);
    } in
    let (pixels, ended, supply4) =
      socket_recv_all_front reply_conn size 0 frame.pixels rest left refl supply3 in
    let parsed : read_capture_reply reply ≡ some (served_reply frame, []) =
      ap read_capture_reply (sym (append-nil reply))
      ∙ read_capture_reply-capture_reply_bytes (served_reply frame) []
          (served_reply-IsCaptureReply frame s w) in
    rw (sent, got) (read_pixels_served frame reply_conn reply s parsed pixels ended)

-- A frame with pixels, whole and of at most 256 MB, that the helper serves and whose bytes come in
-- on the hook's open connection is the frame that the hook gets, with what follows it left, if
-- memory and the counts of the socket's calls are there.
pub request_frame-serve_frame :
    (frame : FrameState) (peer conn : Conn) (world : HookWorld) (served rest : List ℕ)
    → IsServed frame
    → frame.width < 2 ^ 32
    → (serve_frame frame peer).0 ≡ true
    → (serve_frame frame peer).1.sent ≡ peer.sent ++ served
    → conn.incoming ≡ served ++ rest
    → Supplied (48 + length frame.pixels) conn
    → ((request_frame true world (some conn)).0 ≡ some (served_reply frame, frame.pixels))
      × ((after : Conn) × ((request_frame true world (some conn)).1 ≡ some after)
          × (after.incoming ≡ rest))
unfolding request_frame present
request_frame-serve_frame frame peer conn world served rest s w ok out come supply =
    let reply = capture_reply_bytes (served_reply frame) in
    let bytes : served ≡ reply ++ frame.pixels =
      append_cancel peer.sent (sym out ∙ serve_frame_sent frame peer s ok) in
    exchange_frame_served frame conn rest s w
      (come ∙ ap (λ bs. bs ++ rest) bytes ∙ append_assoc reply frame.pixels rest) supply
