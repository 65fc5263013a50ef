-- ===== src/Capture/Bitblt.antt =====
-- `capture_bitblt` of src/wayland_capture_hook.c: what a program that copies the screen gets.
use driver_uu_remote.Base.{
  ℕ, ◌*◌, ◌/◌, ◌%◌, ◌^◌, ◌≤◌, ◌<◌, ◌≡◌, refl, ap, subst, ◌∙◌, Bool, true, false, not, ◌||◌, ◌&&◌,
  List, Option, none, some, length, length-take, ◌==◌, Option-cases, inl, inr, if◌then◌else◌,
  if-cases, arith,
}
use native.Mathlib.Nat.{mul-le-mul_left}
use driver_uu_remote.Base.Signed.{signed_ltb}
use driver_uu_remote.Transport.{Conn, socket_send_all, socket_recv_all}
use driver_uu_remote.Transport.Laws.{socket_recv_all-Read}
use driver_uu_remote.Capture.Input.{present}
use driver_uu_remote.Capture.Messages.{CaptureReply, read_capture_reply, request_bytes}
use driver_uu_remote.Capture.Frames.{
  Frame, HookWorld, connect_helper, frame_request, servable, finish_frame, read_pixels,
  exchange_frame, request_frame,
}

-- The arguments of BitBlt; the ints are 32-bit words.
pub record Blit : Type 0 where
  pub destination : ℕ
  pub x_destination : ℕ
  pub y_destination : ℕ
  pub width : ℕ
  pub height : ℕ
  pub source : ℕ
  pub x_source : ℕ
  pub y_source : ℕ
  pub operation : ℕ

-- What GDI is asked to do: the replaced function with the same arguments, or StretchDIBits of a whole
-- picture, 32 bits a pixel and its first row on top.
pub data Drawing : Type 0 where
  original : Blit → Drawing
  stretched : Blit → Frame → Drawing

-- The sizes of the screen, and what the two drawing functions answer.
pub record Gdi : Type 0 where
  pub screen_width : ℕ
  pub screen_height : ℕ
  pub original_bitblt : Blit → Bool
  pub stretch : Blit → Frame → ℕ

pub record Blitted : Type 0 where
  pub result : Bool
  pub drawing : Drawing
  pub last_error : Option ℕ

-- CAPTUREBLT is 2^30.
unfoldable pub capture_operation : Gdi → Blit → Bool
capture_operation gdi blit =
    (blit.operation / 2 ^ 30 % 2 == 1)
    || ((blit.x_source == 0)
        && ((blit.y_source == 0)
            && (not (signed_ltb blit.width gdi.screen_width)
                && not (signed_ltb blit.height gdi.screen_height))))

-- Copies nothing, as an int.
abbrev pub nonpositive : ℕ → Bool
nonpositive word = not (signed_ltb 0 word)

abbrev pub error_invalid_data : ℕ
error_invalid_data = 13

unfoldable pub pass_on : Gdi → Blit → Blitted
pass_on gdi blit = record {
  result = gdi.original_bitblt blit;
  drawing = original blit;
  last_error = none;
}

-- The drawing of the frame, if there is one.
unfoldable pub draw : Gdi → Blit → Option Frame → Blitted
unfolding pass_on
draw gdi blit none = pass_on gdi blit
draw gdi blit (some frame) =
    if nonpositive (gdi.stretch blit frame)
    then record {
      result = false;
      drawing = stretched blit frame;
      last_error = some error_invalid_data;
    }
    else record { result = true; drawing = stretched blit frame; last_error = none }

unfoldable pub capture_bitblt : Bool → HookWorld → Gdi → Blit → Option Conn → Blitted × Option Conn
unfolding capture_operation draw
capture_bitblt allocated world gdi blit connection =
    let (frame, after) = request_frame allocated world connection in
    if not (capture_operation gdi blit) || (nonpositive blit.width || nonpositive blit.height)
    then (pass_on gdi blit, connection)
    else (draw gdi blit frame, after)

-- A frame that passed the tests of its reply, with the bytes that it announces.
pub record IsServable (frame : Frame) : Type 0 where
  pub checked : servable frame.0 ≡ true
  pub whole : length frame.1 ≡ frame.0.payload_size

finish_frame-IsServable :
    (reply : CaptureReply) (r : Option (List ℕ) × Conn) (frame : Frame)
    → servable reply ≡ true
    → ((bytes : List ℕ) → r.0 ≡ some bytes → length bytes ≡ reply.payload_size)
    → (finish_frame reply r).0 ≡ some frame
    → IsServable frame
unfolding finish_frame
finish_frame-IsServable reply (none, conn) frame ok whole e = cc
finish_frame-IsServable reply (some pixels, conn) frame ok whole e =
    let same : (reply, pixels) ≡ frame = cc in
    subst IsServable same (record { checked = ok; whole = whole pixels refl })

received-whole :
    (conn : Conn) (size : ℕ) (bytes : List ℕ)
    → (socket_recv_all conn size).0 ≡ some bytes
    → length bytes ≡ size
received-whole conn size bytes e =
    let r = socket_recv_all-Read conn size e in
    ap length r.content ∙ omega (arith, length-take size conn.incoming, r.enough)

-- An answer whose frame, if it has one, is servable.
Answers : Option Frame × Option Conn → Type 0
Answers answer = (frame : Frame) → answer.0 ≡ some frame → IsServable frame

nothing_answers : (conn : Option Conn) → Answers (none, conn)
unfolding Answers
nothing_answers conn frame e = cc

finish_frame-Answers :
    (conn : Conn) (reply : CaptureReply)
    → servable reply ≡ true
    → Answers (finish_frame reply (socket_recv_all conn reply.payload_size))
unfolding Answers
finish_frame-Answers conn reply ok frame =
    finish_frame-IsServable reply (socket_recv_all conn reply.payload_size) frame ok
      (received-whole conn reply.payload_size)

read_pixels-Answers :
    (allocated : Bool) (bytes : Option (List ℕ)) (conn : Conn)
    → Answers (read_pixels allocated bytes conn)
unfolding read_pixels
read_pixels-Answers allocated none conn = nothing_answers none
read_pixels-Answers allocated (some bytes) conn = elim (Option-cases (read_capture_reply bytes)) [
  | inl missing ↦ rw (missing, read_pixels) (nothing_answers none)
  | inr ((reply, rest), got) ↦
      rw (got, read_pixels)
        (if-cases Answers (servable reply) _ (none, none)
          (λ ok.
            if-cases Answers allocated _ (none, none) (λ _. finish_frame-Answers conn reply ok)
              (λ _. nothing_answers none))
          (λ _. nothing_answers none))
]

exchange_frame-Answers :
    (allocated : Bool) (connection : Option Conn) → Answers (exchange_frame allocated connection)
unfolding exchange_frame
exchange_frame-Answers allocated none = nothing_answers none
exchange_frame-Answers allocated (some conn) =
    let sent = socket_send_all conn (request_bytes frame_request) in
    let answer = socket_recv_all sent.1 32 in
    if-cases Answers sent.0 _ (none, none) (λ _. read_pixels-Answers allocated answer.0 answer.1)
      (λ _. nothing_answers none)

-- A blit that was answered with a picture: the same blit, and a picture that passed the tests.
record IsDrawn (blit drawn : Blit) (frame : Frame) : Type 0 where
  same : drawn ≡ blit
  served : IsServable frame

draw-IsDrawn :
    (gdi : Gdi) (blit drawn : Blit) (found : Option Frame) (frame : Frame)
    → ((f : Frame) → found ≡ some f → IsServable f)
    → (draw gdi blit found).drawing ≡ stretched drawn frame
    → IsDrawn blit drawn frame
unfolding draw pass_on
draw-IsDrawn gdi blit drawn none frame ok = λ e. cc
draw-IsDrawn gdi blit drawn (some f) frame ok =
    if-cases (λ (b : Blitted). b.drawing ≡ stretched drawn frame → IsDrawn blit drawn frame)
      (nonpositive (gdi.stretch blit f)) _ _ (λ _. same) (λ _. same)
  where
    same : stretched blit f ≡ stretched drawn frame → IsDrawn blit drawn frame
    same e =
        let s : f ≡ frame = cc in
        let b : drawn ≡ blit = cc in record { same = b; served = subst IsServable s (ok f refl) }

capture_bitblt-IsDrawn :
    (allocated : Bool) (world : HookWorld) (gdi : Gdi) (blit drawn : Blit) (frame : Frame)
    (connection : Option Conn)
    → (capture_bitblt allocated world gdi blit connection).0.drawing ≡ stretched drawn frame
    → IsDrawn blit drawn frame
unfolding capture_bitblt pass_on request_frame Answers
capture_bitblt-IsDrawn allocated world gdi blit drawn frame connection =
    if-cases
      (λ (b : Blitted × Option Conn).
        b.0.drawing ≡ stretched drawn frame → IsDrawn blit drawn frame)
      (not (capture_operation gdi blit) || (nonpositive blit.width || nonpositive blit.height)) _ _
      (λ _ e. cc)
      (λ _.
        draw-IsDrawn gdi blit drawn _ frame
          (exchange_frame-Answers allocated (present connection (connect_helper world))))

servable-size :
    (reply : CaptureReply)
    → servable reply ≡ true
    → reply.width * reply.height * 4 < 2 ^ 32
    → reply.payload_size ≡ reply.width * reply.height * 4
unfolding servable
servable-size reply ok fits =
    let tall : 0 < reply.height = ground arith in
    let line : reply.stride ≡ reply.width * 4 % 2 ^ 32 = ground arith in
    let size : reply.payload_size ≡ reply.stride * reply.height % 2 ^ 32 = ground arith in
    let area : reply.width * 1 ≤ reply.width * reply.height = mul-le-mul_left reply.width tall in
    let whole : reply.stride ≡ reply.width * 4 = omega (arith, line, area, fits) in
    let product : reply.width * 4 * reply.height ≡ reply.width * reply.height * 4 = omega arith in
    size ∙ ap (λ n. n * reply.height % 2 ^ 32) whole ∙ omega (arith, product, fits)

-- Where a blit is answered with a picture, it is drawn for this blit, and the buffer that came
-- from the helper has every byte that StretchDIBits reads, four for each pixel of the size
-- announced, if that number of bytes fits 32 bits.
pub capture_bitblt-InBuffer :
    (allocated : Bool) (world : HookWorld) (gdi : Gdi) (blit drawn : Blit) (frame : Frame)
    (connection : Option Conn)
    → (capture_bitblt allocated world gdi blit connection).0.drawing ≡ stretched drawn frame
    → frame.0.width * frame.0.height * 4 < 2 ^ 32
    → (drawn ≡ blit) × (length frame.1 ≡ frame.0.width * frame.0.height * 4)
capture_bitblt-InBuffer allocated world gdi blit drawn frame connection e fits =
    let d = capture_bitblt-IsDrawn allocated world gdi blit drawn frame connection e in
    (d.same, d.served.whole ∙ servable-size frame.0 d.served.checked fits)
