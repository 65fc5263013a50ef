-- ===== src/Amf/Component/Submit.antt =====
-- What `component_submit` of src/amfrt_bridge.c sends, and what it does with the helper's answer.
use driver_uu_remote.Base.{
  ℕ, zero, suc, ◌+◌, ◌*◌, ◌/◌, ◌%◌, ◌^◌, ◌≤◌, ◌<◌, ◌≡◌, refl, sym, ap, ◌∙◌, Bool, true, false, not,
  ◌&&◌, ◌||◌, List, [], ◌∷◌, ◌++◌, Option, none, some, length, length-append, take, drop, ◌==◌,
  arith, append_assoc, append-nil, ltb, ltb→lt, inl, inr, ◌⊎◌, Bool-cases, Option-cases,
}
use driver_uu_remote.Wire.{HelperFrameMessage, frame_bytes}
use driver_uu_remote.Transport.{Conn, socket_send_all, socket_recv_all}
use driver_uu_remote.Transport.Laws.{socket_send_all-Sent, socket_recv_all-Read}
use driver_uu_remote.Amf.Results.{AmfResult, ok, fail, out_of_memory, input_full}
use driver_uu_remote.Amf.Outputs.{BridgeBuffer, max_outputs, Outputs, component_queue_output}
use driver_uu_remote.Amf.Outputs.Fifo.{Queues, queue_output-append, queue_output-full}
use driver_uu_remote.Amf.Component.{
  Component, Surface, SubmitWorld, row, rows, frame_size, map_surface_bytes, exchange, replied,
  answered_size, receive_packet,
}

length-row : (pixels : ℕ → ℕ) (address count : ℕ) → length (row pixels address count) ≡ count
unfolding row
length-row pixels address zero = refl
length-row pixels address (suc count) = ap suc (length-row pixels (address + 1) count)

length-rows : (s : Surface) (width y count : ℕ) → length (rows s width y count) ≡ count * width
unfolding rows
length-rows s width y zero = omega arith
length-rows s width y (suc count) = omega (
  arith,
  length-append (row s.pixels (y * s.pitch) width) (rows s width (y + 1) count),
  length-row s.pixels (y * s.pitch) width,
  length-rows s width (y + 1) count,
)

drop_all {ℓ} : {A : Type ℓ} (n : ℕ) (xs : List A) → length xs ≤ n → drop n xs ≡ []
drop_all zero [] h = refl
drop_all zero (x ∷ xs) h = absurd (omega arith)
drop_all (suc n) [] h = refl
drop_all (suc n) (x ∷ xs) h = drop_all n xs (omega arith)

half_even : (w k : ℕ) → w * (2 * k) * 3 / 2 ≡ 2 * k * w + k * w
half_even w k = let e : w * (2 * k) * 3 ≡ (w * k * 3) * 2 = omega arith in rw e (omega arith)

frame_size-small :
    (width height : ℕ)
    → width * height * 3 < 2 ^ 31
    → frame_size width height ≡ width * height * 3 / 2
unfolding frame_size
frame_size-small width height small =
    let same : width * height * 3 % 2 ^ 32 ≡ width * height * 3 = omega arith in
    rw same (ground arith)

-- For an even height whose frame is shorter than 2 ^ 31 bytes the frame is the rows of the luma
-- plane and those of the chroma plane, `3 / 2` of the picture's size, with nothing of the memory
-- that `malloc` gave left in it.
pub map_surface_bytes-rows :
    (world : SubmitWorld) (c : Component) (s : Surface) (half : ℕ) (memory : List ℕ)
    → s.is_nv12 ≡ true
    → s.width ≡ c.width
    → s.height ≡ c.height
    → c.height ≡ 2 * half
    → c.width * c.height * 3 < 2 ^ 31
    → world.has_staging ≡ true
    → world.is_mapped ≡ true
    → world.frame_memory (c.width * c.height * 3 / 2) ≡ some memory
    → length memory ≡ c.width * c.height * 3 / 2
    → (map_surface_bytes world c s
        ≡ (ok, rows s c.width 0 c.height ++ rows s c.width c.height (c.height / 2)))
      × (length (map_surface_bytes world c s).1 ≡ c.width * c.height * 3 / 2)
unfolding map_surface_bytes
map_surface_bytes-rows world c s half memory f w h even small st mp m lm =
    let wrap = frame_size-small c.width c.height small in
    let checks : (not s.is_nv12 || (not (s.width == c.width) || not (s.height == c.height)))
        ≡ false =
      ground arith in
    let ready : not (world.has_staging && world.is_mapped) ≡ false = ground arith in
    let total : length (rows s c.width 0 c.height ++ rows s c.width c.height (c.height / 2))
        ≡ c.width * c.height * 3 / 2 =
      length-append (rows s c.width 0 c.height) (rows s c.width c.height (c.height / 2))
      ∙ sizes c.width c.height half even in
    let nothing =
      drop_all (length (rows s c.width 0 c.height ++ rows s c.width c.height (c.height / 2))) memory
        (omega arith) in
    rw (checks, ready, wrap, m, nothing, append-nil) (refl, total)
  where
    sizes :
        (w h half : ℕ)
        → h ≡ 2 * half
        → length (rows s w 0 h) + length (rows s w h (h / 2)) ≡ w * h * 3 / 2
    sizes w h half e =
        let k : h / 2 ≡ half = omega arith in
        rw (length-rows, length-rows, k, e) (sym (half_even w half))

-- An exchange that the helper accepts has sent the header and the frame and has read a reply of
-- 24 bytes.
pub record Exchanged (conn : Conn) (header : HelperFrameMessage) (frame : List ℕ) (size : ℕ)
    (after : Conn) : Type 0 where
  pub sent : after.sent ≡ conn.sent ++ (frame_bytes header ++ frame)
  pub answer : replied (take 24 conn.incoming) ≡ some size
  pub rest : after.incoming ≡ drop 24 conn.incoming

answered_size-some :
    (first second : Bool) (reply : Option (List ℕ)) (size : ℕ)
    → answered_size first second reply ≡ some size
    → (bytes : List ℕ) × (first ≡ true)
      × (second ≡ true)
      × (reply ≡ some bytes)
      × (replied bytes ≡ some size)
unfolding answered_size
answered_size-some false second reply size h = cc
answered_size-some true false reply size h = cc
answered_size-some true true none size h = cc
answered_size-some true true (some bytes) size h = (bytes, refl, refl, refl, h)

-- An exchange with the helper that yields a payload size has sent the header and the frame in this
-- order, has read a reply of 24 bytes that announces the size, and has read nothing more.
pub exchange-Exchanged :
    (conn : Conn) (header : HelperFrameMessage) (frame : List ℕ) (size : ℕ)
    → (exchange conn header frame).0 ≡ some size
    → Exchanged conn header frame size (exchange conn header frame).1
unfolding exchange
exchange-Exchanged conn header frame size h =
    let p = socket_send_all-Sent conn (frame_bytes header) in
    let mid = (socket_send_all conn (frame_bytes header)).1 in
    let q = socket_send_all-Sent mid frame in
    let last = (socket_send_all mid frame).1 in
    let (bytes, one, two, got, fine) =
      answered_size-some (socket_send_all conn (frame_bytes header)).0 (socket_send_all mid frame).0
        (socket_recv_all last 24).0 size h in
    let r = socket_recv_all-Read last 24 got in
    record {
      sent =
          r.unsent
          ∙ q.prefix
          ∙ ap (λ xs. mid.sent ++ xs) (q.whole two)
          ∙ ap (λ xs. xs ++ frame) (p.prefix ∙ ap (λ xs. conn.sent ++ xs) (p.whole one))
          ∙ append_assoc conn.sent (frame_bytes header) frame;
      answer = ap replied (ap (take 24) (sym p.unread ∙ sym q.unread) ∙ sym r.content) ∙ fine;
      rest = r.rest ∙ ap (drop 24) (q.unread ∙ p.unread);
    }

-- The queue after one packet more has been offered to it.
offered :
    (packets : List BridgeBuffer) (buffer : BridgeBuffer) (o : Outputs)
    → Queues packets o
    → ((component_queue_output o buffer).0 ≡ true
        × Queues (packets ++ (buffer ∷ [])) (component_queue_output o buffer).1)
      ⊎ ((length packets ≡ max_outputs) × (component_queue_output o buffer ≡ (false, o)))
offered packets buffer o q = elim (Bool-cases (ltb (length packets) max_outputs)) [
  | inl room ↦
      inl (queue_output-append packets buffer o q (ltb→lt (length packets) max_outputs room))
  | inr full ↦
      let all : length packets ≡ max_outputs = ground (arith, q.few) in
      inr (all, queue_output-full packets buffer o q all)
]

-- What becomes of an announced packet.
pub record Queued (packets : List BridgeBuffer) (s : Surface) (conn : Conn) (size : ℕ)
    (after : Component) : Type 0 where
  pub came : size ≤ length conn.incoming
  pub queue :
      Queues
        (packets
          ++ (record { bytes = take size conn.incoming; pts = s.pts; duration = s.duration } ∷ []))
        after.outputs
  pub link : Conn
  pub helper : after.helper ≡ some link
  pub rest : link.incoming ≡ drop size conn.incoming

-- Why an announced packet is not put into the queue, and what is answered then.
pub data Refusal (world : SubmitWorld) (packets : List BridgeBuffer) (conn : Conn) (size : ℕ)
    : AmfResult → Type 0 where
  no_memory : world.has_packet_memory ≡ false → Refusal world packets conn size fail
  cut_short : (socket_recv_all conn size).0 ≡ none → Refusal world packets conn size fail
  no_buffer : world.has_buffer ≡ false → Refusal world packets conn size out_of_memory
  no_room : length packets ≡ max_outputs → Refusal world packets conn size input_full

-- Where a packet is announced, AMF_OK is answered if it has come whole and is the last of the
-- queue now, with the times of its frame and the connection behind it; else the queue is as it
-- was, and the answer names the reason: memory for the packet or its buffer, a receipt that
-- failed, or eight packets in the queue.
pub receive_packet-Queued :
    (world : SubmitWorld) (c : Component) (s : Surface) (conn : Conn) (size : ℕ)
    (packets : List BridgeBuffer)
    → Queues packets c.outputs
    → let (result, after) = receive_packet world c s conn (suc size) in
      ((result ≡ ok) × Queued packets s conn (suc size) after)
      ⊎ (Refusal world packets conn (suc size) result × (after.outputs ≡ c.outputs))
unfolding receive_packet
receive_packet-Queued world c s conn size packets q = elim (Bool-cases world.has_packet_memory) [
  | inr m ↦ rw (m, receive_packet) (inr (no_memory refl, refl))
  | inl m ↦ elim (Option-cases (socket_recv_all conn (suc size)).0) [
    | inl cut ↦ rw (m, receive_packet, cut) (inr (cut_short cut, refl))
    | inr (bytes, got) ↦ elim (Bool-cases world.has_buffer) [
      | inr b ↦ rw (m, receive_packet, got, b) (inr (no_buffer refl, refl))
      | inl b ↦
          let r = socket_recv_all-Read conn (suc size) got in
          let buffer : BridgeBuffer = record {
            bytes = take (suc size) conn.incoming;
            pts = s.pts;
            duration = s.duration;
          } in
          elim (offered packets buffer c.outputs q) [
            | inl (queued, holds) ↦
                rw (m, receive_packet, got, b, r.content, queued)
                  (inl (
                    refl,
                    record {
                      came = r.enough;
                      queue = holds;
                      link = (socket_recv_all conn (suc size)).1;
                      helper = refl;
                      rest = r.rest;
                    },
                  ))
            | inr (all, full) ↦
                rw (m, receive_packet, got, b, r.content, full) (inr (no_room all, refl))
          ]
    ]
  ]
]

-- Where `malloc` finds no room for an announced packet, AMF_FAIL is answered with the session
-- still open and the packet still unread on its connection.
pub receive_packet-unread :
    (world : SubmitWorld) (c : Component) (s : Surface) (conn : Conn) (size : ℕ)
    → world.has_packet_memory ≡ false
    → receive_packet world c s conn (suc size) ≡ (fail, record c { helper = some conn })
unfolding receive_packet
receive_packet-unread world c s conn size m = rw m
