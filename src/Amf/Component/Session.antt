-- ===== src/Amf/Component/Session.antt =====
-- How `component_init` of src/amfrt_bridge.c opens a session with the helper, and how it backs off.
use driver_uu_remote.Base.{
  ℕ, ◌+◌, ◌-◌, ◌%◌, ◌^◌, ◌≤◌, ◌<◌, ◌≡◌, ◌≢◌, refl, sym, ap, ◌∙◌, inl, inr, Bool, true, false, ◌||◌,
  List, [], ◌++◌, Option, none, some, ltb, if◌then◌else◌, Bool-cases, Option-cases, arith, take,
  drop, append-nil, ◌⊎◌,
}
use driver_uu_remote.Base.Int.{ℤ, pos, negsuc}
use driver_uu_remote.Wire.{
  helper_magic, helper_init, helper_protocol_version, HelperInitMessage, init_bytes, read_init,
}
use driver_uu_remote.Wire.Laws.{IsInit, read_init-init_bytes}
use driver_uu_remote.Transport.{Conn, socket_send_all, socket_recv_all}
use driver_uu_remote.Transport.Laws.{socket_send_all-Sent, socket_recv_all-Read}
use driver_uu_remote.Amf.Results.{AmfResult, ok, encoder_not_present}
use driver_uu_remote.Amf.Component.{
  SurfaceFormat, nv12, other, nv12_code, Component, component_close_codec, InitWorld, backing_off,
  open_helper, init_message, accepts, answered, handshake, init_session, component_init,
}

-- What an accepted answer says.
record Accepted (sent : Bool) (reply : Option (List ℕ)) (conn after : Conn) : Type 0 where
  whole : sent ≡ true
  bytes : List ℕ
  read : reply ≡ some bytes
  accepted : accepts bytes ≡ true
  same : conn ≡ after

answered-Accepted :
    (sent : Bool) (reply : Option (List ℕ)) (conn : Conn) {after : Conn}
    → answered sent reply conn ≡ some after
    → Accepted sent reply conn after
unfolding answered
answered-Accepted false reply conn h = cc
answered-Accepted true none conn h = cc
answered-Accepted true (some bytes) conn h = elim (Bool-cases (accepts bytes)) [
  | inl e ↦ record {
    whole = refl;
    bytes = bytes;
    read = refl;
    accepted = e;
    same = some_eq (rw e at h);
  }
  | inr e ↦ absurd (none-ne (rw e at h))
]
  where
    none-ne : {conn : Conn} → none ≡ some conn → ⊥
    none-ne p = cc

    some_eq : {a b : Conn} → some a ≡ some b → a ≡ b
    some_eq p = cc

-- A handshake that succeeds has sent the message and read an accepted reply of eight bytes.
handshake-lem :
    (conn : Conn) (message : HelperInitMessage) {after : Conn}
    → handshake conn message ≡ some after
    → (after.sent ≡ conn.sent ++ init_bytes message)
      × (accepts (take 8 conn.incoming) ≡ true)
      × (after.incoming ≡ drop 8 conn.incoming)
unfolding handshake
handshake-lem conn message h =
    let s = socket_send_all-Sent conn (init_bytes message) in
    let mid = (socket_send_all conn (init_bytes message)).1 in
    let a = answered-Accepted _ (socket_recv_all mid 8).0 (socket_recv_all mid 8).1 h in
    let r = socket_recv_all-Read mid 8 a.read in
    let all : mid.sent ≡ conn.sent ++ init_bytes message =
      s.prefix ∙ ap (λ xs. conn.sent ++ xs) (s.whole a.whole) in
    (
      ap (λ (k : Conn). k.sent) (sym a.same) ∙ r.unsent ∙ all,
      ap accepts (ap (take 8) (sym s.unread) ∙ sym r.content) ∙ a.accepted,
      ap (λ (k : Conn). k.incoming) (sym a.same) ∙ r.rest ∙ ap (drop 8) s.unread,
    )

-- The message of the protocol for an NV12 session of this size, with the bitrate and the rate of the
-- property store, where a rate that is not positive is replaced.
pub record Asks (world : InitWorld) (w h : ℕ) (m : HelperInitMessage) : Type 0 where
  pub magic : m.magic ≡ helper_magic
  pub type : m.type ≡ helper_init
  pub width : m.width ≡ w
  pub height : m.height ≡ h
  pub format : m.format ≡ nv12_code
  pub version : m.reserved ≡ helper_protocol_version
  pub bitrate : m.bitrate ≡ world.bitrate
  pub rate : m.fps_num ≡ (if ltb 0 world.rate_num then world.rate_num else 30)
  pub base : m.fps_den ≡ (if ltb 0 world.rate_den then world.rate_den else 1)

init_message-Asks : (world : InitWorld) (w h : ℕ) → Asks world w h (init_message world w h)
unfolding init_message
init_message-Asks world w h = record {
  magic = refl;
  type = refl;
  width = refl;
  height = refl;
  format = refl;
  version = refl;
  bitrate = refl;
  rate = refl;
  base = refl;
}

-- The session that a successful `component_init` leaves.
pub record IsSession (world : InitWorld) (w h : ℕ) (conn : Conn) (before after : Component)
    : Type 0 where
  pub link : Conn
  pub helper : after.helper ≡ some link
  pub message : HelperInitMessage
  pub asks : Asks world w h message
  pub told : link.sent ≡ conn.sent ++ init_bytes message
  pub agreed : accepts (take 8 conn.incoming) ≡ true
  pub size : (after.width ≡ w) × (after.height ≡ h)
  pub started : (after.initialized ≡ true) × (after.format ≡ nv12) × (after.next_pts ≡ 0)
  pub kept : (after.outputs ≡ before.outputs) × (after.draining ≡ before.draining)

-- `init_session` after the connection is known.
init_session-IsSession :
    (world : InitWorld) (failure : ℕ) (c : Component) (w h : ℕ)
    → (init_session world failure c w h).0 ≡ ok
    → (conn : Conn) × ((open_helper world failure c.helper).0 ≡ some conn)
      × IsSession world w h conn c (init_session world failure c w h).1
      × ((init_session world failure c w h).2 ≡ 0)
unfolding init_session
init_session-IsSession world failure c w h e =
    elim (Option-cases (open_helper world failure c.helper).0) [
      | inl o ↦ absurd (refused (rw (o, init_session) at e))
      | inr (conn, o) ↦ elim (Option-cases (handshake conn (init_message world w h))) [
        | inl k ↦ absurd (refused (rw (o, init_session, k) at e))
        | inr (link, k) ↦
            let (told, agreed, rest) = handshake-lem conn (init_message world w h) k in
            rw (o, init_session, k)
              (
                conn,
                refl,
                record {
                  link = link;
                  helper = refl;
                  message = init_message world w h;
                  asks = init_message-Asks world w h;
                  told = told;
                  agreed = agreed;
                  size = (refl, refl);
                  started = (refl, refl, refl);
                  kept = (refl, refl);
                },
                refl,
              )
      ]
    ]
  where
    refused : encoder_not_present ≡ ok → ⊥
    refused p = cc

-- What a successful `component_init` has found in its arguments.
pub record Checked (world : InitWorld) (failure : ℕ) (c : Component) (format : SurfaceFormat)
    (width height : ℤ) : Type 0 where
  pub w : ℕ
  pub h : ℕ
  pub is_nv12 : format ≡ nv12
  pub wide : (width ≡ pos w) × (128 ≤ w)
  pub tall : (height ≡ pos h) × (128 ≤ h)
  pub closed : c.initialized ≡ false
  pub session :
      component_init world failure c format width height ≡ init_session world failure c w h

init_checks :
    (world : InitWorld) (failure : ℕ) (c : Component) (format : SurfaceFormat) (width height : ℤ)
    → (component_init world failure c format width height).0 ≡ ok
    → Checked world failure c format width height
unfolding component_init
init_checks world failure c (other code) width height e = absurd (ground arith)
init_checks world failure c nv12 (negsuc w) height e = absurd (ground arith)
init_checks world failure c nv12 (pos w) (negsuc h) e = absurd (ground arith)
init_checks world failure c nv12 (pos w) (pos h) e = record {
  w = w;
  h = h;
  is_nv12 = refl;
  wide = (refl, ground arith);
  tall = (refl, ground arith);
  closed = ground arith;
  session = ground arith;
}

-- A `component_init` that succeeds.
pub record Opened (world : InitWorld) (failure : ℕ) (c : Component) (format : SurfaceFormat)
    (width height : ℤ) (answer : AmfResult × Component × ℕ) : Type 0 where
  pub w : ℕ
  pub h : ℕ
  pub is_nv12 : format ≡ nv12
  pub wide : (width ≡ pos w) × (128 ≤ w)
  pub tall : (height ≡ pos h) × (128 ≤ h)
  pub closed : c.initialized ≡ false
  pub conn : Conn
  pub connected : (open_helper world failure c.helper).0 ≡ some conn
  pub session : IsSession world w h conn c answer.1
  pub cleared : answer.2 ≡ 0

-- A `component_init` that succeeds was not initialised before and was given NV12 and sides of at
-- least 128; it has sent the helper the message with these sides, the format, the version and the
-- rates, has read an accepted reply, and clears the time of the last failure.
pub component_init-IsSession :
    (world : InitWorld) (failure : ℕ) (c : Component) (format : SurfaceFormat) (width height : ℤ)
    → (component_init world failure c format width height).0 ≡ ok
    → Opened world failure c format width height
        (component_init world failure c format width height)
component_init-IsSession world failure c format width height e =
    let k = init_checks world failure c format width height e in
    let (conn, o, s, z) = init_session-IsSession world failure c k.w k.h (rw k.session at e) in
    rw k.session (record {
      w = k.w;
      h = k.h;
      is_nv12 = k.is_nv12;
      wide = k.wide;
      tall = k.tall;
      closed = k.closed;
      conn = conn;
      connected = o;
      session = s;
      cleared = z;
    })

-- A `component_init` that fails leaves the component as it was, or with its connection closed.
pub component_init-failed :
    (world : InitWorld) (failure : ℕ) (c : Component) (format : SurfaceFormat) (width height : ℤ)
    → (component_init world failure c format width height).0 ≢ ok
    → ((component_init world failure c format width height).1 ≡ c)
      ⊎ ((component_init world failure c format width height).1 ≡ component_close_codec c)
unfolding component_init init_session
component_init-failed world failure c (other code) width height e = ground arith
component_init-failed world failure c nv12 (negsuc w) height e = ground arith
component_init-failed world failure c nv12 (pos w) (negsuc h) e = ground arith
component_init-failed world failure c nv12 (pos w) (pos h) e = ground arith

-- Within a second of a failed connection `component_init` without one answers
-- AMF_ENCODER_NOT_PRESENT, whatever the network would do, and changes nothing.
pub component_init-backoff :
    (world : InitWorld) (failure : ℕ) (c : Component) (w h : ℕ)
    → c.initialized ≡ false
    → c.helper ≡ none
    → 128 ≤ w
    → 128 ≤ h
    → 0 < failure
    → failure ≤ world.now
    → world.now < failure + 1000
    → world.now < 2 ^ 64
    → component_init world failure c nv12 (pos w) (pos h) ≡ (encoder_not_present, c, failure)
unfolding component_init init_session open_helper
component_init-backoff world failure c w h i n hw hh nz le lt small =
    let age : (world.now + 2 ^ 64 - failure) % 2 ^ 64 ≡ world.now - failure = omega arith in
    let wait : backing_off failure world.now ≡ true = rw age (ground arith) in
    let big : (ltb w 128 || ltb h 128) ≡ false = ground arith in ground (arith, wait, big)

-- The sides and rates fit their fields.
pub record Fits (world : InitWorld) (width height : ℤ) : Type 0 where
  pub wide : (w : ℕ) → width ≡ pos w → w < 2 ^ 31
  pub tall : (h : ℕ) → height ≡ pos h → h < 2 ^ 31
  pub bitrate : world.bitrate < 2 ^ 64
  pub rate_num : world.rate_num < 2 ^ 32
  pub rate_den : world.rate_den < 2 ^ 32

Asks-IsInit :
    (world : InitWorld) (width height : ℤ) (w h : ℕ) (m : HelperInitMessage)
    → Fits world width height
    → width ≡ pos w
    → height ≡ pos h
    → Asks world w h m
    → IsInit m
Asks-IsInit world width height w h m f ew eh a =
    let num : (if ltb 0 world.rate_num then world.rate_num else 30) < 2 ^ 32 =
      ground (arith, f.rate_num) in
    let den : (if ltb 0 world.rate_den then world.rate_den else 1) < 2 ^ 32 =
      ground (arith, f.rate_den) in
    record {
      magic = omega (arith, a.magic);
      type = omega (arith, a.type);
      width = omega (arith, a.width, f.wide w ew);
      height = omega (arith, a.height, f.tall h eh);
      format = omega (arith, a.format);
      reserved = omega (arith, a.version);
      bitrate = omega (arith, a.bitrate, f.bitrate);
      fps_num = rw a.rate num;
      fps_den = rw a.base den;
    }

-- Where `component_init` answers AMF_OK on a new connection, the bytes that it has sent read back
-- as one message with the magic number, the type, the format and the version of an encoder's
-- session and the very sides that were asked for, and nothing follows it, if the sides and rates
-- fit their fields.
pub session-read_init :
    (world : InitWorld) (failure : ℕ) (c : Component) (format : SurfaceFormat) (width height : ℤ)
    → Fits world width height
    → (component_init world failure c format width height).0 ≡ ok
    → ((conn : Conn) → (open_helper world failure c.helper).0 ≡ some conn → conn.sent ≡ [])
    → (link : Conn) × ((component_init world failure c format width height).1.helper ≡ some link)
      × ((message : HelperInitMessage) × (w : ℕ) × (h : ℕ) × (width ≡ pos w)
          × (height ≡ pos h)
          × Asks world w h message
          × (read_init link.sent ≡ some (message, [])))
session-read_init world failure c format width height fits e fresh =
    let o = component_init-IsSession world failure c format width height e in
    let s = o.session in
    let told : s.link.sent ≡ init_bytes s.message =
      s.told ∙ ap (λ xs. xs ++ init_bytes s.message) (fresh o.conn o.connected) in
    (
      s.link,
      s.helper,
      (
        s.message,
        o.w,
        o.h,
        o.wide.0,
        o.tall.0,
        s.asks,
        ap read_init (told ∙ sym (append-nil (init_bytes s.message)))
            ∙ read_init-init_bytes s.message []
                (Asks-IsInit world width height o.w o.h s.message fits o.wide.0 o.tall.0 s.asks),
      ),
    )
