-- ===== src/Amf/Component/Lifecycle.antt =====
-- What the operations of the encoder component in src/amfrt_bridge.c keep: the ring of packets is
-- well formed, and a component that counts as initialised has a connection.
use driver_uu_remote.Base.{
  ℕ, zero, suc, ◌+◌, ◌%◌, ◌≤◌, ◌<◌, ◌≡◌, refl, sym, inl, inr, Bool, true, false, List, Option, none,
  some, length, length-set, subst, ltb, ◌||◌, ◌⊎◌, Bool-cases, Option-cases, if◌then◌else◌, arith,
}
use driver_uu_remote.Base.Int.{ℤ, pos, negsuc}
use driver_uu_remote.Transport.{Conn, socket_recv_all}
use driver_uu_remote.Amf.Results.{AmfResult, ok, not_initialized}
use driver_uu_remote.Amf.Outputs.{
  BridgeBuffer, max_outputs, Outputs, component_queue_output, component_query_output,
}
use driver_uu_remote.Amf.Component.{
  SurfaceFormat, nv12, other, Component, component_close_codec, InitWorld, open_helper,
  init_message, handshake, init_session, component_init, component_reinit, component_terminate,
  component_drain, component_flush, query_output, Surface, SubmitWorld, SubmitData, null, foreign,
  surface, submit_given, send_frame, finish, after_map, map_surface_bytes, frame_header, exchange,
  receive_packet, submit_surface, component_submit,
}

pub record IsRing (o : Outputs) : Type 0 where
  pub slots : length o.slots ≡ max_outputs
  pub head : o.head < max_outputs
  pub count : o.count ≤ max_outputs

-- An initialised component has a connection to the helper.
pub record IsValid (c : Component) : Type 0 where
  pub ring : IsRing c.outputs
  pub connected : c.initialized ≡ true → (conn : Conn) × (c.helper ≡ some conn)

queue_output-IsRing :
    (o : Outputs) (b : BridgeBuffer) → IsRing o → IsRing (component_queue_output o b).1
unfolding component_queue_output
queue_output-IsRing o b r =
    ground (arith, length-set o.slots ((o.head + o.count) % max_outputs) (some b))

query_output-IsRing :
    (draining : Bool) (o : Outputs) → IsRing o → IsRing (component_query_output draining o).2
unfolding component_query_output
query_output-IsRing draining o r = ground (arith, length-set o.slots o.head none)

close-IsValid : (c : Component) → IsValid c → IsValid (component_close_codec c)
unfolding component_close_codec
close-IsValid c v = record { ring = v.ring; connected = λ e. cc }

connected-IsValid :
    (c : Component) (conn : Conn) → IsRing c.outputs → IsValid (record c { helper = some conn })
connected-IsValid c conn r = record { ring = r; connected = λ e. (conn, refl) }

init_session-IsValid :
    (world : InitWorld) (failure : ℕ) (c : Component) (w h : ℕ)
    → IsValid c
    → IsValid (init_session world failure c w h).1
unfolding init_session
init_session-IsValid world failure c w h v =
    elim (Option-cases (open_helper world failure c.helper).0) [
      | inl o ↦ rw (o, init_session) v
      | inr (conn, o) ↦ elim (Option-cases (handshake conn (init_message world w h))) [
        | inl k ↦ rw (o, init_session, k) (close-IsValid c v)
        | inr (link, k) ↦
            rw (o, init_session, k) (record { ring = v.ring; connected = λ e. (link, refl) })
      ]
    ]

init_cases :
    (world : InitWorld) (failure : ℕ) (c : Component) (format : SurfaceFormat) (width height : ℤ)
    → ((component_init world failure c format width height).1 ≡ c)
      ⊎ ((w : ℕ) × (h : ℕ) × (component_init world failure c format width height
            ≡ init_session world failure c w h))
unfolding component_init
init_cases world failure c (other code) width height = inl (ground arith)
init_cases world failure c nv12 (negsuc w) height = inl (ground arith)
init_cases world failure c nv12 (pos w) (negsuc h) = inl (ground arith)
init_cases world failure c nv12 (pos w) (pos h) = elim (Bool-cases c.initialized) [
  | inl i ↦ inl (ground arith)
  | inr i ↦ elim (Bool-cases (ltb w 128 || ltb h 128)) [
    | inl s ↦ inl (ground arith)
    | inr s ↦ inr (w, h, ground arith)
  ]
]

-- `component_init` keeps the component well formed, whatever it answers.
pub component_init-IsValid :
    (world : InitWorld) (failure : ℕ) (c : Component) (format : SurfaceFormat) (width height : ℤ)
    → IsValid c
    → IsValid (component_init world failure c format width height).1
component_init-IsValid world failure c format width height v =
    elim (init_cases world failure c format width height) [
      | inl e ↦ subst IsValid (sym e) v
      | inr (w, h, e) ↦ rw e (init_session-IsValid world failure c w h v)
    ]

-- How a submission leaves the component.
data SubmitEnd (c : Component) (after : Component) : Type 0 where
  kept : after ≡ c → SubmitEnd c after
  shut : after ≡ component_close_codec c → SubmitEnd c after
  linked : (conn : Conn) → after ≡ record c { helper = some conn } → SubmitEnd c after
  queued :
      (conn : Conn) (b : BridgeBuffer)
      → after ≡ record c { helper = some conn; outputs = (component_queue_output c.outputs b).1 }
      → SubmitEnd c after

SubmitEnd-IsValid : (c after : Component) → SubmitEnd c after → IsValid c → IsValid after
SubmitEnd-IsValid c after (kept e) v = subst IsValid (sym e) v
SubmitEnd-IsValid c after (shut e) v = subst IsValid (sym e) (close-IsValid c v)
SubmitEnd-IsValid c after (linked conn e) v =
    subst IsValid (sym e) (record { ring = v.ring; connected = λ i. (conn, refl) })
SubmitEnd-IsValid c after (queued conn b e) v =
    subst IsValid (sym e)
      (record { ring = queue_output-IsRing c.outputs b v.ring; connected = λ i. (conn, refl) })

receive_packet-End :
    (world : SubmitWorld) (c : Component) (s : Surface) (conn : Conn) (size : ℕ)
    → SubmitEnd c (receive_packet world c s conn size).1
unfolding receive_packet
receive_packet-End world c s conn zero = linked conn refl
receive_packet-End world c s conn (suc size) = elim (Bool-cases world.has_packet_memory) [
  | inr m ↦ rw m (linked conn refl)
  | inl m ↦
      let link = (socket_recv_all conn (suc size)).1 in
      elim (Option-cases (socket_recv_all conn (suc size)).0) [
        | inl got ↦ rw (m, got, receive_packet) (linked link refl)
        | inr (bytes, got) ↦ elim (Bool-cases world.has_buffer) [
          | inr b ↦ rw (m, got, receive_packet, b) (linked link refl)
          | inl b ↦ rw (m, got, receive_packet, b) (queued link _ refl)
        ]
      ]
]

send_frame-End :
    (world : SubmitWorld) (c : Component) (s : Surface) (frame : List ℕ) (helper : Option Conn)
    → SubmitEnd c (send_frame world c s frame helper).1
unfolding send_frame
send_frame-End world c s frame none = shut refl
send_frame-End world c s frame (some conn) =
    finish-End (exchange conn (frame_header s frame) frame).0
      (exchange conn (frame_header s frame) frame).1
  where
    finish-End : (size : Option ℕ) (conn : Conn) → SubmitEnd c (finish world c s size conn).1
    finish-End none conn = shut refl
    finish-End (some size) conn = receive_packet-End world c s conn size

after_map-End :
    (world : SubmitWorld) (c : Component) (s : Surface) (result : AmfResult) (frame : List ℕ)
    → SubmitEnd c (after_map world c s result frame).1
unfolding after_map
after_map-End world c s ok frame = send_frame-End world c s frame c.helper
after_map-End world c s _ frame = kept refl

submit_surface-End :
    (world : SubmitWorld) (c : Component) (s : Surface) → SubmitEnd c (submit_surface world c s).1
unfolding submit_surface
submit_surface-End world c s =
    after_map-End world c s (map_surface_bytes world c s).0 (map_surface_bytes world c s).1

-- `component_submit` keeps the component well formed, whatever it is given and whatever it
-- answers.
pub component_submit-IsValid :
    (world : SubmitWorld) (c : Component) (given : SubmitData)
    → IsValid c
    → IsValid (component_submit world c given).1
unfolding component_submit
component_submit-IsValid world c given v = SubmitEnd-IsValid c _ (go given) v
  where
    ended :
        (b : Bool) (given : SubmitData)
        → SubmitEnd c (if b then submit_given world c given else (not_initialized, c)).1
    ended false given = kept refl
    ended true null = kept refl
    ended true foreign = kept refl
    ended true (surface s) = submit_surface-End world c s

    go : (given : SubmitData) → SubmitEnd c (component_submit world c given).1
    go given = ended c.initialized given

-- Terminating, draining, flushing and querying keep the component well formed.
pub operations-IsValid :
    (has_out : Bool) (c : Component)
    → IsValid c
    → IsValid (component_terminate c).1
      × IsValid (component_drain c).1
      × IsValid (component_flush c).1
      × IsValid (query_output has_out c).2
unfolding component_terminate component_drain component_flush query_output
operations-IsValid has_out c v =
    (close-IsValid c v, toggled c.initialized true, toggled c.initialized false, queried has_out)
  where
    given : Bool → Bool → AmfResult × Component
    given b d = if b then (ok, record c { draining = d }) else (not_initialized, c)

    toggled : (b d : Bool) → IsValid (given b d).1
    toggled true d = record { ring = v.ring; connected = v.connected }
    toggled false d = v

    queried : (b : Bool) → IsValid (query_output b c).2
    queried true = record {
      ring = query_output-IsRing c.draining c.outputs v.ring;
      connected = v.connected;
    }
    queried false = v

-- Reinitialising a well-formed component leaves a well-formed component, whether the new helper
-- session is set up or not.
pub component_reinit-IsValid :
    (world : InitWorld) (failure : ℕ) (c : Component) (width height : ℤ)
    → IsValid c
    → IsValid (component_reinit world failure c width height).1
unfolding component_reinit
component_reinit-IsValid world failure c width height v =
    component_init-IsValid world failure (component_close_codec c) c.format width height
      (close-IsValid c v)

-- Terminating a component does not empty its queue: the packets of the session that has ended are
-- still handed out, and the end of stream is still reported where the session was draining.
pub query_output-component_terminate :
    (c : Component)
    → ((query_output true (component_terminate c).1).0 ≡ (query_output true c).0)
      × ((query_output true (component_terminate c).1).1 ≡ (query_output true c).1)
unfolding component_terminate component_close_codec query_output
query_output-component_terminate c = (refl, refl)
