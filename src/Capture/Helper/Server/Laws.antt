-- ===== src/Capture/Helper/Server/Laws.antt =====
-- A client that does not send the token first gets nothing but a refusal, and moves nothing.
use driver_uu_remote.Base.{
  ℕ, ◌≡◌, ◌≢◌, refl, sym, ap, ◌∙◌, inl, inr, Bool, true, false, not, ◌||◌, Bool-cases, List, [],
  ◌∷◌, ◌++◌, none, some, take, drop, length, length-take, append-nil, ◌==◌, ==_iff, bit_xor,
  if◌then◌else◌, if-cases, false-ne-true, not-false, arith,
}
use driver_uu_remote.Base.Bits.{bit_or-zero, bit_xor-eq}
use driver_uu_remote.Transport.{Conn, Received, received, end, error, recv_all}
use driver_uu_remote.Transport.Helper.{send_all-Sent, recv_all-Read, recv_all_unsent}
use driver_uu_remote.Capture.Protocol.{
  capture_magic, capture_input_request, capture_protocol_version,
}
use driver_uu_remote.Capture.Messages.{
  capture_request, capture_auth_reply, capture_auth_request, capture_auth_token_size,
  CaptureRequest, read_request, auth_reply_bytes,
}
use driver_uu_remote.Capture.Helper.Keys.{Key}
use driver_uu_remote.Capture.Helper.Eis.{Capability}
use driver_uu_remote.Capture.Helper.Server.{
  difference, auth_token_equal, is_empty, Server, ClientRound, Client, check_token, handle_auth,
  handle_frame, handle_input, handle_request, handle_received, client_turn, client_loop,
  handle_client,
}

difference-eq :
    (token required : List ℕ)
    → length token ≡ length required
    → difference token required ≡ 0
    → token ≡ required
unfolding difference
difference-eq [] [] l h = refl
difference-eq [] (b ∷ required) l h = absurd (omega arith)
difference-eq (a ∷ token) [] l h = absurd (omega arith)
difference-eq (a ∷ token) (b ∷ required) l h =
    let (rest, first) = bit_or-zero (difference token required) (bit_xor a b) h in
    let same = difference-eq token required (omega arith) rest in
    rw (bit_xor-eq a b first, same) refl

-- A token of the length that is read which passes the test is the required one.
pub auth_token_equal-eq :
    (required token : List ℕ)
    → length token ≡ capture_auth_token_size
    → auth_token_equal required token ≡ true
    → token ≡ required
unfolding auth_token_equal
auth_token_equal-eq required token l h =
    elim (Bool-cases (length required == capture_auth_token_size)) [
      | inl e ↦
          difference-eq token required (l ∙ sym ((==_iff (length required) 64).0 e))
            ((==_iff (difference token required) 0).0 (rw e at h))
      | inr e ↦ false-ne-true (rw e at h)
    ]

unfoldable pub refusal : List ℕ
refusal = auth_reply_bytes (record {
  magic = capture_magic;
  type = capture_auth_reply;
  protocol_version = capture_protocol_version;
  status = 1;
})

-- The loop ends, with the server as it was and at most a part of the refusal sent.
pub record IsRefused (server : Server) (sent : List ℕ) (going : Bool) (after : Client)
    : Type 0 where
  pub stops : going ≡ false
  pub untouched : after.server ≡ server
  pub count : ℕ
  pub told : after.conn.sent ≡ sent ++ take count refusal

silent-IsRefused :
    (server : Server) (sent : List ℕ) (after : Client)
    → after.server ≡ server
    → after.conn.sent ≡ sent
    → IsRefused server sent false after
silent-IsRefused server sent after u t = record {
  stops = refl;
  untouched = u;
  count = 0;
  told = t ∙ sym (append-nil sent);
}

check_token-IsRefused :
    (token : Received) (client : Client)
    → ((bytes : List ℕ)
        → token ≡ received bytes
        → auth_token_equal client.server.required_auth_token bytes ≡ false)
    → IsRefused client.server client.conn.sent
        (check_token token client).0
        (check_token token client).1
unfolding check_token refusal
check_token-IsRefused end client h =
    silent-IsRefused client.server client.conn.sent client refl refl
check_token-IsRefused error client h =
    silent-IsRefused client.server client.conn.sent client refl refl
check_token-IsRefused (received token) client h =
    let s = send_all-Sent client.conn refusal in
    rw (h token refl)
      (record { stops = ground arith; untouched = refl; count = s.count; told = s.prefix })

handle_auth-IsRefused :
    (size : ℕ) (client : Client)
    → take 64 client.conn.incoming ≢ client.server.required_auth_token
    → IsRefused client.server client.conn.sent
        (handle_auth size client).0
        (handle_auth size client).1
unfolding handle_auth
handle_auth-IsRefused size client ne =
    let (token, conn) = recv_all client.conn capture_auth_token_size in
    let wrong : (bytes : List ℕ)
        → token ≡ received bytes
        → auth_token_equal client.server.required_auth_token bytes ≡ false =
      λ bytes e.
        let r = recv_all-Read client.conn capture_auth_token_size e in
        elim (Bool-cases (auth_token_equal client.server.required_auth_token bytes)) [
          | inr f ↦ f
          | inl t ↦
              let size64 : length bytes ≡ 64 =
                ap length r.content
                ∙ omega (arith, length-take 64 client.conn.incoming, r.enough) in
              absurd (
                ne (
                  sym r.content
                  ∙ auth_token_equal-eq client.server.required_auth_token bytes size64 t))
        ] in
    let unsent = recv_all_unsent client.conn capture_auth_token_size in
    if-cases (λ (r : Bool × Client). IsRefused client.server client.conn.sent r.0 r.1)
      (size == capture_auth_token_size) (check_token token (record client { conn = conn }))
      (false, client)
      (λ e.
        let c = check_token-IsRefused token (record client { conn = conn }) wrong in
        record {
          stops = c.stops;
          untouched = c.untouched;
          count = c.count;
          told = c.told ∙ ap (λ xs. xs ++ take c.count refusal) unsent;
        })
      (λ e. silent-IsRefused client.server client.conn.sent client refl refl)

module _ (has_capability : ℕ → Capability → Bool) (has_region : ℕ → Bool) (code : Key → ℕ)
    (btn_misc : ℕ) where
  handle_request-IsRefused :
      (round : ClientRound) (request : CaptureRequest) (client : Client)
      → client.authenticated ≡ false
      → take 64 client.conn.incoming ≢ client.server.required_auth_token
      → let (going, after) =
          handle_request has_capability has_region code btn_misc round request client in
        IsRefused client.server client.conn.sent going after
  unfolding handle_request
  handle_request-IsRefused round request client un ne =
      let Refused : Bool × Client → Type 0 =
        λ r. IsRefused client.server client.conn.sent r.0 r.1 in
      let silent = silent-IsRefused client.server client.conn.sent client refl refl in
      let frame = handle_frame round client in
      let input =
        handle_input has_capability has_region code btn_misc round request.reserved client in
      let typed =
        if request.type == capture_request
        then frame
        else if request.type == capture_input_request
        then input
        else (false, client) in
      let allowed = if not client.authenticated then (false, client) else typed in
      let auth = handle_auth request.reserved client in
      if-cases Refused
        (not (request.magic == capture_magic)
          || not (request.protocol_version == capture_protocol_version))
        (false, client) (if request.type == capture_auth_request then auth else allowed)
        (λ bad. silent)
        (λ good.
          if-cases Refused (request.type == capture_auth_request) auth allowed
            (λ token. handle_auth-IsRefused request.reserved client ne)
            (λ another.
              if-cases Refused (not client.authenticated) (false, client) typed (λ e. silent)
                (λ e. false-ne-true (sym un ∙ not-false client.authenticated e))))

  handle_received-IsRefused :
      (round : ClientRound) (bytes : Received) (client : Client)
      → client.authenticated ≡ false
      → ((b : List ℕ)
          → bytes ≡ received b
          → take 64 client.conn.incoming ≢ client.server.required_auth_token)
      → let (going, after) =
          handle_received has_capability has_region code btn_misc round bytes client in
        IsRefused client.server client.conn.sent going after
  unfolding handle_received
  handle_received-IsRefused round end client un ne =
      silent-IsRefused client.server client.conn.sent client refl refl
  handle_received-IsRefused round error client un ne =
      silent-IsRefused client.server client.conn.sent client refl refl
  handle_received-IsRefused round (received bytes) client un ne =
      elim (read_request bytes)
        as (λ r.
          let (going, after) : Bool × Client = elim r [
            | none ↦ (false, client)
            | some (request, rest) ↦
                handle_request has_capability has_region code btn_misc round request client
          ] in
          IsRefused client.server client.conn.sent going after) [
            | none ↦ silent-IsRefused client.server client.conn.sent client refl refl
            | some (request, rest) ↦
                handle_request-IsRefused round request client un (ne bytes refl)
          ]

  client_turn-IsRefused :
      (round : ClientRound) (client : Client)
      → client.authenticated ≡ false
      → take 64 (drop 16 client.conn.incoming) ≢ client.server.required_auth_token
      → let (going, after) = client_turn has_capability has_region code btn_misc round client in
        IsRefused client.server client.conn.sent going after
  unfolding client_turn
  client_turn-IsRefused round client un ne =
      let (bytes, conn) = recv_all client.conn 16 in
      let next = record client { conn = conn } in
      let r = handle_received-IsRefused round bytes next un (λ b e.
        let read = recv_all-Read client.conn 16 e in
        λ same. ne (ap (take 64) (sym read.rest) ∙ same)) in
      record {
        stops = r.stops;
        untouched = r.untouched;
        count = r.count;
        told = r.told ∙ ap (λ xs. xs ++ take r.count refusal) (recv_all_unsent client.conn 16);
      }

  -- Where a token is required, a client whose bytes 16 to 79 are not the token leaves the helper's
  -- frame and input devices as they were and is sent at most a refusal, however many rounds there
  -- are.
  pub handle_client-refusal :
      (rounds : List ClientRound) (conn : Conn) (server : Server)
      → is_empty server.required_auth_token ≡ false
      → take 64 (drop 16 conn.incoming) ≢ server.required_auth_token
      → let after = handle_client has_capability has_region code btn_misc rounds conn server in
        (after.server ≡ server)
        × ((count : ℕ) × (after.conn.sent ≡ conn.sent ++ take count refusal))
  unfolding handle_client client_loop
  handle_client-refusal [] conn server required ne = (refl, (0, sym (append-nil conn.sent)))
  handle_client-refusal (round ∷ rounds) conn server required ne =
      let client : Client = record {
        authenticated = is_empty server.required_auth_token;
        conn = conn;
        server = server;
      } in
      let r = client_turn-IsRefused round client required ne in
      rw r.stops (r.untouched, (r.count, r.told))
