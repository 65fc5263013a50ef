-- ===== src/Daemon/Session/Laws.antt =====
-- A session answers every request with one reply, and is undefined only where a decoder is missing.
use driver_uu_remote.Base.{
  ℕ, ◌*◌, ◌^◌, ◌≤◌, ◌≡◌, ◌⊎◌, refl, sym, ap, ◌∙◌, inl, inr, arith, Bool, true, false, Bool-cases,
  List, [], ◌++◌, Option, none, some, take, drop, append_assoc, append-nil, ◌==◌, if◌then◌else◌,
  if-cases, false-ne-true,
}
use driver_uu_remote.Wire.{
  helper_magic, helper_frame, helper_decode_packet, HelperFrameMessage, read_frame, reply_bytes,
}
use driver_uu_remote.Transport.{Conn, Received, received, end, error, recv_all, send_all}
use driver_uu_remote.Transport.Helper.{send_all-Sent, recv_all-Read}
use driver_uu_remote.Daemon.Codec.{AvError, Outcome, Packed}
use driver_uu_remote.Daemon.Session.{
  Session, SessionRound, Work, work, valid_frame, reply_to, payload_of, send_outcome, stops,
  goes_on, answer, with_payload, with_message, with_received, session_turn,
}

module _ (errno : AvError → ℕ) where
  -- The bytes of an answer.
  unfoldable pub answer_bytes : Outcome Packed → List ℕ
  answer_bytes outcome =
      reply_bytes (reply_to errno outcome)
      ++ (if (reply_to errno outcome).payload_size == 0 then [] else payload_of errno outcome)

  only_header :
      (outcome : Outcome Packed)
      → ((reply_to errno outcome).payload_size == 0) ≡ true
      → reply_bytes (reply_to errno outcome) ≡ answer_bytes outcome
  unfolding answer_bytes
  only_header outcome z = rw z (sym (append-nil (reply_bytes (reply_to errno outcome))))

  with_payload_bytes :
      (outcome : Outcome Packed)
      → ((reply_to errno outcome).payload_size == 0) ≡ false
      → reply_bytes (reply_to errno outcome) ++ payload_of errno outcome ≡ answer_bytes outcome
  unfolding answer_bytes
  with_payload_bytes outcome z = rw z refl

  send_outcome_sent :
      (outcome : Outcome Packed) (conn : Conn)
      → (send_outcome errno outcome conn).0 ≡ true
      → ((send_outcome errno outcome conn).1.sent ≡ conn.sent ++ answer_bytes outcome)
        × ((send_outcome errno outcome conn).1.incoming ≡ conn.incoming)
  unfolding send_outcome
  send_outcome_sent outcome conn =
      let header = reply_bytes (reply_to errno outcome) in
      let (replied, conn1) = send_all conn header in
      let (served, conn2) = send_all conn1 (payload_of errno outcome) in
      let first = send_all-Sent conn header in
      let second = send_all-Sent conn1 (payload_of errno outcome) in
      let head : replied ≡ true → conn1.sent ≡ conn.sent ++ header =
        λ e. first.prefix ∙ ap (λ bs. conn.sent ++ bs) (first.whole e) in
      let Told : Bool × Conn → Type 0 = λ r.
        r.0 ≡ true
        → (r.1.sent ≡ conn.sent ++ answer_bytes outcome) × (r.1.incoming ≡ conn.incoming) in
      let empty = (reply_to errno outcome).payload_size == 0 in
      if-cases Told replied (if empty then (true, conn1) else (served, conn2)) (false, conn1)
        (λ e.
          if-cases Told empty (true, conn1) (served, conn2)
            (λ z done. (head e ∙ ap (λ bs. conn.sent ++ bs) (only_header outcome z), first.unread))
            (λ z done. (
              second.prefix
                  ∙ ap (λ bs. conn1.sent ++ bs) (second.whole done)
                  ∙ ap (λ xs. xs ++ payload_of errno outcome) (head e)
                  ∙ append_assoc conn.sent header (payload_of errno outcome)
                  ∙ ap (λ bs. conn.sent ++ bs) (with_payload_bytes outcome z),
              second.unread ∙ first.unread,
            )))
        (λ e h. false-ne-true h)

  -- A request that the protocol knows.
  pub record IsRequest (m : HelperFrameMessage) : Type 0 where
    pub magic : m.magic ≡ helper_magic
    pub type : (m.type ≡ helper_frame) ⊎ (m.type ≡ helper_decode_packet)
    pub size : m.payload_size ≤ 128 * 2 ^ 20

  valid_frame-IsRequest : (m : HelperFrameMessage) → valid_frame m ≡ true → IsRequest m
  unfolding valid_frame
  valid_frame-IsRequest m v = record {
    magic = ground arith;
    type = ground arith;
    size = ground arith;
  }

  -- What a turn that goes on has read and sent.
  pub record IsAnswered (round : SessionRound) (s after : Session) : Type 0 where
    pub request : HelperFrameMessage
    pub payload : List ℕ
    pub done : Work
    pub asked : (left : List ℕ) × (read_frame (take 32 s.conn.incoming) ≡ some (request, left))
    pub valid : IsRequest request
    pub worked : work round request payload s ≡ some done
    pub content : payload ≡ take request.payload_size (drop 32 s.conn.incoming)
    pub rest : after.conn.incoming ≡ drop request.payload_size (drop 32 s.conn.incoming)
    pub told : after.conn.sent ≡ s.conn.sent ++ answer_bytes done.outcome
    pub encoder : after.encoder ≡ done.encoder
    pub decoder : after.decoder_open ≡ s.decoder_open

  -- A turn that goes on.
  went_on : {s t : Session} → goes_on s ≡ goes_on t → s ≡ t
  went_on p = cc

  -- The end of a turn that goes on.
  record Finished (s : Session) (w : Option Work) (after : Session) : Type 0 where
    done : Work
    worked : w ≡ some done
    told : after.conn.sent ≡ s.conn.sent ++ answer_bytes done.outcome
    unread : after.conn.incoming ≡ s.conn.incoming
    encoder : after.encoder ≡ done.encoder
    decoder : after.decoder_open ≡ s.decoder_open

  answer-Finished :
      (s : Session) (w : Option Work) (after : Session)
      → answer errno s w ≡ goes_on after
      → Finished s w after
  unfolding answer
  answer-Finished s none after = λ h. cc
  answer-Finished s (some w) after =
      let (sent, conn) = send_outcome errno w.outcome s.conn in
      let ended = record s { encoder = w.encoder; conn = conn } in
      if-cases (λ t. t ≡ goes_on after → Finished s (some w) after) sent (goes_on ended)
        (stops ended)
        (λ e h.
          let (told, unread) = send_outcome_sent w.outcome s.conn e in
          let same : ended ≡ after = went_on h in
          record {
            done = w;
            worked = refl;
            told = ap (λ (t : Session). t.conn.sent) (sym same) ∙ told;
            unread = ap (λ (t : Session). t.conn.incoming) (sym same) ∙ unread;
            encoder = ap (λ (t : Session). t.encoder) (sym same);
            decoder = ap (λ (t : Session). t.decoder_open) (sym same);
          })
        (λ e h. cc)

  with_payload-Finished :
      (round : SessionRound) (m : HelperFrameMessage) (payload : Received) (s after : Session)
      → with_payload errno round m payload s ≡ goes_on after
      → (bytes : List ℕ) × (payload ≡ received bytes) × Finished s (work round m bytes s) after
  unfolding with_payload
  with_payload-Finished round m end s after h = cc
  with_payload-Finished round m error s after h = cc
  with_payload-Finished round m (received bytes) s after h = elim (Bool-cases round.allocated) [
    | inl e ↦ (bytes, refl, answer-Finished s (work round m bytes s) after (rw e at h))
    | inr e ↦ absurd (no_turn (rw e at h))
  ]
    where
      no_turn : stops s ≡ goes_on after → ⊥
      no_turn q = cc

  same_work :
      (round : SessionRound) (m : HelperFrameMessage) (bytes : List ℕ) (s t : Session)
      → s.encoder ≡ t.encoder
      → s.decoder_open ≡ t.decoder_open
      → work round m bytes t ≡ work round m bytes s
  unfolding work
  same_work round m bytes s t c d = rw (c, d) refl

  -- After the header has been read, from the session `before`.
  record IsAfterHeader (before s : Session) (header : List ℕ) : Type 0 where
    bytes : header ≡ take 32 before.conn.incoming
    incoming : s.conn.incoming ≡ drop 32 before.conn.incoming
    sent : s.conn.sent ≡ before.conn.sent
    encoder : s.encoder ≡ before.encoder
    decoder : s.decoder_open ≡ before.decoder_open

  with_message-IsAnswered :
      (round : SessionRound) (message : Option (HelperFrameMessage × List ℕ))
      (before s after : Session) (header : List ℕ)
      → IsAfterHeader before s header
      → read_frame header ≡ message
      → with_message errno round message s ≡ goes_on after
      → IsAnswered round before after
  unfolding with_message
  with_message-IsAnswered round none before s after header i parsed = λ h. cc
  with_message-IsAnswered round (some (m, rest)) before s after header i parsed =
      let (payload, conn) = recv_all s.conn m.payload_size in
      let next = record s { conn = conn } in
      if-cases (λ t. t ≡ goes_on after → IsAnswered round before after) (valid_frame m)
        (with_payload errno round m payload next) (stops s)
        (λ v h.
          let (bytes, got, fin) = with_payload-Finished round m payload next after h in
          let r = recv_all-Read s.conn m.payload_size got in
          record {
            request = m;
            payload = bytes;
            done = fin.done;
            asked = (rest, ap read_frame (sym i.bytes) ∙ parsed);
            valid = valid_frame-IsRequest m v;
            worked = same_work round m bytes next before i.encoder i.decoder ∙ fin.worked;
            content = r.content ∙ ap (take m.payload_size) i.incoming;
            rest = fin.unread ∙ r.rest ∙ ap (drop m.payload_size) i.incoming;
            told = fin.told ∙ ap (λ xs. xs ++ answer_bytes fin.done.outcome) (r.unsent ∙ i.sent);
            encoder = fin.encoder;
            decoder = fin.decoder ∙ i.decoder;
          })
        (λ v h. cc)

  with_received-IsAnswered :
      (round : SessionRound) (bytes : Received) (before s after : Session)
      → ((b : List ℕ) → bytes ≡ received b → IsAfterHeader before s b)
      → with_received errno round bytes s ≡ goes_on after
      → IsAnswered round before after
  unfolding with_received
  with_received-IsAnswered round end before s after i h = cc
  with_received-IsAnswered round error before s after i h = cc
  with_received-IsAnswered round (received bytes) before s after i h =
      with_message-IsAnswered round (read_frame bytes) before s after bytes (i bytes refl) refl h

  -- A turn of a session that goes on has read the 32 bytes of one valid request and all its
  -- payload, has done the work for it, and has sent the answer and nothing else.
  pub session_turn-IsAnswered :
      (round : SessionRound) (s after : Session)
      → session_turn errno round s ≡ goes_on after
      → IsAnswered round s after
  unfolding session_turn
  session_turn-IsAnswered round s after h =
      let (bytes, conn) = recv_all s.conn 32 in
      with_received-IsAnswered round bytes s (record s { conn = conn }) after
        (λ b e.
          let r = recv_all-Read s.conn 32 e in
          record {
            bytes = r.content;
            incoming = r.rest;
            sent = r.unsent;
            encoder = refl;
            decoder = refl;
          })
        h
