-- ===== src/Capture/Input/Laws.antt =====
-- How many inputs are reported as sent.
use driver_uu_remote.Base.{
  ℕ, zero, suc, ◌+◌, ◌-◌, ◌≤◌, ◌≡◌, refl, ap, subst, min, Bool, true, false, ◌&&◌, ◌||◌, Bool-cases,
  Option-cases, inl, inr, List, [], ◌∷◌, Option, none, some, take, drop, length, length-take,
  length-drop, ◌==◌, leb, ltb, arith,
}
use driver_uu_remote.Base.Monad.{guard, bind-some, guard-true}
use driver_uu_remote.Transport.{Conn}
use driver_uu_remote.Capture.Protocol.{
  capture_magic, capture_input_reply, capture_protocol_version, capture_max_input_events,
  CaptureInputEvent, CaptureInputReply, read_input_reply,
}
use driver_uu_remote.Capture.Input.{
  Input, input_events, acceptable, accepted_count, agreed, input_exchange, deliver, present,
  send_input_chunk, Sending, forwarded, original, rest_count, after_chunk, next_connection,
  send_loop_input, capture_send_input,
}

accepted_count-le :
    (count : ℕ) (reply : Option (List ℕ)) (n : ℕ) → accepted_count count reply ≡ some n → n ≤ count
unfolding accepted_count acceptable
accepted_count-le count none n h = cc
accepted_count-le count (some bytes) n h =
    let ((reply, rest), e, h1) = bind-some (read_input_reply bytes) _ _ h in
    let (unit, e1, h2) =
      bind-some (guard (acceptable count reply)) (λ u. some reply.accepted_count) n h1 in
    within reply (guard-true (acceptable count reply) e1) h2
  where
    last : (a b c d : Bool) → (a && (b && (c && d))) ≡ true → d ≡ true
    last a b c d e = ground arith

    some-same : {m : ℕ} → some m ≡ some n → m ≡ n
    some-same p = cc

    few : (m : ℕ) → leb m count ≡ true → m ≡ n → n ≤ count
    few m l e = ground arith

    within :
        (reply : CaptureInputReply)
        → acceptable count reply ≡ true
        → some reply.accepted_count ≡ some n
        → n ≤ count
    within reply l e =
        few reply.accepted_count
          (last (reply.magic == capture_magic) (reply.type == capture_input_reply)
            (reply.protocol_version == capture_protocol_version) (leb reply.accepted_count count) l)
          (some-same e)

agreed-some :
    (requested sent : Bool) (answer : Option ℕ) (n : ℕ)
    → agreed requested sent answer ≡ some n
    → answer ≡ some n
unfolding agreed
agreed-some true true answer n h = h
agreed-some true false answer n h = cc
agreed-some false sent answer n h = cc

deliver-le :
    (events : List CaptureInputEvent) (count : ℕ) (connection : Option Conn)
    → (deliver events count connection).0 ≤ count
unfolding deliver input_exchange
deliver-le events count none = omega arith
deliver-le events count (some conn) = elim (Option-cases (input_exchange conn events count).0) [
  | inl e ↦ rw (deliver, e) (omega arith)
  | inr (n, e) ↦ rw (deliver, e) (accepted_count-le count _ n (agreed-some _ _ _ n e))
]

-- Of the inputs of one request no more are reported as taken than there are.
pub send_input_chunk-le :
    (connection reconnected : Option Conn) (inputs : List Input)
    → (send_input_chunk connection reconnected inputs).0 ≤ length inputs
unfolding send_input_chunk
send_input_chunk-le connection reconnected inputs =
    elim (Bool-cases ((length inputs == 0) || ltb capture_max_input_events (length inputs))) [
      | inl none' ↦ rw none' (omega arith)
      | inr some' ↦ elim (Option-cases (input_events inputs)) [
        | inl e ↦ rw (some', e) (omega arith)
        | inr (events, e) ↦
            rw (some', e) (deliver-le events (length inputs) (present connection reconnected))
      ]
    ]

-- The answer counts no more inputs than there are, or is left to the function that is replaced.
unfoldable pub IsBounded : Sending → ℕ → Type 0
IsBounded (forwarded n) count = n ≤ count
IsBounded original count = Unit {0}

rest_count-IsBounded :
    (accepted : ℕ) (more : Sending) (count left : ℕ)
    → accepted + left ≤ count
    → IsBounded more left
    → IsBounded (rest_count accepted more) count
unfolding rest_count IsBounded
rest_count-IsBounded accepted (forwarded n) count left h b = omega arith
rest_count-IsBounded accepted original count left h b = tt

after_chunk-IsBounded :
    (fallback : Bool) (result chunk count : ℕ) (connection : Option Conn)
    (rest : Sending × Option Conn)
    → result ≤ count
    → IsBounded rest.0 (count - result)
    → IsBounded (after_chunk fallback result chunk connection rest).0 count
unfolding after_chunk IsBounded
after_chunk-IsBounded fallback result chunk count connection rest h b =
    elim (Bool-cases (result == 0)) [
      | inl e ↦ elim (Bool-cases fallback) [
        | inl f ↦ rw (e, f) tt
        | inr f ↦ rw (e, f) (omega arith)
      ]
      | inr e ↦ elim (Bool-cases (result == chunk)) [
        | inl f ↦
            rw (e, f) (rest_count-IsBounded result rest.0 count (count - result) (omega arith) b)
        | inr f ↦ rw (e, f) h
      ]
    ]

send_loop_input-IsBounded :
    (fuel : ℕ) (hooked first : Bool) (reconnects : List (Option Conn)) (connection : Option Conn)
    (inputs : List Input)
    → IsBounded (send_loop_input fuel hooked first reconnects connection inputs).0 (length inputs)
unfolding send_loop_input IsBounded
send_loop_input-IsBounded zero hooked first reconnects connection inputs = omega arith
send_loop_input-IsBounded (suc fuel) hooked first reconnects connection [] = omega arith
send_loop_input-IsBounded (suc fuel) hooked first reconnects connection (input ∷ inputs) =
    after_chunk-IsBounded (first && hooked) sent.0 chunk (length (input ∷ inputs)) sent.1 _
      (omega (
        arith,
        send_input_chunk-le connection (next_connection reconnects) (take chunk (input ∷ inputs)),
        length-take chunk (input ∷ inputs),
      ))
      (subst (IsBounded rest.0) (length-drop sent.0 (input ∷ inputs)) (
        send_loop_input-IsBounded fuel hooked false (drop 1 reconnects) sent.1
          (drop sent.0 (input ∷ inputs))))
  where
    chunk : ℕ
    chunk = min (length (input ∷ inputs)) capture_max_input_events

    sent : ℕ × Option Conn
    sent = send_input_chunk connection (next_connection reconnects) (take chunk (input ∷ inputs))

    rest : Sending × Option Conn
    rest =
        send_loop_input fuel hooked false (drop 1 reconnects) sent.1 (drop sent.0 (input ∷ inputs))

-- `capture_send_input` answers with a count of no more inputs than it was given, or leaves them
-- all to the function that it replaces.
pub capture_send_input-IsBounded :
    (hooked : Bool) (reconnects : List (Option Conn)) (connection : Option Conn)
    (inputs : List Input)
    → IsBounded (capture_send_input hooked reconnects connection inputs).0 (length inputs)
unfolding capture_send_input
capture_send_input-IsBounded hooked reconnects connection inputs =
    send_loop_input-IsBounded (length inputs) hooked true reconnects connection inputs

send_loop_input-fuel :
    (fuel extra : ℕ) (hooked first : Bool) (reconnects : List (Option Conn))
    (connection : Option Conn) (inputs : List Input)
    → length inputs ≤ fuel
    → send_loop_input (fuel + extra) hooked first reconnects connection inputs
      ≡ send_loop_input fuel hooked first reconnects connection inputs
unfolding send_loop_input after_chunk
send_loop_input-fuel zero zero hooked first reconnects connection [] h = refl
send_loop_input-fuel zero (suc extra) hooked first reconnects connection [] h =
    let e : zero + suc extra ≡ suc extra = omega arith in rw e refl
send_loop_input-fuel zero extra hooked first reconnects connection (input ∷ inputs) h =
    absurd (omega arith)
send_loop_input-fuel (suc fuel) extra hooked first reconnects connection [] h =
    let e : suc fuel + extra ≡ suc (fuel + extra) = omega arith in rw e refl
send_loop_input-fuel (suc fuel) extra hooked first reconnects connection (input ∷ inputs) h =
    let e : suc fuel + extra ≡ suc (fuel + extra) = omega arith in
    rw e (elim (Bool-cases (sent.0 == 0)) [
      | inl none' ↦ rw none' refl
      | inr some' ↦ ap (after_chunk (first && hooked) sent.0 chunk sent.1) (
          send_loop_input-fuel fuel extra hooked false (drop 1 reconnects) sent.1
            (drop sent.0 (input ∷ inputs)) (shorter some'))
    ])
  where
    chunk : ℕ
    chunk = min (length (input ∷ inputs)) capture_max_input_events

    sent : ℕ × Option Conn
    sent = send_input_chunk connection (next_connection reconnects) (take chunk (input ∷ inputs))

    shorter : (sent.0 == 0) ≡ false → length (drop sent.0 (input ∷ inputs)) ≤ fuel
    shorter s = let dropped = length-drop sent.0 (input ∷ inputs) in ground (arith, dropped)

-- The number of inputs is fuel enough for `capture_send_input`: with more its loop answers the
-- same.
pub capture_send_input-fuel :
    (extra : ℕ) (hooked : Bool) (reconnects : List (Option Conn)) (connection : Option Conn)
    (inputs : List Input)
    → send_loop_input (length inputs + extra) hooked true reconnects connection inputs
      ≡ capture_send_input hooked reconnects connection inputs
unfolding capture_send_input
capture_send_input-fuel extra hooked reconnects connection inputs =
    send_loop_input-fuel (length inputs) extra hooked true reconnects connection inputs
      (omega arith)
