-- ===== src/Tests/Helping.antt =====
-- The helper process at concrete inputs.
use driver_uu_remote.Base.{ℕ, ◌≡◌, refl, true, List, [], ◌∷◌, ◌++◌, none, replicate, arith}
use driver_uu_remote.Transport.{Conn, moved, recv_all, send_all}
use driver_uu_remote.Wire.{le_bytes, read_le, read_frame, reply_bytes}
use driver_uu_remote.Daemon.Clients.{
  Clients, counted, no_clients, arrive, Steps, here, next, IsCounted, reachable-IsCounted, Served,
  reachable-Served,
}
use driver_uu_remote.Daemon.Codec.{
  AvError, EncoderState, host_frame, flatten, EncodeRound, nv12, Picture, Packed, success, pack,
  waiting, encoder_frame,
}
use driver_uu_remote.Daemon.Codec.Laws.{
  HasChroma, HasPlanes, IsPacked, pack-IsPacked, flatten-host_frame,
}
use driver_uu_remote.Daemon.Session.{Session, SessionRound, goes_on, session_turn}
use driver_uu_remote.Daemon.Session.Laws.{IsAnswered, session_turn-IsAnswered}

-- One client has come.
abbrev one_counted : Clients
one_counted = record { active_clients = 1; running = 0; acceptor = counted 0 }

one_comes : Steps no_clients one_counted
one_comes = next no_clients one_counted one_counted (arrive 0 0) (here one_counted)

reachable-IsCounted_example : IsCounted one_counted
reachable-IsCounted_example = reachable-IsCounted one_counted one_comes

reachable-Served_example : Served one_counted
reachable-Served_example = reachable-Served one_counted one_comes

-- Two by two pixels in rows of four bytes.
abbrev small_picture : Picture
small_picture = record {
  format = nv12;
  width = 2;
  height = 2;
  planes = (1 ∷ 2 ∷ 0 ∷ 0 ∷ 3 ∷ 4 ∷ 0 ∷ 0 ∷ [], 5 ∷ 6 ∷ 0 ∷ 0 ∷ [], []);
  linesize = (4, 4, 0);
}

abbrev small_packed : Packed
small_packed = record { bytes = 1 ∷ 2 ∷ 3 ∷ 4 ∷ 5 ∷ 6 ∷ []; width = 2; height = 2 }

packs : pack true small_picture ≡ success small_packed
unfolding pack
packs = refl

has_planes : HasPlanes small_picture
unfolding HasChroma
has_planes = record {
  luma_line = omega arith;
  luma_size = omega arith;
  chroma = (omega arith, omega arith);
}

pack-IsPacked_example : IsPacked small_picture small_packed
pack-IsPacked_example = pack-IsPacked true small_picture small_packed has_planes packs

abbrev two_by_two : EncoderState
two_by_two = record { codec = true; width = 2; height = 2; next_pts = 5 }

abbrev six_bytes : List ℕ
six_bytes = 1 ∷ 2 ∷ 3 ∷ 4 ∷ 5 ∷ 6 ∷ []

flatten-host_frame_example :
    flatten (host_frame two_by_two six_bytes).luma
      ++ flatten (host_frame two_by_two six_bytes).chroma
    ≡ six_bytes
flatten-host_frame_example = flatten-host_frame two_by_two six_bytes refl refl

abbrev one_packet : EncodeRound
one_packet = record {
  prepared = none;
  sending = λ f. none;
  packets = λ f. (7 ∷ 7 ∷ []) ∷ [];
  ended = none;
}

abbrev calm_round : SessionRound
calm_round = record { allocated = true; encoding = one_packet; decoding = waiting }

abbrev einval_number : AvError → ℕ
einval_number e = 22

-- A frame of six bytes and its header.
abbrev frame_link : Conn
frame_link = record {
  incoming =
      0x41 ∷ 0x4d ∷ 0x46 ∷ 0x31 ∷ 2 ∷ 0 ∷ 0 ∷ 0 ∷ 6 ∷ 0 ∷ 0 ∷ 0 ∷ 0 ∷ 0 ∷ 0 ∷ 0 ∷ replicate 16 0
      ++ six_bytes;
  answers = moved 99 ∷ moved 99 ∷ moved 99 ∷ moved 99 ∷ [];
  sent = [];
}

abbrev session : Session
session = record { encoder = two_by_two; decoder_open = true; conn = frame_link }

abbrev later_session : Session
later_session = record {
  encoder = record two_by_two { next_pts = 6 };
  decoder_open = true;
  conn = record {
    incoming = [];
    answers = [];
    sent =
        0x41 ∷ 0x4d ∷ 0x46 ∷ 0x31 ∷ 3 ∷ 0 ∷ 0 ∷ 0 ∷ 0 ∷ 0 ∷ 0 ∷ 0 ∷ 2 ∷ 0 ∷ 0 ∷ 0 ∷ replicate 8 0
        ++ (7 ∷ 7 ∷ []);
  };
}

turn : session_turn einval_number calm_round session ≡ goes_on later_session
unfolding session_turn recv_all send_all read_frame read_le reply_bytes le_bytes encoder_frame
turn = refl

session_turn-IsAnswered_example : IsAnswered einval_number calm_round session later_session
session_turn-IsAnswered_example =
    session_turn-IsAnswered einval_number calm_round session later_session turn
