-- ===== src/P2p/Session.antt =====
-- p2p/session.rs: the bookkeeping of one session and the hello handshake.
pub mod Handshake
use psicose.Prelude.{
  ℕ, List, ◌++◌, Bool, Option, none, some, ◌==◌, if◌then◌else◌, length, get_or, take, drop, Result,
  ok, err,
}
use psicose.Protocol.Bytes.{FrameBytes, to_list}
use psicose.Pump.{SessionStats, no_stats}
use psicose.P2p.Peer.{PeerId, id_len}
use psicose.P2p.Config.{SessionConfig, HandshakeError, hello_len, to_bytes, from_bytes, negotiate}

pub data SessionState : Type 0 where
  disconnected connecting established closing aborted : SessionState

-- The discriminant that the derived `==` of a state compares.
abbrev pub tag : SessionState → ℕ
tag disconnected = 0
tag connecting = 1
tag established = 2
tag closing = 3
tag aborted = 4

abbrev pub same_state : SessionState → SessionState → Bool
same_state a b = tag a == tag b

pub record PeerSession : Type 0 where
  pub local : PeerId
  pub config : SessionConfig
  pub remote : Option PeerId
  pub negotiated : Option SessionConfig
  pub state : SessionState
  pub stats : SessionStats

-- `PeerSession::new`.
unfoldable pub new_session : PeerId → SessionConfig → PeerSession
new_session local config = record {
  local = local;
  config = config;
  remote = none;
  negotiated = none;
  state = disconnected;
  stats = no_stats;
}

unfoldable pub record_stats : PeerSession → SessionStats → PeerSession
record_stats s stats = record s { stats = stats }

unfoldable pub hello_bytes : PeerSession → List ℕ
hello_bytes s = s.local.bytes ++ to_list (to_bytes s.config)

unfoldable pub connect : PeerSession → PeerSession × List ℕ
unfolding hello_bytes
connect s =
    let s' = record s { remote = none; negotiated = none; state = connecting } in
    (s', hello_bytes s')

-- `bytes[PeerId::LEN..]` as an array of four.
unfoldable pub config_of_slice : List ℕ → FrameBytes
config_of_slice bytes =
    let tail = drop id_len bytes in
    record {
      b0 = get_or tail 0 0;
      b1 = get_or tail 1 0;
      b2 = get_or tail 2 0;
      b3 = get_or tail 3 0;
    }

unfoldable pub on_hello :
    PeerSession → List ℕ → PeerSession × Result (Option (List ℕ)) HandshakeError
unfolding hello_bytes
on_hello s bytes =
    if length bytes == hello_len
    then elim (from_bytes (config_of_slice bytes)) [
      | err e ↦ (s, err e)
      | ok remote_cfg ↦ (
        record s {
          remote = some record { bytes = take id_len bytes };
          negotiated = some (negotiate s.config remote_cfg);
          state = established;
        },
        ok (if same_state s.state connecting then none else some (hello_bytes s)),
      )
    ]
    else (s, err HandshakeError.length)

unfoldable pub close : PeerSession → PeerSession
close s = record s { state = closing }

unfoldable pub closed : PeerSession → PeerSession
closed s = record s { state = disconnected }

unfoldable pub abort : PeerSession → PeerSession
abort s = record s { state = aborted }
