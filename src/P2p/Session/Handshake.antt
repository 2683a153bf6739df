-- ===== src/P2p/Session/Handshake.antt =====
-- The hello handshake between two peers.
use psicose.Prelude.{
  ℕ, ◌≡◌, refl, ap, sym, ◌∙◌, ◌≢◌, ◌⊎◌, List, false, none, some, if◌then◌else◌, length, take, drop,
  ok, err, arith, length-append, take-append, drop-append,
}
use psicose.Protocol.Bytes.{to_list}
use psicose.P2p.Peer.{id_len}
use psicose.P2p.Config.{SessionConfig, HandshakeError, hello_len, to_bytes, from_bytes, negotiate}
use psicose.P2p.Config.Laws.{IsConfig, config_from_bytes-to_bytes, negotiate_comm}
use psicose.P2p.Session.{
  PeerSession, SessionState, connecting, established, connect, hello_bytes, config_of_slice,
  on_hello, same_state,
}

-- An identity of eight bytes and a config within its bounds.
pub record IsPeer (s : PeerSession) : Type 0 where
  pub id_length : length s.local.bytes ≡ id_len
  pub offered : IsConfig s.config

length-hello_bytes : (s : PeerSession) → IsPeer s → length (hello_bytes s) ≡ hello_len
unfolding hello_bytes to_list
length-hello_bytes s h =
    omega (arith, length-append s.local.bytes (to_list (to_bytes s.config)), h.id_length)

take-hello_bytes : (s : PeerSession) → IsPeer s → take id_len (hello_bytes s) ≡ s.local.bytes
unfolding hello_bytes
take-hello_bytes s h =
    ap (λ n. take n (hello_bytes s)) (sym h.id_length)
    ∙ take-append s.local.bytes (to_list (to_bytes s.config))

drop-hello_bytes :
    (s : PeerSession) → IsPeer s → drop id_len (hello_bytes s) ≡ to_list (to_bytes s.config)
unfolding hello_bytes
drop-hello_bytes s h =
    ap (λ n. drop n (hello_bytes s)) (sym h.id_length)
    ∙ drop-append s.local.bytes (to_list (to_bytes s.config))

config_of_slice-hello_bytes :
    (s : PeerSession) → IsPeer s → config_of_slice (hello_bytes s) ≡ to_bytes s.config
unfolding config_of_slice to_list
config_of_slice-hello_bytes s h = rw (drop-hello_bytes s h) refl

-- What a session becomes when the hello of `peer` reaches it.
abbrev pub meet : PeerSession → PeerSession → PeerSession
meet s peer = record s {
  remote = some peer.local;
  negotiated = some (negotiate s.config peer.config);
  state = established;
}

on_hello-hello_bytes :
    (s peer : PeerSession)
    → IsPeer peer
    → on_hello s (hello_bytes peer)
      ≡ (meet s peer, ok (if same_state s.state connecting then none else some (hello_bytes s)))
unfolding on_hello
on_hello-hello_bytes s peer h =
    simp
      (
        length-hello_bytes peer h,
        config_of_slice-hello_bytes peer h,
        config_from_bytes-to_bytes peer.config h.offered,
        take-hello_bytes peer h,
      )
      refl

-- The state of a session whose hello is under way.
IsConnecting-same_state : (s : SessionState) → s ≢ connecting → same_state s connecting ≡ false
IsConnecting-same_state SessionState.disconnected h = refl
IsConnecting-same_state SessionState.connecting h = absurd (h refl)
IsConnecting-same_state SessionState.established h = refl
IsConnecting-same_state SessionState.closing h = refl
IsConnecting-same_state SessionState.aborted h = refl

-- A peer connects and its hello reaches a peer that has not sent one: the answer is that peer's
-- own hello, and when it arrives both ends are established with each other's identity and the
-- same config, and there is nothing left to send.
pub connect-on_hello :
    (a b : PeerSession)
    → IsPeer a
    → IsPeer b
    → b.state ≢ connecting
    → (on_hello b (connect a).1 ≡ (meet b a, ok (some (hello_bytes b))))
      × (on_hello (connect a).0 (hello_bytes b) ≡ (meet a b, ok none))
      × ((meet a b).negotiated ≡ (meet b a).negotiated)
unfolding connect
connect-on_hello a b ha hb h = (
  on_hello-hello_bytes b a ha ∙ simp (IsConnecting-same_state b.state h) refl,
  on_hello-hello_bytes (connect a).0 b hb,
  ap some (negotiate_comm a.config b.config),
)

-- Two peers connect at once and their hellos cross: neither answers, and both are established
-- with each other's identity and the same config.
pub connect-crossing :
    (a b : PeerSession)
    → IsPeer a
    → IsPeer b
    → (on_hello (connect a).0 (connect b).1 ≡ (meet a b, ok none))
      × (on_hello (connect b).0 (connect a).1 ≡ (meet b a, ok none))
      × ((meet a b).negotiated ≡ (meet b a).negotiated)
unfolding connect
connect-crossing a b ha hb = (
  on_hello-hello_bytes (connect a).0 b hb,
  on_hello-hello_bytes (connect b).0 a ha,
  ap some (negotiate_comm a.config b.config),
)

-- Why a hello is refused: it has another length than twelve bytes, or its config does not decode.
abbrev pub Unfit : List ℕ → HandshakeError → Type 0
Unfit bytes e =
    ((length bytes ≢ hello_len) × (e ≡ HandshakeError.length))
    ⊎ ((length bytes ≡ hello_len) × (from_bytes (config_of_slice bytes) ≡ err e))

-- What a session becomes when a hello with the config `c` is taken.
abbrev pub settle : PeerSession → List ℕ → SessionConfig → PeerSession
settle s bytes c = record s {
  remote = some record { bytes = take id_len bytes };
  negotiated = some (negotiate s.config c);
  state = established;
}
