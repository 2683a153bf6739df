-- ===== src/P2p/Tests.antt =====
-- The peer-to-peer layer at concrete inputs.
use psicose.Prelude.{
  ℕ, ◌≤◌, ◌≢◌, ap, List, [], ◌∷◌, Option, none, some, ◌≡◌, ◌⊎◌, refl, false, true, arith, ok, err,
}
use psicose.Protocol.Bytes.{IsBytes}
use psicose.P2p.Peer.{PeerId, blank, from_label}
use psicose.P2p.Peer.Label.{overlay, from_label-eq-overlay}
use psicose.P2p.Config.{contains, default_config, forum_config, to_bytes, from_bytes, negotiate}
use psicose.P2p.Config.Laws.{
  IsConfig, config_from_bytes-to_bytes, config_to_bytes-from_bytes, negotiate-agrees,
}
use psicose.P2p.Session.{PeerSession, new_session, connect, on_hello, hello_bytes, connecting, tag}
use psicose.P2p.Session.Handshake.{IsPeer, meet, connect-on_hello, connect-crossing}
use psicose.P2p.Table.{
  PeerTable, TableError, with_config, len, capacity, put, accept, find, listed, reply_or_hello,
}
use psicose.P2p.Table
use psicose.P2p.Table.Unique.{IsUnique}
use psicose.P2p.Table.Room.{IsRoom, Turned, connect-IsRoom, accept-IsRoom}
use psicose.P2p.Table.Steps.{Reachable, fresh, after, connects, accepts, Reachable-IsUnique}

abbrev alice : PeerId
alice = record { bytes = 0x61 ∷ 0x6c ∷ 0x69 ∷ 0x63 ∷ 0x65 ∷ 0 ∷ 0 ∷ 0 ∷ [] }

abbrev bob : PeerId
bob = record { bytes = 0x62 ∷ 0x6f ∷ 0x62 ∷ 0 ∷ 0 ∷ 0 ∷ 0 ∷ 0 ∷ [] }

default_config-IsConfig : IsConfig default_config
unfolding default_config
default_config-IsConfig = record {
  version_byte = omega arith;
  version_set = omega arith;
  window_open = omega arith;
  window_bounded = omega arith;
  features_word = omega arith;
}

forum_config-IsConfig : IsConfig forum_config
unfolding forum_config
forum_config-IsConfig = record {
  version_byte = omega arith;
  version_set = omega arith;
  window_open = omega arith;
  window_bounded = omega arith;
  features_word = omega arith;
}

forum_config-IsBytes : IsBytes (to_bytes forum_config)
unfolding to_bytes forum_config
forum_config-IsBytes = record {
  byte0 = omega arith;
  byte1 = omega arith;
  byte2 = omega arith;
  byte3 = omega arith;
}

first : PeerSession
first = new_session alice default_config

second : PeerSession
second = new_session bob forum_config

first-IsPeer : IsPeer first
unfolding first new_session
first-IsPeer = record { id_length = refl; offered = default_config-IsConfig }

second-IsPeer : IsPeer second
unfolding second new_session
second-IsPeer = record { id_length = refl; offered = forum_config-IsConfig }

second-is_idle : second.state ≢ connecting
unfolding second new_session
second-is_idle e = absurd (omega (arith, ap tag e))

-- The features on which the two agree.
agreed : (negotiate default_config forum_config).features.bits ≡ 2
unfolding negotiate default_config forum_config
agreed = refl

from_label-eq-overlay_example :
    (from_label (0x62 ∷ 0x6f ∷ 0x62 ∷ [])).bytes ≡ overlay (0x62 ∷ 0x6f ∷ 0x62 ∷ []) blank
from_label-eq-overlay_example = from_label-eq-overlay (0x62 ∷ 0x6f ∷ 0x62 ∷ [])

config_from_bytes-to_bytes_example : from_bytes (to_bytes forum_config) ≡ ok forum_config
config_from_bytes-to_bytes_example = config_from_bytes-to_bytes forum_config forum_config-IsConfig

config_to_bytes-from_bytes_example :
    (to_bytes forum_config ≡ to_bytes forum_config) × IsConfig forum_config
config_to_bytes-from_bytes_example =
    config_to_bytes-from_bytes (to_bytes forum_config) forum_config forum_config-IsBytes
      (config_from_bytes-to_bytes forum_config forum_config-IsConfig)

negotiate-agrees_example :
    (negotiate default_config forum_config ≡ negotiate forum_config default_config)
    × IsConfig (negotiate default_config forum_config)
    × ((negotiate default_config forum_config).protocol_version ≤ default_config.protocol_version)
    × ((negotiate default_config forum_config).max_window ≤ default_config.max_window)
    × (contains default_config.features (negotiate default_config forum_config).features ≡ true)
    × (contains forum_config.features (negotiate default_config forum_config).features ≡ true)
negotiate-agrees_example =
    negotiate-agrees default_config forum_config default_config-IsConfig forum_config-IsConfig

connect-on_hello_example :
    (on_hello second (connect first).1 ≡ (meet second first, ok (some (hello_bytes second))))
    × (on_hello (connect first).0 (hello_bytes second) ≡ (meet first second, ok none))
    × ((meet first second).negotiated ≡ (meet second first).negotiated)
connect-on_hello_example = connect-on_hello first second first-IsPeer second-IsPeer second-is_idle

connect-crossing_example :
    (on_hello (connect first).0 (connect second).1 ≡ (meet first second, ok none))
    × (on_hello (connect second).0 (connect first).1 ≡ (meet second first, ok none))
    × ((meet first second).negotiated ≡ (meet second first).negotiated)
connect-crossing_example = connect-crossing first second first-IsPeer second-IsPeer

two_slots : PeerTable
two_slots = with_config 2 alice default_config

connect-IsRoom_example :
    ((Table.connect two_slots ≡ (two_slots, err TableError.full))
      × (len two_slots ≡ capacity two_slots))
    ⊎ ((i : ℕ) × IsRoom two_slots i (connect (new_session two_slots.local two_slots.config)).0
        × (Table.connect two_slots ≡ (
          put two_slots i (connect (new_session two_slots.local two_slots.config)).0,
          ok (i, hello_bytes (new_session two_slots.local two_slots.config)),
        )))
connect-IsRoom_example = connect-IsRoom two_slots

accept-IsRoom_example :
    ((e : TableError) × Turned two_slots (hello_bytes second) e
      × (accept two_slots (hello_bytes second) ≡ (two_slots, err e)))
    ⊎ ((i : ℕ) × (reply : Option (List ℕ)) × IsRoom two_slots i
          (on_hello (new_session two_slots.local two_slots.config) (hello_bytes second)).0
        × (listed (find two_slots) (hello_bytes second) ≡ false)
        × ((on_hello (new_session two_slots.local two_slots.config) (hello_bytes second)).1
            ≡ ok reply)
        × (accept two_slots (hello_bytes second) ≡ (
          put two_slots i
              (on_hello (new_session two_slots.local two_slots.config) (hello_bytes second)).0,
          ok (
            i,
            reply_or_hello
                (on_hello (new_session two_slots.local two_slots.config) (hello_bytes second)).0
                reply,
          ),
        )))
accept-IsRoom_example = accept-IsRoom two_slots (hello_bytes second)

two_listed :
    Reachable 2 alice default_config (accept (Table.connect two_slots).0 (hello_bytes second)).0
unfolding two_slots
two_listed =
    after (after fresh (connects two_slots))
      (accepts (Table.connect two_slots).0 (hello_bytes second))

Reachable-IsUnique_example :
    IsUnique (accept (Table.connect two_slots).0 (hello_bytes second)).0.slots
Reachable-IsUnique_example = Reachable-IsUnique two_listed
