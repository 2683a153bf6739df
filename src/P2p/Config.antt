-- ===== src/P2p/Config.antt =====
-- p2p/session.rs: the features and the config that a peer announces in its hello.
pub mod Laws
use psicose.Prelude.{
  ℕ, ◌+◌, ◌*◌, ◌/◌, ◌%◌, ◌^◌, min, bit_and, bit_or, Bool, ◌||◌, ltb, ◌==◌, if◌then◌else◌, Result,
  ok, err,
}
use psicose.Protocol.Bytes.{FrameBytes}
use psicose.P2p.Peer.{id_len}

-- `MAX_WINDOW` of window/mod.rs.
abbrev pub max_window_len : ℕ
max_window_len = 8

abbrev pub protocol_version_one : ℕ
protocol_version_one = 1

-- `SessionConfig::WIRE_LEN` and `HELLO_LEN`.
abbrev pub config_len : ℕ
config_len = 4

abbrev pub hello_len : ℕ
hello_len = id_len + config_len

pub record Capabilities : Type 0 where
  pub bits : ℕ

-- The named feature bits, in the source's order.
abbrev pub no_features : Capabilities
no_features = record { bits = 0 }

abbrev pub window_bit : Capabilities
window_bit = record { bits = 2 ^ 0 }

abbrev pub stream_bit : Capabilities
stream_bit = record { bits = 2 ^ 1 }

abbrev pub forum_bit : Capabilities
forum_bit = record { bits = 2 ^ 2 }

abbrev pub compression_bit : Capabilities
compression_bit = record { bits = 2 ^ 3 }

abbrev pub encryption_bit : Capabilities
encryption_bit = record { bits = 2 ^ 4 }

abbrev pub fragmentation_bit : Capabilities
fragmentation_bit = record { bits = 2 ^ 5 }

unfoldable pub with_other : Capabilities → Capabilities → Capabilities
with_other a b = record { bits = bit_or a.bits b.bits }

unfoldable pub common : Capabilities → Capabilities → Capabilities
common a b = record { bits = bit_and a.bits b.bits }

unfoldable pub contains : Capabilities → Capabilities → Bool
contains a b = bit_and a.bits b.bits == b.bits

pub record SessionConfig : Type 0 where
  pub protocol_version : ℕ
  pub max_window : ℕ
  pub features : Capabilities

-- `SessionConfig::new`, which clamps the window.
unfoldable pub new : ℕ → ℕ → Capabilities → SessionConfig
new protocol_version max_window features = record {
  protocol_version = protocol_version;
  max_window =
      if max_window == 0
      then 1
      else if ltb max_window_len max_window
      then max_window_len
      else max_window;
  features = features;
}

unfoldable pub offer : ℕ → Capabilities → SessionConfig
unfolding new
offer max_window features = new protocol_version_one max_window features

-- `SessionConfig::window`.
unfoldable pub with_window : SessionConfig → ℕ → SessionConfig
unfolding new
with_window c max_window = new c.protocol_version max_window c.features

unfoldable pub with_features : SessionConfig → Capabilities → SessionConfig
unfolding new
with_features c features = new c.protocol_version c.max_window features

-- `SessionConfig::DEFAULT`, `FORUM` and `SECURE`.
unfoldable pub default_config : SessionConfig
unfolding new
default_config = new protocol_version_one max_window_len stream_bit

unfoldable pub forum_config : SessionConfig
unfolding offer with_other
forum_config =
    offer max_window_len
      (with_other (with_other (with_other stream_bit window_bit) forum_bit) fragmentation_bit)

unfoldable pub secure_config : SessionConfig
unfolding offer with_other
secure_config = offer max_window_len (
    with_other
      (with_other (with_other (with_other stream_bit window_bit) forum_bit) fragmentation_bit)
      encryption_bit)

-- The features go out as a big-endian `u16`.
unfoldable pub to_bytes : SessionConfig → FrameBytes
to_bytes c = record {
  b0 = c.protocol_version;
  b1 = c.max_window;
  b2 = c.features.bits / 256;
  b3 = c.features.bits % 256;
}

pub data HandshakeError : Type 0 where
  length version window : HandshakeError

unfoldable pub from_bytes : FrameBytes → Result SessionConfig HandshakeError
from_bytes bytes =
    if bytes.b0 == 0
    then err HandshakeError.version
    else if bytes.b1 == 0 || ltb max_window_len bytes.b1
    then err HandshakeError.window
    else ok record {
      protocol_version = bytes.b0;
      max_window = bytes.b1;
      features = record { bits = bytes.b2 * 256 + bytes.b3 };
    }

unfoldable pub negotiate : SessionConfig → SessionConfig → SessionConfig
unfolding common
negotiate local remote = record {
  protocol_version = min local.protocol_version remote.protocol_version;
  max_window = min local.max_window remote.max_window;
  features = common local.features remote.features;
}
