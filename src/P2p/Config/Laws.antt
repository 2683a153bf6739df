-- ===== src/P2p/Config/Laws.antt =====
-- The config on the wire, and what two peers agree on.
use psicose.Prelude.{ℕ, ◌^◌, ◌≤◌, ◌<◌, ◌≡◌, true, arith, ok}
use psicose.Prelude.Bits.{bit_and_comm, bit_and-le, bit_and_again}
use psicose.Protocol.Bytes.{FrameBytes, IsBytes}
use psicose.P2p.Config.{
  Capabilities, SessionConfig, new, to_bytes, from_bytes, negotiate, contains, max_window_len,
}

-- What `new` makes and `from_bytes` accepts, in the ranges of the machine types.
pub record IsConfig (c : SessionConfig) : Type 0 where
  pub version_byte : c.protocol_version < 256
  pub version_set : 1 ≤ c.protocol_version
  pub window_open : 1 ≤ c.max_window
  pub window_bounded : c.max_window ≤ max_window_len
  pub features_word : c.features.bits < 2 ^ 16

-- A config within its bounds (a version and a window of at least 1, a window of at most
-- `max_window_len`, and values that fit their machine types) that goes out comes back the same.
pub config_from_bytes-to_bytes : (c : SessionConfig) → IsConfig c → from_bytes (to_bytes c) ≡ ok c
unfolding from_bytes to_bytes
config_from_bytes-to_bytes c h = ground arith

-- The bytes of a config that `from_bytes` accepts are those that `to_bytes` writes for it, and it
-- is within its bounds.
pub config_to_bytes-from_bytes :
    (w : FrameBytes) (c : SessionConfig)
    → IsBytes w
    → from_bytes w ≡ ok c
    → (to_bytes c ≡ w) × IsConfig c
unfolding from_bytes to_bytes
config_to_bytes-from_bytes w c b h = ground arith

pub new-IsConfig :
    (version window : ℕ) (features : Capabilities)
    → 1 ≤ version
    → version < 256
    → features.bits < 2 ^ 16
    → IsConfig (new version window features)
unfolding new
new-IsConfig version window features v w f = ground arith

pub negotiate_comm : (a b : SessionConfig) → negotiate a b ≡ negotiate b a
unfolding negotiate
negotiate_comm a b = ground (arith, bit_and_comm a.features.bits b.features.bits)

pub negotiate-IsConfig : (a b : SessionConfig) → IsConfig a → IsConfig b → IsConfig (negotiate a b)
unfolding negotiate
negotiate-IsConfig a b h k =
    ground (arith, bit_and-le a.features.bits a.features.bits b.features.bits)

-- Both ends reach the same config from each other's, whichever computes it. It is within bounds,
-- asks no more of either end than its own offer, in version, window and features.
pub negotiate-agrees :
    (a b : SessionConfig)
    → IsConfig a
    → IsConfig b
    → (negotiate a b ≡ negotiate b a)
      × IsConfig (negotiate a b)
      × ((negotiate a b).protocol_version ≤ a.protocol_version)
      × ((negotiate a b).max_window ≤ a.max_window)
      × (contains a.features (negotiate a b).features ≡ true)
      × (contains b.features (negotiate a b).features ≡ true)
unfolding negotiate contains
negotiate-agrees a b h k = (
  negotiate_comm a b,
  negotiate-IsConfig a b h k,
  omega arith,
  omega arith,
  ground (arith, bit_and_again a.features.bits a.features.bits b.features.bits),
  ground (
    arith,
    bit_and_comm a.features.bits b.features.bits,
    bit_and_again b.features.bits b.features.bits a.features.bits,
  ),
)
