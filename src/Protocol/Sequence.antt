-- ===== src/Protocol/Sequence.antt =====
-- protocol/sequence.rs: the sequence counter modulo 256.
use psicose.Prelude.{ℕ, ◌+◌, ◌-◌, ◌%◌, ◌<◌, ◌≡◌, ◌≢◌, arith}

-- `Sequence(u8)`.
pub record Sequence : Type 0 where
  pub raw : ℕ

unfoldable pub new : Sequence
new = record { raw = 0 }

unfoldable pub from_raw : ℕ → Sequence
from_raw value = record { raw = value }

abbrev pub current : Sequence → ℕ
current s = s.raw

-- The counter after `advance`, and the number that it returns.
unfoldable pub advance : Sequence → Sequence × ℕ
advance s = (record { raw = (s.raw + 1) % 256 }, s.raw)

unfoldable pub previous : Sequence → ℕ
previous s = (s.raw + 256 - 1) % 256

-- What was stamped before an advance is the number before the one after it.
pub previous-advance : (s : Sequence) → s.raw < 256 → previous (advance s).0 ≡ (advance s).1
unfolding previous advance
previous-advance s h = omega arith

pub advance-lt : (s : Sequence) → (advance s).0.raw < 256
unfolding advance
advance-lt s = omega arith

pub advance-ne : (s : Sequence) → (advance s).0.raw ≢ s.raw
unfolding advance
advance-ne s = omega arith
