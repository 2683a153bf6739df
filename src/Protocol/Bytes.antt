-- ===== src/Protocol/Bytes.antt =====
-- `[u8; FRAME_LEN]`, the four bytes of a frame on the wire, as protocol/frame.rs lays them out.
use psicose.Prelude.{ℕ, zero, suc, List, [], ◌∷◌, ◌<◌}

-- The wire array. An index past its end panics in Rust; the callers' indices are below 4.
pub record FrameBytes : Type 0 where
  pub b0 : ℕ
  pub b1 : ℕ
  pub b2 : ℕ
  pub b3 : ℕ

abbrev pub frame_len : ℕ
frame_len = 4

-- `buf[i] = byte`.
unfoldable pub set_byte : FrameBytes → ℕ → ℕ → FrameBytes
set_byte w zero b = record w { b0 = b }
set_byte w (suc zero) b = record w { b1 = b }
set_byte w (suc (suc zero)) b = record w { b2 = b }
set_byte w (suc (suc (suc zero))) b = record w { b3 = b }
set_byte w (suc (suc (suc (suc i)))) b = w

-- `buf[i]`; 0 past the end.
unfoldable pub get_byte : FrameBytes → ℕ → ℕ
get_byte w zero = w.b0
get_byte w (suc zero) = w.b1
get_byte w (suc (suc zero)) = w.b2
get_byte w (suc (suc (suc zero))) = w.b3
get_byte w (suc (suc (suc (suc i)))) = 0

-- `[0; FRAME_LEN]`.
abbrev pub zeroed : FrameBytes
zeroed = record { b0 = 0; b1 = 0; b2 = 0; b3 = 0 }

-- The bytes in the order in which they go over the wire.
unfoldable pub to_list : FrameBytes → List ℕ
to_list w = w.b0 ∷ w.b1 ∷ w.b2 ∷ w.b3 ∷ []

-- Every entry is a `u8`.
pub record IsBytes (w : FrameBytes) : Type 0 where
  pub byte0 : w.b0 < 256
  pub byte1 : w.b1 < 256
  pub byte2 : w.b2 < 256
  pub byte3 : w.b3 < 256
