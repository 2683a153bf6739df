-- ===== src/Protocol/Assembler.antt =====
-- protocol/assembler.rs: bytes into frames, with or without resynchronisation.
pub mod Framing
pub mod Resync
use psicose.Prelude.{
  ℕ, zero, suc, ◌+◌, ◌-◌, ◌≤◌, ◌<◌, List, [], ◌∷◌, Bool, true, false, Option, none, some, ◌≡◌, refl,
  arith, ltb, leb, if◌then◌else◌, ◌&&◌, Result, ok, err,
}
use psicose.Protocol.Bytes.{FrameBytes, frame_len, zeroed, set_byte}
use psicose.Protocol.Frame.{
  Frame, FrameError, invalid_type, crc_mismatch, invalid_semantics, from_bytes,
}

pub record FrameAssembler : Type 0 where
  pub buf : FrameBytes
  pub last : FrameBytes
  pub filled : ℕ
  pub resync : Bool

unfoldable pub new : FrameAssembler
new = record { buf = zeroed; last = zeroed; filled = 0; resync = false }

unfoldable pub resyncing : FrameAssembler
resyncing = record { buf = zeroed; last = zeroed; filled = 0; resync = true }

unfoldable pub reset : FrameAssembler → FrameAssembler
reset a = record a { filled = 0 }

-- `matches!(result, Err(FrameError::InvalidType(_)))`.
unfoldable pub is_invalid_type : Result Frame FrameError → Bool
is_invalid_type (ok f) = false
is_invalid_type (err (invalid_type b)) = true
is_invalid_type (err (crc_mismatch expected got)) = false
is_invalid_type (err invalid_semantics) = false

-- `push` past the test for a whole window: decode it, then slide or clear.
unfoldable pub complete : FrameAssembler → FrameAssembler × Option (Result Frame FrameError)
unfolding is_invalid_type set_byte
complete a =
    let window = a.buf in
    let result = from_bytes window in
    if a.resync && is_invalid_type result
    then (
      record a {
        buf = set_byte (set_byte (set_byte window 0 window.b1) 1 window.b2) 2 window.b3;
        last = window;
        filled = frame_len - 1;
      },
      some result,
    )
    else (record a { last = window; filled = 0 }, some result)

-- The byte goes to the next free place, after a wrap of a buffer that is full.
unfoldable pub put : FrameAssembler → ℕ → FrameAssembler
unfolding set_byte
put a byte =
    let filled = if leb frame_len a.filled then 0 else a.filled in
    record a { buf = set_byte a.buf filled byte; filled = filled + 1 }

unfoldable pub push : FrameAssembler → ℕ → FrameAssembler × Option (Result Frame FrameError)
unfolding put
push a byte = let a' = put a byte in if ltb a'.filled frame_len then (a', none) else complete a'

abbrev pub last_bytes : FrameAssembler → FrameBytes
last_bytes a = a.last

-- A run of `push`: the last state, and what each byte gave.
unfoldable pub push_all :
    FrameAssembler → List ℕ → FrameAssembler × List (Option (Result Frame FrameError))
push_all a [] = (a, [])
push_all a (b ∷ bytes) =
    let (a', r) = push a b in let (a'', rs) = push_all a' bytes in (a'', r ∷ rs)
