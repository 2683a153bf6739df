-- ===== src/Protocol/OutBuf.antt =====
-- protocol/outbuf.rs: the frame that is being written, a byte at a time.
use psicose.Prelude.{
  ℕ, suc, zero, ◌+◌, ◌≤◌, List, [], ◌∷◌, Bool, Option, none, some, ◌≡◌, refl, ltb, leb,
  if◌then◌else◌,
}
use psicose.Protocol.Bytes.{FrameBytes, frame_len, zeroed, get_byte, to_list}
use psicose.Protocol.Frame.{Frame, to_bytes}

pub record OutBuf : Type 0 where
  pub buf : FrameBytes
  pub pos : ℕ

unfoldable pub empty : OutBuf
empty = record { buf = zeroed; pos = frame_len }

unfoldable pub is_idle : OutBuf → Bool
is_idle o = leb frame_len o.pos

unfoldable pub load : OutBuf → Frame → OutBuf
load o f = record o { buf = to_bytes f; pos = 0 }

unfoldable pub peek : OutBuf → Option ℕ
peek o = if leb frame_len o.pos then none else some (get_byte o.buf o.pos)

unfoldable pub commit : OutBuf → OutBuf
commit o = if ltb o.pos frame_len then record o { pos = o.pos + 1 } else o

-- The position never leaves the buffer.
pub IsInside : OutBuf → Type 0
IsInside o = o.pos ≤ frame_len

-- What is still to be written.
unfoldable pub rest : ℕ → OutBuf → List ℕ
rest zero o = []
rest (suc n) o = elim (peek o) [ none ↦ [] | some b ↦ b ∷ rest n (commit o) ]

-- A loaded frame is read out as its four wire bytes in order, and then the buffer is idle.
pub rest-load : (o : OutBuf) (f : Frame) → rest 5 (load o f) ≡ to_list (to_bytes f)
unfolding rest load peek commit to_list get_byte
rest-load o f = refl
