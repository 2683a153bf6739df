-- ===== src/Face/Ring.antt =====
-- transport/face.rs: the ring of bytes behind each end of a face.
use psicose.Prelude.{
  ℕ, zero, suc, ◌+◌, ◌-◌, ◌%◌, List, [], ◌∷◌, Bool, true, false, Option, none, some, ltb, ◌==◌,
  if◌then◌else◌, get_or, set,
}
use psicose.Protocol.Bytes.{FrameBytes, frame_len, get_byte}

abbrev pub ring_len : ℕ
ring_len = 64

-- `[0; n]`.
abbrev pub zeros : ℕ → List ℕ
zeros zero = []
zeros (suc n) = 0 ∷ zeros n

pub record Ring : Type 0 where
  pub buf : List ℕ
  pub head : ℕ
  pub tail : ℕ
  pub len : ℕ

unfoldable pub new : Ring
new = record { buf = zeros ring_len; head = 0; tail = 0; len = 0 }

unfoldable pub pop : Ring → Ring × Option ℕ
pop r = if r.len == 0 then (r, none) else (
  record r { head = (r.head + 1) % ring_len; len = r.len - 1 },
  some (get_or r.buf r.head 0),
)

-- One round of the loop of `push_frame`.
unfoldable pub push_byte : Ring → ℕ → Ring
push_byte r byte = record r {
  buf = set r.buf r.tail byte;
  tail = (r.tail + 1) % ring_len;
  len = r.len + 1;
}

-- The loop: `n` rounds are left, and the next byte is that of index `i`.
unfoldable pub push_bytes : ℕ → ℕ → Ring → FrameBytes → Ring
unfolding push_byte
push_bytes zero i r bytes = r
push_bytes (suc n) i r bytes = push_bytes n (i + 1) (push_byte r (get_byte bytes i)) bytes

unfoldable pub push_frame : Ring → FrameBytes → Ring × Bool
unfolding push_bytes
push_frame r bytes =
    if ltb (ring_len - frame_len) r.len then (r, false) else (push_bytes frame_len 0 r bytes, true)
