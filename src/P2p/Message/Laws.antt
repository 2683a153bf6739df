-- ===== src/P2p/Message/Laws.antt =====
-- The header of a fragment on the wire.
use psicose.Prelude.{
  ℕ, ◌+◌, ◌*◌, ◌^◌, ◌<◌, ◌≡◌, refl, bit_and, ◌⊎◌, inl, inr, Bool, true, false, not, ◌==◌, ltb,
  if◌then◌else◌, arith, ok, err, holds_below, holds_below_sound, Bool-cases,
}
use psicose.P2p.Message.{MessageHeader, HeaderBytes, flags, to_bytes, from_bytes}

-- A header whose fields are in the ranges of their machine types.
pub record IsHeader (h : MessageHeader) : Type 0 where
  pub stream_byte : h.stream.raw < 256
  pub message_word : h.message.raw < 2 ^ 16
  pub fragment_word : h.fragment < 2 ^ 16
  pub len_byte : h.len < 256

pub record IsHeaderBytes (w : HeaderBytes) : Type 0 where
  pub byte0 : w.b0 < 256
  pub byte1 : w.b1 < 256
  pub byte2 : w.b2 < 256
  pub byte3 : w.b3 < 256
  pub byte4 : w.b4 < 256
  pub byte5 : w.b5 < 256
  pub byte6 : w.b6 < 256

-- A header that is written is read back as it was.
pub header_from_bytes-to_bytes : (h : MessageHeader) → from_bytes (to_bytes h) ≡ ok h
unfolding from_bytes to_bytes
header_from_bytes-to_bytes h = elim (Bool-cases h.last) [
  | inl e ↦ simp e (ground arith)
  | inr e ↦ simp e (ground arith)
]

-- A byte has no reserved flag exactly when it is 0 or 1.
reserved : ℕ → Bool
reserved x = not (bit_and x 0xfe == 0)

flag_byte : ℕ → Bool
unfolding reserved
flag_byte x = if reserved x then ltb 1 x else x == (if not (bit_and x 1 == 0) then 1 else 0)

reserved_table : holds_below flag_byte 256 ≡ true
unfolding holds_below flag_byte
reserved_table = refl

flag-lem :
    (x : ℕ)
    → x < 256
    → ((bit_and x 0xfe == 0 ≡ true) × (x ≡ (if not (bit_and x 1 == 0) then 1 else 0)))
      ⊎ ((bit_and x 0xfe == 0 ≡ false) × (1 < x))
unfolding flag_byte
flag-lem x lt = ground (arith, holds_below_sound flag_byte 256 reserved_table x lt)

-- Seven bytes that are accepted as a header are the bytes of that header, and those that are not
-- have a reserved flag.
pub from_bytes-IsHeader :
    (w : HeaderBytes)
    → IsHeaderBytes w
    → ((h : MessageHeader) × (from_bytes w ≡ ok h) × IsHeader h × (to_bytes h ≡ w))
      ⊎ ((from_bytes w ≡ err flags) × (1 < w.b5))
unfolding from_bytes to_bytes
from_bytes-IsHeader w v = elim (flag-lem w.b5 v.byte5) [
  | inl (free, flag) ↦ inl (
    record {
      stream = record { raw = w.b0 };
      message = record { raw = w.b1 * 256 + w.b2 };
      fragment = w.b3 * 256 + w.b4;
      last = not (bit_and w.b5 1 == 0);
      len = w.b6;
    },
    simp free refl,
    ground arith,
    ground arith,
  )
  | inr (taken, more) ↦ inr (simp taken refl, more)
]
