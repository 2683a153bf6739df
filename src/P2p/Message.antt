-- ===== src/P2p/Message.antt =====
-- p2p/stream.rs: streams, messages, and the header of a fragment.
pub mod Laws
use psicose.Prelude.{
  ℕ, zero, suc, ◌+◌, ◌*◌, ◌/◌, ◌%◌, ◌^◌, bit_and, List, [], ◌∷◌, Bool, not, ◌==◌, if◌then◌else◌,
  Result, ok, err,
}

-- `StreamId(u8)`.
pub record StreamId : Type 0 where
  pub raw : ℕ

-- `MessageId(u16)`.
pub record MessageId : Type 0 where
  pub raw : ℕ

unfoldable pub next : MessageId → MessageId
next m = record { raw = (m.raw + 1) % 2 ^ 16 }

-- `StreamId::CONTROL` and `StreamId::FORUM`.
abbrev pub control_stream : StreamId
control_stream = record { raw = 0 }

abbrev pub forum_stream : StreamId
forum_stream = record { raw = 1 }

abbrev pub header_len : ℕ
header_len = 7

abbrev pub flag_last : ℕ
flag_last = 1

pub record MessageHeader : Type 0 where
  pub stream : StreamId
  pub message : MessageId
  pub fragment : ℕ
  pub last : Bool
  pub len : ℕ

pub data HeaderError : Type 0 where
  flags : HeaderError

-- `[u8; HEADER_LEN]`.
pub record HeaderBytes : Type 0 where
  pub b0 : ℕ
  pub b1 : ℕ
  pub b2 : ℕ
  pub b3 : ℕ
  pub b4 : ℕ
  pub b5 : ℕ
  pub b6 : ℕ

-- `[0; HEADER_LEN]`.
abbrev pub zeroed_header : HeaderBytes
zeroed_header = record { b0 = 0; b1 = 0; b2 = 0; b3 = 0; b4 = 0; b5 = 0; b6 = 0 }

-- `hdr[i] = byte`; the index is below 7 where the code writes.
unfoldable pub set_header_byte : HeaderBytes → ℕ → ℕ → HeaderBytes
set_header_byte w zero b = record w { b0 = b }
set_header_byte w (suc zero) b = record w { b1 = b }
set_header_byte w (suc (suc zero)) b = record w { b2 = b }
set_header_byte w (suc (suc (suc zero))) b = record w { b3 = b }
set_header_byte w (suc (suc (suc (suc zero)))) b = record w { b4 = b }
set_header_byte w (suc (suc (suc (suc (suc zero))))) b = record w { b5 = b }
set_header_byte w (suc (suc (suc (suc (suc (suc zero)))))) b = record w { b6 = b }
set_header_byte w (suc (suc (suc (suc (suc (suc (suc i))))))) b = w

-- The bytes in the order in which they are sent.
unfoldable pub header_list : HeaderBytes → List ℕ
header_list w = w.b0 ∷ w.b1 ∷ w.b2 ∷ w.b3 ∷ w.b4 ∷ w.b5 ∷ w.b6 ∷ []

-- Both ids are big-endian `u16`s.
unfoldable pub to_bytes : MessageHeader → HeaderBytes
to_bytes h = record {
  b0 = h.stream.raw;
  b1 = h.message.raw / 256;
  b2 = h.message.raw % 256;
  b3 = h.fragment / 256;
  b4 = h.fragment % 256;
  b5 = if h.last then flag_last else 0;
  b6 = h.len;
}

-- `!FLAG_LAST` on a `u8` is 0xfe.
unfoldable pub from_bytes : HeaderBytes → Result MessageHeader HeaderError
from_bytes w =
    if not (bit_and w.b5 0xfe == 0)
    then err flags
    else ok record {
      stream = record { raw = w.b0 };
      message = record { raw = w.b1 * 256 + w.b2 };
      fragment = w.b3 * 256 + w.b4;
      last = not (bit_and w.b5 flag_last == 0);
      len = w.b6;
    }
