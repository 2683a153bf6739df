-- ===== src/Protocol/Frame/Laws.antt =====
-- protocol/frame.rs: the codec is a bijection between the valid frames and the accepted windows.
use psicose.Prelude.{ℕ, ◌<◌, true, some, ◌≡◌, refl, arith, ok, eqb_refl}
use psicose.Protocol.Bytes.{FrameBytes}
use psicose.Protocol.Crc.{crc8_header}
use psicose.Protocol.Frame.{
  Frame, FrameType, dat, ack, nack, start, finish, abort, as_u8, from_u8, to_bytes, from_bytes,
  semantics_ok,
}

-- What every public constructor of a frame guarantees.
pub record IsValid (f : Frame) : Type 0 where
  pub seq_byte : f.seq < 256
  pub payload_byte : f.payload < 256
  pub sound : semantics_ok f.frame_type f.seq f.payload ≡ true

pub from_u8-as_u8 : (t : FrameType) → from_u8 (as_u8 t) ≡ some t
unfolding from_u8 as_u8
from_u8-as_u8 dat = refl
from_u8-as_u8 ack = refl
from_u8-as_u8 nack = refl
from_u8-as_u8 start = refl
from_u8-as_u8 finish = refl
from_u8-as_u8 abort = refl

pub as_u8-from_u8 : (b : ℕ) (t : FrameType) → from_u8 b ≡ some t → as_u8 t ≡ b
unfolding from_u8 as_u8
as_u8-from_u8 b t h = ground arith

pub as_u8-lt : (t : FrameType) → as_u8 t < 256
unfolding as_u8
as_u8-lt t = ground arith

-- Decoding the bytes of a frame that keeps the control-frame contract gives the frame back.
pub from_bytes-to_bytes :
    (f : Frame) → semantics_ok f.frame_type f.seq f.payload ≡ true → from_bytes (to_bytes f) ≡ ok f
unfolding from_bytes to_bytes
from_bytes-to_bytes f h = ground (
  arith,
  from_u8-as_u8 f.frame_type,
  eqb_refl (crc8_header (as_u8 f.frame_type) f.seq f.payload),
  h,
)

-- A window that decodes is, byte for byte, the encoding of the frame that it decodes to, and
-- that frame keeps the control-frame contract.
pub to_bytes-from_bytes :
    (w : FrameBytes) {f : Frame}
    → from_bytes w ≡ ok f
    → (to_bytes f ≡ w) × (semantics_ok f.frame_type f.seq f.payload ≡ true)
unfolding to_bytes from_bytes
to_bytes-from_bytes w {f} h = ground (arith, as_u8-from_u8 w.b0 f.frame_type)
