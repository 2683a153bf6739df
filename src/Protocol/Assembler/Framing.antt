-- ===== src/Protocol/Assembler/Framing.antt =====
-- protocol/assembler.rs: windows of four bytes from a frame boundary on.
use psicose.Prelude.{
  ℕ, ◌<◌, List, [], ◌∷◌, ◌++◌, true, Option, none, some, ◌≡◌, refl, sym, ap, subst, ◌∙◌, arith, All,
  Result, ok, err,
}
use psicose.Protocol.Bytes.{frame_len, to_list}
use psicose.Protocol.Frame.{
  Frame, FrameError, invalid_type, from_u8, from_bytes, to_bytes, semantics_ok,
}
use psicose.Protocol.Frame.Laws.{from_bytes-to_bytes}
use psicose.Protocol.Assembler.{FrameAssembler, complete, push}

-- Between two pushes the buffer has room for a byte.
pub IsOpen : FrameAssembler → Type 0
IsOpen a = a.filled < frame_len

-- Every push leaves room, whatever stood there before.
pub push-IsOpen : (a : FrameAssembler) (b : ℕ) → IsOpen (push a b).0
unfolding IsOpen push complete
push-IsOpen a b = ground arith

-- Nothing is decoded before the fourth byte.
pub push-none : (a : FrameAssembler) (b : ℕ) → a.filled < 3 → (push a b).1 ≡ none
unfolding push
push-none a b h = ground arith

-- The decision on a whole window: the error of an unknown type alone slides a resyncing buffer.
pub complete_lem :
    (a : FrameAssembler)
    → ((complete a).1 ≡ some (from_bytes a.buf))
      × ((complete a).0.last ≡ a.buf)
      × ((complete a).0.resync ≡ a.resync)
unfolding complete
complete_lem a = ground arith

-- The frames among what a run of bytes gives.
unfoldable pub keep_frame : Option (Result Frame FrameError) → List Frame → List Frame
keep_frame none fs = fs
keep_frame (some (ok f)) fs = f ∷ fs
keep_frame (some (err e)) fs = fs

unfoldable pub decoded : FrameAssembler → List ℕ → List Frame
unfolding keep_frame
decoded a [] = []
decoded a (b ∷ bytes) = let (a', r) = push a b in keep_frame r (decoded a' bytes)

-- The bytes of frames sent one after the other.
unfoldable pub wire : List Frame → List ℕ
unfolding to_list
wire [] = []
wire (f ∷ fs) = to_list (to_bytes f) ++ wire fs

abbrev pub Sound : Frame → Type 0
Sound f = semantics_ok f.frame_type f.seq f.payload ≡ true

abbrev pub with_filled : FrameAssembler → ℕ → FrameAssembler
with_filled a n = record a { filled = n }

-- Where four pushes from a boundary lead.
abbrev pub after_frame : FrameAssembler → Frame → FrameAssembler
after_frame a f = record a { buf = to_bytes f; last = to_bytes f; filled = 0 }

pub complete-ok :
    (a : FrameAssembler) (f : Frame)
    → from_bytes a.buf ≡ ok f
    → complete a ≡ (record a { last = a.buf; filled = 0 }, some (ok f))
unfolding complete
complete-ok a f h = ground arith

pub complete-unknown :
    (a : FrameAssembler)
    → a.resync ≡ true
    → from_u8 a.buf.b0 ≡ none
    → complete a ≡ (
      record a {
        buf = record a.buf { b0 = a.buf.b1; b1 = a.buf.b2; b2 = a.buf.b3 };
        last = a.buf;
        filled = 3;
      },
      some (err (invalid_type a.buf.b0)),
    )
unfolding complete from_bytes
complete-unknown a r u = ground arith

pub decoded-frame :
    (a : FrameAssembler) (f : Frame) (bytes : List ℕ)
    → Sound f
    → decoded (with_filled a 0) (to_list (to_bytes f) ++ bytes)
      ≡ f ∷ decoded (after_frame a f) bytes
unfolding decoded push to_list
decoded-frame a f bytes s = rw (
  complete-ok (record a { buf = to_bytes f; filled = 4 }) f (from_bytes-to_bytes f s),
  keep_frame,
)

decoded-wire_at :
    (a : FrameAssembler) (fs : List Frame) → All Sound fs → decoded (with_filled a 0) (wire fs) ≡ fs
unfolding wire decoded
decoded-wire_at a [] s = refl
decoded-wire_at a (f ∷ fs) s =
    decoded-frame a f (wire fs) s.0 ∙ ap (◌∷◌ f) (decoded-wire_at (after_frame a f) fs s.1)

-- From a frame boundary, any sequence of sound frames is recovered from its bytes, each once and
-- in order, whatever the buffer held and whether or not the assembler resynchronises.
pub decoded-wire :
    (a : FrameAssembler) (fs : List Frame) → a.filled ≡ 0 → All Sound fs → decoded a (wire fs) ≡ fs
decoded-wire a fs h s =
    subst (λ n. decoded (with_filled a n) (wire fs) ≡ fs) (sym h) (decoded-wire_at a fs s)
