-- ===== src/Protocol/Assembler/Resync.antt =====
-- protocol/assembler.rs: a resyncing assembler finds the frame boundary behind noise.
use psicose.Prelude.{
  ℕ, suc, zero, ◌<◌, List, [], ◌∷◌, ◌++◌, true, none, ◌≡◌, refl, ap, ◌∙◌, arith, All,
}
use psicose.Protocol.Bytes.{FrameBytes, to_list}
use psicose.Protocol.Frame.{Frame, from_u8, to_bytes}
use psicose.Protocol.Frame.Laws.{from_bytes-to_bytes}
use psicose.Protocol.Assembler.{FrameAssembler, push, resyncing}
use psicose.Protocol.Assembler.Framing.{
  decoded, keep_frame, wire, Sound, complete-ok, complete-unknown, decoded-wire, decoded-frame,
  after_frame,
}

-- A byte that is no frame type.
abbrev pub Unknown : ℕ → Type 0
Unknown b = from_u8 b ≡ none

-- The first `n` bytes of the buffer can start no frame.
abbrev Quiet : FrameBytes → ℕ → Type 0
Quiet w zero = Unit {0}
Quiet w (suc zero) = Unknown w.b0
Quiet w (suc (suc zero)) = Unknown w.b0 × Unknown w.b1
Quiet w (suc (suc (suc n))) = Unknown w.b0 × Unknown w.b1 × Unknown w.b2

-- A resyncing assembler that holds `n` bytes.
abbrev held : FrameBytes → FrameBytes → ℕ → FrameAssembler
held w l n = record { buf = w; last = l; filled = n; resync = true }

abbrev slid : FrameBytes → ℕ → FrameBytes
slid w b = record { b0 = w.b1; b1 = w.b2; b2 = b; b3 = b }

-- A slide drops the first byte, and gives no frame.
decoded-slide :
    (w l : FrameBytes) (b : ℕ) (bytes : List ℕ)
    → Unknown w.b0
    → decoded (held w l 3) (b ∷ bytes) ≡ decoded (held (slid w b) (record w { b3 = b }) 3) bytes
unfolding decoded push
decoded-slide w l b bytes u =
    rw (complete-unknown (held (record w { b3 = b }) l 4) refl u, keep_frame)

-- The window that the frame completes.
decoded-last :
    (w l : FrameBytes) (f : Frame) (b : ℕ) (bytes : List ℕ)
    → Sound f
    → record w { b3 = b } ≡ to_bytes f
    → decoded (held w l 3) (b ∷ bytes) ≡ f ∷ decoded (after_frame (held w l 3) f) bytes
unfolding decoded push
decoded-last w l f b bytes s e =
    rw e (rw (complete-ok (held (to_bytes f) l 4) f (from_bytes-to_bytes f s), keep_frame))

-- Behind up to three bytes that start no frame, a frame is found as at a boundary.
decoded-Quiet_frame :
    (w l : FrameBytes) (n : ℕ) (f : Frame) (bytes : List ℕ)
    → n < 4
    → Quiet w n
    → Sound f
    → decoded (held w l n) (to_list (to_bytes f) ++ bytes)
      ≡ f ∷ decoded (after_frame (held w l n) f) bytes
unfolding decoded push to_list
decoded-Quiet_frame w l zero f bytes h q s = decoded-frame (held w l 0) f bytes s
decoded-Quiet_frame w l (suc zero) f bytes h q s =
    decoded-slide (record w { b1 = fb.b0; b2 = fb.b1 }) l fb.b2 (fb.b3 ∷ bytes) q
    ∙ decoded-last (slid (record w { b1 = fb.b0; b2 = fb.b1 }) fb.b2) _ f fb.b3 bytes s refl
  where
    fb : FrameBytes
    fb = to_bytes f
decoded-Quiet_frame w l (suc (suc zero)) f bytes h q s =
    decoded-slide (record w { b2 = fb.b0 }) l fb.b1 (fb.b2 ∷ fb.b3 ∷ bytes) q.0
    ∙ decoded-slide (slid (record w { b2 = fb.b0 }) fb.b1) _ fb.b2 (fb.b3 ∷ bytes) q.1
    ∙ decoded-last (slid (slid (record w { b2 = fb.b0 }) fb.b1) fb.b2) _ f fb.b3 bytes s refl
  where
    fb : FrameBytes
    fb = to_bytes f
decoded-Quiet_frame w l (suc (suc (suc zero))) f bytes h q s =
    decoded-slide w l fb.b0 (fb.b1 ∷ fb.b2 ∷ fb.b3 ∷ bytes) q.0
    ∙ decoded-slide (slid w fb.b0) _ fb.b1 (fb.b2 ∷ fb.b3 ∷ bytes) q.1
    ∙ decoded-slide (slid (slid w fb.b0) fb.b1) _ fb.b2 (fb.b3 ∷ bytes) q.2
    ∙ decoded-last (slid (slid (slid w fb.b0) fb.b1) fb.b2) _ f fb.b3 bytes s refl
  where
    fb : FrameBytes
    fb = to_bytes f
decoded-Quiet_frame w l (suc (suc (suc (suc n)))) f bytes h q s = absurd (omega arith)

decoded-Quiet :
    (w l : FrameBytes) (n : ℕ) (noise : List ℕ) (fs : List Frame)
    → n < 4
    → Quiet w n
    → All Unknown noise
    → All Sound fs
    → decoded (held w l n) (noise ++ wire fs) ≡ fs
unfolding decoded push wire
decoded-Quiet w l n [] [] h q u s = refl
decoded-Quiet w l n [] (f ∷ fs) h q u s =
    decoded-Quiet_frame w l n f (wire fs) h q s.0
    ∙ ap (◌∷◌ f) (decoded-wire (after_frame (held w l n) f) fs refl s.1)
decoded-Quiet w l zero (b ∷ noise) fs h q u s =
    decoded-Quiet (record w { b0 = b }) l 1 noise fs (omega arith) u.0 u.1 s
decoded-Quiet w l (suc zero) (b ∷ noise) fs h q u s =
    decoded-Quiet (record w { b1 = b }) l 2 noise fs (omega arith) (q, u.0) u.1 s
decoded-Quiet w l (suc (suc zero)) (b ∷ noise) fs h q u s =
    decoded-Quiet (record w { b2 = b }) l 3 noise fs (omega arith) (q.0, q.1, u.0) u.1 s
decoded-Quiet w l (suc (suc (suc zero))) (b ∷ noise) fs h q u s =
    decoded-slide w l b (noise ++ wire fs) q.0
    ∙ decoded-Quiet (slid w b) (record w { b3 = b }) 3 noise fs (omega arith) (q.1, q.2, u.0) u.1 s
decoded-Quiet w l (suc (suc (suc (suc n)))) (b ∷ noise) fs h q u s = absurd (omega arith)

-- A new resyncing assembler drops noise of any length that holds no frame type, and recovers
-- every sound frame behind it, each once and in order.
pub decoded-resyncing :
    (noise : List ℕ) (fs : List Frame)
    → All Unknown noise
    → All Sound fs
    → decoded resyncing (noise ++ wire fs) ≡ fs
unfolding resyncing
decoded-resyncing noise fs u s = decoded-Quiet _ _ 0 noise fs (omega arith) tt u s
