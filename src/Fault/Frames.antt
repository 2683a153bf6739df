-- ===== src/Fault/Frames.antt =====
-- What a faulty transport makes of a frame: it is lost, damaged in its CRC, or passed on.
use psicose.Prelude.{
  ℕ, ◌≡◌, refl, ap, sym, ◌∙◌, ◌≢◌, inl, inr, List, [], ◌∷◌, ◌++◌, bit_xor, true, if◌then◌else◌,
  arith, Result, ok, Bool-cases, ◌>>=◌,
}
use mathlib.Core.List.{append_assoc}
use psicose.Protocol.Bytes.{FrameBytes, frame_len, set_byte, to_list}
use psicose.Protocol.Frame.{Frame, from_bytes}
use psicose.Prelude.Bits.{bit_xor_left_injective, bit_xor_comm, zero-bit_xor}
use psicose.Protocol.Frame.Noise.{from_bytes-crc}
use psicose.Transport.{ByteTransport}
use psicose.Fault.{
  FaultPolicy, FaultyTransport, should_drop, should_corrupt, next_count, write_inner, write_frame,
  damaged, emit, write_byte,
}

-- A transport that takes every byte. `wire` are the bytes that it took.
pub record IsReliable {T E : Type 0} (io : ByteTransport T E) (wire : T → List ℕ) : Type 0 where
  pub accepts : (t : T) (b : ℕ) → (io.write_byte t b).1 ≡ ok tt
  pub appends : (t : T) (b : ℕ) → wire (io.write_byte t b).0 ≡ wire t ++ b ∷ []

-- What reaches the wire of a frame whose number is `count`.
unfoldable pub passed : FaultPolicy → ℕ → FrameBytes → List ℕ
passed p count w =
    if should_drop p count then [] else to_list (if should_corrupt p count then damaged w else w)

module _ {T E : Type 0} (io : ByteTransport T E) where
  -- The four writes of a frame.
  unfoldable pub write_window :
      FaultyTransport T → FrameBytes → FaultyTransport T × Result (Unit {0}) E
  write_window f w = write_byte io f w.b0 >>= λ u f1.
      write_byte io f1 w.b1 >>= λ u f2. write_byte io f2 w.b2 >>= λ u f3. write_byte io f3 w.b3

  -- The inner transport after the bytes of a frame.
  abbrev pub after_frame : T → FrameBytes → T
  after_frame t w =
      (io.write_byte (io.write_byte (io.write_byte (io.write_byte t w.b0).0 w.b1).0 w.b2).0 w.b3).0

  append_nil : (xs : List ℕ) → xs ≡ xs ++ []
  append_nil [] = refl
  append_nil (x ∷ xs) = ap (λ zs. x ∷ zs) (append_nil xs)

  module _ (wire : T → List ℕ) (inner : IsReliable io wire) where
    write_inner-eq :
        (f : FaultyTransport T) (b : ℕ)
        → write_inner io f b ≡ (record f { inner = (io.write_byte f.inner b).0 }, ok tt)
    unfolding write_inner
    write_inner-eq f b = simp (inner.accepts f.inner b) refl

    write_frame-eq :
        (f : FaultyTransport T) (w : FrameBytes)
        → write_frame io f w ≡ (record f { inner = after_frame f.inner w }, ok tt)
    unfolding write_frame
    write_frame-eq f w = simp write_inner-eq refl

    after_frame-wire : (t : T) (w : FrameBytes) → wire (after_frame t w) ≡ wire t ++ to_list w
    unfolding to_list
    after_frame-wire t w =
        simp
          (
            inner.appends (io.write_byte (io.write_byte (io.write_byte t w.b0).0 w.b1).0 w.b2).0
                w.b3,
            inner.appends (io.write_byte (io.write_byte t w.b0).0 w.b1).0 w.b2,
            inner.appends (io.write_byte t w.b0).0 w.b1,
            inner.appends t w.b0,
            append_assoc (wire t),
          )
          refl

    write_window-emit :
        (f : FaultyTransport T) (w : FrameBytes)
        → f.write_policy.frame_granularity ≡ true
        → f.write_fill ≡ 0
        → write_window f w ≡ emit io (record f { write_buf = w; write_fill = frame_len })
    unfolding write_window write_byte set_byte
    write_window-emit f w g z = rw (g, z) refl

    -- A frame that is written to an empty buffer counts as one, and is lost, damaged in its last
    -- byte, or passed on as it is, by the policy alone.
    pub write_window-passed :
        (f : FaultyTransport T) (w : FrameBytes)
        → f.write_policy.frame_granularity ≡ true
        → f.write_fill ≡ 0
        → ((write_window f w).1 ≡ ok tt)
          × ((write_window f w).0.writes ≡ next_count f.writes)
          × ((write_window f w).0.write_fill ≡ 0)
          × (wire (write_window f w).0.inner
              ≡ wire f.inner ++ passed f.write_policy (next_count f.writes) w)
    unfolding emit passed
    write_window-passed f w g z =
        rw (write_window-emit f w g z)
          elim (Bool-cases (should_drop f.write_policy (next_count f.writes))) [
            | inl lost ↦ simp lost (refl, refl, refl, append_nil (wire f.inner))
            | inr kept ↦ simp (kept, write_frame-eq) (refl, refl, refl, after_frame-wire f.inner _)
          ]

bit_xor-changes : (b : ℕ) → bit_xor b 0xff ≢ b
bit_xor-changes b h =
    absurd
      (omega (arith, bit_xor_left_injective b 0xff 0 (h ∙ sym (bit_xor_comm b 0 ∙ zero-bit_xor b))))

-- A frame that decodes does not decode once its last byte is damaged.
pub damaged-refused :
    (w : FrameBytes) {f : Frame} (g : Frame) → from_bytes w ≡ ok f → from_bytes (damaged w) ≢ ok g
damaged-refused w g h e =
    bit_xor-changes w.b3 (sym (from_bytes-crc (damaged w) e) ∙ from_bytes-crc w h)
