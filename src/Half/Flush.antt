-- ===== src/Half/Flush.antt =====
-- The loop that hands a staged frame to the port.
use psicose.Prelude.{
  ℕ, zero, suc, ◌+◌, ◌≤◌, ◌<◌, ◌≡◌, refl, ap, ◌∙◌, ◌⊎◌, inl, inr, List, [], ◌∷◌, ◌++◌, true, ltb,
  arith, take, drop, Result, ok, err, Result-cases, Bool-cases, bind-ok, bind-err,
}
use mathlib.Core.List.{append_assoc}
use psicose.Protocol.Bytes.{FrameBytes, frame_len, set_byte, get_byte, to_list}
use psicose.Transport.{ByteTransport}
use psicose.Half.{LineDirection, HalfDuplex, drop_line, flush_byte, flush}

-- A port takes a byte or refuses it. `wire` are the bytes that it took.
pub record IsPort {T E : Type 0} (io : ByteTransport T E) (wire : T → List ℕ) : Type 0 where
  pub taken :
      (t : T) (b : ℕ)
      → (io.write_byte t b).1 ≡ ok tt
      → wire (io.write_byte t b).0 ≡ wire t ++ b ∷ []
  pub refused :
      (t : T) (b : ℕ) (e : E) → (io.write_byte t b).1 ≡ err e → wire (io.write_byte t b).0 ≡ wire t

-- Between calls a part of a frame is staged, or a whole one waits for the port.
pub record IsStaged {T D : Type 0} (h : HalfDuplex T D) : Type 0 where
  pub within : h.filled ≤ frame_len
  pub unfinished : h.flushed < frame_len
  pub whole : h.filled < frame_len → h.flushed ≡ 0

drop-byte :
    (w : FrameBytes) (i : ℕ) → i < 4 → drop i (to_list w) ≡ get_byte w i ∷ drop (i + 1) (to_list w)
unfolding to_list get_byte
drop-byte w zero h = refl
drop-byte w (suc zero) h = refl
drop-byte w (suc (suc zero)) h = refl
drop-byte w (suc (suc (suc zero))) h = refl
drop-byte w (suc (suc (suc (suc i)))) h = absurd (omega arith)

pub take-byte :
    (w : FrameBytes) (i b : ℕ)
    → i < 4
    → take (i + 1) (to_list (set_byte w i b)) ≡ take i (to_list w) ++ b ∷ []
unfolding to_list set_byte
take-byte w zero b h = refl
take-byte w (suc zero) b h = refl
take-byte w (suc (suc zero)) b h = refl
take-byte w (suc (suc (suc zero))) b h = refl
take-byte w (suc (suc (suc (suc i)))) b h = absurd (omega arith)

pub append_nil : (xs : List ℕ) → xs ++ [] ≡ xs
append_nil [] = refl
append_nil (x ∷ xs) = ap (λ zs. x ∷ zs) (append_nil xs)

module _ {T : Type 0} (wire : T → List ℕ) where
  -- The bytes on the wire, and after them those of the staged frame from the next one on.
  abbrev pub with_rest : {D : Type 0} → HalfDuplex T D → List ℕ
  with_rest h = wire h.port ++ drop h.flushed (to_list h.stage)

  -- The bytes on the wire, and after them those that are staged and not yet on it.
  abbrev pub handed : {D : Type 0} → HalfDuplex T D → List ℕ
  handed h = wire h.port ++ drop h.flushed (take h.filled (to_list h.stage))

  pub record IsKept {D : Type 0} (h h' : HalfDuplex T D) : Type 0 where
    pub stage : h'.stage ≡ h.stage
    pub filled : h'.filled ≡ h.filled
    pub rest : with_rest h' ≡ with_rest h

module _ {T D E : Type 0} (io : ByteTransport T E) (line : LineDirection D) (wire : T → List ℕ)
    (port : IsPort io wire) where
  flush_byte-taken :
      (h : HalfDuplex T D)
      → h.flushed < frame_len
      → (io.write_byte h.port (get_byte h.stage h.flushed)).1 ≡ ok tt
      → ((flush_byte io line h).1 ≡ ok tt)
        × ((flush_byte io line h).0.flushed ≡ h.flushed + 1)
        × IsKept wire h (flush_byte io line h).0
  unfolding flush_byte
  flush_byte-taken h lt w =
      simp (w, flush_byte)
        (
          refl,
          refl,
          record {
            stage = refl;
            filled = refl;
            rest =
                rw
                  (port.taken h.port (get_byte h.stage h.flushed) w, drop-byte h.stage h.flushed lt)
                  (append_assoc (wire h.port) _ _);
          },
        )

  flush_byte-refused :
      (h : HalfDuplex T D) (e : E)
      → (io.write_byte h.port (get_byte h.stage h.flushed)).1 ≡ err e
      → ((flush_byte io line h).1 ≡ err e)
        × ((flush_byte io line h).0.flushed ≡ h.flushed)
        × IsKept wire h (flush_byte io line h).0
  unfolding flush_byte drop_line
  flush_byte-refused h e w =
      simp (w, flush_byte)
        (
          refl,
          refl,
          record {
            stage = refl;
            filled = refl;
            rest = rw (port.refused h.port (get_byte h.stage h.flushed) e w) refl;
          },
        )

  -- What a run of the loop leaves: the frame is as it was, and either all of it is on the wire or
  -- the port refused a byte.
  pub record IsFlushed (h : HalfDuplex T D) (r : HalfDuplex T D × Result (Unit {0}) E)
      : Type 0 where
    pub kept : IsKept wire h r.0
    pub end :
        ((r.1 ≡ ok tt) × (r.0.flushed ≡ frame_len))
        ⊎ ((e : E) × (r.1 ≡ err e) × (r.0.flushed < frame_len))

  flush-next :
      (rounds : ℕ) (h : HalfDuplex T D)
      → ltb h.flushed frame_len ≡ true
      → (flush_byte io line h).1 ≡ ok tt
      → flush io line (suc rounds) h ≡ flush io line rounds (flush_byte io line h).0
  unfolding flush
  flush-next rounds h more done = rw more (bind-ok (flush_byte io line h) _ tt done)

  flush-stopped :
      (rounds : ℕ) (h : HalfDuplex T D) (e : E)
      → ltb h.flushed frame_len ≡ true
      → (flush_byte io line h).1 ≡ err e
      → flush io line (suc rounds) h ≡ ((flush_byte io line h).0, err e)
  unfolding flush
  flush-stopped rounds h e more failed = rw more (bind-err (flush_byte io line h) _ e failed)

  pub flush-IsFlushed :
      (rounds : ℕ) (h : HalfDuplex T D)
      → h.flushed ≤ frame_len
      → frame_len ≤ h.flushed + rounds
      → IsFlushed h (flush io line rounds h)
  unfolding flush
  flush-IsFlushed zero h within enough = record {
    kept = record { stage = refl; filled = refl; rest = refl };
    end = inl (refl, omega arith);
  }
  flush-IsFlushed (suc rounds) h within enough = elim (Bool-cases (ltb h.flushed frame_len)) [
    | inr done ↦
        simp (done, flush)
          record {
            kept = record { stage = refl; filled = refl; rest = refl };
            end = inl (refl, ground arith);
          }
    | inl more ↦ elim (Result-cases (io.write_byte h.port (get_byte h.stage h.flushed)).1) [
      | inl (u, w) ↦
          let lt : h.flushed < frame_len = ground arith in
          let (done, next, kept) = flush_byte-taken h lt w in
          let ih =
            flush-IsFlushed rounds (flush_byte io line h).0 (omega (arith, next))
              (omega (arith, next)) in
          rw (flush-next rounds h more done) record {
            kept = record {
              stage = ih.kept.stage ∙ kept.stage;
              filled = ih.kept.filled ∙ kept.filled;
              rest = ih.kept.rest ∙ kept.rest;
            };
            end = ih.end;
          }
      | inr (e, w) ↦
          let (failed, same, kept) = flush_byte-refused h e w in
          rw (flush-stopped rounds h e more failed)
            record { kept = kept; end = inr (e, refl, ground arith) }
    ]
  ]
