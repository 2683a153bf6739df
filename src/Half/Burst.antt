-- ===== src/Half/Burst.antt =====
-- What the half-duplex line hands to its port: whole frames, every byte once, across refusals.
use psicose.Prelude.{
  ℕ, ◌+◌, ◌<◌, ◌≡◌, refl, ap, sym, ◌∙◌, ◌⊎◌, inl, inr, List, [], ◌∷◌, ◌++◌, true, ltb,
  if◌then◌else◌, arith, drop, Result, ok, err, Bool-cases, bind-ok, bind-err, ◌>>=◌,
}
use mathlib.Core.List.{append_assoc}
use psicose.Protocol.Bytes.{frame_len, to_list}
use psicose.Transport.{ByteTransport}
use psicose.Half.{LineDirection, HalfDuplex, stage_byte, raise, drop_line, flush, burst, write_byte}
use psicose.Half.Flush.{IsPort, IsStaged, append_nil, take-byte, handed, IsFlushed, flush-IsFlushed}

module _ {T D E : Type 0} (io : ByteTransport T E) (line : LineDirection D) (wire : T → List ℕ)
    (port : IsPort io wire) where
  -- `r` has handed over what `h` had and then `more`. Either part of a frame is staged and none of
  -- it is on the wire, or a whole frame is staged because the port refused a byte.
  pub record IsHandedOver (h : HalfDuplex T D) (more : List ℕ)
      (r : HalfDuplex T D × Result (Unit {0}) E) : Type 0 where
    pub staged : IsStaged r.0
    pub handed_over : handed wire r.0 ≡ handed wire h ++ more
    pub end :
        ((r.1 ≡ ok tt) × (r.0.filled < frame_len))
        ⊎ ((e : E) × (r.1 ≡ err e) × (r.0.filled ≡ frame_len))

  stage_byte-handed :
      (h : HalfDuplex T D) (b : ℕ)
      → IsStaged h
      → h.filled < frame_len
      → ((stage_byte line h b).filled ≡ h.filled + 1)
        × ((stage_byte line h b).flushed ≡ 0)
        × (handed wire (stage_byte line h b) ≡ handed wire h ++ b ∷ [])
  unfolding stage_byte
  stage_byte-handed h b s lt =
      let fits : ltb h.filled frame_len ≡ true = ground arith in
      simp (fits, s.whole lt, take-byte h.stage h.filled b lt)
        (refl, refl, sym (append_assoc (wire h.port) _ _))

  stage_byte-full : (h : HalfDuplex T D) (b : ℕ) → h.filled ≡ frame_len → stage_byte line h b ≡ h
  unfolding stage_byte
  stage_byte-full h b full = simp full refl

  -- The end of a burst, whatever the loop left.
  abbrev finish : HalfDuplex T D × Result (Unit {0}) E → HalfDuplex T D × Result (Unit {0}) E
  finish r = r >>= λ u h'. (record (drop_line line h') { filled = 0; flushed = 0 }, ok tt)

  finish-hands_over :
      (h : HalfDuplex T D) (r : HalfDuplex T D × Result (Unit {0}) E)
      → h.filled ≡ frame_len
      → IsFlushed io line wire port (raise line h) r
      → IsHandedOver h [] (finish r)
  unfolding raise drop_line to_list
  finish-hands_over h r full f = elim f.end [
    | inl (done, all) ↦
        let kept : wire r.0.port ++ [] ≡ wire h.port ++ drop h.flushed (to_list h.stage) =
          ap (λ n. wire r.0.port ++ drop n (to_list r.0.stage)) (sym all) ∙ f.kept.rest in
        rw
          (bind-ok r (λ u h'. (record (drop_line line h') { filled = 0; flushed = 0 }, ok tt)) tt
            done)
          record {
            staged = record { within = omega arith; unfinished = omega arith; whole = λ lt. refl };
            handed_over = rw full (kept ∙ sym (append_nil _));
            end = inl (refl, omega arith);
          }
    | inr (e, failed, less) ↦
        rw
          (bind-err r (λ u h'. (record (drop_line line h') { filled = 0; flushed = 0 }, ok tt)) e
            failed)
          record {
            staged = record {
              within = omega (arith, f.kept.filled, full);
              unfinished = less;
              whole = λ lt. absurd (omega (arith, f.kept.filled, full));
            };
            handed_over = rw (f.kept.filled, full) (f.kept.rest ∙ sym (append_nil _));
            end = inr (e, refl, f.kept.filled ∙ full);
          }
  ]

  burst-hands_over :
      (h : HalfDuplex T D)
      → h.filled ≡ frame_len
      → h.flushed < frame_len
      → IsHandedOver h [] (burst io line h)
  unfolding burst
  burst-hands_over h full lt = finish-hands_over h (flush io line frame_len (raise line h)) full (
      flush-IsFlushed io line wire port frame_len (raise line h) (unfold raise in omega arith)
        (unfold raise in omega arith))

  -- A write adds its byte to the bytes handed over, unless a whole frame waited for the port: then
  -- it only tries that frame again. It succeeds with part of a frame staged and none of it on the
  -- wire, or fails with a whole frame staged.
  pub write_byte-hands_over :
      (h : HalfDuplex T D) (b : ℕ)
      → IsStaged h
      → IsHandedOver h (if ltb h.filled frame_len then b ∷ [] else []) (write_byte io line h b)
  unfolding write_byte
  write_byte-hands_over h b s = elim (Bool-cases (ltb h.filled frame_len)) [
    | inl more ↦
        let (filled, flushed, kept) = stage_byte-handed h b s (ground arith) in
        elim (Bool-cases (ltb (stage_byte line h b).filled frame_len)) [
          | inl part ↦
              simp (part, more)
                record {
                  staged = record {
                    within = ground arith;
                    unfinished = omega (arith, flushed);
                    whole = λ lt. flushed;
                  };
                  handed_over = kept;
                  end = inl (refl, ground arith);
                }
          | inr whole ↦
              let full : (stage_byte line h b).filled ≡ frame_len = ground arith in
              let done = burst-hands_over (stage_byte line h b) full (omega (arith, flushed)) in
              simp (whole, more)
                record {
                  staged = done.staged;
                  handed_over = done.handed_over ∙ append_nil _ ∙ kept;
                  end = done.end;
                }
        ]
    | inr waiting ↦
        let full : h.filled ≡ frame_len = ground (arith, s.within) in
        simp (stage_byte-full h b full, waiting) (burst-hands_over h full s.unfinished)
  ]
