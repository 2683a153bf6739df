-- ===== src/Face/Returns.antt =====
-- The loop of `ingest` ends where the port runs dry.
use psicose.Prelude.{
  ℕ, zero, suc, ◌≡◌, ◌≢◌, refl, ap, ◌∙◌, inl, inr, [], arith, Option, none, some, Result, ok, err,
  Bool-cases,
}
use psicose.Transport.{ByteTransport}
use psicose.Protocol.Frame.{Frame, FrameError}
use psicose.Protocol.Assembler.{push}
use psicose.Face.Port.{
  FaceInner, Held, Ended, held_of, store, keep, on_window, on_answer, read_on, on_pending, ingest,
}
use psicose.Face.Demux.{reads, brought}

store-port : {T : Type 0} (g : FaceInner T) (h : Held) → (store g h).0.port ≡ g.port
unfolding store
store-port g h = elim (Bool-cases h.control) [
  | inl e ↦ rw (e, store) refl
  | inr e ↦ rw (e, store) refl
]

module _ {T E : Type 0} (io : ByteTransport T E) where
  -- The port has no byte to give at the last of the reads, or fails.
  unfoldable pub IsDryAfter : ℕ → T → Type 0
  IsDryAfter n t = brought (io.read_byte (reads io n t).0).1 ≡ []

  -- From any state with the port `t`.
  abbrev EndsAt : (FaceInner T → Ended io) → T → Type 0
  EndsAt more t = (g : FaceInner T) → g.port ≡ t → (more g).1 ≢ none

  keep-ends :
      (more : FaceInner T → Ended io) (g : FaceInner T) (h : Held)
      → EndsAt more g.port
      → (keep io more g h).1 ≢ none
  unfolding keep
  keep-ends more g h ends = elim (Bool-cases (store g h).1) [
    | inl e ↦ rw (e, keep) (ends (store g h).0 (store-port g h))
    | inr e ↦ rw (e, keep) (λ x. ground arith)
  ]

  on_window-ends :
      (more : FaceInner T → Ended io) (g : FaceInner T) (w : Option (Result Frame FrameError))
      → EndsAt more g.port
      → (on_window io more g w).1 ≢ none
  unfolding on_window
  on_window-ends more g none ends = ends g refl
  on_window-ends more g (some r) ends = keep-ends more g (held_of g.assembler r) ends

  on_answer-ends :
      (more : FaceInner T → Ended io) (g : FaceInner T) (r : Result (Option ℕ) E)
      → (brought r ≢ [] → EndsAt more g.port)
      → (on_answer io more g r).1 ≢ none
  unfolding on_answer
  on_answer-ends more g (err e) ends x = ground arith
  on_answer-ends more g (ok none) ends x = ground arith
  on_answer-ends more g (ok (some b)) ends x =
      on_window-ends more (record g { assembler = (push g.assembler b).0 }) (push g.assembler b).1
        (ends (λ e. ground arith)) x

  read_on-ends : (n : ℕ) (t : T) → IsDryAfter n t → EndsAt (read_on io (suc n)) t
  unfolding read_on IsDryAfter reads
  read_on-ends zero t dry g p =
      let here = ap (λ t. brought (io.read_byte t).1) p ∙ dry in
      on_answer-ends (read_on io zero) (record g { port = (io.read_byte g.port).0 })
        (io.read_byte g.port).1 (λ ne. absurd (ne here))
  read_on-ends (suc n) t dry g p =
      let later : IsDryAfter n (io.read_byte g.port).0 =
        ap (λ t. brought (io.read_byte (reads io (suc n) t).0).1) p ∙ dry in
      on_answer-ends (read_on io (suc n)) (record g { port = (io.read_byte g.port).0 })
        (io.read_byte g.port).1 (λ ne. read_on-ends n (io.read_byte g.port).0 later)

  on_pending-ends :
      (n : ℕ) (g : FaceInner T) (o : Option Held)
      → IsDryAfter n g.port
      → (on_pending io (suc n) g o).1 ≢ none
  unfolding on_pending
  on_pending-ends n g none dry = read_on-ends n g.port dry g refl
  on_pending-ends n g (some h) dry = elim (Bool-cases (store g h).1) [
    | inl fits ↦
        let g' : FaceInner T = record (store g h).0 { pending = none } in
        rw (fits, on_pending) (read_on-ends n g.port dry g' (store-port g h))
    | inr full ↦ rw (full, on_pending) (λ x. ground arith)
  ]

  -- `ingest` returns: where the port has no byte to give after `n` reads, `n + 1` rounds of the loop
  -- are enough, whatever is stored and held back on the way.
  pub ingest-ends : (n : ℕ) (g : FaceInner T) → IsDryAfter n g.port → (ingest io (suc n) g).1 ≢ none
  unfolding ingest
  ingest-ends n g dry = on_pending-ends n g g.pending dry
