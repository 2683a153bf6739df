-- ===== src/Stream/Slices.antt =====
-- The slices as a source and a sink: what is written to a sink is its prefix.
use psicose.Prelude.{
  ℕ, zero, suc, ◌+◌, ◌≤◌, ◌<◌, ◌≡◌, refl, ◌∙◌, ◌⊎◌, inl, inr, [], ◌∷◌, ◌++◌, arith, leb, false,
  length, length-set, take-set, Result, ◌^◌, Result-cases, Option-cases, some, ok, err, Bool-cases,
}
use psicose.Error.{Error}
use psicose.Timeout.{IdleBudget, tick}
use psicose.Rx.State.{PollOutcome, delivered}
use psicose.Stream.{
  SliceSink, Transfer, SliceFull, slice_full, slice_sink, written, write_slice, take_outcome,
  drain_recv,
}

-- A write to a slice with room puts its byte behind those that are written and keeps the slice's
-- length. A write to a full one is refused and changes nothing.
pub write_slice-written :
    (k : SliceSink) (b : ℕ)
    → k.pos ≤ length k.buf
    → ((k.pos < length k.buf)
        × ((write_slice k b).1 ≡ ok tt)
        × (written (write_slice k b).0 ≡ written k ++ b ∷ [])
        × (length (write_slice k b).0.buf ≡ length k.buf))
      ⊎ ((k.pos ≡ length k.buf) × (write_slice k b ≡ (k, err slice_full)))
unfolding write_slice written
write_slice-written k b h = elim (Bool-cases (leb (length k.buf) k.pos)) [
  | inl full ↦ inr (ground arith, simp full refl)
  | inr room ↦
      let lt : k.pos < length k.buf = ground arith in
      let next : k.pos + 1 ≡ suc k.pos = omega arith in
      inl (simp room (lt, refl, rw next (take-set k.buf k.pos b lt), length-set k.buf k.pos b))
]

-- A sink that has taken `n` bytes, in a slice whose length is a `u64`.
pub record IsFilled (k : SliceSink) (n : ℕ) : Type 0 where
  pub within : k.pos ≤ length k.buf
  pub counted : k.pos ≡ n
  pub countable : length k.buf < 2 ^ 64

module _ {R E : Type 0} (poll : R → R × Result PollOutcome (Error E)) where
  -- One outcome keeps the count, and ends the loop only with it.
  abbrev Counts : SliceSink × IdleBudget × ℕ × Transfer E SliceFull → Type 0
  Counts x = IsFilled x.0 x.2 × ((m : ℕ) → x.3 ≡ some (ok m) → x.2 ≡ m)

  take_outcome-Counts :
      (o : PollOutcome) (k : SliceSink) (b : IdleBudget) (n : ℕ)
      → IsFilled k n
      → Counts (take_outcome poll slice_sink o k b n)
  unfolding take_outcome write_slice
  take_outcome-Counts (delivered byte) k b n h = elim (Bool-cases (leb (length k.buf) k.pos)) [
    | inl full ↦
        rw (full, take_outcome, write_slice) (rw (full, write_slice) (h, λ m e. ground arith))
    | inr room ↦
        rw (room, take_outcome, write_slice)
          (rw (room, write_slice)
            (
              record {
                within = omega (arith, length-set k.buf k.pos byte, fits room);
                counted = omega (arith, h.counted, h.countable, fits room);
                countable = omega (arith, length-set k.buf k.pos byte, h.countable);
              },
              λ m e. ground arith,
            ))
  ]
    where
      fits : leb (length k.buf) k.pos ≡ false → k.pos < length k.buf
      fits r = ground arith
  take_outcome-Counts PollOutcome.transfer_finished k b n h = (h, λ m e. ground arith)
  take_outcome-Counts PollOutcome.aborted k b n h = (h, λ m e. ground arith)
  take_outcome-Counts PollOutcome.started k b n h = (h, λ m e. ground arith)
  take_outcome-Counts PollOutcome.duplicate_ignored k b n h = (h, λ m e. ground arith)
  take_outcome-Counts PollOutcome.rejected k b n h = (h, λ m e. ground arith)
  take_outcome-Counts PollOutcome.crc_rejected k b n h = (h, λ m e. ground arith)
  take_outcome-Counts PollOutcome.pending k b n h = elim (Result-cases (tick {E = E} b).1) [
    | inl (u, e) ↦ simp (e, take_outcome) (h, λ m e. ground arith)
    | inr (x, e) ↦ simp (e, take_outcome) (h, λ m e. ground arith)
  ]

  -- `drain_recv` into a slice, over any polls and any budget, from a count that is the number of
  -- bytes in the sink already, as it is at the start of the call for an empty sink and a count of
  -- 0, and with a slice whose length is a `u64`: where it ends with a count, that is the number of
  -- bytes in the sink.
  pub drain_recv-counts :
      (rounds : ℕ) (r : R) (k : SliceSink) (b : IdleBudget) (n m : ℕ)
      → IsFilled k n
      → (drain_recv poll slice_sink rounds r k b n).1 ≡ some (ok m)
      → (drain_recv poll slice_sink rounds r k b n).0.1.pos ≡ m
  unfolding drain_recv
  drain_recv-counts zero r k b n m h = λ e. absurd (ground arith)
  drain_recv-counts (suc rounds) r k b n m h = elim (Result-cases (poll r).1) [
    | inr (x, p) ↦ rw (p, drain_recv) (λ e. absurd (ground arith))
    | inl (o, p) ↦
        let (filled, ends) = take_outcome-Counts o k b n h in
        let next = take_outcome poll slice_sink o k b n in
        elim (Option-cases (take_outcome poll slice_sink o k b n).3) [
          | inr (x, d) ↦ rw (p, drain_recv, d) (λ e. filled.counted ∙ ends m (d ∙ e))
          | inl d ↦
              rw (p, drain_recv, d)
                (drain_recv-counts rounds (poll r).0 next.0 next.1 next.2 m filled)
        ]
  ]
