-- ===== src/Link/Exchange.antt =====
-- rx.rs and tx.rs a whole frame at a time: what the polls between two frame boundaries amount to.
use psicose.Prelude.{
  ℕ, ◌+◌, ◌-◌, ◌%◌, ◌<◌, List, [], ◌∷◌, false, Option, none, some, ◌≡◌, ◌≢◌, ◌⊎◌, refl, arith, ok,
  err,
}
use psicose.Protocol.Frame.{
  Frame, FrameError, from_bytes, to_bytes, ack_frame, nack_frame, semantics_ok,
}
use psicose.Protocol.Frame.Laws.{from_bytes-to_bytes}
use psicose.Protocol.OutBuf.{OutBuf, commit}
use psicose.Tx.State.{Sender, load_flight_frame, frame_sent}
use psicose.Rx.State.{
  Receiver, PollOutcome, delivered, duplicate_ignored, begin_reply, take_pending, handle_data,
}
use psicose.Rx.Poll.{reject_action}

-- Four bytes go out.
unfoldable pub drain : OutBuf → OutBuf
unfolding commit
drain o = commit (commit (commit (commit o)))

-- The frame that stands in an outgoing buffer.
unfoldable pub on_the_wire : OutBuf → List Frame
on_the_wire o = elim (from_bytes o.buf) [ ok f ↦ f ∷ [] | err e ↦ [] ]

ack_frame_round : (n : ℕ) → from_bytes (to_bytes (ack_frame n)) ≡ ok (ack_frame n)
ack_frame_round n = from_bytes-to_bytes (ack_frame n) (unfold ack_frame semantics_ok in refl)

nack_frame_round : (n : ℕ) → from_bytes (to_bytes (nack_frame n)) ≡ ok (nack_frame n)
nack_frame_round n = from_bytes-to_bytes (nack_frame n) (unfold nack_frame semantics_ok in refl)

pub record Exchange (T : Type 0) : Type 0 where
  pub after : Receiver T
  pub outcome : Option PollOutcome
  pub reply : List Frame

module _ {T : Type 0} where
  -- The reply that a handler began, written to its end.
  unfoldable pub answer : Receiver T → Exchange T
  unfolding drain
  answer r = elim r.pending [
    | none ↦ record { after = r; outcome = none; reply = [] }
    | some action ↦
        let (r', o) = take_pending (record r { out = drain r.out }) in
        record { after = r'; outcome = o; reply = on_the_wire r.out }
  ]

  -- A DATA frame arrives, and its reply is written.
  unfoldable pub receive : Receiver T → Frame → Exchange T
  receive r f = answer (handle_data r f)

  -- A window arrives that does not decode.
  unfoldable pub receive_noise : Receiver T → FrameError → Exchange T
  receive_noise r e = answer (begin_reply r (nack_frame r.expected_seq.raw) (reject_action e))

  -- A flight is written to its end.
  unfoldable pub transmit : Sender T → Sender T
  unfolding drain frame_sent
  transmit s = let s' = load_flight_frame s in frame_sent (record s' { out = drain s'.out })

  -- The session is open and no reply is under way.
  pub record IsOpen (r : Receiver T) : Type 0 where
    pub no_abort : r.abort_latched ≡ false
    pub no_finish : r.finish_seq ≡ none
    pub no_pending : r.pending ≡ none
    pub byte : r.expected_seq.raw < 256

  -- What an exchange leaves: an open receiver at this number, after this outcome and reply.
  abbrev pub Leaves : Exchange T → ℕ → Option PollOutcome → Frame → Type 0
  Leaves x n o f =
      IsOpen x.after × (x.after.expected_seq.raw ≡ n) × (x.outcome ≡ o) × (x.reply ≡ f ∷ [])

  module _ (r : Receiver T) (opened : IsOpen r) (f : Frame) where
    -- The expected frame is delivered, acknowledged, and moves the number on.
    pub receive-expected :
        f.seq ≡ r.expected_seq.raw
        → Leaves
            (receive r f)
            ((r.expected_seq.raw + 1) % 256)
            (some (delivered f.payload))
            (ack_frame r.expected_seq.raw)
    unfolding receive answer handle_data take_pending on_the_wire
    receive-expected e = ground (arith, ack_frame_round r.expected_seq.raw)

    -- The frame before it is acknowledged again, and not delivered again.
    pub receive-previous :
        f.seq ≡ (r.expected_seq.raw + 256 - 1) % 256
        → Leaves (receive r f) r.expected_seq.raw (some duplicate_ignored) (ack_frame f.seq)
    unfolding receive answer handle_data take_pending on_the_wire
    receive-previous e = ground (arith, ack_frame_round f.seq)

    -- Any other number is refused.
    pub receive-other :
        f.seq ≢ r.expected_seq.raw
        → f.seq ≢ (r.expected_seq.raw + 256 - 1) % 256
        → Leaves (receive r f) r.expected_seq.raw (some PollOutcome.rejected) (nack_frame f.seq)
    unfolding receive answer handle_data take_pending on_the_wire
    receive-other e d = ground (arith, nack_frame_round f.seq)

    pub receive-IsOpen : IsOpen (receive r f).after
    unfolding receive answer handle_data take_pending
    receive-IsOpen = ground arith

  pub receive_noise-nack :
      (r : Receiver T)
      → IsOpen r
      → (e : FrameError)
      → IsOpen (receive_noise r e).after
        × ((receive_noise r e).after.expected_seq.raw ≡ r.expected_seq.raw)
        × ((receive_noise r e).reply ≡ nack_frame r.expected_seq.raw ∷ [])
        × (((receive_noise r e).outcome ≡ some PollOutcome.rejected)
            ⊎ ((receive_noise r e).outcome ≡ some PollOutcome.crc_rejected))
  unfolding receive_noise answer begin_reply take_pending on_the_wire reject_action
  receive_noise-nack r o e = ground (arith, nack_frame_round r.expected_seq.raw)
