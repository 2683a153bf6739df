-- ===== src/Window/Rx/InOrder.antt =====
-- window/rx.rs: every poll of the windowed receiver keeps its place in the sender's stream.
use psicose.Prelude.{
  ℕ, zero, suc, ◌≤◌, ◌≡◌, refl, sym, ◌⊎◌, inl, arith, Option, none, some, Result, ok, subst,
}
use psicose.Error.{Error}
use psicose.Transport.{ByteTransport}
use psicose.Protocol.Frame.{Frame, FrameType}
use psicose.Protocol.Sequence
use psicose.Protocol.OutBuf
use psicose.Rx.State.{PollOutcome}
use psicose.Window.Rx.{WindowedReceiver, new, repeat, pop_emit, popped}
use psicose.Window.Rx.Poll.{settled, on_emitted, poll}
use psicose.Window.Rx.Order.{Stream, fresh, empty-IsQueue, Buffered-repeat}
use psicose.Window.Rx.Drain.{pop_emit-none, pop_emit-some}
use psicose.Window.Rx.Delivery.{IsValid, Steps, pop_emit-Steps}
use psicose.Window.Rx.Handlers.{length-repeat, front-repeat, IsNear}
use psicose.Window.Rx.Incoming.{incoming, Continues, unemitted-GoesOn}

-- A poll of this receiver listens, having nothing to hand over and no reply to write, and the byte
-- that it reads completes such a frame.
abbrev pub Completes :
    {T E : Type 0} → (FrameType → Type 0) → ByteTransport T E → WindowedReceiver T → Type 0
Completes P io r =
    (r.emit_len ≤ r.emit_at)
    × (4 ≤ r.out.pos)
    × ((f : Frame) × (incoming io r ≡ some (ok f)) × P f.frame_type)

-- The stream goes on, a START or an ABORT that this poll reads has begun a new one, or a FINISH
-- that it reads has closed it, and no byte of it need be in hand.
abbrev pub GoesOn :
    {T E : Type 0}
    → ByteTransport T E
    → Stream
    → ℕ
    → ℕ
    → WindowedReceiver T
    → WindowedReceiver T × Result PollOutcome (Error E)
    → Type 0
GoesOn io sent size given r x =
    Continues (Completes (λ t. (t ≡ FrameType.start) ⊎ (t ≡ FrameType.abort)) io r)
      (Completes (λ t. t ≡ FrameType.finish) io r) sent size given x

-- A new receiver stands at the first place of any stream.
pub window_new-IsValid :
    {T : Type 0} (sent : ℕ → ℕ) (size : ℕ) (t : T)
    → 1 ≤ size
    → size ≤ 8
    → IsValid (fresh sent) size 0 0 (new size t)
unfolding new Sequence.new OutBuf.empty
window_new-IsValid sent size t lo hi = (
  record {
    expected = refl;
    slots = length-repeat none size;
    buffered = Buffered-repeat sent 0 size;
    kept = omega arith;
    queue = empty-IsQueue sent size 0 (repeat 0 size) (length-repeat 0 size);
  },
  (lo, omega arith, hi),
  omega arith,
  front-repeat size,
)

module _ {T E : Type 0} (size : ℕ) (io : ByteTransport T E) (sent : Stream) (given : ℕ) where
  emitted-GoesOn :
      (O F : Type 0) (r : WindowedReceiver T) (o : Option ℕ) (b : ℕ)
      → o ≡ some b
      → Steps {E = Error E} sent size given (settled (popped (r, o)))
      → Continues O F sent size given (on_emitted size io (r, o))
  unfolding on_emitted
  emitted-GoesOn O F r none b e h = absurd (ground arith)
  emitted-GoesOn O F r (some b') b e h = inl h

  -- While the data frames that come in are frames of one stream, in any order and any number of
  -- times, and none is as far as 100 places from the next byte that is due, each poll of a receiver
  -- with at most 8 slots, whatever the transport does, keeps the receiver's place in the stream: it
  -- hands over exactly the next byte, or none, so that no byte is skipped, repeated or out of its
  -- order; the reorder buffer and the emission queue hold only bytes of the stream at their places,
  -- a byte that is due does not stay in the buffer, and no byte that has come in is dropped: those
  -- handed over, queued and buffered are `kept` at least, for any `kept` for which they were before.
  -- The exceptions are polls that had nothing to hand over and no reply to write. One that reads the
  -- last byte of a START or an ABORT may begin a new stream at its first place, and one that reads
  -- the last byte of a FINISH may empty the buffer. No other frame, noise or error does.
  pub window_poll-GoesOn :
      (waits : ℕ) (r : WindowedReceiver T)
      → IsValid sent size given waits r
      → ((f : Frame)
          → incoming io r ≡ some (ok f)
          → f.frame_type ≡ FrameType.dat
          → IsNear sent.byte given f)
      → GoesOn io sent size given r (poll size io r)
  unfolding poll on_emitted incoming
  window_poll-GoesOn zero r (h, l, p, y) near =
      let r' : WindowedReceiver T = record r { emit_at = 0; emit_len = 0 } in
      let h' : IsValid sent size given 0 r' = (
        record {
          expected = h.expected;
          slots = h.slots;
          buffered = h.buffered;
          queue = empty-IsQueue sent.byte size given r.emit h.queue.room;
          kept = h.kept;
        },
        l,
        p,
        y,
      ) in
      subst (λ x. GoesOn io sent size given r (on_emitted size io x))
        (sym (pop_emit-none sent size given r h))
        (unemitted-GoesOn size io sent given _ _ r' h' refl near
          (λ over f w t. (omega (arith, h.queue.reaches), over, (f, w, t)))
          (λ over f w t. (omega (arith, h.queue.reaches), over, (f, w, t))))
  window_poll-GoesOn (suc waits) r v near =
      let (out, h') = pop_emit-some sent size given waits r v.0 in
      emitted-GoesOn _ _ (pop_emit r).0 (pop_emit r).1 (sent.byte given) out
        (pop_emit-Steps size io sent given (suc waits) r v)
