-- ===== src/Window/Rx/Delivery.antt =====
-- window/rx.rs: a poll hands over the sender's bytes, in their order, each one once.
use psicose.Prelude.{
  ℕ, zero, suc, ◌+◌, ◌≤◌, ◌<◌, ◌≡◌, refl, ap₂, sym, inl, inr, arith, List, true, Option, none, some,
  leb, ltb, get_or, Bool-cases, Result-cases, Result, ok, err, subst,
}
use psicose.Error.{Error}
use psicose.Transport.{ByteTransport}
use psicose.Protocol.Bytes.{get_byte}
use psicose.Protocol.OutBuf.{peek, commit, is_idle}
use psicose.Rx.State.{idle, PollOutcome, delivered, duplicate_ignored, transfer_finished}
use psicose.Window.Rx.{
  WindowedReceiver, PendingAction, drain, duplicate, quiet, started, finished, aborted, rejected,
  crc_rejected, act, popped, take_action, take_pending, drain_in_order, pop_emit, settle_idle,
}
use psicose.Window.Rx.Poll.{settled, write, reply_written, pump_reply}
use psicose.Window.Rx.Order.{Stream, Holds, empty-IsQueue}
use psicose.Window.Rx.Drain.{
  drain_in_order-Holds, drain_in_order-SameReply, pop_emit-none, pop_emit-some, pop_emit-SameReply,
}

-- An action is pending just while its reply is half written.
abbrev pub Paired : Option PendingAction → ℕ → Type 0
Paired none pos = 4 ≤ pos
Paired (some action) pos = pos < 4

-- The front of the buffer is free, unless its release is pending.
abbrev pub Ready : Option PendingAction → List (Option ℕ) → Type 0
Ready none buf = get_or buf 0 none ≡ none
Ready (some drain) buf = Unit {0}
Ready (some duplicate) buf = get_or buf 0 none ≡ none
Ready (some quiet) buf = get_or buf 0 none ≡ none
Ready (some started) buf = get_or buf 0 none ≡ none
Ready (some finished) buf = get_or buf 0 none ≡ none
Ready (some aborted) buf = get_or buf 0 none ≡ none
Ready (some rejected) buf = get_or buf 0 none ≡ none
Ready (some crc_rejected) buf = get_or buf 0 none ≡ none

-- `check_window` and `set_window_limit`.
abbrev pub IsLimited : ℕ → ℕ → Type 0
IsLimited size limit = (1 ≤ limit) × (limit ≤ size) × (size ≤ 8)

-- The receiver's invariant, when it has handed over `given` bytes of the stream `sent` and has
-- `waits` more in its emission queue.
abbrev pub IsValid : {T : Type 0} → Stream → ℕ → ℕ → ℕ → WindowedReceiver T → Type 0
IsValid sent size given waits r =
    Holds sent size given waits r
    × IsLimited size r.limit
    × Paired r.pending r.out.pos
    × Ready r.pending r.buf

-- What an outcome says: the next byte of the stream is handed over, or none.
abbrev pub Gives : {E : Type 0} → (ℕ → ℕ) → ℕ → ℕ → Result PollOutcome E → Type 0
Gives sent given given' (ok PollOutcome.pending) = given' ≡ given
Gives sent given given' (ok (delivered b)) = (b ≡ sent given) × (given' ≡ suc given)
Gives sent given given' (ok duplicate_ignored) = given' ≡ given
Gives sent given given' (ok PollOutcome.started) = given' ≡ given
Gives sent given given' (ok transfer_finished) = given' ≡ given
Gives sent given given' (ok PollOutcome.rejected) = given' ≡ given
Gives sent given given' (ok PollOutcome.crc_rejected) = given' ≡ given
Gives sent given given' (ok PollOutcome.aborted) = given' ≡ given
Gives sent given given' (err e) = given' ≡ given

-- The invariant afterwards, and the byte handed over, if any.
abbrev pub Steps :
    {T E : Type 0} → Stream → ℕ → ℕ → WindowedReceiver T × Result PollOutcome E → Type 0
Steps sent size given x =
    (given' : ℕ) × (waits' : ℕ) × IsValid sent size given' waits' x.0
    × Gives sent.byte given given' x.1

module _ {T E : Type 0} (size : ℕ) (io : ByteTransport T E) (sent : Stream) where
  -- The first byte of the queue, if there is one, is handed over.
  pub pop_emit-Steps :
      (given waits : ℕ) (r : WindowedReceiver T)
      → IsValid sent size given waits r
      → Steps sent size given (settled {E = Error E} (popped (pop_emit r)))
  pop_emit-Steps given zero r (h, l, p, y) = rw (pop_emit-none sent size given r h) (
    given,
    0,
    (
      record {
        expected = h.expected;
        slots = h.slots;
        buffered = h.buffered;
        queue = empty-IsQueue sent.byte size given r.emit h.queue.room;
        kept = h.kept;
      },
      l,
      p,
      y,
    ),
    refl,
  )
  pop_emit-Steps given (suc waits) r (h, l, p, y) =
      let (out, h') = pop_emit-some sent size given waits r h in
      let ((o, pend, lim), b) = pop_emit-SameReply sent size r in
      rw out (
        suc given,
        waits,
        (
          h',
          subst (IsLimited size) (sym lim) l,
          subst (λ x. x) (ap₂ (λ a o. Paired a o.pos) (sym pend) (sym o)) p,
          subst (λ x. x) (ap₂ Ready (sym pend) (sym b)) y,
        ),
        (refl, refl),
      )

  -- The front is released, and the first byte of the queue handed over.
  act-drain-Steps :
      (given : ℕ) (r : WindowedReceiver T)
      → Holds sent size given 0 r
      → IsLimited size r.limit
      → 4 ≤ r.out.pos
      → r.emit_len ≡ 0
      → Steps sent size given (settled {E = Error E} (act size (record r { pending = none }) drain))
  unfolding act
  act-drain-Steps given r h l p e =
      let r0 : WindowedReceiver T = record r { pending = none } in
      let (waits, h', clear) = drain_in_order-Holds sent size given r0 h e in
      let (o, pend, lim) = drain_in_order-SameReply sent size r0 in
      let r1 : WindowedReceiver T = record (drain_in_order size r0) { state = idle } in
      pop_emit-Steps given waits r1 (
        h',
        subst (IsLimited size) (sym lim) l,
        subst (λ x. x) (ap₂ (λ a o. Paired a o.pos) (sym pend) (sym o)) p,
        subst (λ a. Ready a r1.buf) (sym pend) clear,
      )

  take_action-Steps :
      (given : ℕ) (r : WindowedReceiver T) (action : Option PendingAction)
      → Holds sent size given 0 r
      → IsLimited size r.limit
      → 4 ≤ r.out.pos
      → Ready action r.buf
      → r.emit_len ≡ 0
      → Steps sent size given
          (settled {E = Error E} (take_action size (record r { pending = none }) action))
  unfolding take_action act settle_idle
  take_action-Steps given r none h l p y e = (given, 0, (h, l, p, y), refl)
  take_action-Steps given r (some drain) h l p y e = act-drain-Steps given r h l p e
  take_action-Steps given r (some duplicate) h l p y e = (given, 0, (h, l, p, y), refl)
  take_action-Steps given r (some quiet) h l p y e = (given, 0, (h, l, p, y), refl)
  take_action-Steps given r (some started) h l p y e = (given, 0, (h, l, p, y), refl)
  take_action-Steps given r (some finished) h l p y e = (given, 0, (h, l, p, y), refl)
  take_action-Steps given r (some aborted) h l p y e = (given, 0, (h, l, p, y), refl)
  take_action-Steps given r (some rejected) h l p y e = (given, 0, (h, l, p, y), refl)
  take_action-Steps given r (some crc_rejected) h l p y e = (given, 0, (h, l, p, y), refl)

  Paired-next :
      (a : Option PendingAction) (pos : ℕ) → Paired a pos → pos + 1 < 4 → Paired a (pos + 1)
  Paired-next none pos p lt = absurd (omega arith)
  Paired-next (some a) pos p lt = lt

  -- A byte of the reply is out.
  reply_written-Steps :
      (given : ℕ) (r : WindowedReceiver T)
      → IsValid sent size given 0 r
      → r.emit_len ≡ 0
      → r.out.pos < 4
      → Steps sent size given (reply_written size io (record r { out = commit r.out }))
  unfolding reply_written commit is_idle take_pending
  reply_written-Steps given r (h, l, p, y) e lt =
      let inside : ltb r.out.pos 4 ≡ true = ground arith in
      elim (Bool-cases (leb 4 (r.out.pos + 1))) [
        | inl last ↦
            let r' : WindowedReceiver T = record r { out = record r.out { pos = r.out.pos + 1 } } in
            rw (inside, commit)
              (rw (last, reply_written)
                (take_action-Steps given r' r.pending h l (ground arith) y e))
        | inr more ↦
            rw (inside, commit)
              (rw (more, reply_written)
                (given, 0, (h, l, Paired-next r.pending r.out.pos p (ground arith), y), refl))
      ]

  pub pump_reply-Steps :
      (given : ℕ) (r : WindowedReceiver T)
      → IsValid sent size given 0 r
      → r.emit_len ≡ 0
      → Steps sent size given (pump_reply size io r)
  unfolding pump_reply write peek take_pending
  pump_reply-Steps given r (h, l, p, y) e = elim (Bool-cases (leb 4 r.out.pos)) [
    | inl over ↦ rw (over, pump_reply) (take_action-Steps given r r.pending h l (ground arith) y e)
    | inr half ↦ elim (Result-cases (io.write_byte r.transport (get_byte r.out.buf r.out.pos)).1) [
      | inr (x, fails) ↦ rw (half, pump_reply) (rw (fails, write) (given, 0, (h, l, p, y), refl))
      | inl (u, writes) ↦
          let t = (io.write_byte r.transport (get_byte r.out.buf r.out.pos)).0 in
          rw (half, pump_reply)
            (rw (writes, write)
              (reply_written-Steps given (record r { transport = t }) (h, l, p, y) e
                (ground arith)))
    ]
  ]
