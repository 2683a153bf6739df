-- ===== src/Pump/Events.antt =====
-- pump.rs: which bytes and completions a pump reports.
use psicose.Prelude.{
  ℕ, ◌≡◌, ◌≢◌, refl, ap, ◌∙◌, inl, inr, arith, Bool, false, not, ◌&&◌, Result, ok, err,
  Result-cases,
}
use psicose.Error.{Error}
use psicose.Timeout.{saturating_succ_u32}
use psicose.Transport.{ByteTransport}
use psicose.Tx.State.{TxPoll, acked, transfer_done, session_ready, take_mark, IoMark, Sender}
use psicose.Tx.Poll
use psicose.Rx.State.{PollOutcome, delivered, duplicate_ignored, transfer_finished}
use psicose.Rx.Poll as ReceiverPoll
use psicose.Pump.{SessionStats}
use psicose.Pump.Poll.{
  Pump, PumpEvent, received, completed, aborted, event, keeps_back, tx_event, busy_event, count_rx,
  count_mark, cancel, report, poll_tx, poll_rx, is_transfer_done,
}
use psicose.Pump.Poll as PumpPoll

-- What is answered where the receiver has delivered a byte, by the sender's result.
abbrev pub Beside : {E : Type 0} → ℕ → Result TxPoll (Error E) → Result PumpEvent (Error E) → Type 0
Beside b (err e) x = x ≡ err e
Beside b (ok TxPoll.aborted) x = x ≡ ok aborted
Beside b (ok TxPoll.pending) x = x ≡ ok (received b)
Beside b (ok acked) x = x ≡ ok (received b)
Beside b (ok session_ready) x = x ≡ ok (received b)
Beside b (ok transfer_done) x = x ≡ ok (received b)

-- What the results of the receiver and of the sender mean for the answer.
abbrev pub Hands :
    {E : Type 0}
    → Result PollOutcome (Error E)
    → Result TxPoll (Error E)
    → Result PumpEvent (Error E)
    → Type 0
Hands (err e) t x = x ≡ err e
Hands (ok (delivered b)) t x = Beside b t x
Hands (ok PollOutcome.pending) t x = (b : ℕ) → x ≢ ok (received b)
Hands (ok duplicate_ignored) t x = (b : ℕ) → x ≢ ok (received b)
Hands (ok PollOutcome.started) t x = (b : ℕ) → x ≢ ok (received b)
Hands (ok transfer_finished) t x = (b : ℕ) → x ≢ ok (received b)
Hands (ok PollOutcome.rejected) t x = (b : ℕ) → x ≢ ok (received b)
Hands (ok PollOutcome.crc_rejected) t x = (b : ℕ) → x ≢ ok (received b)
Hands (ok PollOutcome.aborted) t x = (b : ℕ) → x ≢ ok (received b)

-- The count of the bytes after an outcome.
abbrev pub counted : {E : Type 0} → ℕ → Result PollOutcome (Error E) → ℕ
counted n (err e) = n
counted n (ok (delivered b)) = saturating_succ_u32 n
counted n (ok PollOutcome.pending) = n
counted n (ok duplicate_ignored) = n
counted n (ok PollOutcome.started) = n
counted n (ok transfer_finished) = n
counted n (ok PollOutcome.rejected) = n
counted n (ok PollOutcome.crc_rejected) = n
counted n (ok PollOutcome.aborted) = n

tx_event-quiet :
    (t : TxPoll) (edge : Bool) (mark : IoMark) (b : ℕ) → tx_event t edge mark ≢ received b
unfolding tx_event
tx_event-quiet TxPoll.pending edge mark b e = ground arith
tx_event-quiet acked edge mark b e = ground arith
tx_event-quiet session_ready edge mark b e = ground arith
tx_event-quiet transfer_done edge mark b e = ground arith
tx_event-quiet TxPoll.aborted edge mark b e = ground arith

busy_event-quiet : (t : TxPoll) (edge : Bool) (b : ℕ) → busy_event t edge ≢ received b
unfolding busy_event
busy_event-quiet TxPoll.pending edge b e = ground arith
busy_event-quiet acked edge b e = ground arith
busy_event-quiet session_ready edge b e = ground arith
busy_event-quiet transfer_done edge b e = ground arith
busy_event-quiet TxPoll.aborted edge b e = ground arith

abbrev event_of : {E : Type 0} → Result PumpEvent (Error E) → PumpEvent
event_of (ok e) = e
event_of (err e) = aborted

pub event-Hands :
    (E : Type 0) (o : PollOutcome) (t : TxPoll) (edge : Bool) (mark : IoMark)
    → Hands {E = E} (ok o) (ok t) (ok (event o t edge mark))
unfolding event
event-Hands E (delivered b) TxPoll.pending edge mark = refl
event-Hands E (delivered b) acked edge mark = refl
event-Hands E (delivered b) session_ready edge mark = refl
event-Hands E (delivered b) transfer_done edge mark = refl
event-Hands E (delivered b) TxPoll.aborted edge mark = refl
event-Hands E PollOutcome.pending t edge mark = λ b e. tx_event-quiet t edge mark b (ap event_of e)
event-Hands E duplicate_ignored t edge mark = λ b e. busy_event-quiet t edge b (ap event_of e)
event-Hands E PollOutcome.started t edge mark = λ b e. busy_event-quiet t edge b (ap event_of e)
event-Hands E transfer_finished t edge mark = λ b e. ground arith
event-Hands E PollOutcome.rejected t edge mark = λ b e. busy_event-quiet t edge b (ap event_of e)
event-Hands E PollOutcome.crc_rejected t edge mark =
    λ b e. busy_event-quiet t edge b (ap event_of e)
event-Hands E PollOutcome.aborted t edge mark = λ b e. ground arith

pub err-Hands : (E : Type 0) (o : PollOutcome) (x : Error E) → Hands (ok o) (err x) (err x)
err-Hands E (delivered b) x = refl
err-Hands E PollOutcome.pending x = λ b e. ground arith
err-Hands E duplicate_ignored x = λ b e. ground arith
err-Hands E PollOutcome.started x = λ b e. ground arith
err-Hands E transfer_finished x = λ b e. ground arith
err-Hands E PollOutcome.rejected x = λ b e. ground arith
err-Hands E PollOutcome.crc_rejected x = λ b e. ground arith
err-Hands E PollOutcome.aborted x = λ b e. ground arith

-- The sender's result matters only beside a delivered byte, which cancels no sender.
pub Hands-beside :
    (E : Type 0) (o : PollOutcome) (t t' : Result TxPoll (Error E)) (x : Result PumpEvent (Error E))
    → ((b : ℕ) → o ≡ delivered b → t' ≡ t)
    → Hands (ok o) t x
    → Hands (ok o) t' x
Hands-beside E (delivered b) t t' x same h = rw (same b refl) h
Hands-beside E PollOutcome.pending t t' x same h = h
Hands-beside E duplicate_ignored t t' x same h = h
Hands-beside E PollOutcome.started t t' x same h = h
Hands-beside E transfer_finished t t' x same h = h
Hands-beside E PollOutcome.rejected t t' x same h = h
Hands-beside E PollOutcome.crc_rejected t t' x same h = h
Hands-beside E PollOutcome.aborted t t' x same h = h

pub count_rx-counted :
    (E : Type 0) (s : SessionStats) (o : PollOutcome)
    → (count_rx s o).bytes_delivered ≡ counted {E = E} s.bytes_delivered (ok o)
unfolding count_rx
count_rx-counted E s (delivered b) = refl
count_rx-counted E s PollOutcome.pending = refl
count_rx-counted E s duplicate_ignored = refl
count_rx-counted E s PollOutcome.started = refl
count_rx-counted E s transfer_finished = refl
count_rx-counted E s PollOutcome.rejected = refl
count_rx-counted E s PollOutcome.crc_rejected = refl
count_rx-counted E s PollOutcome.aborted = refl

module _ {T R E : Type 0} (tio : ByteTransport T E) (rio : ByteTransport R E) where
  uncancelled :
      (tx : Sender T) (o : PollOutcome) (b : ℕ)
      → o ≡ delivered b
      → (Poll.poll tio tx).1 ≡ (Poll.poll tio (cancel tx o)).1
  unfolding cancel
  uncancelled tx o b e = rw e refl

  poll_tx-Hands :
      (p : Pump T R) (o : PollOutcome)
      → Hands (ok o) (Poll.poll tio p.tx).1 (poll_tx tio rio p o).1
        × ((poll_tx tio rio p o).0.stats.bytes_delivered ≡ p.stats.bytes_delivered)
  unfolding poll_tx report count_mark
  poll_tx-Hands p o = elim (Result-cases (Poll.poll tio p.tx).1) [
    | inr (x, e) ↦ rw (e, poll_tx) (err-Hands E o x, refl)
    | inl (t, e) ↦
        let tx = (Poll.poll tio p.tx).0 in
        rw (e, poll_tx)
          (event-Hands E o t (is_transfer_done t && not p.tx_done_seen) (take_mark tx).1, refl)
  ]

  -- A poll of a pump that holds no completion back, whatever the transports do. Where the receiver
  -- delivers a byte, that byte is the answer of the poll, except that the sender's own poll in the
  -- same step may fail, and its error is the answer then, or report an abort, and the answer is
  -- that it is aborted; the byte is counted once in each case. No byte is reported that the
  -- receiver has not delivered in this poll, and none else is counted. An error of the receiver is
  -- the answer.
  pub pump_poll-Hands :
      (p : Pump T R)
      → p.pending_completed ≡ false
      → Hands (ReceiverPoll.poll rio p.rx).1 (Poll.poll tio p.tx).1 (PumpPoll.poll tio rio p).1
        × ((PumpPoll.poll tio rio p).0.stats.bytes_delivered
            ≡ counted p.stats.bytes_delivered (ReceiverPoll.poll rio p.rx).1)
  unfolding PumpPoll.poll poll_rx
  pump_poll-Hands p free = elim (Result-cases (ReceiverPoll.poll rio p.rx).1) [
    | inr (x, e) ↦ rw (free, PumpPoll.poll) (rw (e, poll_rx) (refl, refl))
    | inl (o, e) ↦
        let rx = (ReceiverPoll.poll rio p.rx).0 in
        let s = record (p.stats) { ticks = PumpPoll.saturating_succ_u64 p.stats.ticks } in
        let p' : Pump T R = record p {
          pending_completed = false;
          rx = rx;
          stats = count_rx s o;
          tx = cancel p.tx o;
        } in
        let (hands, same) = poll_tx-Hands p' o in
        let hands' = Hands-beside E o _ (Poll.poll tio p.tx).1 _ (uncancelled p.tx o) hands in
        rw (free, PumpPoll.poll) (rw (e, poll_rx) (hands', same ∙ count_rx-counted E s o))
  ]
