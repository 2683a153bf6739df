-- ===== src/Pump/Poll.antt =====
-- pump.rs: `Pump`, a sender and a receiver that are polled together.
use psicose.Prelude.{
  ℕ, ◌+◌, ◌-◌, ◌^◌, min, Bool, true, false, not, ◌&&◌, ◌||◌, if◌then◌else◌, Result, ok, err,
}
use psicose.Error.{Error}
use psicose.Timeout.{RetryPolicy, saturating_succ_u32}
use psicose.Transport.{ByteTransport}
use psicose.Tx.State.{
  Sender, IoMark, TxPoll, acked, transfer_done, session_ready, holds_session_control, force_abort,
  take_mark,
}
use psicose.Tx.State
use psicose.Tx.Offer.{offer_abort}
use psicose.Tx.Poll
use psicose.Rx.State.{Receiver, PollOutcome, delivered, duplicate_ignored, transfer_finished}
use psicose.Rx.State as ReceiverState
use psicose.Rx.Poll as ReceiverPoll
use psicose.Pump.{SessionStats, no_stats}

pub data PumpEvent : Type 0 where
  idle progress sent : PumpEvent
  received : ℕ → PumpEvent
  completed aborted : PumpEvent

pub record Pump (T R : Type 0) : Type 0 where
  pub tx : Sender T
  pub rx : Receiver R
  pub stats : SessionStats
  pub last_acked : Bool
  pub tx_done_seen : Bool
  pub pending_completed : Bool

-- `saturating_add(1)` on a `u64`.
abbrev pub saturating_succ_u64 : ℕ → ℕ
saturating_succ_u64 n = min (n + 1) (2 ^ 64 - 1)

abbrev pub is_acked : TxPoll → Bool
is_acked TxPoll.pending = false
is_acked acked = true
is_acked session_ready = false
is_acked transfer_done = false
is_acked TxPoll.aborted = false

abbrev pub is_transfer_done : TxPoll → Bool
is_transfer_done TxPoll.pending = false
is_transfer_done acked = false
is_transfer_done session_ready = false
is_transfer_done transfer_done = true
is_transfer_done TxPoll.aborted = false

-- What an outcome of the receiver counts for.
unfoldable pub count_rx : SessionStats → PollOutcome → SessionStats
count_rx s (delivered byte) = record s { bytes_delivered = saturating_succ_u32 s.bytes_delivered }
count_rx s duplicate_ignored = record s { duplicates = saturating_succ_u32 s.duplicates }
count_rx s PollOutcome.rejected = record s { nacks = saturating_succ_u32 s.nacks }
count_rx s PollOutcome.crc_rejected = record s {
  nacks = saturating_succ_u32 s.nacks;
  crc_errors = saturating_succ_u32 s.crc_errors;
}
count_rx s PollOutcome.aborted = s
count_rx s PollOutcome.pending = s
count_rx s PollOutcome.started = s
count_rx s transfer_finished = s

-- An abort of the peer cancels the sender, unless it opens or cancels a session itself.
unfoldable pub cancel : {T : Type 0} → Sender T → PollOutcome → Sender T
unfolding holds_session_control force_abort
cancel tx PollOutcome.aborted = if holds_session_control tx then tx else force_abort tx
cancel tx (delivered byte) = tx
cancel tx duplicate_ignored = tx
cancel tx PollOutcome.rejected = tx
cancel tx PollOutcome.crc_rejected = tx
cancel tx PollOutcome.pending = tx
cancel tx PollOutcome.started = tx
cancel tx transfer_finished = tx

unfoldable pub count_mark : SessionStats → IoMark → SessionStats
count_mark s mark = record s {
  frames_sent = if mark.frame_on_wire then saturating_succ_u32 s.frames_sent else s.frames_sent;
  retries = if mark.retransmit then saturating_succ_u32 s.retries else s.retries;
}

-- What a step of the sender alone reports.
unfoldable pub tx_event : TxPoll → Bool → IoMark → PumpEvent
tx_event TxPoll.aborted edge mark = aborted
tx_event acked edge mark = sent
tx_event session_ready edge mark = progress
tx_event transfer_done edge mark = if edge then completed else progress
tx_event TxPoll.pending edge mark =
    if mark.frame_on_wire || mark.retransmit || mark.nack then progress else idle

-- The same beside work of the receiver.
unfoldable pub busy_event : TxPoll → Bool → PumpEvent
busy_event TxPoll.aborted edge = aborted
busy_event acked edge = sent
busy_event session_ready edge = progress
busy_event transfer_done edge = if edge then completed else progress
busy_event TxPoll.pending edge = progress

abbrev pub is_aborted : TxPoll → Bool
is_aborted TxPoll.pending = false
is_aborted acked = false
is_aborted session_ready = false
is_aborted transfer_done = false
is_aborted TxPoll.aborted = true

-- The event of a step; `edge` is a transfer of the sender that has just completed.
unfoldable pub event : PollOutcome → TxPoll → Bool → IoMark → PumpEvent
unfolding tx_event busy_event
event PollOutcome.aborted t edge mark = aborted
event (delivered byte) t edge mark = if is_aborted t then aborted else received byte
event transfer_finished t edge mark = if is_aborted t then aborted else completed
event PollOutcome.pending t edge mark = tx_event t edge mark
event duplicate_ignored t edge mark = busy_event t edge
event PollOutcome.started t edge mark = busy_event t edge
event PollOutcome.rejected t edge mark = busy_event t edge
event PollOutcome.crc_rejected t edge mark = busy_event t edge

-- A completion that a delivered byte has kept back for the next step.
unfoldable pub keeps_back : PollOutcome → TxPoll → Bool → Bool
keeps_back (delivered byte) t edge = not (is_aborted t) && edge
keeps_back duplicate_ignored t edge = false
keeps_back PollOutcome.rejected t edge = false
keeps_back PollOutcome.crc_rejected t edge = false
keeps_back PollOutcome.aborted t edge = false
keeps_back PollOutcome.pending t edge = false
keeps_back PollOutcome.started t edge = false
keeps_back transfer_finished t edge = false

module _ {T R : Type 0} where
  unfoldable pub new : Sender T → Receiver R → Pump T R
  new tx rx = record {
    tx = tx;
    rx = rx;
    stats = no_stats;
    last_acked = false;
    tx_done_seen = false;
    pending_completed = false;
  }

  unfoldable pub on : T → R → Pump T R
  unfolding new State.new ReceiverState.new
  on tx rx = new (State.new tx) (ReceiverState.new rx)

  unfoldable pub on_with : T → R → RetryPolicy → Pump T R
  unfolding new State.with_policy ReceiverState.new
  on_with tx rx policy = new (State.with_policy tx policy) (ReceiverState.new rx)

  unfoldable pub abort : {E : Type 0} → Pump T R → Pump T R × Result (Unit {0}) (Error E)
  unfolding offer_abort
  abort p = let (tx, r) = offer_abort p.tx in (record p { tx = tx }, r)

  -- Both halves have stepped.
  unfoldable pub report : Pump T R → PollOutcome → TxPoll → Pump T R × PumpEvent
  unfolding take_mark count_mark event keeps_back
  report p o t =
      let (tx, mark) = take_mark p.tx in
      let edge = is_transfer_done t && not p.tx_done_seen in
      (
        record p {
          tx = tx;
          last_acked = is_acked t;
          stats = count_mark p.stats mark;
          tx_done_seen = is_transfer_done t;
          pending_completed = keeps_back o t edge || p.pending_completed;
        },
        event o t edge mark,
      )

module _ {T R E : Type 0} (tio : ByteTransport T E) (rio : ByteTransport R E) where
  -- The receiver has stepped with this outcome.
  unfoldable pub poll_tx : Pump T R → PollOutcome → Pump T R × Result PumpEvent (Error E)
  unfolding report
  poll_tx p o =
      let (tx, r) = Poll.poll tio p.tx in
      elim r [
        | err e ↦ (record p { tx = tx }, err e)
        | ok t ↦ let (p', event) = report (record p { tx = tx }) o t in (p', ok event)
      ]

  unfoldable pub poll_rx : Pump T R → Pump T R × Result PumpEvent (Error E)
  unfolding poll_tx count_rx cancel
  poll_rx p =
      let (rx, r) = ReceiverPoll.poll rio p.rx in
      elim r [
        | err e ↦ (record p { rx = rx }, err e)
        | ok o ↦ poll_tx (record p { rx = rx; stats = count_rx p.stats o; tx = cancel p.tx o }) o
      ]

  unfoldable pub poll : Pump T R → Pump T R × Result PumpEvent (Error E)
  unfolding poll_rx
  poll p0 =
      let p = record p0 {
        stats = record (p0.stats) { ticks = saturating_succ_u64 p0.stats.ticks };
      } in
      if p.pending_completed
      then (record p { pending_completed = false }, ok completed)
      else poll_rx p
