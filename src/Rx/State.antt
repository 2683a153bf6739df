-- ===== src/Rx/State.antt =====
-- rx.rs: the receiver's state, and the handlers of the frames that it takes.
use psicose.Prelude.{ℕ, Bool, true, false, not, ◌||◌, Option, none, some, ◌==◌, if◌then◌else◌}
use psicose.Protocol.Sequence.{Sequence, current, previous}
use psicose.Protocol.Sequence
use psicose.Protocol.Frame.{Frame, ack_frame, nack_frame}
use psicose.Protocol.OutBuf.{OutBuf, load}
use psicose.Protocol.OutBuf
use psicose.Protocol.Assembler.{FrameAssembler}
use psicose.Protocol.Assembler

pub data RxState : Type 0 where
  idle receiving validating acknowledging finished aborted : RxState

pub data PendingAction : Type 0 where
  deliver : ℕ → PendingAction
  duplicate started finished aborted rejected crc_rejected : PendingAction

pub data PollOutcome : Type 0 where
  pending : PollOutcome
  delivered : ℕ → PollOutcome
  duplicate_ignored started transfer_finished rejected crc_rejected aborted : PollOutcome

-- `PollOutcome::is_closed`.
unfoldable pub closes : PollOutcome → Bool
closes pending = false
closes (delivered byte) = false
closes duplicate_ignored = false
closes PollOutcome.started = false
closes transfer_finished = true
closes PollOutcome.rejected = false
closes PollOutcome.crc_rejected = false
closes PollOutcome.aborted = true

pub record Receiver (T : Type 0) : Type 0 where
  pub transport : T
  pub expected_seq : Sequence
  pub state : RxState
  pub assembler : FrameAssembler
  pub out : OutBuf
  pub pending : Option PendingAction
  pub finish_seq : Option ℕ
  pub abort_latched : Bool

abbrev pub is_some {ℓ} : {A : Type ℓ} → Option A → Bool
is_some none = false
is_some (some a) = true

module _ {T : Type 0} where
  unfoldable pub new : T → Receiver T
  unfolding Sequence.new Assembler.new OutBuf.empty
  new t = record {
    transport = t;
    expected_seq = Sequence.new;
    state = idle;
    assembler = Assembler.new;
    out = OutBuf.empty;
    pending = none;
    finish_seq = none;
    abort_latched = false;
  }

  unfoldable pub settle_idle : Receiver T → Receiver T
  settle_idle r = record r {
    state =
        if r.abort_latched
        then RxState.aborted
        else if is_some r.finish_seq
        then RxState.finished
        else idle;
  }

  unfoldable pub is_closed : Receiver T → Bool
  is_closed r = r.abort_latched || is_some r.finish_seq

  unfoldable pub begin_reply : Receiver T → Frame → PendingAction → Receiver T
  unfolding load
  begin_reply r f action = record r {
    out = load r.out f;
    pending = some action;
    state = acknowledging;
  }

  unfoldable pub act : Receiver T → PendingAction → Receiver T × Option PollOutcome
  unfolding settle_idle Sequence.advance
  act r (deliver byte) = (
    record r { expected_seq = (Sequence.advance r.expected_seq).0; state = idle },
    some (delivered byte),
  )
  act r duplicate = (settle_idle r, some duplicate_ignored)
  act r started = (record r { finish_seq = none; state = idle }, some PollOutcome.started)
  act r finished = (record r { state = RxState.finished }, some transfer_finished)
  act r aborted = (record r { state = RxState.aborted }, some PollOutcome.aborted)
  act r rejected = (settle_idle r, some PollOutcome.rejected)
  act r crc_rejected = (settle_idle r, some PollOutcome.crc_rejected)

  unfoldable pub take_pending : Receiver T → Receiver T × Option PollOutcome
  unfolding act
  take_pending r = elim r.pending [
    | none ↦ (r, none)
    | some action ↦ act (record r { pending = none }) action
  ]

  unfoldable pub handle_start : Receiver T → Receiver T
  unfolding begin_reply Sequence.new
  handle_start r =
      begin_reply
        (record r { expected_seq = Sequence.new; finish_seq = none; abort_latched = false })
        (ack_frame 0) started

  unfoldable pub handle_abort : Receiver T → Receiver T
  unfolding begin_reply Sequence.new
  handle_abort r =
      if is_some r.finish_seq
      then record r { state = RxState.finished }
      else begin_reply (record r { abort_latched = true; expected_seq = Sequence.new })
          (ack_frame 0) aborted

  unfoldable pub handle_finish : Receiver T → ℕ → Receiver T
  unfolding begin_reply
  handle_finish r seq =
      if r.abort_latched then record r { state = RxState.aborted } else elim r.finish_seq [
        | some closed ↦
            if seq == closed
            then begin_reply r (ack_frame seq) finished
            else record r { state = RxState.finished }
        | none ↦
            if not (seq == current r.expected_seq)
            then begin_reply r (nack_frame seq) rejected
            else begin_reply (record r { finish_seq = some seq }) (ack_frame seq) finished
      ]

  unfoldable pub handle_data : Receiver T → Frame → Receiver T
  unfolding begin_reply previous
  handle_data r f =
      if r.abort_latched
      then record r { state = RxState.aborted }
      else if is_some r.finish_seq
      then record r { state = RxState.finished }
      else let expected = current r.expected_seq in
        if f.seq == expected
        then begin_reply r (ack_frame expected) (deliver f.payload)
        else if f.seq == previous r.expected_seq
        then begin_reply r (ack_frame f.seq) duplicate
        else begin_reply r (nack_frame f.seq) rejected
