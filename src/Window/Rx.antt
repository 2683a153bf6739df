-- ===== src/Window/Rx.antt =====
-- window/rx.rs: the windowed receiver's state, its reorder buffer and the handlers of the frames.
pub mod Poll
pub mod Order
pub mod Drain
pub mod Delivery
pub mod Handlers
pub mod Incoming
pub mod InOrder
pub mod Acks
use psicose.Prelude.{
  ℕ, zero, suc, ◌+◌, ◌-◌, ◌%◌, List, [], ◌∷◌, ◌++◌, Bool, true, false, not, ◌||◌, ◌&&◌, Option,
  none, some, ◌==◌, ltb, leb, if◌then◌else◌, get_or, set,
}
use psicose.Protocol.Sequence.{Sequence, current}
use psicose.Protocol.Sequence
use psicose.Protocol.Frame.{Frame, ack_frame, nack_frame}
use psicose.Protocol.OutBuf.{OutBuf, load, is_idle}
use psicose.Protocol.OutBuf
use psicose.Protocol.Assembler.{FrameAssembler}
use psicose.Protocol.Assembler
use psicose.Rx.State.{
  RxState, idle, acknowledging, PollOutcome, delivered, duplicate_ignored, transfer_finished,
  is_some,
}

pub data PendingAction : Type 0 where
  drain duplicate quiet started finished aborted rejected crc_rejected : PendingAction

pub record WindowedReceiver (T : Type 0) : Type 0 where
  pub transport : T
  pub expected_seq : Sequence
  pub buf : List (Option ℕ)
  pub emit : List ℕ
  pub emit_at : ℕ
  pub emit_len : ℕ
  pub limit : ℕ
  pub state : RxState
  pub assembler : FrameAssembler
  pub out : OutBuf
  pub pending : Option PendingAction
  pub finish_seq : Option ℕ
  pub abort_latched : Bool

-- `[value; n]`.
abbrev pub repeat {ℓ} : {A : Type ℓ} → A → ℕ → List A
repeat value zero = []
repeat value (suc n) = value ∷ repeat value n

-- `buf.iter().any(|s| s.is_some())`.
unfoldable pub any_some : List (Option ℕ) → Bool
any_some [] = false
any_some (slot ∷ slots) = is_some slot || any_some slots

-- Each entry moves one place down, and the last one is cleared.
unfoldable pub shift_buf : List (Option ℕ) → List (Option ℕ)
shift_buf [] = []
shift_buf (slot ∷ slots) = slots ++ none ∷ []

module _ {T : Type 0} where
  unfoldable pub new : ℕ → T → WindowedReceiver T
  unfolding Sequence.new Assembler.new OutBuf.empty
  new size t = record {
    transport = t;
    expected_seq = Sequence.new;
    buf = repeat none size;
    emit = repeat 0 size;
    emit_at = 0;
    emit_len = 0;
    limit = size;
    state = idle;
    assembler = Assembler.new;
    out = OutBuf.empty;
    pending = none;
    finish_seq = none;
    abort_latched = false;
  }

  unfoldable pub set_window_limit : ℕ → WindowedReceiver T → ℕ → WindowedReceiver T
  unfolding any_some is_idle
  set_window_limit size r limit =
      if any_some r.buf || not (r.emit_len == 0) || not (is_idle r.out)
      then r
      else record r { limit = if limit == 0 then 1 else if ltb size limit then size else limit }

  unfoldable pub settle_idle : WindowedReceiver T → WindowedReceiver T
  settle_idle r = record r {
    state =
        if r.abort_latched
        then RxState.aborted
        else if is_some r.finish_seq
        then RxState.finished
        else idle;
  }

  unfoldable pub is_closed : WindowedReceiver T → Bool
  is_closed r = r.abort_latched || is_some r.finish_seq

  unfoldable pub clear_window : ℕ → WindowedReceiver T → WindowedReceiver T
  clear_window size r = record r { buf = repeat none size; emit_at = 0; emit_len = 0 }

  -- `wrapping_sub` on a `u8` is written out.
  unfoldable pub offset : WindowedReceiver T → ℕ → Option ℕ
  offset r seq =
      let delta = (seq + 256 - current r.expected_seq) % 256 in
      if ltb delta r.limit then some delta else none

  unfoldable pub is_duplicate : WindowedReceiver T → ℕ → Bool
  is_duplicate r seq =
      let back = (current r.expected_seq + 256 - seq) % 256 in leb 1 back && leb back r.limit

  unfoldable pub push_emit : ℕ → WindowedReceiver T → ℕ → WindowedReceiver T
  push_emit size r byte =
      if leb size r.emit_len
      then r
      else record r { emit = set r.emit r.emit_len byte; emit_len = r.emit_len + 1 }

  unfoldable pub pop_emit : WindowedReceiver T → WindowedReceiver T × Option ℕ
  pop_emit r =
      if leb r.emit_len r.emit_at
      then (record r { emit_at = 0; emit_len = 0 }, none)
      else let byte = get_or r.emit r.emit_at 0 in
        if leb r.emit_len (r.emit_at + 1)
        then (record r { emit_at = 0; emit_len = 0 }, some byte)
        else (record r { emit_at = r.emit_at + 1 }, some byte)

  -- The body of the loop of `drain_in_order`, for the byte at the front of the buffer.
  unfoldable pub release_front : ℕ → WindowedReceiver T → ℕ → WindowedReceiver T
  unfolding push_emit shift_buf Sequence.advance
  release_front size r byte =
      push_emit size
        (record r {
          buf = shift_buf (set r.buf 0 none);
          expected_seq = (Sequence.advance r.expected_seq).0;
        })
        byte

  -- The loop: at most `rounds` bytes.
  unfoldable pub drain_rounds : ℕ → ℕ → WindowedReceiver T → WindowedReceiver T
  unfolding release_front
  drain_rounds size zero r = r
  drain_rounds size (suc rounds) r = elim (get_or r.buf 0 none) [
    | none ↦ r
    | some byte ↦ drain_rounds size rounds (release_front size r byte)
  ]

  unfoldable pub drain_in_order : ℕ → WindowedReceiver T → WindowedReceiver T
  unfolding drain_rounds
  drain_in_order size r = drain_rounds size size r

  unfoldable pub begin_reply : WindowedReceiver T → Frame → PendingAction → WindowedReceiver T
  unfolding load
  begin_reply r f action = record r {
    out = load r.out f;
    pending = some action;
    state = acknowledging;
  }

  -- `.map(PollOutcome::Delivered)`.
  abbrev pub popped : WindowedReceiver T × Option ℕ → WindowedReceiver T × Option PollOutcome
  popped (r, none) = (r, none)
  popped (r, some b) = (r, some (delivered b))

  unfoldable pub act :
      ℕ → WindowedReceiver T → PendingAction → WindowedReceiver T × Option PollOutcome
  unfolding settle_idle drain_in_order pop_emit
  act size r drain = popped (pop_emit (record (drain_in_order size r) { state = idle }))
  act size r duplicate = (settle_idle r, some duplicate_ignored)
  act size r quiet = (settle_idle r, some PollOutcome.pending)
  act size r started = (
    record r { finish_seq = none; abort_latched = false; state = idle },
    some PollOutcome.started,
  )
  act size r finished = (record r { state = RxState.finished }, some transfer_finished)
  act size r aborted = (record r { state = RxState.aborted }, some PollOutcome.aborted)
  act size r rejected = (settle_idle r, some PollOutcome.rejected)
  act size r crc_rejected = (settle_idle r, some PollOutcome.crc_rejected)

  unfoldable pub take_action :
      ℕ → WindowedReceiver T → Option PendingAction → WindowedReceiver T × Option PollOutcome
  unfolding act
  take_action size r none = (r, none)
  take_action size r (some action) = act size r action

  unfoldable pub take_pending : ℕ → WindowedReceiver T → WindowedReceiver T × Option PollOutcome
  unfolding take_action
  take_pending size r = take_action size (record r { pending = none }) r.pending

  unfoldable pub handle_start : ℕ → WindowedReceiver T → WindowedReceiver T
  unfolding begin_reply clear_window Sequence.new
  handle_start size r =
      begin_reply
        (clear_window size
          (record r { expected_seq = Sequence.new; finish_seq = none; abort_latched = false }))
        (ack_frame 0) started

  unfoldable pub handle_abort : ℕ → WindowedReceiver T → WindowedReceiver T
  unfolding begin_reply clear_window Sequence.new
  handle_abort size r =
      if is_some r.finish_seq
      then record r { state = RxState.finished }
      else begin_reply
          (clear_window size (record r { abort_latched = true; expected_seq = Sequence.new }))
          (ack_frame 0) aborted

  unfoldable pub handle_finish : ℕ → WindowedReceiver T → ℕ → WindowedReceiver T
  unfolding begin_reply clear_window
  handle_finish size r seq =
      if r.abort_latched then record r { state = RxState.aborted } else elim r.finish_seq [
        | some closed ↦
            if seq == closed
            then begin_reply r (ack_frame seq) finished
            else record r { state = RxState.finished }
        | none ↦
            if not (seq == current r.expected_seq)
            then begin_reply r (nack_frame seq) rejected
            else begin_reply (clear_window size (record r { finish_seq = some seq }))
                (ack_frame seq) finished
      ]

  -- A frame inside the window, `off` places on: the first copy is kept.
  unfoldable pub accept : WindowedReceiver T → Frame → ℕ → WindowedReceiver T
  unfolding begin_reply
  accept r f off =
      let r' =
        if is_some (get_or r.buf off none)
        then r
        else record r { buf = set r.buf off (some f.payload) } in
      begin_reply r' (ack_frame f.seq) (if off == 0 then drain else quiet)

  unfoldable pub handle_data : WindowedReceiver T → Frame → WindowedReceiver T
  unfolding begin_reply offset accept is_duplicate
  handle_data r f =
      if r.abort_latched
      then record r { state = RxState.aborted }
      else if is_some r.finish_seq
      then record r { state = RxState.finished }
      else elim (offset r f.seq) [
        | some off ↦ accept r f off
        | none ↦
            if is_duplicate r f.seq
            then begin_reply r (ack_frame f.seq) duplicate
            else begin_reply r (nack_frame f.seq) rejected
      ]
