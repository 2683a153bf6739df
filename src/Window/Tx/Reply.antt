-- ===== src/Window/Tx/Reply.antt =====
-- window/tx.rs: what a written frame, a reply or a silence does to the slots.
use psicose.Prelude.{
  ℕ, ◌+◌, ◌-◌, List, [], ◌∷◌, Bool, true, false, not, ◌&&◌, ◌||◌, Option, none, some, ltb, ◌==◌,
  if◌then◌else◌, get_or, set, Result, ok, err,
}
use psicose.Error.{Error}
use psicose.Protocol.Sequence
use psicose.Protocol.Frame.{
  Frame, FrameType, FrameError, data_frame, start_frame, finish_frame, abort_frame,
}
use psicose.Protocol.OutBuf.{load}
use psicose.Protocol.Assembler.{push, reset}
use psicose.Tx.State.{
  idle, sending, waiting_ack, retrying, finished, aborted, failed, TxPoll, pending, acked,
  session_ready, transfer_done, is_none, saturating_succ_u16,
}
use psicose.Window.Rx.{repeat}
use psicose.Window.Tx.{
  WindowedSender, TxSlot, FlightKind, dat, start, finish, abort, outstanding, find_seq, force_abort,
}

-- The frame that a slot puts on the wire.
unfoldable pub frame_of : TxSlot → Frame
frame_of s = elim s.kind [
  | dat ↦ data_frame s.seq s.payload
  | start ↦ start_frame
  | finish ↦ finish_frame s.seq
  | abort ↦ abort_frame
]

-- The loop of `next_to_write`, from index `i` on.
unfoldable pub write_from : ℕ → Option ℕ → List (Option TxSlot) → Option ℕ
write_from i first_new [] = first_new
write_from i first_new (none ∷ slots) = write_from (i + 1) first_new slots
write_from i first_new (some s ∷ slots) =
    let rest =
      write_from (i + 1) (if not s.written && is_none first_new then some i else first_new) slots in
    if s.needs_retransmit then some i else rest

-- `writing == Some(i)`.
abbrev pub same_index : Option ℕ → ℕ → Bool
same_index none i = false
same_index (some w) i = w == i

-- The loop of `tick_timeouts`, from index `i` on: the slots, whether one is to be sent again, and
-- whether one has no retry left, which ends the loop.
unfoldable pub tick_from :
    ℕ → Option ℕ → ℕ → List (Option TxSlot) → List (Option TxSlot) × Bool × Bool
tick_from timeout writing i [] = ([], false, false)
tick_from timeout writing i (none ∷ slots) =
    let (rest, again, over) = tick_from timeout writing (i + 1) slots in (none ∷ rest, again, over)
tick_from timeout writing i (some s ∷ slots) =
    let (rest, again, over) = tick_from timeout writing (i + 1) slots in
    let ticks = saturating_succ_u16 s.empty_ticks in
    if same_index writing i || not s.written || s.needs_retransmit
    then (some s ∷ rest, again, over)
    else if ltb ticks timeout
    then (some (record s { empty_ticks = ticks }) ∷ rest, again, over)
    else if s.retries_left == 0
    then (some (record s { empty_ticks = ticks }) ∷ slots, false, true)
    else (
      some (record s {
        retries_left = s.retries_left - 1;
        needs_retransmit = true;
        empty_ticks = 0;
      })
          ∷ rest,
      true,
      over,
    )

-- The slot whose frame is on the wire.
unfoldable pub mark_written : List (Option TxSlot) → Option ℕ → List (Option TxSlot)
mark_written slots none = slots
mark_written slots (some i) = elim (get_or slots i none) [
  | none ↦ slots
  | some slot ↦
      set slots i (some (record slot { written = true; needs_retransmit = false; empty_ticks = 0 }))
]

abbrev pub when {ℓ} : {A : Type ℓ} → Bool → A → Option A
when true x = some x
when false x = none

-- A slot that may be answered for has been written.
abbrev pub if_written : ℕ → Option TxSlot → Option (ℕ × TxSlot)
if_written i none = none
if_written i (some slot) = when slot.written (i, slot)

abbrev pub written_at : List (Option TxSlot) → Option ℕ → Option (ℕ × TxSlot)
written_at slots none = none
written_at slots (some i) = if_written i (get_or slots i none)

module _ {T : Type 0} where
  unfoldable pub next_to_write : WindowedSender T → Option ℕ
  unfolding write_from
  next_to_write s = write_from 0 none s.slots

  -- The sender with the frame of slot `i` loaded, and whether there is one.
  unfoldable pub load_slot : WindowedSender T → ℕ → WindowedSender T × Bool
  unfolding frame_of load
  load_slot s i = elim (get_or s.slots i none) [
    | none ↦ (s, false)
    | some slot ↦
        (record s { out = load s.out (frame_of slot); writing = some i; state = sending }, true)
  ]

  unfoldable pub finish_write : WindowedSender T → WindowedSender T
  unfolding mark_written outstanding reset
  finish_write s =
      let s' = record s { slots = mark_written s.slots s.writing; writing = none } in
      record s' {
        assembler = reset s.assembler;
        state = if outstanding s' == 0 then idle else waiting_ack;
        mark = record (s.mark) { frame_on_wire = true };
      }

  -- The written slot that carries the number, and its index.
  unfoldable pub written_slot : WindowedSender T → ℕ → Option (ℕ × TxSlot)
  unfolding find_seq
  written_slot s seq = written_at s.slots (find_seq s seq)

module _ {T E : Type 0} where
  -- What an ACK of a flight does, past the emptying of its slot.
  unfoldable pub acknowledge :
      WindowedSender T → FlightKind → WindowedSender T × Result TxPoll (Error E)
  unfolding outstanding Sequence.new
  acknowledge s dat =
      (record s { state = if outstanding s == 0 then idle else waiting_ack }, ok acked)
  acknowledge s start = (record s { next_seq = Sequence.new; state = idle }, ok session_ready)
  acknowledge s finish = (record s { state = finished }, ok transfer_done)
  acknowledge s abort = (record s { state = aborted }, ok TxPoll.aborted)

  unfoldable pub on_ack : WindowedSender T → ℕ → WindowedSender T × Result TxPoll (Error E)
  unfolding written_slot acknowledge
  on_ack s seq = elim (written_slot s seq) [
    | none ↦ (s, ok pending)
    | some found ↦ acknowledge (record s { slots = set s.slots found.0 none }) found.1.kind
  ]

  unfoldable pub on_nack : ℕ → WindowedSender T → ℕ → WindowedSender T × Result TxPoll (Error E)
  unfolding written_slot
  on_nack size s seq = elim (written_slot s seq) [
    | none ↦ (s, ok pending)
    | some found ↦
        let slot = found.1 in
        if slot.retries_left == 0
        then (record s { slots = repeat none size; state = failed }, err Error.retries_exhausted)
        else (
          record s {
            slots = set s.slots found.0 (
                some (record slot {
                  retries_left = slot.retries_left - 1;
                  needs_retransmit = true;
                  empty_ticks = 0;
                }));
            state = retrying;
            mark = record (s.mark) { nack = true; retransmit = true };
          },
          ok pending,
        )
  ]

  unfoldable pub tick_timeouts : ℕ → WindowedSender T → WindowedSender T × Result TxPoll (Error E)
  unfolding tick_from
  tick_timeouts size s =
      let (slots, again, over) = tick_from s.retry_policy.timeout_ticks s.writing 0 s.slots in
      let mark = if again then record (s.mark) { retransmit = true } else s.mark in
      if over
      then (
        record s { slots = repeat none size; state = failed; mark = mark },
        err Error.retries_exhausted,
      )
      else (
        record s { slots = slots; state = if again then retrying else s.state; mark = mark },
        ok pending,
      )

  unfoldable pub control :
      ℕ → FrameType → ℕ → WindowedSender T → WindowedSender T × Result TxPoll (Error E)
  unfolding on_ack on_nack force_abort
  control size FrameType.ack seq s = on_ack s seq
  control size FrameType.nack seq s = on_nack size s seq
  control size FrameType.abort seq s = (force_abort size s, ok TxPoll.aborted)
  control size FrameType.dat seq s = (s, ok pending)
  control size FrameType.start seq s = (s, ok pending)
  control size FrameType.finish seq s = (s, ok pending)

  unfoldable pub on_control :
      ℕ → WindowedSender T → Frame → WindowedSender T × Result TxPoll (Error E)
  unfolding control
  on_control size s f = control size f.frame_type f.seq s

  -- A frame that decodes is handled, all else is passed over.
  unfoldable pub on_push :
      ℕ
      → WindowedSender T
      → Option (Result Frame FrameError)
      → WindowedSender T × Result TxPoll (Error E)
  on_push size s none = (s, ok pending)
  on_push size s (some (ok f)) = on_control size s f
  on_push size s (some (err e)) = (s, ok pending)

  unfoldable pub on_read :
      ℕ → WindowedSender T → Option ℕ → WindowedSender T × Result TxPoll (Error E)
  unfolding on_push tick_timeouts
  on_read size s (some byte) =
      let (a, r) = push s.assembler byte in on_push size (record s { assembler = a }) r
  on_read size s none = tick_timeouts size s
