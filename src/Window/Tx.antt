-- ===== src/Window/Tx.antt =====
-- window/tx.rs: the windowed sender's state, its slots and the methods that offer a frame.
pub mod Offer
pub mod Reply
pub mod Poll
pub mod Send
pub mod Numbers
pub mod Slots
pub mod Valid
pub mod Replies
pub mod Safe
use psicose.Prelude.{
  ℕ, zero, suc, ◌+◌, ◌-◌, ◌%◌, List, [], ◌∷◌, Bool, true, false, not, ◌||◌, ◌&&◌, Option, none,
  some, ◌==◌, ltb, leb, if◌then◌else◌, get_or, set, Result, ok, err, ◌>>=◌,
}
use mathlib.Core.Option
use psicose.Error.{Error, window_full, not_idle}
use psicose.Timeout.{RetryPolicy, default_policy}
use psicose.Protocol.Sequence.{Sequence, current}
use psicose.Protocol.Sequence
use psicose.Protocol.Frame.{Frame, data_frame, start_frame, finish_frame, abort_frame}
use psicose.Protocol.OutBuf.{OutBuf, load, is_idle}
use psicose.Protocol.OutBuf
use psicose.Protocol.Assembler.{FrameAssembler, reset}
use psicose.Protocol.Assembler
use psicose.Tx.State.{
  TxState, idle, sending, waiting_ack, finished, aborted, failed, IoMark, no_mark, same_state,
  is_none,
}
use psicose.Window.Rx.{repeat}

pub data FlightKind : Type 0 where
  dat start finish abort : FlightKind

pub record TxSlot : Type 0 where
  pub kind : FlightKind
  pub seq : ℕ
  pub payload : ℕ
  pub retries_left : ℕ
  pub written : Bool
  pub needs_retransmit : Bool
  pub empty_ticks : ℕ

pub record WindowedSender (T : Type 0) : Type 0 where
  pub transport : T
  pub next_seq : Sequence
  pub slots : List (Option TxSlot)
  pub limit : ℕ
  pub state : TxState
  pub retry_policy : RetryPolicy
  pub assembler : FrameAssembler
  pub out : OutBuf
  pub writing : Option ℕ
  pub mark : IoMark

abbrev pub is_session : FlightKind → Bool
is_session dat = false
is_session start = true
is_session finish = true
is_session abort = true

-- `FlightKind::Abort | FlightKind::Start`.
abbrev pub is_session_control : FlightKind → Bool
is_session_control dat = false
is_session_control start = true
is_session_control finish = false
is_session_control abort = true

abbrev pub is_abort : FlightKind → Bool
is_abort dat = false
is_abort start = false
is_abort finish = false
is_abort abort = true

-- `Finished | Aborted | Failed`.
abbrev pub is_over : TxState → Bool
is_over s = same_state s finished || same_state s aborted || same_state s failed

-- How many slots are taken.
unfoldable pub count_slots : List (Option TxSlot) → ℕ
count_slots [] = 0
count_slots (none ∷ slots) = count_slots slots
count_slots (some s ∷ slots) = count_slots slots + 1

-- A taken slot whose kind passes a test.
unfoldable pub any_kind : (FlightKind → Bool) → List (Option TxSlot) → Bool
any_kind test [] = false
any_kind test (none ∷ slots) = any_kind test slots
any_kind test (some s ∷ slots) = test s.kind || any_kind test slots

-- The index of the first entry that passes a test.
unfoldable pub position {ℓ} : {A : Type ℓ} → (A → Bool) → List A → Option ℕ
position test [] = none
position test (x ∷ xs) = if test x then some 0 else Option.map suc (position test xs)

-- `slot.as_ref().map(|s| s.seq) == Some(seq)`.
abbrev pub has_seq : ℕ → Option TxSlot → Bool
has_seq seq none = false
has_seq seq (some s) = s.seq == seq

-- The slot whose number lies furthest back: `slot` against the oldest one so far.
unfoldable pub older : ℕ → Option ℕ → ℕ → ℕ
older limit none seq = seq
older limit (some base) seq = if leb ((seq + 256 - base) % 256) limit then base else seq

unfoldable pub oldest_from : ℕ → Option ℕ → List (Option TxSlot) → Option ℕ
unfolding older
oldest_from limit oldest [] = oldest
oldest_from limit oldest (none ∷ slots) = oldest_from limit oldest slots
oldest_from limit oldest (some s ∷ slots) =
    oldest_from limit (some (older limit oldest s.seq)) slots

module _ {T : Type 0} where
  unfoldable pub with_policy : ℕ → T → RetryPolicy → WindowedSender T
  unfolding Sequence.new Assembler.new OutBuf.empty
  with_policy size t policy = record {
    transport = t;
    next_seq = Sequence.new;
    slots = repeat none size;
    limit = size;
    state = idle;
    retry_policy = policy;
    assembler = Assembler.new;
    out = OutBuf.empty;
    writing = none;
    mark = no_mark;
  }

  unfoldable pub new : ℕ → T → WindowedSender T
  unfolding with_policy
  new size t = with_policy size t default_policy

  unfoldable pub outstanding : WindowedSender T → ℕ
  unfolding count_slots
  outstanding s = count_slots s.slots

  unfoldable pub set_window_limit : ℕ → WindowedSender T → ℕ → WindowedSender T
  unfolding outstanding is_idle
  set_window_limit size s limit =
      if not (outstanding s == 0) || not (is_idle s.out)
      then s
      else record s { limit = if limit == 0 then 1 else if ltb size limit then size else limit }

  unfoldable pub holds_session_control : WindowedSender T → Bool
  unfolding any_kind
  holds_session_control s = any_kind is_session_control s.slots

  unfoldable pub take_mark : WindowedSender T → WindowedSender T × IoMark
  take_mark s = (record s { mark = no_mark }, s.mark)

  unfoldable pub find_seq : WindowedSender T → ℕ → Option ℕ
  unfolding position
  find_seq s seq = position (has_seq seq) s.slots

  unfoldable pub find_free : WindowedSender T → Option ℕ
  unfolding position
  find_free s = position is_none s.slots

  unfoldable pub oldest_unacked : WindowedSender T → Option ℕ
  unfolding oldest_from
  oldest_unacked s = oldest_from s.limit none s.slots

  unfoldable pub seq_in_send_window : WindowedSender T → ℕ → Bool
  unfolding oldest_unacked
  seq_in_send_window s seq = elim (oldest_unacked s) [
    | none ↦ true
    | some base ↦ ltb ((seq + 256 - base) % 256) s.limit
  ]

  unfoldable pub has_session_flight : WindowedSender T → Bool
  unfolding any_kind
  has_session_flight s = any_kind is_session s.slots

  -- A frame that has still to be written for the first time.
  unfoldable pub fresh_slot : WindowedSender T → FlightKind → ℕ → ℕ → TxSlot
  fresh_slot s kind seq payload = record {
    kind = kind;
    seq = seq;
    payload = payload;
    retries_left = s.retry_policy.max_retries;
    written = false;
    needs_retransmit = false;
    empty_ticks = 0;
  }

  unfoldable pub force_abort : ℕ → WindowedSender T → WindowedSender T
  unfolding OutBuf.empty reset
  force_abort size s = record s {
    slots = repeat none size;
    out = OutBuf.empty;
    writing = none;
    assembler = reset s.assembler;
    state = aborted;
  }

  unfoldable pub may_start : WindowedSender T → Bool
  unfolding outstanding is_idle
  may_start s =
      (same_state s.state idle || is_over s.state || outstanding s == 0 && is_idle s.out)
      && outstanding s == 0
      && is_idle s.out
