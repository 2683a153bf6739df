-- ===== src/Tx/State.antt =====
-- tx.rs: the sender's state, and the parts of its methods that cannot fail.
use psicose.Prelude.{ℕ, ◌+◌, ◌-◌, ◌^◌, Bool, true, false, ◌&&◌, ◌||◌, Option, none, some, min, ◌==◌}
use psicose.Timeout.{RetryPolicy, default_policy}
use psicose.Protocol.Sequence.{Sequence, current}
use psicose.Protocol.Sequence
use psicose.Protocol.Frame.{Frame, data_frame, start_frame, finish_frame, abort_frame}
use psicose.Protocol.OutBuf.{OutBuf, peek, commit, load}
use psicose.Protocol.OutBuf
use psicose.Protocol.Assembler.{FrameAssembler, push, reset}
use psicose.Protocol.Assembler

pub data TxState : Type 0 where
  idle sending waiting_ack retrying finished aborted failed : TxState

pub data TxPoll : Type 0 where
  pending acked session_ready transfer_done aborted : TxPoll

pub data FlightKind : Type 0 where
  dat : ℕ → FlightKind
  start finish abort : FlightKind

pub record InFlight : Type 0 where
  pub kind : FlightKind
  pub seq : ℕ
  pub retries_left : ℕ
  pub waiting : Bool
  pub empty_ticks : ℕ

pub record IoMark : Type 0 where
  pub frame_on_wire : Bool
  pub nack : Bool
  pub retransmit : Bool

-- `IoMark::default()`.
abbrev pub no_mark : IoMark
no_mark = record { frame_on_wire = false; nack = false; retransmit = false }

pub record Sender (T : Type 0) : Type 0 where
  pub transport : T
  pub seq : Sequence
  pub state : TxState
  pub retry_policy : RetryPolicy
  pub assembler : FrameAssembler
  pub inflight : Option InFlight
  pub out : OutBuf
  pub mark : IoMark

-- The discriminant that the derived `==` of a state compares.
abbrev pub tag : TxState → ℕ
tag idle = 0
tag sending = 1
tag waiting_ack = 2
tag retrying = 3
tag finished = 4
tag aborted = 5
tag failed = 6

abbrev pub same_state : TxState → TxState → Bool
same_state a b = tag a == tag b

abbrev pub is_none {ℓ} : {A : Type ℓ} → Option A → Bool
is_none none = true
is_none (some a) = false

-- `saturating_add(1)` on a `u16`.
abbrev pub saturating_succ_u16 : ℕ → ℕ
saturating_succ_u16 n = min (n + 1) (2 ^ 16 - 1)

abbrev pub is_abort : FlightKind → Bool
is_abort (dat byte) = false
is_abort start = false
is_abort finish = false
is_abort abort = true

abbrev is_session_control : FlightKind → Bool
is_session_control (dat byte) = false
is_session_control start = true
is_session_control finish = false
is_session_control abort = true

-- `Idle | Finished | Aborted | Failed`.
abbrev pub may_start : TxState → Bool
may_start s =
    same_state s idle || same_state s finished || same_state s aborted || same_state s failed

-- `matches!(flight.kind, Some(FlightKind::Abort))`.
abbrev pub aborting : Option InFlight → Bool
aborting none = false
aborting (some flight) = is_abort flight.kind

-- The frame that a flight puts on the wire.
unfoldable pub frame_of : FlightKind → ℕ → Frame
frame_of (dat byte) seq = data_frame seq byte
frame_of start seq = start_frame
frame_of finish seq = finish_frame seq
frame_of abort seq = abort_frame

module _ {T : Type 0} where
  unfoldable pub with_policy : T → RetryPolicy → Sender T
  unfolding Sequence.new Assembler.new OutBuf.empty
  with_policy t policy = record {
    transport = t;
    seq = Sequence.new;
    state = idle;
    retry_policy = policy;
    assembler = Assembler.new;
    inflight = none;
    out = OutBuf.empty;
    mark = no_mark;
  }

  unfoldable pub new : T → Sender T
  unfolding with_policy
  new t = with_policy t default_policy

  unfoldable pub next_seq : Sender T → ℕ
  next_seq s = current s.seq

  unfoldable pub can_offer_data : Sender T → Bool
  can_offer_data s = same_state s.state idle && is_none s.inflight && OutBuf.is_idle s.out

  unfoldable pub begin : Sender T → FlightKind → ℕ → Sender T
  begin s kind seq = record s {
    inflight = some (record {
      kind = kind;
      seq = seq;
      retries_left = s.retry_policy.max_retries;
      waiting = false;
      empty_ticks = 0;
    });
    state = sending;
  }

  unfoldable pub holds_session_control : Sender T → Bool
  holds_session_control s = elim s.inflight [
    | none ↦ false
    | some flight ↦ is_session_control flight.kind
  ]

  unfoldable pub take_mark : Sender T → Sender T × IoMark
  take_mark s = (record s { mark = no_mark }, s.mark)

  unfoldable pub force_abort : Sender T → Sender T
  unfolding OutBuf.empty reset
  force_abort s = record s {
    inflight = none;
    out = OutBuf.empty;
    assembler = reset s.assembler;
    state = aborted;
  }

  unfoldable pub load_flight_frame : Sender T → Sender T
  unfolding load
  load_flight_frame s = elim s.inflight [
    | none ↦ s
    | some flight ↦ record s { out = load s.out (frame_of flight.kind flight.seq); state = sending }
  ]

  -- The flight is on the wire: both branches of `poll` that write end so.
  unfoldable pub frame_sent : Sender T → Sender T
  unfolding reset
  frame_sent s = record s {
    inflight = elim s.inflight [
      | none ↦ none
      | some flight ↦ some (record flight { waiting = true; empty_ticks = 0 })
    ];
    assembler = reset s.assembler;
    state = waiting_ack;
    mark = record (s.mark) { frame_on_wire = true };
  }

  -- `None => 0` is the sequence number of a sender with no flight.
  unfoldable pub flight_seq : Sender T → ℕ
  flight_seq s = elim s.inflight [ none ↦ 0 | some flight ↦ flight.seq ]

  -- A late reply to another flight restarts the silence count.
  unfoldable pub restart_ticks : Sender T → Sender T
  restart_ticks s = record s {
    inflight = elim s.inflight [
      | none ↦ none
      | some flight ↦ some (record flight { empty_ticks = 0 })
    ];
  }
