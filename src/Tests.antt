-- ===== src/Tests.antt =====
-- The state machines at concrete inputs.
use psicose.Prelude.{
  [], ◌∷◌, Bool, true, false, none, ◌≡◌, refl, arith, ok, err, ltb, if◌then◌else◌,
}
use psicose.Error.{idle_budget_exhausted}
use psicose.Timeout.{RetryPolicy, budget, ticks, ticks-budget, ticks-budget_max}
use psicose.Transport.{ByteTransport}
use psicose.Protocol.Frame.{ack_frame, data_frame, from_bytes, to_bytes, check_body, from_u8, as_u8}
use psicose.Protocol.Crc.{crc8_header, fold_byte}
use psicose.Tx.State.{Sender, with_policy, InFlight, dat, load_flight_frame, frame_of}
use psicose.Tx.Offer.{offer}
use psicose.Tx.Poll.{poll, on_control}
use psicose.Tx.Valid.{IsValid, with_policy-IsValid, offer-IsValid, sender_poll-IsValid}
use psicose.Tx.Outcome.{Answers, sender_poll-Answers}
use psicose.Tx.Send.{send_byte}
use psicose.Tx.Patience.{IsSilent}
use psicose.Tx.Silence.{GivesUp, send-silent}
use psicose.Rx.State.{Receiver, new, handle_data, take_pending}
use psicose.Rx.Valid.{new-IsValid, receiver_poll-IsValid}
use psicose.Rx.Delivery.{receiver_poll-Answers}
use psicose.Link.Exchange.{transmit, receive, answer, on_the_wire}
use psicose.Link.System.{Link, Reach, here, next, offers, transmits, receives, hears}
use psicose.Link.ExactlyOnce.{IsStarted, delivered_exactly_once}

-- A link that takes every byte and gives none.
abbrev dead_line : ByteTransport (Unit {0}) (Unit {0})
dead_line = record { write_byte = λ t b. (t, ok tt); read_byte = λ t. (t, ok none) }

abbrev dead_line-IsSilent : IsSilent dead_line
dead_line-IsSilent = record { writes = λ t b. refl; reads = λ t. refl }

abbrev short_policy : RetryPolicy
short_policy = record { timeout_ticks = 3; max_retries = 2 }

fresh_sender : Sender (Unit {0})
fresh_sender = with_policy tt short_policy

fresh_sender-IsValid : IsValid fresh_sender
unfolding fresh_sender
fresh_sender-IsValid = with_policy-IsValid tt short_policy

offered_sender : Sender (Unit {0})
unfolding fresh_sender
offered_sender = (offer {E = Unit {0}} fresh_sender 0x41).0

offered_sender-IsValid : IsValid offered_sender
unfolding offered_sender
offered_sender-IsValid = offer-IsValid (Unit {0}) fresh_sender 0x41 fresh_sender-IsValid

sender_poll-IsValid_example : IsValid (poll dead_line offered_sender).0
sender_poll-IsValid_example = sender_poll-IsValid dead_line offered_sender offered_sender-IsValid

sender_poll-Answers_example : Answers offered_sender (poll dead_line offered_sender)
sender_poll-Answers_example = sender_poll-Answers dead_line offered_sender offered_sender-IsValid

send-silent_example : GivesUp (send_byte dead_line 25 fresh_sender 0x41)
unfolding fresh_sender with_policy
send-silent_example =
    (send-silent dead_line dead_line-IsSilent 25 fresh_sender 0x41 fresh_sender-IsValid refl
      (omega arith) (omega arith)).1

fresh_receiver : Receiver (Unit {0})
fresh_receiver = new tt

receiver_poll-IsValid_example :
    psicose.Rx.Valid.IsValid (psicose.Rx.Poll.poll dead_line fresh_receiver).0
unfolding fresh_receiver
receiver_poll-IsValid_example = receiver_poll-IsValid dead_line fresh_receiver (new-IsValid tt)

receiver_poll-Answers_example :
    psicose.Rx.Delivery.Answers dead_line fresh_receiver
      (psicose.Rx.Poll.poll dead_line fresh_receiver)
unfolding fresh_receiver
receiver_poll-Answers_example = receiver_poll-Answers dead_line fresh_receiver (new-IsValid tt)

ticks-budget_example :
    (ticks {E = Unit {0}} 4 (budget 3)).1 ≡ (if ltb 3 4 then err idle_budget_exhausted else ok tt)
ticks-budget_example = ticks-budget (Unit {0}) 3 3 (omega arith)

ticks-budget_max_example : (ticks {E = Unit {0}} 12 (budget 0xFFFFFFFF)).1 ≡ ok tt
ticks-budget_max_example = ticks-budget_max (Unit {0}) 12

-- One byte over a link.
abbrev started_link : Link (Unit {0})
started_link = record {
  sender = fresh_sender;
  receiver = fresh_receiver;
  forward = [];
  backward = [];
  accepted = [];
  received = [];
}

started_link-IsStarted : IsStarted started_link
unfolding fresh_sender fresh_receiver with_policy new
started_link-IsStarted = record {
  sender_valid = fresh_sender-IsValid;
  ready = refl;
  receiver_open = record {
    no_abort = refl;
    no_finish = refl;
    no_pending = refl;
    byte = omega arith;
  };
  level = refl;
  forward_empty = refl;
  backward_empty = refl;
  none_accepted = refl;
  none_received = refl;
}

abbrev offered_link : Link (Unit {0})
offered_link = record started_link {
  sender = (offer {E = Unit {0}} started_link.sender 0x41).0;
  accepted = 0x41 ∷ [];
}

abbrev flight : Bool → InFlight
flight waiting = record {
  kind = dat 0x41;
  seq = 0;
  retries_left = 2;
  waiting = waiting;
  empty_ticks = 0;
}

abbrev sent_link : Link (Unit {0})
sent_link = record offered_link {
  sender = transmit offered_link.sender;
  forward = data_frame 0 0x41 ∷ [];
}

abbrev answered_link : Link (Unit {0})
answered_link = record sent_link {
  receiver = (receive sent_link.receiver (data_frame 0 0x41)).after;
  forward = [];
  backward = (receive sent_link.receiver (data_frame 0 0x41)).reply;
  received = 0x41 ∷ [];
}

abbrev heard_link : Link (Unit {0})
heard_link = record answered_link {
  sender = (on_control {E = Unit {0}} answered_link.sender (ack_frame 0)).0;
  backward = [];
}

one_byte : Reach (Unit {0}) started_link heard_link
unfolding fresh_sender fresh_receiver with_policy new offer transmit load_flight_frame receive
    answer handle_data take_pending data_frame ack_frame on_the_wire from_bytes to_bytes check_body
    from_u8 as_u8 crc8_header fold_byte frame_of
one_byte =
    next
      (next
        (next (next here (offers started_link 0x41 refl))
          (transmits offered_link (flight false) refl refl))
        (receives sent_link (data_frame 0 0x41) [] refl))
      (hears answered_link (flight true) (ack_frame 0) [] refl refl refl)

delivered_exactly_once_example : heard_link.received ≡ heard_link.accepted
unfolding fresh_sender fresh_receiver with_policy new offer transmit load_flight_frame on_control
    ack_frame
delivered_exactly_once_example = (delivered_exactly_once started_link-IsStarted one_byte).1 refl
