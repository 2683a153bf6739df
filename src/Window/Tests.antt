-- ===== src/Window/Tests.antt =====
-- The window at concrete inputs.
use psicose.Prelude.{
  ℕ, List, [], ◌∷◌, ◌+◌, refl, ap, sym, ◌≡◌, ◌∙◌, none, some, false, ok, err, Option, Result, arith,
  subst,
}
use psicose.Timeout.{RetryPolicy}
use psicose.Transport.{ByteTransport}
use psicose.Protocol.Frame.{
  Frame, FrameType, FrameError, data_frame, from_bytes, check_body, from_u8,
}
use psicose.Protocol.Crc.{crc8_header, fold_byte}
use psicose.Protocol.Assembler.{push, put, complete}
use psicose.Protocol.OutBuf
use psicose.Rx.State.{idle}
use psicose.Window.Rx.{WindowedReceiver, handle_data, is_closed}
use psicose.Window.Rx.Poll
use psicose.Window.Rx.Order.{fresh, empty-IsQueue}
use psicose.Window.Rx.Delivery.{IsValid}
use psicose.Window.Rx.Handlers.{IsNear, IsQuiet}
use psicose.Window.Rx.Incoming.{incoming}
use psicose.Window.Rx.Acks.{Replied, handle_data-Replied}
use psicose.Window.Rx.InOrder.{GoesOn, window_poll-GoesOn}
use psicose.Window.Tx.{WindowedSender, with_policy, force_abort, set_window_limit}
use psicose.Window.Tx.Offer.{offer, offer_start, offer_finish, offer_abort}
use psicose.Window.Tx.Poll as SenderPoll
use psicose.Window.Tx.Valid.{with_policy-IsValid, offer-IsValid}
use psicose.Window.Tx.Valid
use psicose.Pump.{no_stats}
use psicose.Pump.Events.{Hands, counted}
use psicose.Window.Pump.{WindowedPump}
use psicose.Window.Pump
use psicose.Window.PumpEvents.{windowed_pump_poll-Hands}
use psicose.Window.Tx.Safe.{window_sender_poll-IsValid, window_offers-IsValid}

-- A port that gives the bytes of a list.
abbrev next_byte : List ℕ → List ℕ × Result (Option ℕ) (Unit {0})
next_byte [] = ([], ok none)
next_byte (b ∷ bytes) = (bytes, ok (some b))

abbrev list_port : ByteTransport (List ℕ) (Unit {0})
list_port = record { write_byte = λ t b. (t, ok tt); read_byte = next_byte }

abbrev letters : ℕ → ℕ
letters k = 65 + k

-- Three bytes of the second letter's frame are in, ahead of the first letter's, and its checksum
-- comes next.
abbrev half_read : WindowedReceiver (List ℕ)
half_read = record {
  transport = crc8_header 1 1 66 ∷ [];
  expected_seq = record { raw = 0 };
  buf = none ∷ none ∷ none ∷ none ∷ [];
  emit = 0 ∷ 0 ∷ 0 ∷ 0 ∷ [];
  emit_at = 0;
  emit_len = 0;
  limit = 4;
  state = idle;
  assembler = record {
    buf = record { b0 = 1; b1 = 1; b2 = 66; b3 = 0 };
    last = record { b0 = 0; b1 = 0; b2 = 0; b3 = 0 };
    filled = 3;
    resync = false;
  };
  out = OutBuf.empty;
  pending = none;
  finish_seq = none;
  abort_latched = false;
}

half_read-IsValid : IsValid (fresh letters) 4 0 0 half_read
unfolding OutBuf.empty
half_read-IsValid = (
  record {
    expected = refl;
    slots = refl;
    buffered = tt;
    kept = omega arith;
    queue = empty-IsQueue letters 4 0 (0 ∷ 0 ∷ 0 ∷ 0 ∷ []) refl;
  },
  (omega arith, omega arith, omega arith),
  omega arith,
  refl,
)

-- The frame of a window that decodes.
abbrev decoded : Option (Result Frame FrameError) → Frame
decoded none = data_frame 0 0
decoded (some (err e)) = data_frame 0 0
decoded (some (ok f)) = f

second_letter : incoming list_port half_read ≡ some (ok (data_frame 1 66))
unfolding incoming push put complete from_bytes check_body from_u8 data_frame crc8_header fold_byte
second_letter = refl

second_letter-IsNear : IsNear letters 0 (data_frame 1 66)
unfolding data_frame
second_letter-IsNear = record {
  place = 1;
  number = refl;
  byte = refl;
  not_ahead = omega arith;
  not_behind = omega arith;
}

incoming-IsNear :
    (f : Frame)
    → incoming list_port half_read ≡ some (ok f)
    → f.frame_type ≡ FrameType.dat
    → IsNear letters 0 f
incoming-IsNear f e d =
    subst (IsNear letters 0) (ap decoded (sym second_letter) ∙ ap decoded e) second_letter-IsNear

window_poll-GoesOn_example :
    GoesOn list_port (fresh letters) 4 0 half_read (Poll.poll 4 list_port half_read)
window_poll-GoesOn_example =
    window_poll-GoesOn 4 list_port (fresh letters) 0 0 half_read half_read-IsValid incoming-IsNear

half_read-IsQuiet : IsQuiet (fresh letters) 4 0 half_read
unfolding OutBuf.empty
half_read-IsQuiet = record {
  holds = half_read-IsValid.0;
  limited = half_read-IsValid.1;
  over = omega arith;
  nothing = refl;
  clear = refl;
  empty = refl;
}

half_read-is_open : is_closed half_read ≡ false
unfolding is_closed
half_read-is_open = refl

handle_data-Replied_example :
    Replied 0 1 (data_frame 1 66) half_read (handle_data half_read (data_frame 1 66))
unfolding second_letter-IsNear
handle_data-Replied_example =
    handle_data-Replied 4 (fresh letters) 0 half_read half_read-IsQuiet (data_frame 1 66)
      second_letter-IsNear half_read-is_open

abbrev patient : RetryPolicy
patient = record { timeout_ticks = 3; max_retries = 2 }

-- A sender with one byte in flight.
one_in_flight : WindowedSender (List ℕ)
one_in_flight = (offer {E = Unit {0}} (with_policy 4 [] patient) 65).0

one_in_flight-IsValid : Valid.IsValid 4 one_in_flight
unfolding one_in_flight
one_in_flight-IsValid =
    offer-IsValid (Unit {0}) 4 (with_policy 4 [] patient) 65
      (with_policy-IsValid 4 [] patient (omega arith) (omega arith))

window_sender_poll-IsValid_example : Valid.IsValid 4 (SenderPoll.poll list_port 4 one_in_flight).0
window_sender_poll-IsValid_example =
    window_sender_poll-IsValid 4 list_port one_in_flight one_in_flight-IsValid

window_offers-IsValid_example :
    Valid.IsValid 4 (offer {E = Unit {0}} one_in_flight 66).0
    × Valid.IsValid 4 (offer_start {E = Unit {0}} 4 one_in_flight).0
    × Valid.IsValid 4 (offer_finish {E = Unit {0}} one_in_flight).0
    × Valid.IsValid 4 (offer_abort {E = Unit {0}} 4 one_in_flight).0
    × Valid.IsValid 4 (force_abort 4 one_in_flight)
    × Valid.IsValid 4 (set_window_limit 4 one_in_flight 2)
window_offers-IsValid_example =
    window_offers-IsValid 4 list_port one_in_flight 66 2 one_in_flight-IsValid

-- The receiver with a byte of its emission queue to hand over, and a sender that waits.
abbrev about_to_emit : WindowedReceiver (List ℕ)
about_to_emit = record half_read { emit_len = 1 }

a_windowed_pump : WindowedPump (List ℕ) (List ℕ)
a_windowed_pump = record {
  tx = one_in_flight;
  rx = about_to_emit;
  stats = no_stats;
  last_acked = false;
  tx_done_seen = false;
  pending_completed = false;
}

a_windowed_pump-free : a_windowed_pump.pending_completed ≡ false
unfolding a_windowed_pump
a_windowed_pump-free = refl

windowed_pump_poll-Hands_example :
    Hands
      (Poll.poll 4 list_port a_windowed_pump.rx).1
      (SenderPoll.poll list_port 4 a_windowed_pump.tx).1
      (Pump.poll 4 list_port list_port a_windowed_pump).1
    × ((Pump.poll 4 list_port list_port a_windowed_pump).0.stats.bytes_delivered
        ≡ counted a_windowed_pump.stats.bytes_delivered
            (Poll.poll 4 list_port a_windowed_pump.rx).1)
windowed_pump_poll-Hands_example =
    windowed_pump_poll-Hands 4 list_port list_port a_windowed_pump a_windowed_pump-free
