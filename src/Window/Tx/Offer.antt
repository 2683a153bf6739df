-- ===== src/Window/Tx/Offer.antt =====
-- window/tx.rs: the methods that put a frame into a slot.
use psicose.Prelude.{
  ℕ, not, ◌||◌, ◌&&◌, none, some, ◌==◌, if◌then◌else◌, set, Result, ok, err, ◌>>=◌,
}
use psicose.Error.{Error, window_full, not_idle}
use psicose.Protocol.Sequence.{current}
use psicose.Protocol.Sequence
use psicose.Protocol.OutBuf.{is_idle}
use psicose.Protocol.OutBuf
use psicose.Protocol.Assembler.{reset}
use psicose.Tx.State.{sending, aborted, same_state, is_none}
use psicose.Window.Rx.{repeat}
use psicose.Window.Tx.{
  WindowedSender, FlightKind, dat, start, finish, abort, is_over, is_abort, any_kind, outstanding,
  may_start, find_free, fresh_slot, has_session_flight, seq_in_send_window,
}

module _ {T E : Type 0} where
  unfoldable pub insert :
      WindowedSender T → FlightKind → ℕ → ℕ → WindowedSender T × Result (Unit {0}) (Error E)
  unfolding find_free fresh_slot
  insert s kind seq payload = elim (find_free s) [
    | none ↦ (s, err window_full)
    | some i ↦ (
      record s { slots = set s.slots i (some (fresh_slot s kind seq payload)); state = sending },
      ok tt,
    )
  ]

  unfoldable pub offer_start : ℕ → WindowedSender T → WindowedSender T × Result (Unit {0}) (Error E)
  unfolding may_start insert Sequence.new
  offer_start size s =
      if may_start s
      then insert (record s { slots = repeat none size; next_seq = Sequence.new; state = sending })
          start 0 0
      else (s, err not_idle)

  unfoldable pub offer : WindowedSender T → ℕ → WindowedSender T × Result (Unit {0}) (Error E)
  unfolding has_session_flight seq_in_send_window find_free insert Sequence.advance
  offer s byte =
      if is_over s.state || has_session_flight s
      then (s, err not_idle)
      else let seq = current s.next_seq in
        if not (seq_in_send_window s seq) || is_none (find_free s)
        then (s, err window_full)
        else insert s dat seq byte >>= λ _ s'.
            (record s' { next_seq = (Sequence.advance s'.next_seq).0 }, ok tt)

  unfoldable pub offer_finish : WindowedSender T → WindowedSender T × Result (Unit {0}) (Error E)
  unfolding outstanding has_session_flight insert
  offer_finish s =
      if is_over s.state || not (outstanding s == 0) || has_session_flight s
      then (s, err not_idle)
      else insert s finish (current s.next_seq) 0

  unfoldable pub offer_abort : ℕ → WindowedSender T → WindowedSender T × Result (Unit {0}) (Error E)
  unfolding outstanding is_idle any_kind insert OutBuf.empty reset Sequence.new
  offer_abort size s =
      if same_state s.state aborted && outstanding s == 0 && is_idle s.out
      then (s, ok tt)
      else if any_kind is_abort s.slots
      then (s, ok tt)
      else insert
          (record s {
            slots = repeat none size;
            out = OutBuf.empty;
            writing = none;
            assembler = reset s.assembler;
            next_seq = Sequence.new;
            state = sending;
          })
          abort 0 0
