-- ===== src/Tx/Offer.antt =====
-- tx.rs: opening a flight, `offer_start`, `offer`, `offer_finish` and `offer_abort`.
use psicose.Prelude.{ℕ, not, ◌&&◌, none, if◌then◌else◌, Result, ok, err}
use psicose.Error.{Error}
use psicose.Protocol.Sequence.{current}
use psicose.Protocol.Sequence
use psicose.Protocol.OutBuf
use psicose.Protocol.Assembler.{reset}
use psicose.Tx.State.{
  Sender, aborted, dat, start, finish, abort, same_state, is_none, may_start, aborting,
  can_offer_data, begin,
}

module _ {T E : Type 0} where
  unfoldable pub offer_start : Sender T → Sender T × Result (Unit {0}) (Error E)
  unfolding begin Sequence.new OutBuf.is_idle
  offer_start s =
      if not (may_start s.state)
      then (s, err Error.not_idle)
      else if not (OutBuf.is_idle s.out)
      then (s, err Error.not_idle)
      else (begin (record s { inflight = none; seq = Sequence.new }) start 0, ok tt)

  unfoldable pub offer : Sender T → ℕ → Sender T × Result (Unit {0}) (Error E)
  unfolding begin can_offer_data OutBuf.is_idle
  offer s byte =
      if not (can_offer_data s)
      then (s, err Error.not_idle)
      else (begin s (dat byte) (current s.seq), ok tt)

  unfoldable pub offer_finish : Sender T → Sender T × Result (Unit {0}) (Error E)
  unfolding begin can_offer_data OutBuf.is_idle
  offer_finish s =
      if not (can_offer_data s)
      then (s, err Error.not_idle)
      else (begin s finish (current s.seq), ok tt)

  unfoldable pub offer_abort : Sender T → Sender T × Result (Unit {0}) (Error E)
  unfolding begin Sequence.new OutBuf.empty reset
  offer_abort s =
      if same_state s.state aborted && is_none s.inflight
      then (s, ok tt)
      else if aborting s.inflight
      then (s, ok tt)
      else (
        begin
            (record s {
              inflight = none;
              out = OutBuf.empty;
              assembler = reset s.assembler;
              seq = Sequence.new;
            })
            abort 0,
        ok tt,
      )
