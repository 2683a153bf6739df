-- ===== src/Window/Tx/Valid.antt =====
-- window/tx.rs: the sender's numbers stay in one window, whatever is offered and comes in.
use psicose.Prelude.{
  ℕ, zero, suc, ◌≤◌, ◌<◌, ◌≡◌, refl, ap, ◌∙◌, inl, inr, arith, true, false, not, ◌||◌, ◌&&◌, none,
  some, ◌==◌, length, length-set, Bool-cases, Option-cases, subst,
}
use psicose.Timeout.{RetryPolicy}
use psicose.Protocol.Sequence
use psicose.Protocol.Assembler.{reset}
use psicose.Protocol.OutBuf
use psicose.Tx.State.{sending, aborted, same_state, is_none}
use psicose.Window.Rx.{repeat}
use psicose.Window.Tx.{
  WindowedSender, TxSlot, FlightKind, dat, start, finish, abort, is_session, is_abort, is_over,
  oldest_from, position, count_slots, any_kind, outstanding, with_policy, set_window_limit,
  find_free, oldest_unacked, seq_in_send_window, has_session_flight, fresh_slot, force_abort,
  may_start,
}
use psicose.Window.Tx.Offer.{insert, offer_start, offer, offer_finish, offer_abort}
use psicose.Window.Tx.Numbers.{
  age, slot_at, IsWindow, IsEmpty, IsEmpty-IsWindow, repeat-IsEmpty, count_slots-IsEmpty,
  oldest_from-Covers, any_kind-none, position-free, InFlight, Covers,
}
use psicose.Window.Tx.Slots.{IsWindow-insert, IsWindow-single}

abbrev pub IsValid : {T : Type 0} → ℕ → WindowedSender T → Type 0
IsValid size s =
    (s.next_seq.raw < 256)
    × ((1 ≤ s.limit) × (s.limit ≤ size) × (size ≤ 8))
    × (length s.slots ≡ size)
    × IsWindow s.next_seq.raw s.limit s.slots

pub length-repeat : {A : Type 0} (a : A) (n : ℕ) → length (repeat a n) ≡ n
length-repeat a zero = refl
length-repeat a (suc n) = ap suc (length-repeat a n)

module _ {T : Type 0} (size : ℕ) where
  -- An empty window is one at every number.
  pub empty-IsValid :
      (s : WindowedSender T)
      → s.next_seq.raw < 256
      → (1 ≤ s.limit) × (s.limit ≤ size) × (size ≤ 8)
      → length s.slots ≡ size
      → IsEmpty s.slots
      → IsValid size s
  empty-IsValid s lt l len e = (lt, l, len, IsEmpty-IsWindow s.next_seq.raw s.limit s.slots e)

  pub with_policy-IsValid :
      (t : T) (p : RetryPolicy) → 1 ≤ size → size ≤ 8 → IsValid size (with_policy size t p)
  unfolding with_policy Sequence.new
  with_policy-IsValid t p lo hi =
      empty-IsValid (with_policy size t p) (omega arith) (lo, omega arith, hi)
        (length-repeat none size) (repeat-IsEmpty size)

  pub set_window_limit-IsValid :
      (s : WindowedSender T) (limit : ℕ)
      → IsValid size s
      → IsValid size (set_window_limit size s limit)
  unfolding set_window_limit outstanding
  set_window_limit-IsValid s limit (lt, l, len, w) =
      let (lo, mid, hi) = l in
      elim (Bool-cases (not (count_slots s.slots == 0) || not (OutBuf.is_idle s.out))) [
        | inl busy ↦ rw (busy, set_window_limit) (lt, l, len, w)
        | inr still ↦
            let none_out : count_slots s.slots ≡ 0 = ground arith in
            rw (still, set_window_limit)
              (
                lt,
                ground arith,
                len,
                IsEmpty-IsWindow s.next_seq.raw _ s.slots (count_slots-IsEmpty s.slots none_out),
              )
      ]

  pub force_abort-IsValid :
      (s : WindowedSender T) → IsValid size s → IsValid size (force_abort size s)
  unfolding force_abort
  force_abort-IsValid s (lt, l, len, w) =
      empty-IsValid (force_abort size s) lt l (length-repeat none size) (repeat-IsEmpty size)

module _ {T : Type 0} (E : Type 0) (size : ℕ) where
  -- A frame of the session goes into an empty window.
  insert-IsValid :
      (s : WindowedSender T) (kind : FlightKind) (seq payload : ℕ)
      → IsValid size s
      → IsEmpty s.slots
      → seq < 256
      → is_session kind ≡ true
      → IsValid size (insert {E = E} s kind seq payload).0
  unfolding insert find_free fresh_slot
  insert-IsValid s kind seq payload (lt, l, len, w) e small k =
      elim (Option-cases (position is_none s.slots)) [
        | inl full ↦ rw (full, insert) (lt, l, len, w)
        | inr (i, at) ↦
            let (inside, free) = position-free s.slots i at in
            rw (at, insert)
              (
                lt,
                l,
                length-set s.slots i _ ∙ len,
                IsWindow-single s.next_seq.raw s.limit s.slots i (fresh_slot s kind seq payload) e
                    inside small k,
              )
      ]

  pub offer_start-IsValid :
      (s : WindowedSender T) → IsValid size s → IsValid size (offer_start {E = E} size s).0
  unfolding offer_start Sequence.new
  offer_start-IsValid s (lt, l, len, w) =
      let s' : WindowedSender T = record s {
        slots = repeat none size;
        next_seq = Sequence.new;
        state = sending;
      } in
      elim (Bool-cases (may_start s)) [
        | inl may ↦
            rw (may, offer_start)
              (insert-IsValid s' start 0 0
                (empty-IsValid size s' (omega arith) l (length-repeat none size)
                  (repeat-IsEmpty size))
                (repeat-IsEmpty size) (omega arith) refl)
        | inr not_now ↦ rw (not_now, offer_start) (lt, l, len, w)
      ]

  pub offer_finish-IsValid :
      (s : WindowedSender T) → IsValid size s → IsValid size (offer_finish {E = E} s).0
  unfolding offer_finish outstanding
  offer_finish-IsValid s (lt, l, len, w) =
      elim (Bool-cases
        (is_over s.state || not (count_slots s.slots == 0) || has_session_flight s)) [
          | inl refused ↦ rw (refused, offer_finish) (lt, l, len, w)
          | inr taken ↦
              let none_out : count_slots s.slots ≡ 0 = ground arith in
              rw (taken, offer_finish)
                (insert-IsValid s finish s.next_seq.raw 0 (lt, l, len, w)
                  (count_slots-IsEmpty s.slots none_out) lt refl)
        ]

  pub offer_abort-IsValid :
      (s : WindowedSender T) → IsValid size s → IsValid size (offer_abort {E = E} size s).0
  unfolding offer_abort Sequence.new
  offer_abort-IsValid s (lt, l, len, w) =
      let s' : WindowedSender T = record s {
        slots = repeat none size;
        out = OutBuf.empty;
        writing = none;
        assembler = reset s.assembler;
        next_seq = Sequence.new;
        state = sending;
      } in
      elim (Bool-cases
        (same_state s.state aborted && count_slots s.slots == 0 && OutBuf.is_idle s.out)) [
          | inl done ↦ rw (done, offer_abort) (lt, l, len, w)
          | inr still ↦ elim (Bool-cases (any_kind is_abort s.slots)) [
            | inl under_way ↦ rw (still, offer_abort) (rw under_way (lt, l, len, w))
            | inr fresh ↦
                rw (still, offer_abort)
                  (rw fresh (
                    insert-IsValid s' abort 0 0
                      (empty-IsValid size s' (omega arith) l (length-repeat none size)
                        (repeat-IsEmpty size))
                      (repeat-IsEmpty size) (omega arith) refl))
          ]
        ]

  -- The next number is less than `limit` places from each in flight.
  window_strict :
      (s : WindowedSender T)
      → IsValid size s
      → has_session_flight s ≡ false
      → seq_in_send_window s s.next_seq.raw ≡ true
      → (j : ℕ) (f : TxSlot) → slot_at s.slots j ≡ some f
      → age s.next_seq.raw f.seq < s.limit
  unfolding seq_in_send_window has_session_flight oldest_unacked
  window_strict s (lt, (lo, mid, hi), len, w) plain fits j f e =
      let old : (j : ℕ) (f : TxSlot)
          → slot_at s.slots j ≡ some f
          → InFlight s.next_seq.raw s.limit f.seq =
        λ j f e.
          let (least, most) = w.recent j f e (any_kind-none s.slots j f plain e) in
          (w.byte j f e, least, most) in
      let (acc, all) =
        oldest_from-Covers s.next_seq.raw s.limit none s.slots (omega arith) lt tt old in
      elim (Option-cases (oldest_from s.limit none s.slots)) [
        | inl no_base ↦ absurd (subst (λ o. Covers s.next_seq.raw o f.seq) no_base (all j f e))
        | inr (base, found) ↦
            let far : age s.next_seq.raw f.seq ≤ age s.next_seq.raw base =
              subst (λ o. Covers s.next_seq.raw o f.seq) found (all j f e) in
            let near : age s.next_seq.raw base < s.limit = ground (arith, fits, found) in
            omega arith
      ]

  pub offer-IsValid :
      (s : WindowedSender T) (byte : ℕ) → IsValid size s → IsValid size (offer {E = E} s byte).0
  unfolding offer insert find_free fresh_slot Sequence.advance
  offer-IsValid s byte v =
      let (lt, (lo, mid, hi), len, w) = v in
      elim (Bool-cases (is_over s.state || has_session_flight s)) [
        | inl refused ↦ rw (refused, offer) v
        | inr open_now ↦
            elim (Bool-cases
              (not (seq_in_send_window s s.next_seq.raw) || is_none (position is_none s.slots))) [
                | inl full ↦ rw (open_now, offer) (rw full v)
                | inr room ↦ elim (Option-cases (position is_none s.slots)) [
                  | inl no_slot ↦ absurd (ground arith)
                  | inr (i, at) ↦
                      let (inside, free) = position-free s.slots i at in
                      let plain : has_session_flight s ≡ false = ground arith in
                      let fits : seq_in_send_window s s.next_seq.raw ≡ true = ground arith in
                      rw (open_now, offer)
                        (rw room (
                          rw (at, insert)
                            (
                              omega arith,
                              (lo, mid, hi),
                              length-set s.slots i _ ∙ len,
                              IsWindow-insert s.next_seq.raw s.limit s.slots i
                                  (fresh_slot s dat s.next_seq.raw byte) w lt (omega arith) lo
                                  inside
                                  (λ j f e.
                                    any_kind-none s.slots j f (unfold has_session_flight in plain)
                                      e)
                                  (window_strict s v plain fits) refl refl,
                            )))
                ]
              ]
      ]
