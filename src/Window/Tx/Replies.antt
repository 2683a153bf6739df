-- ===== src/Window/Tx/Replies.antt =====
-- window/tx.rs: no poll brings a number into the window or moves one to another slot.
use psicose.Prelude.{
  ℕ, zero, suc, ◌+◌, ◌≡◌, refl, ap, sym, ◌∙◌, inl, inr, arith, List, [], ◌∷◌, true, not, ◌||◌,
  Option, none, some, ◌==◌, ltb, length, get_or, set, length-set, Bool-cases, Option-cases, subst,
}
use psicose.Protocol.Sequence
use psicose.Tx.State.{saturating_succ_u16}
use psicose.Window.Tx.{
  WindowedSender, TxSlot, FlightKind, dat, start, finish, abort, is_session, find_seq,
}
use psicose.Window.Tx.Reply.{
  same_index, tick_from, load_slot, mark_written, finish_write, acknowledge, when, if_written,
  written_at, written_slot, on_ack, on_nack, tick_timeouts,
}
use psicose.Window.Tx.Numbers.{
  slot_at, IsWindow, Keeps, IsEmpty, IsEmpty-IsWindow, repeat-IsEmpty, Keeps-IsWindow,
}
use psicose.Window.Tx.Slots.{set-cases, slot_at-inside, Keeps-clear, Keeps-set}
use psicose.Window.Tx.Valid.{IsValid, length-repeat}

Keeps-refl : (slots : List (Option TxSlot)) → Keeps slots slots
Keeps-refl slots = record { kept = λ i s e. (s, e, refl, refl) }

-- A first slot in front.
Keeps-cons :
    (x x' : Option TxSlot) (slots slots' : List (Option TxSlot))
    → ((s : TxSlot)
        → x' ≡ some s
        → (t : TxSlot) × (x ≡ some t) × (s.kind ≡ t.kind) × (s.seq ≡ t.seq))
    → Keeps slots slots'
    → Keeps (x ∷ slots) (x' ∷ slots')
Keeps-cons x x' slots slots' h k = record { kept = cases }
  where
    cases :
        (i : ℕ) (s : TxSlot)
        → slot_at (x' ∷ slots') i ≡ some s
        → (t : TxSlot) × (slot_at (x ∷ slots) i ≡ some t) × (s.kind ≡ t.kind) × (s.seq ≡ t.seq)
    cases zero s e = h s e
    cases (suc i) s e = k.kept i s e

abbrev kind_of : Option TxSlot → FlightKind
kind_of none = dat
kind_of (some s) = s.kind

abbrev seq_of : Option TxSlot → ℕ
seq_of none = 0
seq_of (some s) = s.seq

-- A first slot that keeps its kind and its number.
Keeps-some :
    (t t' : TxSlot) (slots slots' : List (Option TxSlot))
    → t'.kind ≡ t.kind
    → t'.seq ≡ t.seq
    → Keeps slots slots'
    → Keeps (some t ∷ slots) (some t' ∷ slots')
Keeps-some t t' slots slots' kind seq k =
    Keeps-cons (some t) (some t') slots slots'
      (λ s e. (t, refl, ap kind_of (sym e) ∙ kind, ap seq_of (sym e) ∙ seq)) k

tick_from-Keeps :
    (timeout : ℕ) (writing : Option ℕ) (i : ℕ) (slots : List (Option TxSlot))
    → Keeps slots (tick_from timeout writing i slots).0
      × (length (tick_from timeout writing i slots).0 ≡ length slots)
unfolding tick_from
tick_from-Keeps timeout writing i [] = (Keeps-refl [], refl)
tick_from-Keeps timeout writing i (none ∷ slots) =
    let (k, len) = tick_from-Keeps timeout writing (i + 1) slots in
    (Keeps-cons none none slots _ (λ s e. absurd (ground arith)) k, ap suc len)
tick_from-Keeps timeout writing i (some s ∷ slots) =
    let (k, len) = tick_from-Keeps timeout writing (i + 1) slots in
    let same : Keeps (some s ∷ slots) _ = Keeps-some s s slots _ refl refl k in
    elim (Bool-cases (same_index writing i || not s.written || s.needs_retransmit)) [
      | inl skip ↦ rw (skip, tick_from) (Keeps-some s s slots _ refl refl k, ap suc len)
      | inr waits ↦ elim (Bool-cases (ltb (saturating_succ_u16 s.empty_ticks) timeout)) [
        | inl early ↦
            rw (waits, tick_from) (rw early (Keeps-some s _ slots _ refl refl k, ap suc len))
        | inr late ↦ elim (Bool-cases (s.retries_left == 0)) [
          | inl spent ↦
              rw (waits, tick_from)
                (rw late (rw spent (Keeps-some s _ slots slots refl refl (Keeps-refl slots), refl)))
          | inr retry ↦
              rw (waits, tick_from)
                (rw late (rw retry (Keeps-some s _ slots _ refl refl k, ap suc len)))
        ]
      ]
    ]

mark_written-Keeps :
    (slots : List (Option TxSlot)) (w : Option ℕ)
    → Keeps slots (mark_written slots w) × (length (mark_written slots w) ≡ length slots)
unfolding mark_written
mark_written-Keeps slots none = (Keeps-refl slots, refl)
mark_written-Keeps slots (some i) = elim (Option-cases (get_or slots i none)) [
  | inl e ↦ rw (e, mark_written) (Keeps-refl slots, refl)
  | inr (t, e) ↦ rw (e, mark_written) (Keeps-set slots i t _ e refl refl, length-set slots i _)
]

abbrev index_of : Option (ℕ × TxSlot) → ℕ
index_of none = 0
index_of (some found) = found.0

abbrev slot_of : Option (ℕ × TxSlot) → Option TxSlot
slot_of none = none
slot_of (some found) = some found.1

if_written-found :
    (i j : ℕ) (o : Option TxSlot) (t : TxSlot)
    → if_written i o ≡ some (j, t)
    → (i ≡ j) × (o ≡ some t)
if_written-found i j none t e = absurd (ground arith)
if_written-found i j (some slot) t e = elim (Bool-cases slot.written) [
  | inl w ↦
      let found : ◌≡◌ {A = Option (ℕ × TxSlot)} (some (i, slot)) (some (j, t)) =
        subst (λ b. when {A = ℕ × TxSlot} b (i, slot) ≡ some (j, t)) w e in
      (ap index_of found, ap slot_of found)
  | inr w ↦
      let nothing : ◌≡◌ {A = Option (ℕ × TxSlot)} none (some (j, t)) =
        subst (λ b. when {A = ℕ × TxSlot} b (i, slot) ≡ some (j, t)) w e in
      absurd (ground arith)
]

-- The slot that an answer finds is in its place.
written_at-found :
    (slots : List (Option TxSlot)) (o : Option ℕ) (j : ℕ) (t : TxSlot)
    → written_at slots o ≡ some (j, t)
    → slot_at slots j ≡ some t
written_at-found slots none j t e = absurd (ground arith)
written_at-found slots (some i) j t e =
    let (here, own) = if_written-found i j (get_or slots i none) t e in
    ap (slot_at slots) (sym here) ∙ own

module _ {T : Type 0} (size : ℕ) where
  -- New slots that keep the old ones' kinds and numbers.
  Keeps-IsValid :
      (s : WindowedSender T) (slots : List (Option TxSlot))
      → IsValid size s
      → Keeps s.slots slots
      → length slots ≡ length s.slots
      → IsValid size (record s { slots = slots })
  Keeps-IsValid s slots (lt, l, len, w) k e =
      (lt, l, e ∙ len, Keeps-IsWindow s.next_seq.raw s.limit s.slots slots k w)

  pub finish_write-IsValid : (s : WindowedSender T) → IsValid size s → IsValid size (finish_write s)
  unfolding finish_write
  finish_write-IsValid s v =
      let (k, len) = mark_written-Keeps s.slots s.writing in
      Keeps-IsValid s (mark_written s.slots s.writing) v k len

  pub load_slot-IsValid :
      (s : WindowedSender T) (i : ℕ) → IsValid size s → IsValid size (load_slot s i).0
  unfolding load_slot
  load_slot-IsValid s i v = elim (Option-cases (get_or s.slots i none)) [
    | inl e ↦ rw (e, load_slot) v
    | inr (t, e) ↦ rw (e, load_slot) v
  ]

-- A slot is empty after its frame, when that opened or closed the session.
session-IsEmpty :
    (next limit : ℕ) (slots : List (Option TxSlot)) (i : ℕ) (t : TxSlot)
    → IsWindow next limit slots
    → slot_at slots i ≡ some t
    → is_session t.kind ≡ true
    → IsEmpty (set slots i none)
session-IsEmpty next limit slots i t w at k j = elim (Option-cases (slot_at (set slots i none) j)) [
  | inl e ↦ e
  | inr (s, e) ↦ elim (set-cases slots i none j s (slot_at-inside slots i t at) e) [
    | inl (here, own) ↦ absurd (ground arith)
    | inr (other, e') ↦ absurd (other (sym (w.alone i j t s at e' k)))
  ]
]

module _ {T : Type 0} (E : Type 0) (size : ℕ) where
  acknowledge-IsValid :
      (s : WindowedSender T) (kind : FlightKind)
      → IsValid size s
      → (is_session kind ≡ true → IsEmpty s.slots)
      → IsValid size (acknowledge {E = E} s kind).0
  unfolding acknowledge Sequence.new
  acknowledge-IsValid s dat v h = v
  acknowledge-IsValid s start (lt, l, len, w) h =
      (omega arith, l, len, IsEmpty-IsWindow 0 s.limit s.slots (h refl))
  acknowledge-IsValid s finish v h = v
  acknowledge-IsValid s abort v h = v

  pub on_ack-IsValid :
      (s : WindowedSender T) (seq : ℕ) → IsValid size s → IsValid size (on_ack {E = E} s seq).0
  unfolding on_ack written_slot
  on_ack-IsValid s seq (lt, l, len, w) = elim (Option-cases (written_at s.slots (find_seq s seq))) [
    | inl e ↦ rw (e, on_ack) (lt, l, len, w)
    | inr ((i, t), e) ↦
        let at = written_at-found s.slots (find_seq s seq) i t e in
        let s' : WindowedSender T = record s { slots = set s.slots i none } in
        let v' : IsValid size s' =
          Keeps-IsValid size s (set s.slots i none) (lt, l, len, w)
            (Keeps-clear s.slots i (slot_at-inside s.slots i t at)) (length-set s.slots i none) in
        rw (e, on_ack)
          (acknowledge-IsValid s' t.kind v'
            (session-IsEmpty s.next_seq.raw s.limit s.slots i t w at))
  ]

  pub on_nack-IsValid :
      (s : WindowedSender T) (seq : ℕ)
      → IsValid size s
      → IsValid size (on_nack {E = E} size s seq).0
  unfolding on_nack written_slot
  on_nack-IsValid s seq (lt, l, len, w) =
      elim (Option-cases (written_at s.slots (find_seq s seq))) [
        | inl e ↦ rw (e, on_nack) (lt, l, len, w)
        | inr ((i, t), e) ↦
            let at = written_at-found s.slots (find_seq s seq) i t e in
            elim (Bool-cases (t.retries_left == 0)) [
              | inl spent ↦
                  rw (e, on_nack)
                    (rw spent (
                      lt,
                      l,
                      length-repeat none size,
                      IsEmpty-IsWindow s.next_seq.raw s.limit _ (repeat-IsEmpty size),
                    ))
              | inr retry ↦
                  rw (e, on_nack)
                    (rw retry (
                      Keeps-IsValid size s _ (lt, l, len, w) (Keeps-set s.slots i t _ at refl refl)
                        (length-set s.slots i _)))
            ]
      ]

  pub tick_timeouts-IsValid :
      (s : WindowedSender T) → IsValid size s → IsValid size (tick_timeouts {E = E} size s).0
  unfolding tick_timeouts
  tick_timeouts-IsValid s v =
      let ticked = tick_from s.retry_policy.timeout_ticks s.writing 0 s.slots in
      let (k, same) = tick_from-Keeps s.retry_policy.timeout_ticks s.writing 0 s.slots in
      let (lt, l, len, w) = v in
      elim (Bool-cases ticked.2) [
        | inl over ↦
            rw (over, tick_timeouts)
              (
                lt,
                l,
                length-repeat none size,
                IsEmpty-IsWindow s.next_seq.raw s.limit _ (repeat-IsEmpty size),
              )
        | inr still ↦ rw (still, tick_timeouts) (Keeps-IsValid size s ticked.0 v k same)
      ]
