-- ===== src/Window/Tx/Numbers.antt =====
-- window/tx.rs: the numbers in flight lie in one window, and each stands in one slot.
use psicose.Prelude.{
  ℕ, zero, suc, ◌+◌, ◌-◌, ◌%◌, ◌≤◌, ◌<◌, ◌≡◌, refl, ap, sym, ◌∙◌, inl, inr, arith, List, [], ◌∷◌,
  Bool, true, false, Option, none, some, leb, length, get_or, Bool-cases, subst,
}
use psicose.Tx.State.{is_none}
use psicose.Window.Rx.{repeat}
use psicose.Window.Tx.{TxSlot, is_session, any_kind, count_slots, position, older, oldest_from}

-- How far a number lies behind the next one.
abbrev pub age : ℕ → ℕ → ℕ
age next seq = (next + 256 - seq) % 256

abbrev pub slot_at : List (Option TxSlot) → ℕ → Option TxSlot
slot_at slots i = get_or slots i none

-- A data frame is at most `limit` numbers back, a number stands in one slot, and a frame that
-- opens, closes or cancels a session is alone.
pub record IsWindow (next limit : ℕ) (slots : List (Option TxSlot)) : Type 0 where
  pub byte : (i : ℕ) (s : TxSlot) → slot_at slots i ≡ some s → s.seq < 256
  pub recent :
      (i : ℕ) (s : TxSlot)
      → slot_at slots i ≡ some s
      → is_session s.kind ≡ false
      → (1 ≤ age next s.seq) × (age next s.seq ≤ limit)
  pub apart :
      (i j : ℕ) (s t : TxSlot)
      → slot_at slots i ≡ some s
      → slot_at slots j ≡ some t
      → s.seq ≡ t.seq
      → i ≡ j
  pub alone :
      (i j : ℕ) (s t : TxSlot)
      → slot_at slots i ≡ some s
      → slot_at slots j ≡ some t
      → is_session s.kind ≡ true
      → i ≡ j

abbrev pub IsEmpty : List (Option TxSlot) → Type 0
IsEmpty slots = (i : ℕ) → slot_at slots i ≡ none

pub IsEmpty-IsWindow :
    (next limit : ℕ) (slots : List (Option TxSlot)) → IsEmpty slots → IsWindow next limit slots
IsEmpty-IsWindow next limit slots h = record {
  byte = λ i s e. absurd (ground (arith, h i));
  recent = λ i s e. absurd (ground (arith, h i));
  apart = λ i j s t e. absurd (ground (arith, h i));
  alone = λ i j s t e. absurd (ground (arith, h i));
}

pub repeat-IsEmpty : (n : ℕ) → IsEmpty (repeat none n)
repeat-IsEmpty zero i = refl
repeat-IsEmpty (suc n) zero = refl
repeat-IsEmpty (suc n) (suc i) = repeat-IsEmpty n i

pub count_slots-IsEmpty : (slots : List (Option TxSlot)) → count_slots slots ≡ 0 → IsEmpty slots
unfolding count_slots
count_slots-IsEmpty [] h i = refl
count_slots-IsEmpty (none ∷ slots) h zero = refl
count_slots-IsEmpty (none ∷ slots) h (suc i) = count_slots-IsEmpty slots h i
count_slots-IsEmpty (some s ∷ slots) h i = absurd (omega arith)

-- Each slot of `slots'` is free or carries the kind and the number that it had.
pub record Keeps (slots slots' : List (Option TxSlot)) : Type 0 where
  pub kept :
      (i : ℕ) (s : TxSlot)
      → slot_at slots' i ≡ some s
      → (t : TxSlot) × (slot_at slots i ≡ some t) × (s.kind ≡ t.kind) × (s.seq ≡ t.seq)

pub Keeps-IsWindow :
    (next limit : ℕ) (slots slots' : List (Option TxSlot))
    → Keeps slots slots'
    → IsWindow next limit slots
    → IsWindow next limit slots'
Keeps-IsWindow next limit slots slots' k w = record {
  byte = λ i s e. let (t, e', kind, seq) = k.kept i s e in omega (arith, seq, w.byte i t e');
  recent = λ i s e data_kind.
      let (t, e', kind, seq) = k.kept i s e in
      let (lo, hi) = w.recent i t e' (ap is_session (sym kind) ∙ data_kind) in rw seq (lo, hi);
  apart = λ i j s t e f same.
      let (s', e', kind, seq) = k.kept i s e in
      let (t', f', kind', seq') = k.kept j t f in w.apart i j s' t' e' f' (sym seq ∙ same ∙ seq');
  alone = λ i j s t e f session.
      let (s', e', kind, seq) = k.kept i s e in
      let (t', f', kind', seq') = k.kept j t f in
      w.alone i j s' t' e' f' (ap is_session (sym kind) ∙ session);
}

-- A number of a data frame in flight.
abbrev pub InFlight : ℕ → ℕ → ℕ → Type 0
InFlight next limit seq = (seq < 256) × (1 ≤ age next seq) × (age next seq ≤ limit)

abbrev pub InFlightOr : ℕ → ℕ → Option ℕ → Type 0
InFlightOr next limit none = Unit {0}
InFlightOr next limit (some seq) = InFlight next limit seq

-- The number `o` is as far back as `seq`, or further.
abbrev pub Covers : ℕ → Option ℕ → ℕ → Type 0
Covers next none seq = ⊥
Covers next (some base) seq = age next seq ≤ age next base

pub older-covers :
    (next limit : ℕ) (o : Option ℕ) (seq : ℕ)
    → limit ≤ 8
    → next < 256
    → InFlightOr next limit o
    → InFlight next limit seq
    → InFlight next limit (older limit o seq)
      × (age next seq ≤ age next (older limit o seq))
      × ((b : ℕ) → o ≡ some b → age next b ≤ age next (older limit o seq))
unfolding older
older-covers next limit none seq small lt h v = (v, omega arith, λ b e. absurd (ground arith))
older-covers next limit (some base) seq small lt h v =
    elim (Bool-cases (leb ((seq + 256 - base) % 256) limit)) [
      | inl near ↦ rw near (h, ground arith, λ b e. ground arith)
      | inr far ↦ rw far (v, omega arith, λ b e. ground arith)
    ]

Covers-trans :
    (next : ℕ) (o : Option ℕ) (x y : ℕ)
    → age next x ≤ age next y
    → Covers next o y
    → Covers next o x
Covers-trans next none x y h c = elim c [ ]
Covers-trans next (some base) x y h c = omega arith

-- A property of the slots, by the first one and the others.
slots-cons :
    (P : ℕ → Type 0) (x : Option TxSlot) (slots : List (Option TxSlot))
    → ((s : TxSlot) → x ≡ some s → P s.seq)
    → ((i : ℕ) (s : TxSlot) → slot_at slots i ≡ some s → P s.seq)
    → (i : ℕ) (s : TxSlot) → slot_at (x ∷ slots) i ≡ some s
    → P s.seq
slots-cons P x slots h hs zero s e = h s e
slots-cons P x slots h hs (suc i) s e = hs i s e

-- Whether a slot holds a frame of the session.
abbrev pub session_or : Option TxSlot → Bool
session_or none = false
session_or (some s) = is_session s.kind

-- The number in a slot.
abbrev pub seq_or : Option TxSlot → ℕ
seq_or none = 0
seq_or (some s) = s.seq

-- The oldest number is as far back as each number in flight.
pub oldest_from-Covers :
    (next limit : ℕ) (o : Option ℕ) (slots : List (Option TxSlot))
    → limit ≤ 8
    → next < 256
    → InFlightOr next limit o
    → ((i : ℕ) (s : TxSlot) → slot_at slots i ≡ some s → InFlight next limit s.seq)
    → ((b : ℕ) → o ≡ some b → Covers next (oldest_from limit o slots) b)
      × ((i : ℕ) (s : TxSlot)
          → slot_at slots i ≡ some s
          → Covers next (oldest_from limit o slots) s.seq)
unfolding oldest_from
oldest_from-Covers next limit o [] small lt h v =
    (λ b e. rw e (omega arith), λ i s e. absurd (ground arith))
oldest_from-Covers next limit o (none ∷ slots) small lt h v =
    let (acc, all) = oldest_from-Covers next limit o slots small lt h (λ i. v (suc i)) in
    (
      acc,
      slots-cons (Covers next (oldest_from limit o slots)) none slots (λ s e. absurd (ground arith))
          all,
    )
oldest_from-Covers next limit o (some t ∷ slots) small lt h v =
    let (ok, own, before) = older-covers next limit o t.seq small lt h (v 0 t refl) in
    let o' = older limit o t.seq in
    let (acc, all) = oldest_from-Covers next limit (some o') slots small lt ok (λ i. v (suc i)) in
    let last = oldest_from limit (some o') slots in
    let mine : Covers next last t.seq = Covers-trans next last t.seq o' own (acc o' refl) in
    (
      λ b e. Covers-trans next last b o' (before b e) (acc o' refl),
      slots-cons (Covers next last) (some t) slots
          (λ s e. subst (Covers next last) (ap seq_or e) mine) all,
    )

-- The index that `position` finds is that of a free slot.
pub position-free :
    (slots : List (Option TxSlot)) (i : ℕ)
    → position is_none slots ≡ some i
    → (i < length slots) × (slot_at slots i ≡ none)
unfolding position
position-free [] i e = absurd (ground arith)
position-free (none ∷ slots) zero e = (omega arith, refl)
position-free (none ∷ slots) (suc i) e = absurd (ground arith)
position-free (some s ∷ slots) zero e = absurd (ground arith)
position-free (some s ∷ slots) (suc i) e = ground (arith, position-free slots i)

pub any_kind-none :
    (slots : List (Option TxSlot)) (i : ℕ) (s : TxSlot)
    → any_kind is_session slots ≡ false
    → slot_at slots i ≡ some s
    → is_session s.kind ≡ false
unfolding any_kind
any_kind-none [] i s h e = absurd (ground arith)
any_kind-none (none ∷ slots) zero s h e = absurd (ground arith)
any_kind-none (none ∷ slots) (suc i) s h e = any_kind-none slots i s h e
any_kind-none (some t ∷ slots) zero s h e =
    let data_kind : is_session t.kind ≡ false = ground arith in ap session_or (sym e) ∙ data_kind
any_kind-none (some t ∷ slots) (suc i) s h e = any_kind-none slots i s (ground arith) e
