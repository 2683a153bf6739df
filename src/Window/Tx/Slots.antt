-- ===== src/Window/Tx/Slots.antt =====
-- window/tx.rs: writes to a slot, and what they do to the numbers in flight.
use psicose.Prelude.{
  ℕ, zero, suc, ◌+◌, ◌%◌, ◌≤◌, ◌<◌, ◌≡◌, ◌≢◌, refl, ap, sym, ◌∙◌, ◌⊎◌, inl, inr, arith, List, [],
  ◌∷◌, true, false, Option, none, some, ◌==◌, length, set, get_or-set_self, get_or-set_ne,
  Bool-cases,
}
use psicose.Window.Tx.{TxSlot, FlightKind, dat, is_session}
use psicose.Window.Tx.Numbers.{age, slot_at, IsWindow, Keeps, IsEmpty, seq_or, session_or, InFlight}

abbrev kind_or : Option TxSlot → FlightKind
kind_or none = dat
kind_or (some s) = s.kind

-- A slot after a write: the one written, or another as it was.
pub set-cases :
    (slots : List (Option TxSlot)) (i : ℕ) (f : Option TxSlot) (j : ℕ) (s : TxSlot)
    → i < length slots
    → slot_at (set slots i f) j ≡ some s
    → ((j ≡ i) × (f ≡ some s)) ⊎ ((j ≢ i) × (slot_at slots j ≡ some s))
set-cases slots i f j s lt e = elim (Bool-cases (j == i)) [
  | inl same ↦
      let here : j ≡ i = ground arith in
      inl (
        here,
        sym (get_or-set_self slots i f none lt) ∙ ap (slot_at (set slots i f)) (sym here) ∙ e,
      )
  | inr other ↦
      let apart : j ≢ i = ground arith in
      inr (apart, sym (get_or-set_ne slots i j f none apart) ∙ e)
]

pub slot_at-inside :
    (slots : List (Option TxSlot)) (i : ℕ) (t : TxSlot)
    → slot_at slots i ≡ some t
    → i < length slots
slot_at-inside [] i t e = absurd (ground arith)
slot_at-inside (x ∷ slots) zero t e = omega arith
slot_at-inside (x ∷ slots) (suc i) t e = omega (arith, slot_at-inside slots i t e)

-- A slot is emptied.
pub Keeps-clear :
    (slots : List (Option TxSlot)) (i : ℕ) → i < length slots → Keeps slots (set slots i none)
Keeps-clear slots i lt = record {
  kept = λ j s e. elim (set-cases slots i none j s lt e) [
    | inl (here, e') ↦ absurd (ground arith)
    | inr (other, e') ↦ (s, e', refl, refl)
  ];
}

-- A slot keeps its kind and its number.
pub Keeps-set :
    (slots : List (Option TxSlot)) (i : ℕ) (t f : TxSlot)
    → slot_at slots i ≡ some t
    → f.kind ≡ t.kind
    → f.seq ≡ t.seq
    → Keeps slots (set slots i (some f))
Keeps-set slots i t f at kind seq = record {
  kept = λ j s e. elim (set-cases slots i (some f) j s (slot_at-inside slots i t at) e) [
    | inl (here, own) ↦
        (t, ap (slot_at slots) here ∙ at, ap kind_or (sym own) ∙ kind, ap seq_or (sym own) ∙ seq)
    | inr (other, e') ↦ (s, e', refl, refl)
  ];
}

-- The next number goes into a free slot, when all others are of data frames and less than `limit`
-- numbers back.
pub IsWindow-insert :
    (next limit : ℕ) (slots : List (Option TxSlot)) (i : ℕ) (f : TxSlot)
    → IsWindow next limit slots
    → next < 256
    → limit ≤ 8
    → 1 ≤ limit
    → i < length slots
    → ((j : ℕ) (s : TxSlot) → slot_at slots j ≡ some s → is_session s.kind ≡ false)
    → ((j : ℕ) (s : TxSlot) → slot_at slots j ≡ some s → age next s.seq < limit)
    → f.seq ≡ next
    → f.kind ≡ dat
    → IsWindow ((next + 1) % 256) limit (set slots i (some f))
IsWindow-insert next limit slots i f w lt small big inside plain strict seq kind =
    let old : (j : ℕ) (s : TxSlot) → slot_at slots j ≡ some s → InFlight next limit s.seq =
      λ j s e. let (lo, hi) = w.recent j s e (plain j s e) in (w.byte j s e, lo, hi) in
    record {
      byte = λ j s e. elim (set-cases slots i (some f) j s inside e) [
        | inl (here, own) ↦ omega (arith, ap seq_or own, seq)
        | inr (other, e') ↦ w.byte j s e'
      ];
      recent = λ j s e k. elim (set-cases slots i (some f) j s inside e) [
        | inl (here, own) ↦ ground (arith, ap seq_or own, seq)
        | inr (other, e') ↦ ground (arith, old j s e', strict j s e')
      ];
      apart = λ j k s t e g same. elim (set-cases slots i (some f) j s inside e) [
        | inl (here, own) ↦ elim (set-cases slots i (some f) k t inside g) [
          | inl (here', own') ↦ here ∙ sym here'
          | inr (other, g') ↦ absurd (omega (arith, ap seq_or own, seq, old k t g'))
        ]
        | inr (other, e') ↦ elim (set-cases slots i (some f) k t inside g) [
          | inl (here', own') ↦ absurd (omega (arith, ap seq_or own', seq, old j s e'))
          | inr (other', g') ↦ w.apart j k s t e' g' same
        ]
      ];
      alone = λ j k s t e g session. elim (set-cases slots i (some f) j s inside e) [
        | inl (here, own) ↦ absurd (ground (arith, ap kind_or own, kind, session))
        | inr (other, e') ↦ absurd (ground (arith, plain j s e', session))
      ];
    }

-- A single frame.
pub IsWindow-single :
    (next limit : ℕ) (slots : List (Option TxSlot)) (i : ℕ) (f : TxSlot)
    → IsEmpty slots
    → i < length slots
    → f.seq < 256
    → is_session f.kind ≡ true
    → IsWindow next limit (set slots i (some f))
IsWindow-single next limit slots i f empty inside lt kind =
    let only : (j : ℕ) (s : TxSlot)
        → slot_at (set slots i (some f)) j ≡ some s
        → (j ≡ i) × (some f ≡ some s) =
      λ j s e. elim (set-cases slots i (some f) j s inside e) [
        | inl h ↦ h
        | inr (other, e') ↦ absurd (ground (arith, empty j))
      ] in
    record {
      byte = λ j s e. omega (arith, ap seq_or (only j s e).1);
      recent = λ j s e k. absurd (ground (arith, ap session_or (only j s e).1));
      apart = λ j k s t e g same. (only j s e).0 ∙ sym (only k t g).0;
      alone = λ j k s t e g session. (only j s e).0 ∙ sym (only k t g).0;
    }
