-- ===== src/Window/Rx/Order.antt =====
-- window/rx.rs: the reorder buffer and the emission queue hold a stretch of the sender's bytes.
use psicose.Prelude.{
  ℕ, zero, suc, ◌+◌, ◌%◌, ◌≤◌, ◌<◌, ◌≡◌, refl, ap, sym, ◌∙◌, inl, inr, arith, List, [], ◌∷◌, ◌++◌,
  Option, none, some, ltb, length, get_or, set, length-set, length-append, get_or-set_self,
  get_or-set_ne, Bool-cases,
}
use psicose.Protocol.Sequence.{Sequence}
use psicose.Window.Rx.{WindowedReceiver, shift_buf, repeat}

-- Each byte of the buffer is that of its place in the sender's stream, which starts at place `k`.
abbrev pub Buffered : (ℕ → ℕ) → ℕ → List (Option ℕ) → Type 0
Buffered sent k [] = Unit {0}
Buffered sent k (none ∷ slots) = Buffered sent (suc k) slots
Buffered sent k (some b ∷ slots) = (b ≡ sent k) × Buffered sent (suc k) slots

Buffered-snoc :
    (sent : ℕ → ℕ) (k : ℕ) (slots : List (Option ℕ))
    → Buffered sent k slots
    → Buffered sent k (slots ++ none ∷ [])
Buffered-snoc sent k [] h = tt
Buffered-snoc sent k (none ∷ slots) h = Buffered-snoc sent (suc k) slots h
Buffered-snoc sent k (some b ∷ slots) (e, h) = (e, Buffered-snoc sent (suc k) slots h)

-- The byte at its place may be put into the buffer.
pub Buffered-set :
    (sent : ℕ → ℕ) (k i : ℕ) (slots : List (Option ℕ))
    → Buffered sent k slots
    → Buffered sent k (set slots i (some (sent (k + i))))
Buffered-set sent k i [] h = tt
Buffered-set sent k zero (none ∷ slots) h = (ap sent (omega arith), h)
Buffered-set sent k zero (some b ∷ slots) (e, h) = (ap sent (omega arith), h)
Buffered-set sent k (suc i) (none ∷ slots) h =
    let next : k + suc i ≡ suc k + i = omega arith in rw next (Buffered-set sent (suc k) i slots h)
Buffered-set sent k (suc i) (some b ∷ slots) (e, h) =
    let next : k + suc i ≡ suc k + i = omega arith in
    (e, rw next (Buffered-set sent (suc k) i slots h))

pub Buffered-repeat : (sent : ℕ → ℕ) (k n : ℕ) → Buffered sent k (repeat none n)
Buffered-repeat sent k zero = tt
Buffered-repeat sent k (suc n) = Buffered-repeat sent (suc k) n

-- How many bytes the front of the buffer can release.
abbrev pub leading : List (Option ℕ) → ℕ
leading [] = 0
leading (none ∷ slots) = 0
leading (some b ∷ slots) = suc (leading slots)

leading-snoc : (slots : List (Option ℕ)) → leading (slots ++ none ∷ []) ≡ leading slots
leading-snoc [] = refl
leading-snoc (none ∷ slots) = refl
leading-snoc (some b ∷ slots) = ap suc (leading-snoc slots)

pub leading-le : (slots : List (Option ℕ)) → leading slots ≤ length slots
leading-le [] = omega arith
leading-le (none ∷ slots) = omega arith
leading-le (some b ∷ slots) = omega (arith, leading-le slots)

pub leading-none : (slots : List (Option ℕ)) → leading slots ≤ 0 → get_or slots 0 none ≡ none
leading-none [] h = refl
leading-none (none ∷ slots) h = refl
leading-none (some b ∷ slots) h = absurd (omega arith)

-- The byte at the front leaves, and the others move up.
pub front :
    (sent : ℕ → ℕ) (k byte : ℕ) (slots : List (Option ℕ))
    → get_or slots 0 none ≡ some byte
    → Buffered sent k slots
    → (byte ≡ sent k)
      × Buffered sent (suc k) (shift_buf (set slots 0 none))
      × (suc (leading (shift_buf (set slots 0 none))) ≡ leading slots)
      × (length (shift_buf (set slots 0 none)) ≡ length slots)
unfolding shift_buf
front sent k byte [] e h = absurd (ground arith)
front sent k byte (none ∷ slots) e h = absurd (ground arith)
front sent k byte (some b ∷ slots) e (own, h) =
    let same : b ≡ byte = ground arith in
    (
      sym same ∙ own,
      Buffered-snoc sent (suc k) slots h,
      ap suc (leading-snoc slots),
      omega (arith, length-append slots (none ∷ [])),
    )

-- The `waits` bytes in the emission queue are those after the first `given` ones.
pub record IsQueue (sent : ℕ → ℕ) (size given waits : ℕ) (emit : List ℕ) (at len : ℕ) : Type 0 where
  pub room : length emit ≡ size
  pub reaches : at + waits ≡ len
  pub fits : len ≤ size
  pub bytes : (j : ℕ) → j < waits → get_or emit (at + j) 0 ≡ sent (given + j)

-- The bytes in the buffer.
abbrev pub held : List (Option ℕ) → ℕ
held [] = 0
held (none ∷ slots) = held slots
held (some b ∷ slots) = suc (held slots)

held-snoc : (slots : List (Option ℕ)) → held (slots ++ none ∷ []) ≡ held slots
held-snoc [] = refl
held-snoc (none ∷ slots) = held-snoc slots
held-snoc (some b ∷ slots) = ap suc (held-snoc slots)

-- The front takes its byte along, and a byte that comes in displaces none.
pub held-front : (slots : List (Option ℕ)) → held slots ≤ suc (held (shift_buf (set slots 0 none)))
unfolding shift_buf
held-front [] = omega arith
held-front (none ∷ slots) = omega (arith, held-snoc slots)
held-front (some b ∷ slots) = omega (arith, held-snoc slots)

pub held-le-set :
    (slots : List (Option ℕ)) (i byte : ℕ) → held slots ≤ held (set slots i (some byte))
held-le-set [] i byte = omega arith
held-le-set (none ∷ slots) zero byte = omega arith
held-le-set (some b ∷ slots) zero byte = omega arith
held-le-set (none ∷ slots) (suc i) byte = held-le-set slots i byte
held-le-set (some b ∷ slots) (suc i) byte = omega (arith, held-le-set slots i byte)

-- A sender's stream, the byte of each place, and how many bytes of it are in hand at least.
pub record Stream : Type 0 where
  pub byte : ℕ → ℕ
  pub kept : ℕ

-- None need be.
abbrev pub fresh : (ℕ → ℕ) → Stream
fresh byte = record { byte = byte; kept = 0 }

-- `given` bytes of the stream are delivered, `waits` more are in the emission queue, and the one
-- after them is expected at the front of the buffer. None of the bytes in hand has been dropped.
pub record Reaches (sent : Stream) (size given waits : ℕ) (seq : Sequence) (buf : List (Option ℕ))
    (emit : List ℕ) (at len : ℕ) : Type 0 where
  pub expected : seq.raw ≡ (given + waits) % 256
  pub slots : length buf ≡ size
  pub buffered : Buffered sent.byte (given + waits) buf
  pub queue : IsQueue sent.byte size given waits emit at len
  pub kept : sent.kept ≤ given + waits + held buf

abbrev pub Holds : {T : Type 0} → Stream → ℕ → ℕ → ℕ → WindowedReceiver T → Type 0
Holds sent size given waits r =
    Reaches sent size given waits r.expected_seq r.buf r.emit r.emit_at r.emit_len

-- A byte behind the others.
pub push-IsQueue :
    (sent : ℕ → ℕ) (size given waits : ℕ) (emit : List ℕ) (at len byte : ℕ)
    → IsQueue sent size given waits emit at len
    → len < size
    → byte ≡ sent (given + waits)
    → IsQueue sent size given (suc waits) (set emit len byte) at (len + 1)
push-IsQueue sent size given waits emit at len byte q lt e = record {
  room = length-set emit len byte ∙ q.room;
  reaches = omega (arith, q.reaches);
  fits = omega arith;
  bytes = λ j h. elim (Bool-cases (ltb j waits)) [
    | inl before ↦
        get_or-set_ne emit len (at + j) byte 0 (ground (arith, q.reaches))
        ∙ q.bytes j (ground arith)
    | inr last ↦
        let here : at + j ≡ len = ground (arith, q.reaches) in
        let place : given + waits ≡ given + j = ground arith in
        rw here (get_or-set_self emit len byte 0 (omega (arith, q.room)) ∙ e ∙ ap sent place)
  ];
}

-- The first byte leaves.
pub pop-IsQueue :
    (sent : ℕ → ℕ) (size given waits : ℕ) (emit : List ℕ) (at len : ℕ)
    → IsQueue sent size given (suc waits) emit at len
    → IsQueue sent size (suc given) waits emit (at + 1) len
pop-IsQueue sent size given waits emit at len q = record {
  room = q.room;
  reaches = omega (arith, q.reaches);
  fits = q.fits;
  bytes = λ j h.
      let place : at + 1 + j ≡ at + suc j = omega arith in
      let number : given + suc j ≡ suc given + j = omega arith in
      rw place (q.bytes (suc j) (omega arith) ∙ ap sent number);
}

-- A queue without bytes.
pub empty-IsQueue :
    (sent : ℕ → ℕ) (size given : ℕ) (emit : List ℕ)
    → length emit ≡ size
    → IsQueue sent size given 0 emit 0 0
empty-IsQueue sent size given emit h = record {
  room = h;
  reaches = refl;
  fits = omega arith;
  bytes = λ j lt. absurd (omega arith);
}
