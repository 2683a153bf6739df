-- ===== src/Link/Channel.antt =====
-- What a channel of a link holds: frames of one kind, or of an older kind and then of a newer.
use psicose.Prelude.{ℕ, ◌+◌, ◌-◌, ◌%◌, List, [], ◌∷◌, ◌++◌, ◌≡◌, ◌⊎◌, inl, inr, All}
use psicose.Protocol.Frame.{Frame, FrameType}

module _ {ℓ κ μ} {A : Type ℓ} (P : A → Type κ) (Q : A → Type μ) where
  -- Some that satisfy `P`, and then only such as satisfy `Q`.
  pub data Mixed : List A → Type (ℓ ⊔ κ ⊔ μ) where
    none_left : Mixed []
    older : {x : A} {xs : List A} → P x → Mixed xs → Mixed (x ∷ xs)
    newer : {x : A} {xs : List A} → Q x → All Q xs → Mixed (x ∷ xs)

module _ {ℓ κ} {A : Type ℓ} (P : A → Type κ) where
  pub All-snoc : (xs : List A) (x : A) → All P xs → P x → All P (xs ++ x ∷ [])
  All-snoc [] x h p = (p, tt)
  All-snoc (y ∷ xs) x h p = (h.0, All-snoc xs x h.1 p)

module _ {ℓ κ μ} {A : Type ℓ} {P : A → Type κ} {Q : A → Type μ} where
  pub All-map : (xs : List A) → ((x : A) → P x → Q x) → All P xs → All Q xs
  All-map [] f h = tt
  All-map (x ∷ xs) f h = (f x h.0, All-map xs f h.1)

  pub Mixed-of_old : (xs : List A) → All P xs → Mixed P Q xs
  Mixed-of_old [] h = none_left
  Mixed-of_old (x ∷ xs) h = older h.0 (Mixed-of_old xs h.1)

  -- A newer one may always follow.
  pub Mixed-snoc : {xs : List A} (x : A) → Mixed P Q xs → Q x → Mixed P Q (xs ++ x ∷ [])
  Mixed-snoc x none_left q = newer q tt
  Mixed-snoc x (older p m) q = older p (Mixed-snoc x m q)
  Mixed-snoc x (newer {xs = xs} q' h) q = newer q' (All-snoc Q xs x h q)

  pub Mixed-head :
      {x : A} {rest : List A} → Mixed P Q (x ∷ rest) → (P x × Mixed P Q rest) ⊎ (Q x × All Q rest)
  Mixed-head (older p m) = inl (p, m)
  Mixed-head (newer q h) = inr (q, h)

  pub Mixed-of_new : (xs : List A) → All Q xs → Mixed P Q xs
  Mixed-of_new [] h = none_left
  Mixed-of_new (x ∷ xs) h = newer h.0 h.1

  pub Mixed-rest : {x : A} {rest : List A} → Mixed P Q (x ∷ rest) → Mixed P Q rest
  Mixed-rest (older p m) = m
  Mixed-rest (newer {xs = xs} q h) = Mixed-of_new xs h

abbrev pub before : ℕ → ℕ
before n = (n + 256 - 1) % 256

-- A DATA frame of the number before `n`.
abbrev pub Stale : ℕ → Frame → Type 0
Stale n f = f.seq ≡ before n

-- The DATA frame that carries `b` as number `n`.
abbrev pub Fresh : ℕ → ℕ → Frame → Type 0
Fresh n b f = (f.seq ≡ n) × (f.payload ≡ b)

abbrev ReplyOf : ℕ → FrameType → ℕ → Type 0
ReplyOf n FrameType.ack seq = seq ≡ n
ReplyOf n FrameType.nack seq = Unit {0}
ReplyOf n FrameType.dat seq = ⊥
ReplyOf n FrameType.start seq = ⊥
ReplyOf n FrameType.finish seq = ⊥
ReplyOf n FrameType.abort seq = ⊥

-- An ACK of number `n`, or any NACK.
abbrev pub Reply : ℕ → Frame → Type 0
Reply n f = ReplyOf n f.frame_type f.seq
