-- ===== src/P2p/Table/Unique.antt =====
-- No two slots of a table hold sessions with the same remote peer.
use psicose.Prelude.{
  ℕ, zero, suc, ◌+◌, ◌<◌, ◌≡◌, refl, ◌∙◌, inl, inr, List, [], ◌∷◌, Bool, false, Option, none, some,
  All, arith, set, get_elem?, subst, Option-cases,
}
use mathlib.Core.Option.{some-injective}
use psicose.P2p.Peer.{PeerId, same_bytes}
use psicose.P2p.Table.{PeerEntry, find_from, find_except_from, slot_has, no_entries}

-- The remote peer of a slot, where it has one.
unfoldable pub remote_of : Option PeerEntry → Option PeerId
remote_of none = none
remote_of (some e) = e.session.remote

-- Do two slots hold sessions with the same remote peer?
unfoldable pub clash : Option PeerId → Option PeerId → Bool
clash none b = false
clash (some a) none = false
clash (some a) (some b) = same_bytes a.bytes b.bytes

abbrev pub IsApart : Option PeerId → Option PeerEntry → Type 0
IsApart r slot = clash (remote_of slot) r ≡ false

abbrev pub IsUnique : List (Option PeerEntry) → Type 0
IsUnique [] = Unit
IsUnique (slot ∷ slots) = All (IsApart (remote_of slot)) slots × IsUnique slots

-- No slot but that of index `i` has the remote peer `r`.
abbrev pub IsClear : Option PeerId → ℕ → List (Option PeerEntry) → Type 0
IsClear r i [] = Unit
IsClear r zero (slot ∷ slots) = All (IsApart r) slots
IsClear r (suc i) (slot ∷ slots) = IsApart r slot × IsClear r i slots

same_bytes_comm : (xs ys : List ℕ) → same_bytes xs ys ≡ same_bytes ys xs
unfolding same_bytes
same_bytes_comm [] [] = refl
same_bytes_comm [] (y ∷ ys) = refl
same_bytes_comm (x ∷ xs) [] = refl
same_bytes_comm (x ∷ xs) (y ∷ ys) = ground (arith, same_bytes_comm xs ys)

clash_comm : (a b : Option PeerId) → clash a b ≡ clash b a
unfolding clash
clash_comm none none = refl
clash_comm none (some b) = refl
clash_comm (some a) none = refl
clash_comm (some a) (some b) = same_bytes_comm a.bytes b.bytes

clash-none : (a : Option PeerId) → clash a none ≡ false
unfolding clash
clash-none none = refl
clash-none (some a) = refl

All-set :
    (r : Option PeerId) (slots : List (Option PeerEntry)) (i : ℕ) (v : Option PeerEntry)
    → All (IsApart r) slots
    → IsApart r v
    → All (IsApart r) (set slots i v)
All-set r [] i v h p = tt
All-set r (slot ∷ slots) zero v h p = (p, h.1)
All-set r (slot ∷ slots) (suc i) v h p = (h.0, All-set r slots i v h.1 p)

pub set-IsUnique :
    (slots : List (Option PeerEntry)) (i : ℕ) (v : Option PeerEntry)
    → IsUnique slots
    → IsClear (remote_of v) i slots
    → IsUnique (set slots i v)
set-IsUnique [] i v h c = tt
set-IsUnique (slot ∷ slots) zero v h c = (c, h.1)
set-IsUnique (slot ∷ slots) (suc i) v h c = (
  All-set (remote_of slot) slots i v h.0 (clash_comm (remote_of v) (remote_of slot) ∙ c.0),
  set-IsUnique slots i v h.1 c.1,
)

pub All-IsClear :
    (r : Option PeerId) (i : ℕ) (slots : List (Option PeerEntry))
    → All (IsApart r) slots
    → IsClear r i slots
All-IsClear r i [] h = tt
All-IsClear r zero (slot ∷ slots) h = h.1
All-IsClear r (suc i) (slot ∷ slots) h = (h.0, All-IsClear r i slots h.1)

none-All : (slots : List (Option PeerEntry)) → All (IsApart none) slots
none-All [] = tt
none-All (slot ∷ slots) = (clash-none (remote_of slot), none-All slots)

-- A slot with no remote peer is in nobody's way.
pub none-IsClear : (i : ℕ) (slots : List (Option PeerEntry)) → IsClear none i slots
none-IsClear i slots = All-IsClear none i slots (none-All slots)

pub no_entries-IsUnique : (n : ℕ) → IsUnique (no_entries n)
unfolding no_entries remote_of
no_entries-IsUnique zero = tt
no_entries-IsUnique (suc n) = (none-All (no_entries n), no_entries-IsUnique n)

clash-eq-slot_has :
    (slot : Option PeerEntry) (id : PeerId) → clash (remote_of slot) (some id) ≡ slot_has slot id
unfolding clash remote_of slot_has
clash-eq-slot_has none id = refl
clash-eq-slot_has (some e) id = elim (Option-cases e.session.remote) [
  | inl h ↦ rw h refl
  | inr (r, h) ↦ rw h refl
]

-- A search that finds nothing.
pub find_from-All :
    (slots : List (Option PeerEntry)) (base : ℕ) (id : PeerId)
    → find_from base slots id ≡ none
    → All (IsApart (some id)) slots
unfolding find_from
find_from-All [] base id h = tt
find_from-All (slot ∷ slots) base id h =
    ground (arith, clash-eq-slot_has slot id, find_from-All slots (base + 1) id)

past_skip :
    (slots : List (Option PeerEntry)) (base skip : ℕ) (id : PeerId)
    → skip < base
    → find_except_from base slots id skip ≡ none
    → All (IsApart (some id)) slots
unfolding find_except_from
past_skip [] base skip id lt h = tt
past_skip (slot ∷ slots) base skip id lt h =
    ground (arith, clash-eq-slot_has slot id, past_skip slots (base + 1) skip id (omega arith))

-- A search that skips one slot and finds nothing leaves that slot free for the peer.
pub find_except_from-IsClear :
    (slots : List (Option PeerEntry)) (base i : ℕ) (id : PeerId)
    → find_except_from base slots id (base + i) ≡ none
    → IsClear (some id) i slots
unfolding find_except_from
find_except_from-IsClear [] base i id h = tt
find_except_from-IsClear (slot ∷ slots) base zero id h =
    past_skip slots (base + 1) base id (omega arith) (ground arith)
find_except_from-IsClear (slot ∷ slots) base (suc i) id h = ground (
  arith,
  clash-eq-slot_has slot id,
  find_except_from-IsClear slots (base + 1) i id (ground arith),
)

All-get :
    (r : Option PeerId) (slots : List (Option PeerEntry)) (i : ℕ) (v : Option PeerEntry)
    → All (IsApart r) slots
    → get_elem? slots i ≡ some v
    → IsApart r v
All-get r [] i v h e = absurd (ground arith)
All-get r (slot ∷ slots) zero v h e = subst (IsApart r) (some-injective slot v e) h.0
All-get r (slot ∷ slots) (suc i) v h e = All-get r slots i v h.1 e

-- In a table without clashes the others leave each slot's own remote peer free.
pub get-IsClear :
    (slots : List (Option PeerEntry)) (i : ℕ) (v : Option PeerEntry)
    → IsUnique slots
    → get_elem? slots i ≡ some v
    → IsClear (remote_of v) i slots
get-IsClear [] i v h e = tt
get-IsClear (slot ∷ slots) zero v h e =
    subst (λ w. All (IsApart (remote_of w)) slots) (some-injective slot v e) h.0
get-IsClear (slot ∷ slots) (suc i) v h e = (
  clash_comm (remote_of slot) (remote_of v) ∙ All-get (remote_of slot) slots i v h.0 e,
  get-IsClear slots i v h.1 e,
)
