-- ===== src/P2p/Table/Room.antt =====
-- The room in a table: what `free_slot` finds, and how many slots are taken.
use psicose.Prelude.{
  ℕ, suc, ◌+◌, ◌≤◌, ◌<◌, ◌≡◌, refl, ap, ◌⊎◌, inl, inr, List, [], ◌∷◌, Option, none, some, arith,
  length, get_elem?, false, true, set, Option-cases, Bool-cases, ok, err, length-set, Result-cases,
}
use psicose.P2p.Session.{PeerSession, new_session, on_hello, hello_bytes}
use psicose.P2p.Session
use psicose.P2p.Table.{
  PeerEntry, PeerTable, TableError, count_occupied, len, capacity, get, free_slot_from, listed,
  find, accept, install, free_slot, put, connect, reply_or_hello,
}

count_occupied-le : (slots : List (Option PeerEntry)) → count_occupied slots ≤ length slots
unfolding count_occupied
count_occupied-le [] = omega arith
count_occupied-le (none ∷ slots) = omega (arith, count_occupied-le slots)
count_occupied-le (some e ∷ slots) = omega (arith, count_occupied-le slots)

-- No free slot is found where every slot is taken.
free_slot_from-full :
    (base : ℕ) (slots : List (Option PeerEntry))
    → free_slot_from base slots ≡ none
    → count_occupied slots ≡ length slots
unfolding free_slot_from count_occupied
free_slot_from-full base [] h = refl
free_slot_from-full base (none ∷ slots) h = ground arith
free_slot_from-full base (some e ∷ slots) h = ap suc (free_slot_from-full (base + 1) slots h)

-- A slot that is found is empty, and one more is taken when an entry is put there.
free_slot_from-found :
    (base : ℕ) (slots : List (Option PeerEntry)) (i : ℕ) (e : PeerEntry)
    → free_slot_from base slots ≡ some i
    → (k : ℕ) × (i ≡ base + k)
      × (get_elem? slots k ≡ some none)
      × (get_elem? (set slots k (some e)) k ≡ some (some e))
      × (count_occupied (set slots k (some e)) ≡ suc (count_occupied slots))
unfolding free_slot_from count_occupied
free_slot_from-found base [] i e h = ground arith
free_slot_from-found base (none ∷ slots) i e h = (0, ground arith, refl, refl, refl)
free_slot_from-found base (some d ∷ slots) i e h =
    let (k, at, free, kept, more) = free_slot_from-found (base + 1) slots i e h in
    (suc k, omega arith, free, kept, ap suc more)

free_slot-full : (t : PeerTable) → free_slot t ≡ none → len t ≡ capacity t
unfolding free_slot len capacity
free_slot-full t h = free_slot_from-full 0 t.slots h

-- What the table is like when a session goes to the slot that is found.
pub record IsRoom (t : PeerTable) (i : ℕ) (session : PeerSession) : Type 0 where
  pub free : get t i ≡ none
  pub kept : get (put t i session) i ≡ some record { session = session }
  pub more : len (put t i session) ≡ suc (len t)
  pub below : len t < capacity t

free_slot-IsRoom :
    (t : PeerTable) (i : ℕ) (session : PeerSession) → free_slot t ≡ some i → IsRoom t i session
unfolding free_slot len capacity get put
free_slot-IsRoom t i session h =
    let e : PeerEntry = record { session = session } in
    let (k, at, free, kept, more) = free_slot_from-found 0 t.slots i e h in
    let same : i ≡ k = omega arith in
    record {
      free = rw same (ground arith);
      kept = rw same (ground arith);
      more = rw same more;
      below =
          omega (
            arith,
            more,
            count_occupied-le (set t.slots k (some e)),
            length-set t.slots k (some e),
          );
    }

-- `connect` fails only on a table with every slot taken, and leaves it as it was. On any other it
-- opens a session in a slot that was empty, one more slot is taken, and the hello is that of the
-- table's own identity and config.
pub connect-IsRoom :
    (t : PeerTable)
    → ((connect t ≡ (t, err TableError.full)) × (len t ≡ capacity t))
      ⊎ ((i : ℕ) × IsRoom t i (Session.connect (new_session t.local t.config)).0
          × (connect t ≡ (
            put t i (Session.connect (new_session t.local t.config)).0,
            ok (i, hello_bytes (new_session t.local t.config)),
          )))
unfolding connect Session.connect
connect-IsRoom t = elim (Option-cases (free_slot t)) [
  | inl h ↦ inl (rw (h, connect) refl, free_slot-full t h)
  | inr (i, h) ↦ inr (i, free_slot-IsRoom t i _ h, rw (h, connect) refl)
]

-- Why `accept` refuses a hello: its peer is listed, every slot is taken, or a new session refuses
-- it.
abbrev pub Turned : PeerTable → List ℕ → TableError → Type 0
Turned t hello TableError.duplicate = listed (find t) hello ≡ true
Turned t hello TableError.full = len t ≡ capacity t
Turned t hello (TableError.handshake e) = (on_hello (new_session t.local t.config) hello).1 ≡ err e
Turned t hello TableError.empty = ⊥

-- `accept` refuses a hello whose peer is listed, or for which there is no slot, or that a new
-- session refuses, with the error of that reason, and then it leaves the table as it was. It
-- accepts any other without an error: a new session takes the hello and goes to a slot that was
-- empty, one more slot is taken, and the answer is that slot and the session's reply, or its own
-- hello where it has none.
pub accept-IsRoom :
    (t : PeerTable) (hello : List ℕ)
    → ((e : TableError) × Turned t hello e × (accept t hello ≡ (t, err e)))
      ⊎ ((i : ℕ) × (reply : Option (List ℕ)) × IsRoom t i
            (on_hello (new_session t.local t.config) hello).0
          × (listed (find t) hello ≡ false)
          × ((on_hello (new_session t.local t.config) hello).1 ≡ ok reply)
          × (accept t hello ≡ (
            put t i (on_hello (new_session t.local t.config) hello).0,
            ok (i, reply_or_hello (on_hello (new_session t.local t.config) hello).0 reply),
          )))
unfolding accept install
accept-IsRoom t hello = elim (Bool-cases (listed (find t) hello)) [
  | inl h ↦ inl (TableError.duplicate, h, simp h refl)
  | inr new ↦ elim (Option-cases (free_slot t)) [
    | inl h ↦ inl (TableError.full, free_slot-full t h, simp (new, h, install) refl)
    | inr (i, h) ↦ elim (Result-cases (on_hello (new_session t.local t.config) hello).1) [
      | inr (e, r) ↦ inl (TableError.handshake e, r, simp (new, h, install, r) refl)
      | inl (o, r) ↦
          let room = free_slot-IsRoom t i (on_hello (new_session t.local t.config) hello).0 h in
          inr (i, o, room, new, r, simp (new, h, install, r) refl)
    ]
  ]
]
