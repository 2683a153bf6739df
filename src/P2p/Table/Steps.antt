-- ===== src/P2p/Table/Steps.antt =====
-- The tables that the operations reach from an empty one.
use psicose.Prelude.{
  ℕ, ◌+◌, ◌≡◌, inl, inr, List, false, Option, none, some, ok, err, length-set, get_elem?, take,
  arith, Option-cases, Bool-cases, Result-cases,
}
use psicose.P2p.Peer.{PeerId, id_len}
use psicose.P2p.Config.{SessionConfig, HandshakeError}
use psicose.P2p.Session.{PeerSession, new_session, on_hello}
use psicose.P2p.Session
use psicose.P2p.Table.{
  PeerEntry, PeerTable, with_config, capacity, get, find, find_except, free_slot, put, store,
  connect, remote_from_hello, install, listed, accept, finish_connect, remove,
}
use psicose.P2p.Table.Unique.{
  remote_of, IsUnique, IsClear, set-IsUnique, All-IsClear, none-IsClear, no_entries-IsUnique,
  find_from-All, get-IsClear, find_except_from-IsClear,
}

-- One call of a method of the table. `store`, which the crate keeps for its links, writes a
-- session whose remote peer no other slot has.
pub data Step : PeerTable → PeerTable → Type 0 where
  connects : (t : PeerTable) → Step t (connect t).0
  accepts : (t : PeerTable) (hello : List ℕ) → Step t (accept t hello).0
  finishes : (t : PeerTable) (slot : ℕ) (hello : List ℕ) → Step t (finish_connect t slot hello).0
  removes : (t : PeerTable) (slot : ℕ) → Step t (remove t slot).0
  stores :
      (t : PeerTable) (slot : ℕ) (session : PeerSession)
      → IsClear session.remote slot t.slots
      → Step t (store t slot session).0

pub data Reachable (n : ℕ) (local : PeerId) (config : SessionConfig) : PeerTable → Type 0 where
  fresh : Reachable n local config (with_config n local config)
  after : {t u : PeerTable} → Reachable n local config t → Step t u → Reachable n local config u

put-IsUnique :
    (t : PeerTable) (i : ℕ) (session : PeerSession)
    → IsUnique t.slots
    → IsClear session.remote i t.slots
    → IsUnique (put t i session).slots
unfolding put remote_of
put-IsUnique t i session h c = set-IsUnique t.slots i (some record { session = session }) h c

connect-IsUnique : (t : PeerTable) → IsUnique t.slots → IsUnique (connect t).0.slots
unfolding connect Session.connect
connect-IsUnique t h = elim (Option-cases (free_slot t)) [
  | inl e ↦ rw (e, connect) h
  | inr (i, e) ↦ rw (e, connect) (put-IsUnique t i _ h (none-IsClear i t.slots))
]

store-IsUnique :
    (t : PeerTable) (i : ℕ) (session : PeerSession)
    → IsUnique t.slots
    → IsClear session.remote i t.slots
    → IsUnique (store t i session).0.slots
unfolding store
store-IsUnique t i session h c = elim (Option-cases (get_elem? t.slots i)) [
  | inl e ↦ rw (e, store) h
  | inr (cell, e) ↦ rw (e, store) (put-IsUnique t i session h c)
]

remove-IsUnique : (t : PeerTable) (i : ℕ) → IsUnique t.slots → IsUnique (remove t i).0.slots
unfolding remove remote_of
remove-IsUnique t i h = elim (Option-cases (get t i)) [
  | inl e ↦ rw (e, remove) h
  | inr (entry, e) ↦ rw (e, remove) (set-IsUnique t.slots i none h (none-IsClear i t.slots))
]

-- A hello that a session accepts has the identity of the remote peer at its head.
on_hello-accepted :
    (s : PeerSession) (hello : List ℕ) (r : Option (List ℕ))
    → (on_hello s hello).1 ≡ ok r
    → (id : PeerId) × (remote_from_hello hello ≡ some id) × ((on_hello s hello).0.remote ≡ some id)
unfolding on_hello remote_from_hello
on_hello-accepted s hello r h = (record { bytes = take id_len hello }, ground arith, ground arith)

on_hello-unchanged :
    (s : PeerSession) (hello : List ℕ) (e : HandshakeError)
    → (on_hello s hello).1 ≡ err e
    → (on_hello s hello).0 ≡ s
unfolding on_hello
on_hello-unchanged s hello e h = ground arith

listed-free :
    (lookup : PeerId → Option ℕ) (hello : List ℕ) (id : PeerId)
    → listed lookup hello ≡ false
    → remote_from_hello hello ≡ some id
    → lookup id ≡ none
unfolding listed
listed-free lookup hello id h e = elim (Option-cases (lookup id)) [
  | inl free ↦ free
  | inr (i, found) ↦ absurd (ground arith)
]

accept-IsUnique :
    (t : PeerTable) (hello : List ℕ) → IsUnique t.slots → IsUnique (accept t hello).0.slots
unfolding accept install find
accept-IsUnique t hello h = elim (Bool-cases (listed (find t) hello)) [
  | inl e ↦ rw (e, accept) h
  | inr new ↦ elim (Option-cases (free_slot t)) [
    | inl e ↦ rw (new, accept, e, install) h
    | inr (i, e) ↦ elim (Result-cases (on_hello (new_session t.local t.config) hello).1) [
      | inr (x, r) ↦ simp (new, accept, e, install, r) h
      | inl (o, r) ↦
          let (id, head, remote) = on_hello-accepted (new_session t.local t.config) hello o r in
          simp (new, accept, e, install, r)
            (put-IsUnique t i _ h (
              rw remote (
                All-IsClear (some id) i t.slots
                  (find_from-All t.slots 0 id (listed-free (find t) hello id new head)))))
    ]
  ]
]

get-in_slots :
    (t : PeerTable) (i : ℕ) (entry : PeerEntry)
    → get t i ≡ some entry
    → get_elem? t.slots i ≡ some (some entry)
unfolding get
get-in_slots t i entry h = ground arith

finish_connect-IsUnique :
    (t : PeerTable) (i : ℕ) (hello : List ℕ)
    → IsUnique t.slots
    → IsUnique (finish_connect t i hello).0.slots
unfolding finish_connect find_except remote_of
finish_connect-IsUnique t i hello h = elim (Option-cases (get t i)) [
  | inl e ↦ rw (e, finish_connect) h
  | inr (entry, e) ↦ elim (Bool-cases (listed (λ id. find_except t id i) hello)) [
    | inl l ↦ simp (e, finish_connect, l) h
    | inr new ↦ elim (Result-cases (on_hello entry.session hello).1) [
      | inr (x, r) ↦
          simp (e, finish_connect, new, r, on_hello-unchanged entry.session hello x r)
            (put-IsUnique t i entry.session h
              (get-IsClear t.slots i (some entry) h (get-in_slots t i entry e)))
      | inl (o, r) ↦
          let (id, head, remote) = on_hello-accepted entry.session hello o r in
          simp (e, finish_connect, new, r)
            (put-IsUnique t i _ h (
              rw remote (
                find_except_from-IsClear t.slots 0 i id
                  (rw zero_add (listed-free (λ id. find_except t id i) hello id new head)))))
    ]
  ]
]
  where
    zero_add : 0 + i ≡ i
    zero_add = omega arith

length-put : (t : PeerTable) (i : ℕ) (s : PeerSession) → capacity (put t i s) ≡ capacity t
unfolding capacity put
length-put t i s = length-set t.slots i (some record { session = s })

Step-IsUnique : {t u : PeerTable} → Step t u → IsUnique t.slots → IsUnique u.slots
Step-IsUnique (connects t) h = connect-IsUnique t h
Step-IsUnique (accepts t hello) h = accept-IsUnique t hello h
Step-IsUnique (finishes t slot hello) h = finish_connect-IsUnique t slot hello h
Step-IsUnique (removes t slot) h = remove-IsUnique t slot h
Step-IsUnique (stores t slot session c) h = store-IsUnique t slot session h c

-- In every table that the operations reach from an empty one, no two slots hold sessions with the
-- same remote peer. The sessions that the crate's links store themselves are taken to keep to it.
pub Reachable-IsUnique :
    {n : ℕ} {local : PeerId} {config : SessionConfig} {t : PeerTable}
    → Reachable n local config t
    → IsUnique t.slots
unfolding with_config
Reachable-IsUnique {n} fresh = no_entries-IsUnique n
Reachable-IsUnique (after r s) = Step-IsUnique s (Reachable-IsUnique r)
