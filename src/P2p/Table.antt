-- ===== src/P2p/Table.antt =====
-- p2p/table.rs: the directory of neighbours.
pub mod Unique
pub mod Room
pub mod Steps
use psicose.Prelude.{
  ℕ, zero, suc, ◌+◌, List, [], ◌∷◌, Bool, true, false, not, ◌&&◌, Option, none, some, leb, ◌==◌,
  if◌then◌else◌, length, get_elem?, set, take, Result, ok, err,
}
use psicose.P2p.Peer.{PeerId, id_len, same_bytes}
use psicose.P2p.Config.{SessionConfig, HandshakeError, default_config}
use psicose.P2p.Session.{PeerSession, established, same_state, new_session, hello_bytes, on_hello}
use psicose.P2p.Session

pub record PeerEntry : Type 0 where
  pub session : PeerSession

pub data TableError : Type 0 where
  full : TableError
  handshake : HandshakeError → TableError
  empty : TableError
  duplicate : TableError

-- `slots` is `[Option<PeerEntry>; N]`.
pub record PeerTable : Type 0 where
  pub local : PeerId
  pub config : SessionConfig
  pub slots : List (Option PeerEntry)

-- `[None; N]`.
unfoldable pub no_entries : ℕ → List (Option PeerEntry)
no_entries zero = []
no_entries (suc n) = none ∷ no_entries n

-- `PeerTable::<n>::with`; `check_peers` keeps `n` between 1 and 8 when the crate is compiled.
unfoldable pub with_config : ℕ → PeerId → SessionConfig → PeerTable
unfolding no_entries
with_config n local config = record { local = local; config = config; slots = no_entries n }

-- `PeerTable::<n>::new`.
unfoldable pub new : ℕ → PeerId → PeerTable
unfolding with_config
new n local = with_config n local default_config

unfoldable pub capacity : PeerTable → ℕ
capacity t = length t.slots

-- The loop of `len`.
unfoldable pub count_occupied : List (Option PeerEntry) → ℕ
count_occupied [] = 0
count_occupied (none ∷ slots) = count_occupied slots
count_occupied (some e ∷ slots) = suc (count_occupied slots)

unfoldable pub len : PeerTable → ℕ
unfolding count_occupied
len t = count_occupied t.slots

unfoldable pub is_empty : PeerTable → Bool
unfolding len
is_empty t = len t == 0

unfoldable pub is_full : PeerTable → Bool
unfolding len capacity
is_full t = len t == capacity t

-- The entry in a place of the array; nothing past its end.
unfoldable pub get : PeerTable → ℕ → Option PeerEntry
get t i = elim (get_elem? t.slots i) [ none ↦ none | some slot ↦ slot ]

-- `entry.session.remote() == Some(id)`.
unfoldable pub has_remote : Option PeerId → PeerId → Bool
has_remote none id = false
has_remote (some remote) id = same_bytes remote.bytes id.bytes

unfoldable pub slot_has : Option PeerEntry → PeerId → Bool
unfolding has_remote
slot_has none id = false
slot_has (some e) id = has_remote e.session.remote id

-- The loops of `find`, `find_except` and `free_slot`, from the slot of index `i` on.
unfoldable pub find_from : ℕ → List (Option PeerEntry) → PeerId → Option ℕ
unfolding slot_has
find_from i [] id = none
find_from i (slot ∷ slots) id =
    let rest = find_from (i + 1) slots id in if slot_has slot id then some i else rest

unfoldable pub find : PeerTable → PeerId → Option ℕ
unfolding find_from
find t id = find_from 0 t.slots id

unfoldable pub find_except_from : ℕ → List (Option PeerEntry) → PeerId → ℕ → Option ℕ
unfolding slot_has
find_except_from i [] id skip = none
find_except_from i (slot ∷ slots) id skip =
    let rest = find_except_from (i + 1) slots id skip in
    if not (i == skip) && slot_has slot id then some i else rest

unfoldable pub find_except : PeerTable → PeerId → ℕ → Option ℕ
unfolding find_except_from
find_except t id skip = find_except_from 0 t.slots id skip

unfoldable pub free_slot_from : ℕ → List (Option PeerEntry) → Option ℕ
free_slot_from i [] = none
free_slot_from i (none ∷ slots) = some i
free_slot_from i (some e ∷ slots) = free_slot_from (i + 1) slots

unfoldable pub free_slot : PeerTable → Option ℕ
unfolding free_slot_from
free_slot t = free_slot_from 0 t.slots

-- `self.slots[i] = Some(PeerEntry { session })`.
unfoldable pub put : PeerTable → ℕ → PeerSession → PeerTable
put t i session = record t { slots = set t.slots i (some record { session = session }) }

unfoldable pub store : PeerTable → ℕ → PeerSession → PeerTable × Result (Unit {0}) TableError
unfolding put
store t slot session = elim (get_elem? t.slots slot) [
  | none ↦ (t, err TableError.empty)
  | some cell ↦ (put t slot session, ok tt)
]

unfoldable pub connect : PeerTable → PeerTable × Result (ℕ × List ℕ) TableError
unfolding put
connect t = elim (free_slot t) [
  | none ↦ (t, err TableError.full)
  | some i ↦
      let (session, hello) = Session.connect (new_session t.local t.config) in
      (put t i session, ok (i, hello))
]

-- The identity at the head of a hello, where it is long enough to hold one.
unfoldable pub remote_from_hello : List ℕ → Option PeerId
remote_from_hello hello =
    if leb id_len (length hello) then some record { bytes = take id_len hello } else none

-- The answer to a hello that the session accepted.
abbrev pub reply_or_hello : PeerSession → Option (List ℕ) → List ℕ
reply_or_hello session none = hello_bytes session
reply_or_hello session (some bytes) = bytes

-- `accept`, past the test for a duplicate.
unfoldable pub install : PeerTable → List ℕ → PeerTable × Result (ℕ × List ℕ) TableError
unfolding put
install t hello = elim (free_slot t) [
  | none ↦ (t, err TableError.full)
  | some i ↦
      let (session, reply) = on_hello (new_session t.local t.config) hello in
      elim reply [
        | err e ↦ (t, err (TableError.handshake e))
        | ok r ↦ (put t i session, ok (i, reply_or_hello session r))
      ]
]

-- Is the sender of this hello listed, by the search that `lookup` makes?
unfoldable pub listed : (PeerId → Option ℕ) → List ℕ → Bool
unfolding remote_from_hello
listed lookup hello = elim (remote_from_hello hello) [
  | none ↦ false
  | some id ↦ elim (lookup id) [ none ↦ false | some i ↦ true ]
]

unfoldable pub accept : PeerTable → List ℕ → PeerTable × Result (ℕ × List ℕ) TableError
unfolding install
accept t hello = if listed (find t) hello then (t, err TableError.duplicate) else install t hello

unfoldable pub finish_connect : PeerTable → ℕ → List ℕ → PeerTable × Result (Unit {0}) TableError
unfolding get put
finish_connect t slot hello = elim (get t slot) [
  | none ↦ (t, err TableError.empty)
  | some entry ↦
      if listed (λ id. find_except t id slot) hello
      then (t, err TableError.duplicate)
      else let (session, answer) = on_hello entry.session hello in
        elim answer [
          | err e ↦ (put t slot session, err (TableError.handshake e))
          | ok r ↦ (put t slot session, ok tt)
        ]
]

unfoldable pub remove : PeerTable → ℕ → PeerTable × Result PeerEntry TableError
unfolding get
remove t slot = elim (get t slot) [
  | none ↦ (t, err TableError.empty)
  | some entry ↦ (record t { slots = set t.slots slot none }, ok entry)
]

-- The loop of `established`.
unfoldable pub count_established : List (Option PeerEntry) → ℕ
count_established [] = 0
count_established (none ∷ slots) = count_established slots
count_established (some e ∷ slots) =
    let rest = count_established slots in
    if same_state e.session.state established then suc rest else rest

unfoldable pub established_count : PeerTable → ℕ
unfolding count_established
established_count t = count_established t.slots
