-- ===== src/P2p/Peer.antt =====
-- p2p/peer.rs: the identity of a peer, eight payload bytes.
pub mod Label
use psicose.Prelude.{
  ℕ, zero, suc, ◌+◌, ◌-◌, List, [], ◌∷◌, Bool, true, false, ◌&&◌, ◌||◌, not, Option, none, some,
  ltb, leb, ◌==◌, if◌then◌else◌, length, get_or, set, take,
}

-- `PeerId::LEN`.
abbrev pub id_len : ℕ
id_len = 8

-- `bytes` is `[u8; PeerId::LEN]`.
pub record PeerId : Type 0 where
  pub bytes : List ℕ

-- `[0u8; PeerId::LEN]`.
abbrev pub blank : List ℕ
blank = 0 ∷ 0 ∷ 0 ∷ 0 ∷ 0 ∷ 0 ∷ 0 ∷ 0 ∷ []

-- The loop of `from_label`: what is left of the label, the index and the array so far.
unfoldable pub copy_label : List ℕ → ℕ → List ℕ → List ℕ
copy_label [] i bytes = bytes
copy_label (c ∷ label) i bytes =
    let rest = copy_label label (i + 1) (set bytes i c) in if ltb i id_len then rest else bytes

unfoldable pub from_label : List ℕ → PeerId
unfolding copy_label
from_label label = record { bytes = copy_label label 0 blank }

-- The derived `==` of the arrays.
unfoldable pub same_bytes : List ℕ → List ℕ → Bool
same_bytes [] [] = true
same_bytes [] (y ∷ ys) = false
same_bytes (x ∷ xs) [] = false
same_bytes (x ∷ xs) (y ∷ ys) = x == y && same_bytes xs ys

-- `c.is_ascii_graphic() || c == b' '`.
unfoldable pub is_printable : ℕ → Bool
is_printable c = leb 0x20 c && leb c 0x7e

-- The first loop of `label_bytes`: the length of the text before the first zero, or nothing where
-- a byte of it does not print.
unfoldable pub text_length : List ℕ → Option ℕ
text_length [] = some 0
text_length (c ∷ bytes) =
    if c == 0
    then some 0
    else if is_printable c
    then elim (text_length bytes) [ none ↦ none | some n ↦ some (suc n) ]
    else none

-- The second loop: are the bytes from `n` on zero?
unfoldable pub zeros_from : ℕ → List ℕ → Bool
zeros_from n [] = true
zeros_from zero (c ∷ bytes) = c == 0 && zeros_from 0 bytes
zeros_from (suc n) (c ∷ bytes) = zeros_from n bytes

-- `core::str::from_utf8` accepts the text, which is ASCII.
unfoldable pub label_bytes : List ℕ → Option (List ℕ)
unfolding text_length
label_bytes bytes = elim (text_length bytes) [
  | none ↦ none
  | some n ↦ if n == 0 then none else if zeros_from n bytes then some (take n bytes) else none
]
