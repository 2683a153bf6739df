-- ===== src/P2p/Fragmenter.antt =====
-- p2p/stream.rs: cutting a message into fragments.
use psicose.Prelude.{
  ℕ, zero, suc, ◌+◌, ◌%◌, ◌^◌, min, List, [], ◌∷◌, ◌++◌, Bool, true, false, Option, none, some,
  ◌==◌, if◌then◌else◌, length, take, drop,
}
use psicose.P2p.Message.{StreamId, MessageId, MessageHeader, header_list, to_bytes}

pub record Fragmenter : Type 0 where
  pub stream : StreamId
  pub message : MessageId
  pub rest : List ℕ
  pub fragment : ℕ
  pub chunk : ℕ
  pub done : Bool

unfoldable pub new : StreamId → MessageId → List ℕ → ℕ → Fragmenter
new stream message payload max_fragment = record {
  stream = stream;
  message = message;
  rest = payload;
  fragment = 0;
  chunk = if max_fragment == 0 then 1 else max_fragment;
  done = false;
}

unfoldable pub remaining : Fragmenter → ℕ
remaining f = length f.rest

-- `rest.is_empty()`.
abbrev pub is_empty : List ℕ → Bool
is_empty [] = true
is_empty (b ∷ bytes) = false

-- The header of the next fragment, of `n` bytes, and what is left to send.
unfoldable pub header_of : Fragmenter → ℕ → MessageHeader
header_of f n = record {
  stream = f.stream;
  message = f.message;
  fragment = f.fragment;
  last = is_empty (drop n f.rest);
  len = n % 256;
}

unfoldable pub after_fragment : Fragmenter → ℕ → Fragmenter
after_fragment f n = record f {
  rest = drop n f.rest;
  fragment = (f.fragment + 1) % 2 ^ 16;
  done = is_empty (drop n f.rest);
}

unfoldable pub next_fragment : Fragmenter → Fragmenter × Option (MessageHeader × List ℕ)
unfolding header_of after_fragment
next_fragment f =
    if f.done
    then (f, none)
    else let n = min f.chunk (length f.rest) in
      (after_fragment f n, some (header_of f n, take n f.rest))

-- The bytes of all fragments in order, on fuel: each header and its chunk.
unfoldable pub wire_from : ℕ → Fragmenter → List ℕ
wire_from zero f = []
wire_from (suc fuel) f =
    let (f', next) = next_fragment f in
    elim next [
      | none ↦ []
      | some (h, chunk) ↦ header_list (to_bytes h) ++ (chunk ++ wire_from fuel f')
    ]
