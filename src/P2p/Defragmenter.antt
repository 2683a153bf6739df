-- ===== src/P2p/Defragmenter.antt =====
-- p2p/stream.rs: rebuilding a message from the bytes of its fragments.
pub mod Chunk
use psicose.Prelude.{
  ℕ, ◌+◌, ◌-◌, ◌%◌, ◌^◌, min, List, [], ◌∷◌, Bool, true, false, not, Option, none, some, leb, ltb,
  ◌==◌, if◌then◌else◌, length, set, take, Result, ok, err, ◌>>=◌,
}
use psicose.P2p.Message.{
  StreamId, MessageId, MessageHeader, HeaderError, HeaderBytes, zeroed_header, header_len,
  set_header_byte, from_bytes,
}

pub data DefragError : Type 0 where
  header : HeaderError → DefragError
  overflow out_of_order closed : DefragError

pub record Defragmenter : Type 0 where
  pub buf : List ℕ
  pub filled : ℕ
  pub hdr : HeaderBytes
  pub hdr_at : ℕ
  pub current : Option MessageHeader
  pub chunk_got : ℕ
  pub expect_frag : ℕ
  pub stream : Option StreamId
  pub message : Option MessageId
  pub complete : Bool

unfoldable pub new : List ℕ → Defragmenter
new buf = record {
  buf = buf;
  filled = 0;
  hdr = zeroed_header;
  hdr_at = 0;
  current = none;
  chunk_got = 0;
  expect_frag = 0;
  stream = none;
  message = none;
  complete = false;
}

unfoldable pub reset : Defragmenter → Defragmenter
reset d = record d {
  filled = 0;
  hdr_at = 0;
  current = none;
  chunk_got = 0;
  expect_frag = 0;
  stream = none;
  message = none;
  complete = false;
}

unfoldable pub as_slice : Defragmenter → List ℕ
as_slice d = take d.filled d.buf

unfoldable pub finish_chunk : Defragmenter → Defragmenter × Result Bool DefragError
finish_chunk d = elim d.current [
  | none ↦ (d, err out_of_order)
  | some h ↦
      if h.last
      then (record d { current = none; complete = true }, ok true)
      else (record d { current = none; expect_frag = (d.expect_frag + 1) % 2 ^ 16 }, ok false)
]

-- Does a stream or message that is locked in differ from the header's?
unfoldable pub other_stream : Option StreamId → StreamId → Bool
other_stream none s = false
other_stream (some t) s = not (t.raw == s.raw)

unfoldable pub other_message : Option MessageId → MessageId → Bool
other_message none m = false
other_message (some n) m = not (n.raw == m.raw)

-- The header is whole: is it the one that comes next?
unfoldable pub take_header : Defragmenter → MessageHeader → Defragmenter × Result Bool DefragError
unfolding other_stream other_message finish_chunk
take_header d h =
    if not (h.fragment == d.expect_frag)
    then (d, err out_of_order)
    else if other_stream d.stream h.stream
    then (d, err out_of_order)
    else let d1 = record d { stream = some h.stream } in
      if other_message d.message h.message
      then (d1, err out_of_order)
      else let d2 = record d1 { message = some h.message; current = some h; chunk_got = 0 } in
        if h.len == 0 then finish_chunk d2 else (d2, ok false)

unfoldable pub push_header : Defragmenter → ℕ → Defragmenter × Result Bool DefragError
unfolding set_header_byte
push_header d byte =
    let at = if leb header_len d.hdr_at then 0 else d.hdr_at in
    let d' = record d { hdr = set_header_byte d.hdr at byte; hdr_at = at + 1 } in
    if ltb d'.hdr_at header_len then (d', ok false) else elim (from_bytes d'.hdr) [
      | err e ↦ (record d' { hdr_at = 0 }, err (header e))
      | ok h ↦ take_header (record d' { hdr_at = 0 }) h
    ]

-- A byte of the chunk whose header is `h`.
unfoldable pub push_body : Defragmenter → MessageHeader → ℕ → Defragmenter × Result Bool DefragError
unfolding finish_chunk
push_body d h byte =
    if leb (length d.buf) d.filled
    then (d, err overflow)
    else let d' = record d {
      buf = set d.buf d.filled byte;
      filled = d.filled + 1;
      chunk_got = min (d.chunk_got + 1) 255;
    } in
      if leb h.len d'.chunk_got then finish_chunk d' else (d', ok false)

unfoldable pub push : Defragmenter → ℕ → Defragmenter × Result Bool DefragError
unfolding push_header push_body
push d byte =
    if d.complete
    then (d, err closed)
    else elim d.current [ none ↦ push_header d byte | some h ↦ push_body d h byte ]

-- Bytes one after the other, up to the first refusal; the answer says whether the message is whole.
unfoldable pub feed : Defragmenter → List ℕ → Defragmenter × Result Bool DefragError
feed d [] = (d, ok d.complete)
feed d (b ∷ bytes) = push d b >>= λ whole d'. feed d' bytes
