-- ===== src/P2p/Fragments.antt =====
-- The fragmenter and the defragmenter together.
use psicose.Prelude.{
  ℕ, zero, suc, ◌+◌, ◌%◌, ◌^◌, ◌≤◌, ◌<◌, ◌≡◌, refl, subst, ap, ap₂, sym, ◌∙◌, inl, inr, List, [],
  ◌∷◌, ◌++◌, Bool, true, false, not, Option, none, some, arith, length, copy, take, drop, ◌==◌, min,
  if◌then◌else◌, Result, ok, length-copy, take-copy, take-append-drop, length-take, length-drop,
  eqb_refl, Bool-cases,
}
use mathlib.Core.List.{append-nil, append_assoc}
use psicose.P2p.Message.{StreamId, MessageId, MessageHeader, HeaderBytes, to_bytes, header_list}
use psicose.P2p.Fragmenter.{
  Fragmenter, is_empty, header_of, after_fragment, next_fragment, wire_from,
}
use psicose.P2p.Fragmenter
use psicose.P2p.Defragmenter.{
  Defragmenter, DefragError, as_slice, other_stream, other_message, take_header, finish_chunk, feed,
}
use psicose.P2p.Defragmenter
use psicose.P2p.Defragmenter.Chunk.{waiting, inside, then_feed, feed-header, feed-chunk}

if_true {ℓ} : {A : Type ℓ} {b : Bool} {x : A} (y : A) → b ≡ true → (if b then x else y) ≡ x
if_true y h = rw h refl

if_false {ℓ} : {A : Type ℓ} {b : Bool} (x : A) {y : A} → b ≡ false → (if b then x else y) ≡ y
if_false x h = rw h refl

module _ (frag : ℕ) (s : Option StreamId) (m : Option MessageId) where
  -- The header that comes next is taken, and its chunk is awaited.
  take_header-next :
      (w : HeaderBytes) (buf : List ℕ) (filled got : ℕ) (h : MessageHeader)
      → h.fragment ≡ frag
      → other_stream s h.stream ≡ false
      → other_message m h.message ≡ false
      → take_header (waiting w frag s m buf filled got) h ≡ (
          if h.len == 0
          then finish_chunk (inside w frag (some h.stream) (some h.message) h buf filled 0)
          else (inside w frag (some h.stream) (some h.message) h buf filled 0, ok false))
  unfolding take_header
  take_header-next w buf filled got h e es em =
      let same : h.fragment == frag ≡ true = rw e (eqb_refl frag) in simp (same, es, em) refl

  -- A fragment, its header and its chunk, ends the chunk with the bytes in the buffer.
  feed-fragment :
      (w : HeaderBytes) (buf : List ℕ) (filled got : ℕ) (h : MessageHeader) (chunk rest : List ℕ)
      → length chunk ≡ h.len
      → h.len < 256
      → filled + length chunk ≤ length buf
      → h.fragment ≡ frag
      → other_stream s h.stream ≡ false
      → other_message m h.message ≡ false
      → feed (waiting w frag s m buf filled got) (header_list (to_bytes h) ++ (chunk ++ rest))
        ≡ then_feed rest (
            finish_chunk (
              inside
                (to_bytes h)
                frag
                (some h.stream)
                (some h.message)
                h
                (copy buf filled chunk)
                (filled + length chunk)
                h.len))
  feed-fragment w buf filled got h [] rest e lt room ef es em =
      let whole : filled ≡ filled + 0 = omega arith in
      let none_left : h.len == 0 ≡ true = ground arith in
      feed-header frag s m w buf filled got h rest
      ∙ ap (then_feed rest) (
          take_header-next (to_bytes h) buf filled got h ef es em
          ∙ if_true _ none_left
          ∙ ap₂
              (λ i g.
                finish_chunk (inside (to_bytes h) frag (some h.stream) (some h.message) h buf i g))
              whole e)
  feed-fragment w buf filled got h (c ∷ chunk) rest e lt room ef es em =
      let some_left : h.len == 0 ≡ false = ground arith in
      feed-header frag s m w buf filled got h ((c ∷ chunk) ++ rest)
      ∙ ap (then_feed ((c ∷ chunk) ++ rest))
          (take_header-next (to_bytes h) buf filled got h ef es em ∙ if_false _ some_left)
      ∙ feed-chunk frag (some h.stream) (some h.message) (to_bytes h) buf filled 0 h c chunk rest
          (omega arith) lt room

-- The message is whole: the bytes of `before`, then those of `rest`.
pub record IsWhole (f : Fragmenter) (before : List ℕ) (r : Defragmenter × Result Bool DefragError)
    : Type 0 where
  pub answer : r.1 ≡ ok true
  pub complete : r.0.complete ≡ true
  pub slice : as_slice r.0 ≡ before ++ f.rest
  pub stream : r.0.stream ≡ some f.stream
  pub message : r.0.message ≡ some f.message

wire_from-done : (fuel : ℕ) (f : Fragmenter) → f.done ≡ true → wire_from fuel f ≡ []
unfolding wire_from next_fragment
wire_from-done zero f h = refl
wire_from-done (suc fuel) f h = rw (h, wire_from, next_fragment) refl

next_fragment-more :
    (f : Fragmenter)
    → f.done ≡ false
    → let n = min f.chunk (length f.rest) in
      next_fragment f ≡ (after_fragment f n, some (header_of f n, take n f.rest))
unfolding next_fragment
next_fragment-more f h = if_false _ h

wire_from-next :
    (fuel : ℕ) (f : Fragmenter)
    → f.done ≡ false
    → let n = min f.chunk (length f.rest) in
      wire_from (suc fuel) f
      ≡ header_list (to_bytes (header_of f n))
        ++ (take n f.rest ++ wire_from fuel (after_fragment f n))
unfolding wire_from
wire_from-next fuel f h = rw (next_fragment-more f h, wire_from) (rw (next_fragment-more f h) refl)

is_empty→nil : (xs : List ℕ) → is_empty xs ≡ true → xs ≡ []
is_empty→nil [] h = refl
is_empty→nil (x ∷ xs) h = cc

not_empty : (xs : List ℕ) → is_empty xs ≡ false → 1 ≤ length xs
not_empty [] h = cc
not_empty (x ∷ xs) h = omega arith

-- The last chunk is in the buffer.
ends :
    (f : Fragmenter) (w : HeaderBytes) (frag : ℕ) (h : MessageHeader) (buf before : List ℕ)
    (filled got : ℕ) (rest : List ℕ)
    → h.last ≡ true
    → rest ≡ []
    → take filled buf ≡ before ++ f.rest
    → IsWhole f before (
        then_feed rest
          (finish_chunk (inside w frag (some f.stream) (some f.message) h buf filled got)))
unfolding finish_chunk feed as_slice
ends f w frag h buf before filled got rest last none_left slice =
    simp (last, none_left)
      record { answer = refl; complete = refl; slice = slice; stream = refl; message = refl }

-- A chunk that is not the last is in the buffer, and the next header is awaited.
goes_on :
    (w : HeaderBytes) (frag : ℕ) (s : Option StreamId) (m : Option MessageId) (h : MessageHeader)
    (buf : List ℕ) (filled got : ℕ) (rest : List ℕ)
    → h.last ≡ false
    → then_feed rest (finish_chunk (inside w frag s m h buf filled got))
      ≡ feed (waiting w ((frag + 1) % 2 ^ 16) s m buf filled got) rest
unfolding finish_chunk
goes_on w frag s m h buf filled got rest last = simp last refl

rebuilds :
    (fuel : ℕ) (f : Fragmenter) (w : HeaderBytes) (buf : List ℕ) (filled got : ℕ)
    (s : Option StreamId) (m : Option MessageId)
    → length f.rest < fuel
    → f.done ≡ false
    → 1 ≤ f.chunk
    → f.chunk < 256
    → filled + length f.rest ≤ length buf
    → other_stream s f.stream ≡ false
    → other_message m f.message ≡ false
    → IsWhole f
        (take filled buf)
        (feed (waiting w f.fragment s m buf filled got) (wire_from fuel f))
unfolding header_of after_fragment other_stream other_message as_slice
rebuilds zero f w buf filled got s m lt run c1 c2 room es em = absurd (omega arith)
rebuilds (suc fuel) f w buf filled got s m lt run c1 c2 room es em =
    let n = min f.chunk (length f.rest) in
    let h = header_of f n in
    let f' = after_fragment f n in
    let chunk = take n f.rest in
    let buf' = copy buf filled chunk in
    let size : length chunk ≡ n = length-take n f.rest (omega arith) in
    let left : n + length (drop n f.rest) ≡ length f.rest = length-drop n f.rest (omega arith) in
    let len : length chunk ≡ h.len = omega (arith, size) in
    let slice : take (filled + length chunk) buf' ≡ take filled buf ++ chunk =
      take-copy buf filled chunk (omega (arith, size)) in
    let step =
      ap (feed (waiting w f.fragment s m buf filled got)) (wire_from-next fuel f run)
      ∙ feed-fragment f.fragment s m w buf filled got h chunk (wire_from fuel f') len (omega arith)
          (omega (arith, size)) refl es em in
    subst (IsWhole f (take filled buf)) (sym step) (elim (Bool-cases (is_empty (drop n f.rest))) [
      | inl last ↦
          ends f (to_bytes h) f.fragment h buf' (take filled buf) (filled + length chunk) h.len
            (wire_from fuel f') last (wire_from-done fuel f' last)
            (slice
              ∙ ap (λ xs. take filled buf ++ xs)
                  (sym (append-nil chunk)
                    ∙ ap (λ xs. chunk ++ xs) (sym (is_empty→nil (drop n f.rest) last))
                    ∙ take-append-drop n f.rest))
      | inr more ↦
          let some_left : 1 ≤ n = omega (arith, left, not_empty (drop n f.rest) more) in
          let whole =
            rebuilds fuel f' (to_bytes h) buf' (filled + length chunk) h.len (some f.stream)
              (some f.message) (omega (arith, left)) more c1 c2
              (omega (arith, left, size, length-copy buf filled chunk))
              (ap not (eqb_refl f.stream.raw)) (ap not (eqb_refl f.message.raw)) in
          subst (IsWhole f (take filled buf))
            (sym (
              goes_on (to_bytes h) f.fragment (some f.stream) (some f.message) h buf'
                (filled + length chunk) h.len (wire_from fuel f') more))
            record {
              answer = whole.answer;
              complete = whole.complete;
              slice =
                  whole.slice
                  ∙ ap (λ xs. xs ++ drop n f.rest) slice
                  ∙ append_assoc (take filled buf) chunk (drop n f.rest)
                  ∙ ap (λ xs. take filled buf ++ xs) (take-append-drop n f.rest);
              stream = whole.stream;
              message = whole.message;
            }
    ])

-- A message of any length, cut into fragments of at most `max_fragment` bytes and fed byte by byte
-- to a new defragmenter whose buffer can hold it, comes out whole and unchanged, with its stream
-- and message ids, after the last byte and with no refusal on the way.
pub fragments-roundtrip :
    (stream : StreamId) (message : MessageId) (payload : List ℕ) (max_fragment : ℕ) (buf : List ℕ)
    → max_fragment < 256
    → length payload ≤ length buf
    → let sent = Fragmenter.new stream message payload max_fragment in
      IsWhole sent [] (feed (Defragmenter.new buf) (wire_from (suc (length payload)) sent))
unfolding Fragmenter.new Defragmenter.new other_stream other_message
fragments-roundtrip stream message payload max_fragment buf lt room =
    rebuilds (suc (length payload)) _ _ buf 0 0 none none (omega arith) refl (ground arith)
      (ground arith) (omega arith) refl refl
