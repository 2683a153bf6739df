-- ===== src/P2p/Defragmenter/Chunk.antt =====
-- What the defragmenter does with the bytes of a header, and with those of a chunk.
use psicose.Prelude.{
  ℕ, suc, ◌+◌, min, ◌∙◌, ◌≤◌, ◌<◌, ◌≡◌, refl, List, [], ◌∷◌, ◌++◌, Bool, true, false, Option, none,
  some, arith, length, set, copy, leb, Result, ok, ◌>>=◌, length-set,
}
use psicose.P2p.Message.{StreamId, MessageId, MessageHeader, HeaderBytes, to_bytes, header_list}
use psicose.P2p.Message.Laws.{header_from_bytes-to_bytes}
use psicose.P2p.Defragmenter.{
  Defragmenter, DefragError, take_header, finish_chunk, push, push_body, feed,
}

module _ (w : HeaderBytes) (frag : ℕ) (s : Option StreamId) (m : Option MessageId) where
  -- Between two fragments, with no byte of the next header.
  abbrev pub waiting : List ℕ → ℕ → ℕ → Defragmenter
  waiting buf filled got = record {
    buf = buf;
    filled = filled;
    hdr = w;
    hdr_at = 0;
    current = none;
    chunk_got = got;
    expect_frag = frag;
    stream = s;
    message = m;
    complete = false;
  }

  -- Inside the chunk whose header is `h`.
  abbrev pub inside : MessageHeader → List ℕ → ℕ → ℕ → Defragmenter
  inside h buf filled got = record (waiting buf filled got) { current = some h }

-- Go on with the bytes that are left.
abbrev pub then_feed :
    List ℕ → Defragmenter × Result Bool DefragError → Defragmenter × Result Bool DefragError
then_feed rest r = r >>= λ whole d. feed d rest

module _ (frag : ℕ) (s : Option StreamId) (m : Option MessageId) where
  pub feed-header :
      (w : HeaderBytes) (buf : List ℕ) (filled got : ℕ) (h : MessageHeader) (rest : List ℕ)
      → feed (waiting w frag s m buf filled got) (header_list (to_bytes h) ++ rest)
        ≡ then_feed rest (take_header (waiting (to_bytes h) frag s m buf filled got) h)
  unfolding feed push header_list
  feed-header w buf filled got h rest = rw (header_from_bytes-to_bytes h) refl

  push-last :
      (w : HeaderBytes) (buf : List ℕ) (filled got : ℕ) (h : MessageHeader) (c : ℕ)
      → got + 1 ≡ h.len
      → h.len < 256
      → filled < length buf
      → push (inside w frag s m h buf filled got) c
        ≡ finish_chunk (inside w frag s m h (set buf filled c) (filled + 1) h.len)
  unfolding push push_body finish_chunk
  push-last w buf filled got h c e lt room =
      let space : leb (length buf) filled ≡ false = ground arith in
      let whole : min (got + 1) 255 ≡ h.len = omega arith in
      let ends : leb h.len h.len ≡ true = ground arith in simp (space, whole, ends) refl

  push-more :
      (w : HeaderBytes) (buf : List ℕ) (filled got : ℕ) (h : MessageHeader) (c : ℕ)
      → got + 1 < h.len
      → h.len < 256
      → filled < length buf
      → push (inside w frag s m h buf filled got) c
        ≡ (inside w frag s m h (set buf filled c) (filled + 1) (got + 1), ok false)
  unfolding push push_body
  push-more w buf filled got h c e lt room =
      let space : leb (length buf) filled ≡ false = ground arith in
      let whole : min (got + 1) 255 ≡ got + 1 = omega arith in
      let goes_on : leb h.len (got + 1) ≡ false = ground arith in simp (space, whole, goes_on) refl

  pub feed-chunk :
      (w : HeaderBytes) (buf : List ℕ) (filled got : ℕ) (h : MessageHeader) (c : ℕ)
      (chunk rest : List ℕ)
      → got + suc (length chunk) ≡ h.len
      → h.len < 256
      → filled + suc (length chunk) ≤ length buf
      → feed (inside w frag s m h buf filled got) ((c ∷ chunk) ++ rest)
        ≡ then_feed rest (
            finish_chunk (
              inside w frag s m h
                (copy buf filled (c ∷ chunk))
                (filled + suc (length chunk))
                h.len))
  unfolding feed
  feed-chunk w buf filled got h c [] rest e lt room =
      rw (push-last w buf filled got h c e lt (omega arith)) refl
  feed-chunk w buf filled got h c (b ∷ chunk) rest e lt room =
      let next : filled + 1 ≡ suc filled = omega arith in
      let count : suc filled + suc (length chunk) ≡ filled + suc (suc (length chunk)) =
        omega arith in
      rw (push-more w buf filled got h c (omega arith) lt (omega arith), next)
        (feed-chunk w (set buf filled c) (suc filled) (got + 1) h b chunk rest (omega arith) lt
            (omega (arith, length-set buf filled c))
          ∙ rw count refl)
