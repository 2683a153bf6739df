-- ===== src/P2p/MessageTests.antt =====
-- Messages and their fragments at concrete inputs.
use psicose.Prelude.{ℕ, List, [], ◌∷◌, ◌≡◌, true, ok, arith}
use psicose.P2p.Message.{MessageHeader, forum_stream, to_bytes, from_bytes}
use psicose.P2p.Message.Laws.{header_from_bytes-to_bytes}
use psicose.P2p.Fragmenter.{wire_from}
use psicose.P2p.Fragmenter
use psicose.P2p.Defragmenter.{feed}
use psicose.P2p.Defragmenter
use psicose.P2p.Fragments.{IsWhole, fragments-roundtrip}

abbrev a_header : MessageHeader
a_header = record {
  stream = forum_stream;
  message = record { raw = 513 };
  fragment = 258;
  last = true;
  len = 9;
}

header_from_bytes-to_bytes_example : from_bytes (to_bytes a_header) ≡ ok a_header
header_from_bytes-to_bytes_example = header_from_bytes-to_bytes a_header

abbrev three_bytes : List ℕ
three_bytes = 72 ∷ 105 ∷ 33 ∷ []

abbrev four_places : List ℕ
four_places = 0 ∷ 0 ∷ 0 ∷ 0 ∷ []

fragments-roundtrip_example :
    IsWhole (Fragmenter.new forum_stream (record { raw = 7 }) three_bytes 2) [] (
      feed
        (Defragmenter.new four_places)
        (wire_from 4 (Fragmenter.new forum_stream (record { raw = 7 }) three_bytes 2)))
fragments-roundtrip_example =
    fragments-roundtrip forum_stream (record { raw = 7 }) three_bytes 2 four_places (omega arith)
      (omega arith)
