-- ===== src/Ingestion/Tests.antt =====
-- Two short segments in one chunk, and a long one cut in pieces.
use featherlane_ai.Prelude.{
  ℕ, ◌≡◌, refl, true, false, none, All, inl, inr, List, [], ◌∷◌, map, String, length, arith,
}
use featherlane_ai.Text.{char_count, decimal}
use featherlane_ai.Ingestion.{
  SourceSegment, labeled, zeros, push_chunk, take_chars, drop_chars, pieces, chunk_pieces, flush,
  piece_characters, overflows, make_room, take_segment, take_segments, finish_chunks, mark_complete,
  chunk_document,
}
use featherlane_ai.Ingestion.Rounds.{AreWithin}
use featherlane_ai.Ingestion.Bounds.{chunk_document-AreWithin}
use featherlane_ai.Ingestion.Completion.{chunk_document-covers}
use featherlane_ai.Ingestion.Coverage.{IsCovered}
use featherlane_ai.Ingestion.Contents.{Writes, contents}

abbrev segment : ℕ → String → SourceSegment
segment ordinal text = record {
  ordinal = ordinal;
  page = none;
  section = none;
  paragraph_start = none;
  paragraph_end = none;
  text = text;
  text_sha256 = "";
}

abbrev segments : List SourceSegment
segments =
    segment 1 "ab"
    ∷ segment 2 "0123456789012345678901234567890123456789012345678901234567890123456789"
    ∷ []

chunking : Unit {0}
unfolding chunk_document take_segments take_segment make_room overflows piece_characters flush
    chunk_pieces pieces take_chars drop_chars push_chunk zeros labeled finish_chunks mark_complete
    char_count
chunking = tt

chunk_tests :
    (length (chunk_document 100 9 segments) ≡ 3)
    × (map (λ c. c.completes_document) (chunk_document 100 9 segments) ≡ false ∷ false ∷ true ∷ [])
    × (map (λ c. c.segment_ordinals) (chunk_document 100 2 segments) ≡ (1 ∷ []) ∷ (2 ∷ []) ∷ [])
    × (map (λ c. c.completes_document) (chunk_document 100 2 segments) ≡ false ∷ false ∷ [])
unfolding chunking decimal
chunk_tests = (refl, refl, refl, refl)

chunk_document-AreWithin_example : AreWithin 100 9 (chunk_document 100 9 segments)
chunk_document-AreWithin_example =
    chunk_document-AreWithin 100 9 segments (omega arith) (omega arith)
      (omega arith, (omega arith, tt))

chunk_document-covers_example :
    All (λ g. IsCovered (chunk_document 100 9 segments) g.ordinal) segments
    × Writes segments (contents (chunk_document 100 9 segments))
unfolding chunking decimal
chunk_document-covers_example =
    chunk_document-covers 100 9 segments (omega arith) (omega arith, (omega arith, tt))
      (inr (inr (inl refl)))
