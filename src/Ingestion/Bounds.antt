-- ===== src/Ingestion/Bounds.antt =====
-- The bounds that `chunk_document` keeps.
use featherlane_ai.Prelude.{
  ℕ, suc, ◌<◌, ◌≡◌, refl, ap, inl, inr, List, [], ◌∷◌, All, length, ltb, ltb→lt, Bool-cases, arith,
}
use featherlane_ai.Text.{char_count, is_blank}
use featherlane_ai.Ingestion.{
  SourceSegment, PolicyChunk, Chunking, finish_chunks, complete_last, completes, mark_complete,
  chunk_document,
}
use featherlane_ai.Ingestion.Rounds.{
  IsWithin, AreWithin, Keeps, push_chunk-Keeps, cut_short-Keeps, take_segments-Kept, left-Keeps,
}

module _ (max_chars max_chunks : ℕ) where
  finish_chunks-Keeps :
      (s : Chunking)
      → Keeps max_chars max_chunks s
      → Keeps max_chars max_chunks (finish_chunks max_chars max_chunks s)
  unfolding finish_chunks
  finish_chunks-Keeps s k = elim (Bool-cases (is_blank s.content)) [
    | inl blank ↦ rw blank k
    | inr text ↦ elim (Bool-cases (ltb (length s.chunks) max_chunks)) [
      | inl room ↦ rw (text, room) (push_chunk-Keeps max_chars max_chunks s (ltb→lt _ _ room) k)
      | inr full ↦ rw (text, full) (cut_short-Keeps max_chars max_chunks s k)
    ]
  ]

  complete_last-AreWithin :
      (cs : List PolicyChunk)
      → (length (complete_last cs) ≡ length cs)
        × (All (IsWithin max_chars max_chunks) cs
            → All (IsWithin max_chars max_chunks) (complete_last cs))
  complete_last-AreWithin [] = (refl, λ h. h)
  complete_last-AreWithin (c ∷ []) = (refl, λ h. h)
  complete_last-AreWithin (c ∷ d ∷ cs) =
      let (e, f) = complete_last-AreWithin (d ∷ cs) in (ap suc e, λ h. (h.0, f h.1))

  mark_complete-AreWithin :
      (gs : List SourceSegment) (s : Chunking)
      → Keeps max_chars max_chunks s
      → AreWithin max_chars max_chunks (mark_complete gs s)
  unfolding mark_complete
  mark_complete-AreWithin gs s k =
      let (e, f) = complete_last-AreWithin s.chunks in
      elim (Bool-cases (completes gs s)) [
        | inl whole ↦ rw whole (omega (arith, e, k.within.0), f k.within.1)
        | inr part ↦ rw part k.within
      ]

  -- Chunks are bounded: there are at most `max_chunks`, and none has more than `max_chars`
  -- characters, label included, when `max_chars` is above 64, the room that is left for a label, and
  -- below the greatest `usize`, and the ordinals are of 32 bits.
  pub chunk_document-AreWithin :
      (gs : List SourceSegment)
      → 64 < max_chars
      → max_chars < 18446744073709551615
      → All (λ g. g.ordinal < 4294967296) gs
      → AreWithin max_chars max_chunks (chunk_document max_chars max_chunks gs)
  unfolding chunk_document char_count
  chunk_document-AreWithin gs wide narrow h = mark_complete-AreWithin gs _ (
      finish_chunks-Keeps _ (
        left-Keeps max_chars max_chunks wide narrow _ (
          take_segments-Kept max_chars max_chunks wide narrow gs _ h
            (record { within = (omega arith, tt); short = omega arith }))))
