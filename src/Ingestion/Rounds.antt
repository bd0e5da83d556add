-- ===== src/Ingestion/Rounds.antt =====
-- The bounds that the rounds of the loop of `chunk_document` keep.
use Prim.Native.String.{◌∷◌ as char_cons, [] as nil}
use featherlane_ai.Prelude.{
  ℕ, ◌+◌, ◌-◌, ◌≤◌, ◌<◌, ◌≡◌, refl, inl, inr, true, false, max, List, [], ◌∷◌, String, All, All-map,
  All-append, length, length-append, ltb, Bool-cases, arith,
}
use featherlane_ai.Text.{char_count, is_blank}
use featherlane_ai.Ingestion.{
  SourceSegment, PolicyChunk, Chunking, Round, continues, breaks, ◌>>=◌, left, labeled, push_chunk,
  is_full, cut_short, write_segment, chunk_pieces, flush, piece_characters, overflows, make_room,
  take_segment, take_segments,
}
use featherlane_ai.Ingestion.Texts.{char_count-append, char_count-labeled, pieces-le}

module _ (max_chars max_chunks : ℕ) where
  abbrev pub IsWithin : PolicyChunk → Type 0
  IsWithin c = char_count c.content ≤ max_chars

  abbrev pub AreWithin : List PolicyChunk → Type 0
  AreWithin cs = (length cs ≤ max_chunks) × All IsWithin cs

  pub record Keeps (s : Chunking) : Type 0 where
    pub within : AreWithin s.chunks
    pub short : char_count s.content ≤ max_chars

  not_full : (s : Chunking) → is_full max_chars max_chunks s ≡ false → length s.chunks < max_chunks
  not_full s h = ground arith

  pub push_chunk-Keeps :
      (s : Chunking) → length s.chunks < max_chunks → Keeps s → Keeps (push_chunk s)
  unfolding push_chunk char_count
  push_chunk-Keeps s room k = record {
    within = (
      omega (arith, room, length-append s.chunks),
      All-append IsWithin s.chunks _ k.within.1 (k.short, tt),
    );
    short = omega arith;
  }

  abbrev IsEmptied : Chunking → Type 0
  IsEmptied s = char_count s.content ≡ 0

  blank-char_count : (t : String) → is_blank t ≡ true → char_count t ≡ 0
  unfolding char_count
  blank-char_count nil h = refl
  blank-char_count (char_cons c t) h = cc

  push_chunk-IsEmptied : (s : Chunking) → IsEmptied (push_chunk s)
  unfolding push_chunk char_count
  push_chunk-IsEmptied s = refl

  pub cut_short-Keeps : (s : Chunking) → Keeps s → Keeps (cut_short max_chars max_chunks s)
  cut_short-Keeps s k = record { within = k.within; short = k.short }

  write_segment-Keeps :
      (ordinal : ℕ) (text : String) (s : Chunking)
      → Keeps s
      → char_count s.content + char_count text ≤ max_chars
      → Keeps (write_segment max_chars max_chunks ordinal text s)
  write_segment-Keeps ordinal text s k h = record {
    within = k.within;
    short = omega (arith, h, char_count-append s.content text);
  }

  module _ (wide : 64 < max_chars) (narrow : max_chars < 18446744073709551615) where
    chunk_pieces-Keeps :
        (ordinal : ℕ)
        → ordinal < 4294967296
        → (ps : List String) → All (λ p. char_count p ≤ max_chars - 64) ps
        → (s : Chunking) → Keeps s
        → IsEmptied s
        → Keeps (chunk_pieces max_chars max_chunks ordinal ps s)
    unfolding chunk_pieces
    chunk_pieces-Keeps ordinal h [] small s k e = k
    chunk_pieces-Keeps ordinal h (p ∷ ps) small s k e =
        elim (Bool-cases (is_full max_chars max_chunks s)) [
          | inl full ↦ rw full (cut_short-Keeps s k)
          | inr open' ↦
              let t = write_segment max_chars max_chunks ordinal (labeled ordinal p) s in
              let kept =
                write_segment-Keeps ordinal (labeled ordinal p) s k
                  (omega (arith, wide, e, small.0, char_count-labeled ordinal p h)) in
              rw open' (
                chunk_pieces-Keeps ordinal h ps small.1 (push_chunk t)
                  (push_chunk-Keeps t (not_full s open') kept) (push_chunk-IsEmptied t))
        ]

    flush-Keeps :
        (s : Chunking)
        → length s.chunks < max_chunks
        → Keeps s
        → Keeps (flush max_chars max_chunks s) × IsEmptied (flush max_chars max_chunks s)
    unfolding flush
    flush-Keeps s room k = elim (Bool-cases (is_blank s.content)) [
      | inl blank ↦ rw blank (k, blank-char_count s.content blank)
      | inr text ↦ rw text (push_chunk-Keeps s room k, push_chunk-IsEmptied s)
    ]

    abbrev HasRoom : ℕ → Round → Type 0
    HasRoom n (continues s) = Keeps s × (char_count s.content + n ≤ max_chars)
    HasRoom n (breaks s) = Keeps s

    overflows-fits :
        (text : String) (s : Chunking)
        → char_count text ≤ max_chars
        → overflows max_chars max_chunks text s ≡ false
        → char_count s.content + char_count text ≤ max_chars
    unfolding overflows
    overflows-fits text s h e = elim (Bool-cases (is_blank s.content)) [
      | inl blank ↦ omega (arith, h, blank-char_count s.content blank)
      | inr some' ↦ ground (arith, narrow, rw some' at e)
    ]

    make_room-HasRoom :
        (text : String) (s : Chunking)
        → char_count text ≤ max_chars
        → length s.chunks < max_chunks
        → Keeps s
        → HasRoom (char_count text) (make_room max_chars max_chunks text s)
    unfolding make_room
    make_room-HasRoom text s h room k =
        let pushed = push_chunk-Keeps s room k in
        elim (Bool-cases (overflows max_chars max_chunks text s)) [
          | inr fits ↦ rw fits (k, overflows-fits text s h fits)
          | inl over ↦ elim (Bool-cases (is_full max_chars max_chunks (push_chunk s))) [
            | inl full ↦ rw (over, full) (cut_short-Keeps (push_chunk s) pushed)
            | inr open' ↦ rw (over, open') (pushed, omega (arith, h, push_chunk-IsEmptied s))
          ]
        ]

    abbrev pub Kept : Round → Type 0
    Kept (continues s) = Keeps s
    Kept (breaks s) = Keeps s

    bind-Kept :
        (n : ℕ) (r : Round) (k : Chunking → Round)
        → HasRoom n r
        → ((s : Chunking) → Keeps s → char_count s.content + n ≤ max_chars → Kept (k s))
        → Kept (r >>= k)
    bind-Kept n (continues s) k h f = f s h.0 h.1
    bind-Kept n (breaks s) k h f = h

    next-Kept :
        (r : Round) (k : Chunking → Round)
        → Kept r
        → ((s : Chunking) → Keeps s → Kept (k s))
        → Kept (r >>= k)
    next-Kept (continues s) k h f = f s h
    next-Kept (breaks s) k h f = h

    take_segment-Kept :
        (g : SourceSegment) (s : Chunking)
        → g.ordinal < 4294967296
        → Keeps s
        → Kept (take_segment max_chars max_chunks g s)
    unfolding take_segment piece_characters
    take_segment-Kept g s h k = elim (Bool-cases (is_full max_chars max_chunks s)) [
      | inl full ↦ rw full (cut_short-Keeps s k)
      | inr open' ↦
          let text = labeled g.ordinal g.text in
          elim (Bool-cases (ltb max_chars (char_count text))) [
            | inl long ↦
                let (kept, emptied) = flush-Keeps s (not_full s open') k in
                rw (open', long)
                  (chunk_pieces-Keeps g.ordinal h _
                    (All-map (λ p q. omega (arith, wide, q)) _
                      (pieces-le (char_count g.text) (max (max_chars - 64) 1) g.text))
                    (flush max_chars max_chunks s) kept emptied)
            | inr short' ↦
                rw (open', short')
                  (bind-Kept (char_count text) (make_room max_chars max_chunks text s) _
                    (make_room-HasRoom text s (ground (arith, short')) (not_full s open') k)
                    (λ t kept fits. write_segment-Keeps g.ordinal text t kept fits))
          ]
    ]

    pub take_segments-Kept :
        (gs : List SourceSegment) (s : Chunking)
        → All (λ g. g.ordinal < 4294967296) gs
        → Keeps s
        → Kept (take_segments max_chars max_chunks gs s)
    unfolding take_segments
    take_segments-Kept [] s h k = k
    take_segments-Kept (g ∷ gs) s h k =
        next-Kept (take_segment max_chars max_chunks g s) (take_segments max_chars max_chunks gs)
          (take_segment-Kept g s h.0 k) (λ t kept. take_segments-Kept gs t h.1 kept)

    pub left-Keeps : (r : Round) → Kept r → Keeps (left r)
    left-Keeps (continues s) k = k
    left-Keeps (breaks s) k = k
