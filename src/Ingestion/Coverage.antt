-- ===== src/Ingestion/Coverage.antt =====
-- Which segments the loop of `chunk_document` has written.
use Prim.Native.String.{◌∷◌ as char_cons, [] as nil, ◌++◌ as str_append}
use text.Mathlib.TextLemmas.{nil-append, cons-append}
use featherlane_ai.Prelude.{
  ℕ, ◌<◌, ◌≡◌, refl, ap, ◌∙◌, inl, inr, true, false, List, [], ◌∷◌, String, ◌⊎◌, All, All-map,
  All-append, In, Any, Any-append_left, Any-append_right, ltb, Bool-cases, arith, false-ne_true,
}
use featherlane_ai.Text.{char_count, is_blank}
use featherlane_ai.Ingestion.{
  SourceSegment, PolicyChunk, Chunking, Round, continues, breaks, ◌>>=◌, left, labeled, push_chunk,
  pieces, is_full, cut_short, write_segment, chunk_pieces, flush, piece_characters, overflows,
  make_room, take_segment, take_segments,
}
use featherlane_ai.Ingestion.Texts.{char_count-labeled}

is_blank-append_right : (s t : String) → is_blank t ≡ false → is_blank (str_append s t) ≡ false
is_blank-append_right nil t h = ap is_blank (nil-append t) ∙ h
is_blank-append_right (char_cons c s) t h = ap is_blank (cons-append c s t)

is_blank-append_left : (s t : String) → is_blank s ≡ false → is_blank (str_append s t) ≡ false
is_blank-append_left nil t h = absurd (cc)
is_blank-append_left (char_cons c s) t h = ap is_blank (cons-append c s t)

is_blank-labeled : (ordinal : ℕ) (text : String) → is_blank (labeled ordinal text) ≡ false
unfolding labeled
is_blank-labeled ordinal text = is_blank-append_left "<source-segment ordinal=\"" _ refl

abbrev pub IsCovered : List PolicyChunk → ℕ → Type 0
IsCovered cs x = Any (λ c. In x c.segment_ordinals) cs

abbrev pub Covers : Chunking → ℕ → Type 0
Covers s x = IsCovered s.chunks x ⊎ In x s.ordinals

-- The ordinals of segments, in front of others.
abbrev pub added : List SourceSegment → List ℕ → List ℕ
added [] xs = xs
added (g ∷ gs) xs = added gs (g.ordinal ∷ xs)

-- The segments `xs` were written, unless a bound cut the document short.
pub record Holds (xs : List ℕ) (s : Chunking) : Type 0 where
  pub fresh : All (λ c. c.completes_document ≡ false) s.chunks
  pub tidy : is_blank s.content ≡ true → s.ordinals ≡ []
  pub covered : s.fully_processed ≡ true → All (Covers s) xs

push_chunk-Covers : (s : Chunking) (x : ℕ) → Covers s x → Covers (push_chunk s) x
unfolding push_chunk
push_chunk-Covers s x (inl h) = inl (Any-append_left _ s.chunks _ h)
push_chunk-Covers s x (inr h) = inl (Any-append_right _ s.chunks _ (inl h))

pub push_chunk-Holds : (xs : List ℕ) (s : Chunking) → Holds xs s → Holds xs (push_chunk s)
unfolding push_chunk
push_chunk-Holds xs s h = record {
  fresh = All-append _ s.chunks _ h.fresh (refl, tt);
  tidy = λ _. refl;
  covered = λ e. All-map (push_chunk-Covers s) xs (h.covered e);
}

module _ (max_chars max_chunks : ℕ) where
  cut_short-Holds :
      (xs ys : List ℕ) (s : Chunking) → Holds xs s → Holds ys (cut_short max_chars max_chunks s)
  cut_short-Holds xs ys s h = record {
    fresh = h.fresh;
    tidy = h.tidy;
    covered = λ e. false-ne_true e refl;
  }

  write_segment-Holds :
      (xs : List ℕ) (ordinal : ℕ) (text : String) (s : Chunking)
      → Holds xs s
      → Holds (ordinal ∷ xs) (write_segment max_chars max_chunks ordinal (labeled ordinal text) s)
  write_segment-Holds xs ordinal text s h = record {
    fresh = h.fresh;
    tidy = λ e. false-ne_true e (is_blank-append_right s.content _ (is_blank-labeled ordinal text));
    covered = λ e. (
      inr (Any-append_right _ s.ordinals _ (inl refl)),
      All-map (λ x c. elim c [ inl a ↦ inl a | inr a ↦ inr (Any-append_left _ s.ordinals _ a) ]) xs
          (h.covered e),
    );
  }

  chunk_pieces-Holds :
      (xs : List ℕ) (ordinal : ℕ) (ps : List String) (s : Chunking)
      → Holds (ordinal ∷ xs) s
      → Holds (ordinal ∷ xs) (chunk_pieces max_chars max_chunks ordinal ps s)
  unfolding chunk_pieces
  chunk_pieces-Holds xs ordinal [] s h = h
  chunk_pieces-Holds xs ordinal (p ∷ ps) s h = elim (Bool-cases (is_full max_chars max_chunks s)) [
    | inl full ↦ rw full (cut_short-Holds (ordinal ∷ xs) (ordinal ∷ xs) s h)
    | inr open' ↦
        let t = write_segment max_chars max_chunks ordinal (labeled ordinal p) s in
        let k = push_chunk-Holds _ t (write_segment-Holds _ ordinal p s h) in
        rw open' (
          chunk_pieces-Holds xs ordinal ps (push_chunk t)
            (record { fresh = k.fresh; tidy = k.tidy; covered = λ e. (k.covered e).1 }))
  ]

  -- One piece is enough to cover a segment.
  chunk_pieces-covers :
      (xs : List ℕ) (ordinal : ℕ) (text : String) (n : ℕ) (s : Chunking)
      → 0 < char_count text
      → Holds xs s
      → Holds
          (ordinal ∷ xs)
          (chunk_pieces max_chars max_chunks ordinal (pieces (char_count text) n text) s)
  unfolding chunk_pieces pieces char_count
  chunk_pieces-covers xs ordinal nil n s some' h = absurd (omega (arith, some'))
  chunk_pieces-covers xs ordinal (char_cons c text) n s some' h =
      let ps = pieces (char_count (char_cons c text)) n (char_cons c text) in
      elim (Bool-cases (is_full max_chars max_chunks s)) [
        | inl full ↦ rw full (cut_short-Holds xs (ordinal ∷ xs) s h)
        | inr open' ↦ rw open' (
            chunk_pieces-Holds xs ordinal _ _
              (push_chunk-Holds (ordinal ∷ xs) _ (write_segment-Holds xs ordinal _ s h)))
      ]

  flush-Holds : (xs : List ℕ) (s : Chunking) → Holds xs s → Holds xs (flush max_chars max_chunks s)
  unfolding flush
  flush-Holds xs s h = elim (Bool-cases (is_blank s.content)) [
    | inl blank ↦ rw blank h
    | inr text ↦ rw text (push_chunk-Holds xs s h)
  ]

  -- A loop that breaks has cut the document short.
  abbrev pub Went : List ℕ → Round → Type 0
  Went xs (continues s) = Holds xs s
  Went xs (breaks s) = (ys : List ℕ) → Holds ys s

  make_room-Went :
      (xs : List ℕ) (text : String) (s : Chunking)
      → Holds xs s
      → Went xs (make_room max_chars max_chunks text s)
  unfolding make_room
  make_room-Went xs text s h = elim (Bool-cases (overflows max_chars max_chunks text s)) [
    | inr fits ↦ rw fits h
    | inl over ↦ elim (Bool-cases (is_full max_chars max_chunks (push_chunk s))) [
      | inl full ↦
          rw (over, full) (λ ys. cut_short-Holds xs ys (push_chunk s) (push_chunk-Holds xs s h))
      | inr open' ↦ rw (over, open') (push_chunk-Holds xs s h)
    ]
  ]

  bind-Went :
      (xs ys : List ℕ) (r : Round) (k : Chunking → Round)
      → Went xs r
      → ((s : Chunking) → Holds xs s → Went ys (k s))
      → Went ys (r >>= k)
  bind-Went xs ys (continues s) k h f = f s h
  bind-Went xs ys (breaks s) k h f = h

  module _ (wide : 64 < max_chars) where
    take_segment-Went :
        (xs : List ℕ) (g : SourceSegment) (s : Chunking)
        → g.ordinal < 4294967296
        → Holds xs s
        → Went (g.ordinal ∷ xs) (take_segment max_chars max_chunks g s)
    unfolding take_segment
    take_segment-Went xs g s small h = elim (Bool-cases (is_full max_chars max_chunks s)) [
      | inl full ↦ rw full (λ ys. cut_short-Holds xs ys s h)
      | inr open' ↦
          let text = labeled g.ordinal g.text in
          elim (Bool-cases (ltb max_chars (char_count text))) [
            | inl long ↦
                let filled : 0 < char_count g.text =
                  ground (arith, wide, long, char_count-labeled g.ordinal g.text small) in
                rw (open', long)
                  (chunk_pieces-covers xs g.ordinal g.text (piece_characters max_chars max_chunks)
                    (flush max_chars max_chunks s) filled (flush-Holds xs s h))
            | inr short' ↦
                rw (open', short')
                  (bind-Went xs (g.ordinal ∷ xs) (make_room max_chars max_chunks text s) _
                    (make_room-Went xs text s h)
                    (λ t k. write_segment-Holds xs g.ordinal g.text t k))
          ]
    ]

    pub take_segments-Went :
        (gs : List SourceSegment) (xs : List ℕ) (s : Chunking)
        → All (λ g. g.ordinal < 4294967296) gs
        → Holds xs s
        → Went (added gs xs) (take_segments max_chars max_chunks gs s)
    unfolding take_segments
    take_segments-Went [] xs s small h = h
    take_segments-Went (g ∷ gs) xs s small h =
        bind-Went (g.ordinal ∷ xs) (added gs (g.ordinal ∷ xs))
          (take_segment max_chars max_chunks g s) _ (take_segment-Went xs g s small.0 h)
          (λ t k. take_segments-Went gs (g.ordinal ∷ xs) t small.1 k)

    pub left-Holds : (xs : List ℕ) (r : Round) → Went xs r → Holds xs (left r)
    left-Holds xs (continues s) h = h
    left-Holds xs (breaks s) h = h xs
