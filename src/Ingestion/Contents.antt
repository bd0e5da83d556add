-- ===== src/Ingestion/Contents.antt =====
-- What the loop of `chunk_document` has written of the texts of the segments.
use Prim.Native.String.{[] as nil, ◌++◌ as str_append}
use text.Mathlib.TextLemmas.{nil-append, append-nil, append_assoc}
use featherlane_ai.Prelude.{
  ℕ, ◌<◌, ◌≡◌, refl, ap, sym, ◌∙◌, inl, inr, true, List, [], ◌∷◌, ◌++◌, String, length, ltb,
  Bool-cases, arith, false-ne_true, subst,
}
use featherlane_ai.Text.{char_count, is_blank, is_blank_iff}
use featherlane_ai.Ingestion.{
  SourceSegment, PolicyChunk, Chunking, Round, continues, breaks, ◌>>=◌, left, labeled, push_chunk,
  complete_last, pieces, is_full, write_segment, chunk_pieces, flush, piece_characters, overflows,
  make_room, take_segment, take_segments, finish_chunks,
}
use featherlane_ai.Ingestion.Texts.{joined, joined-pieces}

-- The parts of a segment, each under the label of its ordinal.
abbrev pub labels : ℕ → List String → String
labels ordinal [] = nil
labels ordinal (p ∷ ps) = str_append (labeled ordinal p) (labels ordinal ps)

-- A text has every segment, in order, as labeled parts that together are the text of the segment.
pub data Writes : List SourceSegment → String → Type 0 where
  ends : Writes [] nil
  next :
      (g : SourceSegment) (ps : List String) (gs : List SourceSegment) (rest : String)
      → joined ps ≡ g.text
      → Writes gs rest
      → Writes (g ∷ gs) (str_append (labels g.ordinal ps) rest)

abbrev pub contents : List PolicyChunk → String
contents [] = nil
contents (c ∷ cs) = str_append c.content (contents cs)

contents-append :
    (cs : List PolicyChunk) (c : PolicyChunk)
    → contents (cs ++ c ∷ []) ≡ str_append (contents cs) c.content
contents-append [] c = append-nil c.content ∙ sym (nil-append c.content)
contents-append (d ∷ cs) c =
    ap (str_append d.content) (contents-append cs c)
    ∙ sym (append_assoc d.content (contents cs) c.content)

pub contents-complete_last : (cs : List PolicyChunk) → contents (complete_last cs) ≡ contents cs
contents-complete_last [] = refl
contents-complete_last (c ∷ []) = refl
contents-complete_last (c ∷ d ∷ cs) = ap (str_append c.content) (contents-complete_last (d ∷ cs))

-- All that was written so far is `t`, unless a bound cut the document short.
abbrev Keeps : String → Chunking → Type 0
Keeps t s = s.fully_processed ≡ true → str_append (contents s.chunks) s.content ≡ t

push_chunk-Keeps : (t : String) (s : Chunking) → Keeps t s → Keeps t (push_chunk s)
unfolding push_chunk
push_chunk-Keeps t s h = λ e. append-nil _ ∙ contents-append s.chunks _ ∙ h e

whole_text : (g : SourceSegment) → joined (g.text ∷ []) ≡ g.text
whole_text g = append-nil g.text

writing : (gs : List SourceSegment) → (w : String) × Writes gs w
writing [] = (nil, ends)
writing (g ∷ gs) = let (w, h) = writing gs in (_, next g (g.text ∷ []) gs w (whole_text g) h)

module _ (max_chars max_chunks : ℕ) where
  write_segment-Keeps :
      (t : String) (ordinal : ℕ) (text : String) (s : Chunking)
      → Keeps t s
      → Keeps (str_append t text) (write_segment max_chars max_chunks ordinal text s)
  write_segment-Keeps t ordinal text s h =
      λ e. sym (append_assoc (contents s.chunks) s.content text) ∙ ap (λ u. str_append u text) (h e)

  chunk_pieces-Keeps :
      (t : String) (ordinal : ℕ) (ps : List String) (s : Chunking)
      → Keeps t s
      → Keeps (str_append t (labels ordinal ps)) (chunk_pieces max_chars max_chunks ordinal ps s)
  unfolding chunk_pieces
  chunk_pieces-Keeps t ordinal [] s h = λ e. h e ∙ sym (append-nil t)
  chunk_pieces-Keeps t ordinal (p ∷ ps) s h = elim (Bool-cases (is_full max_chars max_chunks s)) [
    | inl full ↦ rw full (λ e. false-ne_true e refl)
    | inr open' ↦
        let u = str_append t (labeled ordinal p) in
        let v = write_segment max_chars max_chunks ordinal (labeled ordinal p) s in
        let k =
          chunk_pieces-Keeps u ordinal ps (push_chunk v)
            (push_chunk-Keeps u v (write_segment-Keeps t ordinal (labeled ordinal p) s h)) in
        rw open' (λ e. k e ∙ append_assoc t (labeled ordinal p) (labels ordinal ps))
  ]

  flush-Keeps : (t : String) (s : Chunking) → Keeps t s → Keeps t (flush max_chars max_chunks s)
  unfolding flush
  flush-Keeps t s h = elim (Bool-cases (is_blank s.content)) [
    | inl blank ↦ rw blank h
    | inr text ↦ rw text (push_chunk-Keeps t s h)
  ]

  -- A loop that breaks has cut the document short.
  abbrev pub Wrote : String → Round → Type 0
  Wrote t (continues s) = Keeps t s
  Wrote t (breaks s) = (u : String) → Keeps u s

  make_room-Wrote :
      (t text : String) (s : Chunking) → Keeps t s → Wrote t (make_room max_chars max_chunks text s)
  unfolding make_room
  make_room-Wrote t text s h = elim (Bool-cases (overflows max_chars max_chunks text s)) [
    | inr fits ↦ rw fits h
    | inl over ↦ elim (Bool-cases (is_full max_chars max_chunks (push_chunk s))) [
      | inl full ↦ rw (over, full) (λ u e. false-ne_true e refl)
      | inr open' ↦ rw (over, open') (push_chunk-Keeps t s h)
    ]
  ]

  bind-Wrote :
      (t u : String) (r : Round) (k : Chunking → Round)
      → Wrote t r
      → ((s : Chunking) → Keeps t s → Wrote u (k s))
      → Wrote u (r >>= k)
  bind-Wrote t u (continues s) k h f = f s h
  bind-Wrote t u (breaks s) k h f = h

  room_for_pieces : 0 < piece_characters max_chars max_chunks
  unfolding piece_characters
  room_for_pieces = ground arith

  take_segment-Wrote :
      (t : String) (g : SourceSegment) (s : Chunking)
      → Keeps t s
      → (ps : List String) × (joined ps ≡ g.text)
        × Wrote (str_append t (labels g.ordinal ps)) (take_segment max_chars max_chunks g s)
  unfolding take_segment
  take_segment-Wrote t g s h = elim (Bool-cases (is_full max_chars max_chunks s)) [
    | inl full ↦ rw full (g.text ∷ [], whole_text g, λ u e. false-ne_true e refl)
    | inr open' ↦
        let text = labeled g.ordinal g.text in
        let n = piece_characters max_chars max_chunks in
        elim (Bool-cases (ltb max_chars (char_count text))) [
          | inl long ↦
              rw (open', long)
                (
                  pieces (char_count g.text) n g.text,
                  joined-pieces (char_count g.text) n g.text room_for_pieces (omega arith),
                  chunk_pieces-Keeps t g.ordinal (pieces (char_count g.text) n g.text)
                      (flush max_chars max_chunks s) (flush-Keeps t s h),
                )
          | inr short' ↦
              rw (open', short')
                (
                  g.text ∷ [],
                  whole_text g,
                  subst
                      (λ u. Wrote (str_append t u) (do
                        v ← make_room max_chars max_chunks text s
                        continues (write_segment max_chars max_chunks g.ordinal text v)))
                      (sym (append-nil text))
                      (bind-Wrote t (str_append t text) (make_room max_chars max_chunks text s) _
                        (make_room-Wrote t text s h)
                        (λ v k. write_segment-Keeps t g.ordinal text v k)),
                )
        ]
  ]

  -- The rest of the loop writes the segments that are left.
  abbrev Continues : List SourceSegment → Type 0
  Continues gs =
      (t : String) (s : Chunking)
      → Keeps t s
      → (w : String) × Writes gs w
        × Wrote (str_append t w) (take_segments max_chars max_chunks gs s)

  bind-Continues :
      (t : String) (g : SourceSegment) (gs : List SourceSegment) (ps : List String) (r : Round)
      → Continues gs
      → joined ps ≡ g.text
      → Wrote (str_append t (labels g.ordinal ps)) r
      → (w : String) × Writes (g ∷ gs) w
        × Wrote (str_append t w) (r >>= take_segments max_chars max_chunks gs)
  bind-Continues t g gs ps (breaks u) f whole first =
      let (w, h) = writing gs in (_, next g ps gs w whole h, λ v. first v)
  bind-Continues t g gs ps (continues u) f whole first =
      let (w, h, more) = f (str_append t (labels g.ordinal ps)) u first in
      (
        _,
        next g ps gs w whole h,
        subst (λ v. Wrote v (take_segments max_chars max_chunks gs u))
            (append_assoc t (labels g.ordinal ps) w) more,
      )

  take_segments-Wrote : (gs : List SourceSegment) → Continues gs
  unfolding take_segments
  take_segments-Wrote [] = λ t s h. (nil, ends, λ e. h e ∙ sym (append-nil t))
  take_segments-Wrote (g ∷ gs) = λ t s h.
      let (ps, whole, first) = take_segment-Wrote t g s h in
      bind-Continues t g gs ps (take_segment max_chars max_chunks g s) (take_segments-Wrote gs)
        whole first

  left-Keeps : (t : String) (r : Round) → Wrote t r → Keeps t (left r)
  left-Keeps t (continues s) h = h
  left-Keeps t (breaks s) h = h t

  finish_chunks-Keeps :
      (t : String) (s : Chunking)
      → Keeps t s
      → (finish_chunks max_chars max_chunks s).fully_processed ≡ true
      → contents (finish_chunks max_chars max_chunks s).chunks ≡ t
  unfolding finish_chunks push_chunk
  finish_chunks-Keeps t s h = elim (Bool-cases (is_blank s.content)) [
    | inl blank ↦ rw blank (λ e.
        sym (append-nil (contents s.chunks))
        ∙ ap (str_append (contents s.chunks)) (sym ((is_blank_iff s.content).0 blank))
        ∙ h e)
    | inr text ↦ elim (Bool-cases (ltb (length s.chunks) max_chunks)) [
      | inl room ↦ rw (text, room) (λ e. contents-append s.chunks _ ∙ h e)
      | inr full ↦ rw (text, full) (λ e. absurd (false-ne_true e refl))
    ]
  ]

  -- A text that the chunks of a document have between them, where no bound cut it short.
  pub finish_chunks-Writes :
      (gs : List SourceSegment) (s : Chunking)
      → Keeps nil s
      → (w : String) × Writes gs w
        × ((finish_chunks max_chars max_chunks
                (left (take_segments max_chars max_chunks gs s))).fully_processed
              ≡ true
            → contents
                (finish_chunks max_chars max_chunks
                  (left (take_segments max_chars max_chunks gs s))).chunks
              ≡ w)
  finish_chunks-Writes gs s h =
      let (w, writes, wrote) = take_segments-Wrote gs nil s h in
      (
        w,
        writes,
        λ e.
            finish_chunks-Keeps (str_append nil w) _
              (left-Keeps (str_append nil w) (take_segments max_chars max_chunks gs s) wrote) e
            ∙ nil-append w,
      )
