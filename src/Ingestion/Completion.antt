-- ===== src/Ingestion/Completion.antt =====
-- What `completes_document` says of the chunks of `chunk_document`.
use Prim.Native.String.{[] as nil}
use text.Mathlib.TextLemmas.{nil-append}
use featherlane_ai.Prelude.{
  String, ℕ, ◌<◌, ◌≡◌, refl, subst, inl, inr, true, false, List, [], ◌∷◌, All, All-map, In, Any,
  length, ltb, Bool-cases, false-ne_true, and-eq_true, not-Any,
}
use featherlane_ai.Text.{is_blank}
use featherlane_ai.Ingestion.{
  SourceSegment, PolicyChunk, Chunking, push_chunk, finish_chunks, complete_last, completes,
  mark_complete, chunk_document, left, take_segments,
}
use featherlane_ai.Ingestion.Coverage.{
  IsCovered, Covers, Holds, added, push_chunk-Holds, left-Holds, take_segments-Went,
}
use featherlane_ai.Ingestion.Contents.{
  Writes, contents, contents-complete_last, finish_chunks-Writes,
}

All-added :
    (P : ℕ → Type 0) (gs : List SourceSegment) (xs : List ℕ)
    → All P (added gs xs)
    → All P xs × All (λ g. P g.ordinal) gs
All-added P [] xs h = (h, tt)
All-added P (g ∷ gs) xs h = let (a, b) = All-added P gs (g.ordinal ∷ xs) h in (a.1, (a.0, b))

-- After the last chunk no ordinals are left over.
record Finished (xs : List ℕ) (s : Chunking) : Type 0 where
  fresh : All (λ c. c.completes_document ≡ false) s.chunks
  covered : s.fully_processed ≡ true → All (IsCovered s.chunks) xs

flushed : (s : Chunking) (x : ℕ) → s.ordinals ≡ [] → Covers s x → IsCovered s.chunks x
flushed s x e (inl h) = h
flushed s x e (inr h) = absurd (subst (In x) e h)

push_chunk-Finished : (xs : List ℕ) (s : Chunking) → Holds xs s → Finished xs (push_chunk s)
unfolding push_chunk
push_chunk-Finished xs s h =
    let k = push_chunk-Holds xs s h in
    record {
      fresh = k.fresh;
      covered = λ e. All-map (λ x c. flushed (push_chunk s) x refl c) xs (k.covered e);
    }

IsCovered-complete_last :
    (cs : List PolicyChunk) (x : ℕ) → IsCovered cs x → IsCovered (complete_last cs) x
IsCovered-complete_last [] x h = absurd h
IsCovered-complete_last (c ∷ []) x h = h
IsCovered-complete_last (c ∷ d ∷ cs) x (inl h) = inl h
IsCovered-complete_last (c ∷ d ∷ cs) x (inr h) = inr (IsCovered-complete_last (d ∷ cs) x h)

completes-fully_processed :
    (gs : List SourceSegment) (s : Chunking) → completes gs s ≡ true → s.fully_processed ≡ true
completes-fully_processed gs s h = (and-eq_true s.fully_processed _ h).0

-- Where a chunk completes the document, no bound has cut it short.
mark_complete-whole :
    (gs : List SourceSegment) (s : Chunking)
    → All (λ c. c.completes_document ≡ false) s.chunks
    → Any (λ c. c.completes_document ≡ true) (mark_complete gs s)
    → (s.fully_processed ≡ true) × (mark_complete gs s ≡ complete_last s.chunks)
unfolding mark_complete
mark_complete-whole gs s fresh h = elim (Bool-cases (completes gs s)) [
  | inl whole ↦ rw whole (completes-fully_processed gs s whole, refl)
  | inr part ↦ absurd (
      not-Any (λ c. c.completes_document ≡ true) s.chunks
        (All-map (λ c e g. false-ne_true g e) s.chunks fresh) (rw part at h))
]

mark_complete-covers :
    (gs hs : List SourceSegment) (s : Chunking)
    → Finished (added hs []) s
    → Any (λ c. c.completes_document ≡ true) (mark_complete gs s)
    → All (λ g. IsCovered (mark_complete gs s) g.ordinal) hs
mark_complete-covers gs hs s f h =
    let (whole, e) = mark_complete-whole gs s f.fresh h in
    rw e (
      All-map (λ g a. IsCovered-complete_last s.chunks g.ordinal a) hs
        (All-added (IsCovered s.chunks) hs [] (f.covered whole)).1)

-- The chunks that complete a document have its segments between them.
mark_complete-Writes :
    (gs : List SourceSegment) (s : Chunking) (w : String)
    → All (λ c. c.completes_document ≡ false) s.chunks
    → Writes gs w
    → (s.fully_processed ≡ true → contents s.chunks ≡ w)
    → Any (λ c. c.completes_document ≡ true) (mark_complete gs s)
    → Writes gs (contents (mark_complete gs s))
mark_complete-Writes gs s w fresh writes f h =
    let (whole, e) = mark_complete-whole gs s fresh h in
    rw (e, contents-complete_last s.chunks, f whole) writes

module _ (max_chars max_chunks : ℕ) where
  finish_chunks-Finished :
      (xs : List ℕ) (s : Chunking) → Holds xs s → Finished xs (finish_chunks max_chars max_chunks s)
  unfolding finish_chunks
  finish_chunks-Finished xs s h = elim (Bool-cases (is_blank s.content)) [
    | inl blank ↦ rw blank (record {
      fresh = h.fresh;
      covered = λ e. All-map (λ x c. flushed s x (h.tidy blank) c) xs (h.covered e);
    })
    | inr text ↦ elim (Bool-cases (ltb (length s.chunks) max_chunks)) [
      | inl room ↦ rw (text, room) (push_chunk-Finished xs s h)
      | inr full ↦ rw (text, full) (record { fresh = h.fresh; covered = λ e. false-ne_true e refl })
    ]
  ]

  -- A chunk that completes the document is true to its name. Where one says so, when `max_chars` is
  -- above 64, the room that is left for a label, and the ordinals are of 32 bits: the ordinal of
  -- every segment is among those of some chunk, and the contents of the chunks, put together, are
  -- all the segments, in order, each in labeled parts that together are the whole text of the
  -- segment.
  pub chunk_document-covers :
      (gs : List SourceSegment)
      → 64 < max_chars
      → All (λ g. g.ordinal < 4294967296) gs
      → Any (λ c. c.completes_document ≡ true) (chunk_document max_chars max_chunks gs)
      → All (λ g. IsCovered (chunk_document max_chars max_chunks gs) g.ordinal) gs
        × Writes gs (contents (chunk_document max_chars max_chunks gs))
  unfolding chunk_document
  chunk_document-covers gs wide small h =
      let start : Chunking = record {
        chunks = [];
        ordinals = [];
        content = "";
        fully_processed = true;
      } in
      let went =
        take_segments-Went max_chars max_chunks wide gs [] start small
          (record { fresh = tt; tidy = λ _. refl; covered = λ _. tt }) in
      let done =
        finish_chunks max_chars max_chunks (left (take_segments max_chars max_chunks gs start)) in
      let finished =
        finish_chunks-Finished (added gs []) _ (left-Holds max_chars max_chunks wide _ _ went) in
      let (w, writes, f) =
        finish_chunks-Writes max_chars max_chunks gs start (λ _. nil-append nil) in
      (
        mark_complete-covers gs gs done finished h,
        mark_complete-Writes gs done w finished.fresh writes f h,
      )
