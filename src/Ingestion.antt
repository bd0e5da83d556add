-- ===== src/Ingestion.antt =====
-- crates/governance-ingestion/src/chunking.rs: the chunks that a document is extracted in.
pub mod Texts
pub mod Rounds
pub mod Bounds
pub mod Coverage
pub mod Contents
pub mod Completion
mod Tests
use Prim.Native.String.{◌∷◌ as char_cons, [] as nil, ◌++◌ as str_append}
use featherlane_ai.Prelude.{
  ℕ, zero, suc, ◌+◌, ◌-◌, ◌==◌, min, max, Bool, true, false, not, ◌&&◌, Option, none, some, List,
  [], ◌∷◌, ◌++◌, String, ltb, leb, length, last, and_then, if◌then◌else◌,
}
use featherlane_ai.Text.{is_blank, char_count, decimal}

-- crates/governance-domain/src/policy_import.rs
pub record SourceSegment : Type 0 where
  pub ordinal : ℕ
  pub page : Option ℕ
  pub section : Option String
  pub paragraph_start : Option ℕ
  pub paragraph_end : Option ℕ
  pub text : String
  pub text_sha256 : String

pub record PolicyChunk : Type 0 where
  pub id : String
  pub segment_ordinals : List ℕ
  pub content : String
  pub completes_document : Bool

abbrev pub extraction_chunk_character_budget : ℕ
extraction_chunk_character_budget = 12000

-- The variables of `chunk_document`.
pub record Chunking : Type 0 where
  pub chunks : List PolicyChunk
  pub ordinals : List ℕ
  pub content : String
  pub fully_processed : Bool

unfoldable labeled : ℕ → String → String
labeled ordinal text =
    str_append "<source-segment ordinal=\""
      (str_append (decimal ordinal) (str_append "\">\n" (str_append text "\n</source-segment>\n")))

-- `{:04}`.
unfoldable zeros : ℕ → String → String
zeros zero s = s
zeros (suc n) s = str_append "0" (zeros n s)

unfoldable push_chunk : Chunking → Chunking
unfolding zeros
push_chunk s =
    let index = decimal (length s.chunks + 1) in
    record s {
      chunks =
          s.chunks
          ++ record {
            id = str_append "chunk-" (zeros (4 - char_count index) index);
            segment_ordinals = s.ordinals;
            content = s.content;
            completes_document = false;
          }
            ∷ [];
      ordinals = [];
      content = "";
    }

-- `chunks` of a slice of characters, which yields no piece once the characters are used up.
unfoldable take_chars : ℕ → String → String
take_chars zero s = nil
take_chars (suc n) nil = nil
take_chars (suc n) (char_cons c s) = char_cons c (take_chars n s)

unfoldable drop_chars : ℕ → String → String
drop_chars zero s = s
drop_chars (suc n) nil = nil
drop_chars (suc n) (char_cons c s) = drop_chars n s

unfoldable pieces : ℕ → ℕ → String → List String
unfolding take_chars drop_chars
pieces zero n s = []
pieces (suc fuel) n s =
    let rest = pieces fuel n (drop_chars n s) in if is_blank s then [] else take_chars n s ∷ rest

abbrev same_ordinal : Option ℕ → Option ℕ → Bool
same_ordinal none none = true
same_ordinal (some m) (some n) = m == n
same_ordinal _ _ = false

-- `last_mut`.
abbrev pub complete_last : List PolicyChunk → List PolicyChunk
complete_last [] = []
complete_last (c ∷ []) = record c { completes_document = true } ∷ []
complete_last (c ∷ d ∷ cs) = c ∷ complete_last (d ∷ cs)

abbrev last_ordinal : List PolicyChunk → Option ℕ
last_ordinal chunks = and_then (last chunks) (λ c. last c.segment_ordinals)

abbrev last_segment : List SourceSegment → Option ℕ
last_segment segments = and_then (last segments) (λ g. some g.ordinal)

abbrev pub completes : List SourceSegment → Chunking → Bool
completes segments s =
    s.fully_processed && same_ordinal (last_ordinal s.chunks) (last_segment segments)

unfoldable mark_complete : List SourceSegment → Chunking → List PolicyChunk
mark_complete segments s = if completes segments s then complete_last s.chunks else s.chunks

-- What a round of the loop leaves: it goes on, or it breaks.
pub data Round : Type 0 where
  continues breaks : Chunking → Round

infixl 5 ◌>>=◌
abbrev ◌>>=◌ : Round → (Chunking → Round) → Round
continues s >>= k = k s
breaks s >>= k = breaks s

abbrev pub left : Round → Chunking
left (continues s) = s
left (breaks s) = s

module _ (max_chars max_chunks : ℕ) where
  abbrev pub is_full : Chunking → Bool
  is_full s = leb max_chunks (length s.chunks)

  abbrev pub cut_short : Chunking → Chunking
  cut_short s = record s { fully_processed = false }

  abbrev pub write_segment : ℕ → String → Chunking → Chunking
  write_segment ordinal text s = record s {
    ordinals = s.ordinals ++ ordinal ∷ [];
    content = str_append s.content text;
  }

  -- The loop over the pieces of a segment.
  unfoldable chunk_pieces : ℕ → List String → Chunking → Chunking
  unfolding labeled push_chunk
  chunk_pieces ordinal [] s = s
  chunk_pieces ordinal (p ∷ ps) s =
      let rest =
        chunk_pieces ordinal ps (push_chunk (write_segment ordinal (labeled ordinal p) s)) in
      if is_full s then cut_short s else rest

  unfoldable flush : Chunking → Chunking
  unfolding push_chunk
  flush s = if is_blank s.content then s else push_chunk s

  unfoldable piece_characters : ℕ
  piece_characters = max (max_chars - 64) 1

  -- `saturating_add` on `usize`, of 64 bits.
  unfoldable overflows : String → Chunking → Bool
  overflows text s =
      not (is_blank s.content)
      && ltb max_chars (min (char_count s.content + char_count text) 18446744073709551615)

  unfoldable make_room : String → Chunking → Round
  unfolding overflows push_chunk
  make_room text s =
      if overflows text s
      then (if is_full (push_chunk s)
          then breaks (cut_short (push_chunk s))
          else continues (push_chunk s))
      else continues s

  -- One round of the loop over the segments.
  unfoldable take_segment : SourceSegment → Chunking → Round
  unfolding labeled chunk_pieces flush piece_characters make_room pieces
  take_segment segment s =
      if is_full s
      then breaks (cut_short s)
      else if ltb max_chars (char_count (labeled segment.ordinal segment.text))
      then continues (
          chunk_pieces segment.ordinal
            (pieces (char_count segment.text) piece_characters segment.text) (flush s))
      else do
        t ← make_room (labeled segment.ordinal segment.text) s
        continues (write_segment segment.ordinal (labeled segment.ordinal segment.text) t)

  unfoldable take_segments : List SourceSegment → Chunking → Round
  unfolding take_segment
  take_segments [] s = continues s
  take_segments (g ∷ gs) s = do t ← take_segment g s; take_segments gs t

  unfoldable finish_chunks : Chunking → Chunking
  unfolding push_chunk
  finish_chunks s =
      if is_blank s.content
      then s
      else if ltb (length s.chunks) max_chunks
      then push_chunk s
      else cut_short s

  unfoldable chunk_document : List SourceSegment → List PolicyChunk
  unfolding take_segments finish_chunks mark_complete
  chunk_document segments = mark_complete segments (
      finish_chunks (
        left (
          take_segments segments
            (record { chunks = []; ordinals = []; content = ""; fully_processed = true }))))
