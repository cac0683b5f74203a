-- ===== src/Prompts/Sources.antt =====
-- What `build` sends: the order of the messages, the sources and their markers.
use rag_kb.Base.{
  ℕ, suc, ◌+◌, ◌≡◌, refl, ap, ◌∙◌, List, [], ◌∷◌, ◌++◌, Option, some, zip_strict, sum_of,
}
use rag_kb.Base.Text.{Text, codes, join}
use rag_kb.Base.Numerals.{decimal}
use rag_kb.Prompts.{
  ChatMessage, SourceReference, ChunkWithSource, source_reference, references_from,
  build_source_references, block_of, section_loop, section_of, build_context_section,
  context_section_header, no_context_fallback_notice, history_of, prompt_messages, assembled, build,
}

-- A text stands somewhere in another one.
abbrev pub Occurs : Text → Text → Type 0
Occurs part whole = (pre : Text) × (post : Text) × (whole ≡ pre ++ (part ++ post))

append_assoc : (xs ys zs : Text) → (xs ++ ys) ++ zs ≡ xs ++ (ys ++ zs)
append_assoc [] ys zs = refl
append_assoc (x ∷ xs) ys zs = ap (λ l. x ∷ l) (append_assoc xs ys zs)

Occurs-before : (t part whole : Text) → Occurs part whole → Occurs part (whole ++ t)
Occurs-before t part whole (pre, post, e) = (
  pre,
  post ++ t,
  ap (λ w. w ++ t) e
      ∙ (append_assoc pre (part ++ post) t ∙ ap (λ w. pre ++ w) (append_assoc part post t)),
)

module _ {S : Type 0} where
  -- The tokens of all chunks.
  abbrev pub context_tokens : List (ChunkWithSource S) → ℕ
  context_tokens = sum_of (λ (item : ChunkWithSource S). item.chunk.token_count)

  -- The block of the chunk at an index: its marker, its file and its text.
  abbrev pub numbered_block : ℕ → ChunkWithSource S → Text
  numbered_block i item = block_of (item, source_reference i item)

  abbrev blocks_from : ℕ → List (ChunkWithSource S) → List Text
  blocks_from i [] = []
  blocks_from i (item ∷ chunks) = numbered_block i item ∷ blocks_from (suc i) chunks

  abbrev pairs_from : ℕ → List (ChunkWithSource S) → List (ChunkWithSource S × SourceReference)
  pairs_from i [] = []
  pairs_from i (item ∷ chunks) = (item, source_reference i item) ∷ pairs_from (suc i) chunks

  -- The section "Context" of the prompt.
  abbrev pub context_of : List (ChunkWithSource S) → Text
  context_of [] = context_section_header ++ no_context_fallback_notice
  context_of (item ∷ chunks) =
      context_section_header ++ join (codes "\n") (blocks_from 0 (item ∷ chunks))

  zip_strict-references_from :
      (i : ℕ) (chunks : List (ChunkWithSource S))
      → zip_strict chunks (references_from i chunks) ≡ some (pairs_from i chunks)
  unfolding references_from
  zip_strict-references_from i [] = refl
  zip_strict-references_from i (item ∷ chunks) =
      rw (zip_strict-references_from (suc i) chunks, zip_strict) refl

  section_loop-pairs_from :
      (i : ℕ) (chunks : List (ChunkWithSource S))
      → section_loop (pairs_from i chunks) ≡ (blocks_from i chunks, context_tokens chunks)
  unfolding section_loop
  section_loop-pairs_from i [] = refl
  section_loop-pairs_from i (item ∷ chunks) =
      rw (section_loop-pairs_from (suc i) chunks, section_loop) refl

  build_context_section-references :
      (chunks : List (ChunkWithSource S))
      → build_context_section chunks (build_source_references chunks)
        ≡ some (context_of chunks, context_tokens chunks)
  unfolding build_context_section build_source_references
  build_context_section-references [] = refl
  build_context_section-references (item ∷ chunks) =
      rw (zip_strict-references_from 0 (item ∷ chunks), section_of)
        (ap (λ (p : List Text × ℕ). some (context_section_header ++ join (codes "\n") p.0, p.1))
          (section_loop-pairs_from 0 (item ∷ chunks)))

  -- `build` always returns: its strict zip is of lists of one length. The messages are the system
  -- prompt, then the history in its order, then the question behind the context; the token count is
  -- the sum over the chunks.
  pub build_exact :
      (query : Text) (chunks : List (ChunkWithSource S)) (history : Option (List ChatMessage))
      → build query chunks history
        ≡ some (record {
          messages = prompt_messages (context_of chunks) query (history_of history);
          sources = build_source_references chunks;
          total_context_tokens = context_tokens chunks;
        })
  unfolding build
  build_exact query chunks history = rw (build_context_section-references chunks, assembled) refl

  -- What a prompt shows of a chunk: the marker with its number from 1, its file and its text.
  abbrev pub cited_block : ℕ → ChunkWithSource S → Text
  cited_block i item =
      codes "[Source "
      ++ (decimal (i + 1)
          ++ (codes "] (from: "
              ++ (item.source_filename ++ (codes ")\n" ++ (item.chunk.text ++ codes "\n")))))

  -- A source of a chunk: its document, its id, its file, and the marker with its number from 1.
  abbrev pub IsSourceOf : ℕ → ChunkWithSource S → SourceReference → Type 0
  IsSourceOf i item source =
      (source.document_id ≡ item.chunk.document_id)
      × (source.chunk_id ≡ item.chunk.chunk_id)
      × (source.source_filename ≡ item.source_filename)
      × (source.marker ≡ codes "Source " ++ decimal (i + 1))
