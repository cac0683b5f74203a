-- ===== src/Documents/Rows.antt =====
-- The rows of the chunks of a document, and the points of its rows.
use rag_kb.Base.{
  ℕ, suc, String, ◌≡◌, refl, sym, ap, subst, ◌∙◌, inl, inr, List, [], ◌∷◌, map, some, zip_strict,
  arith, Option-cases,
}
use rag_kb.Base.Text.{Text}
use rag_kb.Chunking.{Chunk}
use rag_kb.Documents.{Document, ChunkRow}
use rag_kb.Documents.Processing.{
  Attempt, zipped, ◌>>=◌, returned, raised, Task, VectorPoint, chunk_rows, vector_points, indexed,
}

zip_strict-fst {ℓ κ} :
    {A : Type ℓ} {B : Type κ} (xs : List A) (ys : List B) (ps : List (A × B))
    → zip_strict xs ys ≡ some ps
    → map (λ p. p.0) ps ≡ xs
zip_strict-fst [] [] ps h = cc
zip_strict-fst [] (y ∷ ys) ps h = cc
zip_strict-fst (x ∷ xs) [] ps h = cc
zip_strict-fst (x ∷ xs) (y ∷ ys) ps h = elim (Option-cases (zip_strict xs ys)) [
  | inl e ↦ absurd (ground arith)
  | inr (qs, e) ↦
      let same : ps ≡ (x, y) ∷ qs = ground arith in
      rw same (ap (λ l. x ∷ l) (zip_strict-fst xs ys qs e))
]

bind-returned :
    {A B : Type 0} (m : Attempt A) (f : A → Attempt B) (b : B)
    → (m >>= f) ≡ returned b
    → (a : A) × (m ≡ returned a) × (f a ≡ returned b)
bind-returned (returned a) f b h = (a, refl, h)
bind-returned (raised e) f b h = cc

zipped-returned :
    {A B : Type 0} (xs : List A) (ys : List B) (ps : List (A × B))
    → zipped xs ys ≡ returned ps
    → zip_strict xs ys ≡ some ps
zipped-returned xs ys ps h = elim (Option-cases (zip_strict xs ys)) [
  | inl e ↦ absurd (ground arith)
  | inr (qs, e) ↦ ground arith
]

-- The rows count up from `i`.
unfoldable pub IsNumbered : ℕ → List ChunkRow → Type 0
IsNumbered i [] = Unit
IsNumbered i (r ∷ rows) = (r.chunk_index ≡ i) × IsNumbered (suc i) rows

-- The rows of the chunks, and the points of the rows.
abbrev pub RowsOf :
    {Vector : Type 0} → List Chunk → List ChunkRow → List (VectorPoint Vector) → Type 0
RowsOf {Vector} chunks rows points =
    IsNumbered 0 rows
    × (map (λ (r : ChunkRow). r.text) rows ≡ map (λ (c : Chunk). c.text) chunks)
    × (map {B = String × ℕ × Text} (λ (p : VectorPoint Vector). (p.chunk_id, p.chunk_index, p.text))
          points
        ≡ map {B = String × ℕ × Text} (λ (r : ChunkRow). (r.id, r.chunk_index, r.text)) rows)

vector_points-rows :
    {Vector : Type 0} (d : Document) (ps : List (ChunkRow × Vector))
    → map {B = String × ℕ × Text}
        (λ (p : VectorPoint Vector). (p.chunk_id, p.chunk_index, p.text))
        (vector_points Vector d ps)
      ≡ map {B = String × ℕ × Text}
          (λ (r : ChunkRow). (r.id, r.chunk_index, r.text))
          (map (λ p. p.0) ps)
unfolding vector_points
vector_points-rows d [] = refl
vector_points-rows d ((r, v) ∷ ps) =
    ap (λ l. (r.id, r.chunk_index, r.text) ∷ l) (vector_points-rows d ps)

module _ {Content Vector : Type 0} where
  chunk_rows-IsNumbered :
      (t : Task Content Vector) (d : Document) (i : ℕ) (ps : List (Chunk × Vector))
      → IsNumbered i (chunk_rows Content Vector t d i ps)
  unfolding IsNumbered chunk_rows
  chunk_rows-IsNumbered t d i [] = tt
  chunk_rows-IsNumbered t d i (p ∷ ps) = (refl, chunk_rows-IsNumbered t d (suc i) ps)

  chunk_rows-text :
      (t : Task Content Vector) (d : Document) (i : ℕ) (ps : List (Chunk × Vector))
      → map (λ (r : ChunkRow). r.text) (chunk_rows Content Vector t d i ps)
        ≡ map (λ (c : Chunk). c.text) (map (λ p. p.0) ps)
  unfolding chunk_rows
  chunk_rows-text t d i [] = refl
  chunk_rows-text t d i ((c, v) ∷ ps) = ap (λ l. c.text ∷ l) (chunk_rows-text t d (suc i) ps)

  pub indexed-RowsOf :
      (t : Task Content Vector) (d : Document) (chunks : List Chunk) (rows : List ChunkRow)
      (points : List (VectorPoint Vector))
      → indexed Content Vector t d chunks ≡ returned (rows, points)
      → RowsOf chunks rows points
  unfolding indexed
  indexed-RowsOf t d chunks rows points h =
      let (embedded, _, h1) =
        bind-returned (t.embed_texts (map (λ (c : Chunk). c.text) chunks)) _ _ h in
      let (pairs, z, h2) = bind-returned (zipped chunks embedded.vectors) _ _ h1 in
      let (row_pairs, z', h3) =
        bind-returned (zipped (chunk_rows Content Vector t d 0 pairs) embedded.vectors) _ _ h2 in
      let new_points = vector_points Vector d row_pairs in
      let (_, _, h4) =
        bind-returned (t.upsert d.knowledge_base_id new_points embedded.dimension) _ _ h3 in
      let same_rows : chunk_rows Content Vector t d 0 pairs ≡ rows = cc h4 in
      let same_points : new_points ≡ points = cc h4 in
      let chunks_of =
        zip_strict-fst chunks embedded.vectors pairs
          (zipped-returned chunks embedded.vectors pairs z) in
      let rows_of =
        zip_strict-fst (chunk_rows Content Vector t d 0 pairs) embedded.vectors row_pairs
          (zipped-returned (chunk_rows Content Vector t d 0 pairs) embedded.vectors row_pairs z') in
      (
        subst (IsNumbered 0) same_rows (chunk_rows-IsNumbered t d 0 pairs),
        rw (sym same_rows)
            (chunk_rows-text t d 0 pairs ∙ ap (map (λ (c : Chunk). c.text)) chunks_of),
        rw (sym same_points) (vector_points-rows d row_pairs ∙ ap (map _) (rows_of ∙ same_rows)),
      )
