-- ===== src/Documents/Ownership.antt =====
-- Who may do what to a document, and what an upload and a deletion leave.
use rag_kb.Base.{
  ℕ, ◌≤◌, String, ◌≡◌, ◌≢◌, refl, sym, ◌⊎◌, inl, inr, true, false, not, ◌&&◌, List, [], ◌∷◌, ◌++◌,
  none, some, ltb, filterb, length, arith, Bool-cases, Option-cases, find_first-passes, &&-eq-true,
  nat_beq_iff, All,
}
use rag_kb.Base.Equality.{◌==◌, nat_eq, list_eq, elem}
use rag_kb.Base.Text.{Text}
use rag_kb.Errors.{Result, ok, err, not_found, validation}
use rag_kb.Documents.{
  KnowledgeBase, Document, ChunkRow, pending, get_for_user, get_by_id, get_for_knowledge_base,
}
use rag_kb.Documents.Service.{
  Stores, DocumentService, get_owned_or_404, extract_extension, new_document, upload, get, delete,
}

-- The knowledge base `kb_id` belongs to this user.
abbrev pub IsOwner : ℕ → ℕ → Stores → Type 0
IsOwner kb_id owner_id w =
    (kb : KnowledgeBase) × (get_for_user kb_id owner_id w.knowledge_bases ≡ some kb)
    × (kb.id ≡ kb_id)
    × (kb.owner_id ≡ owner_id)

-- It is no knowledge base of this user.
abbrev pub IsForeign : ℕ → ℕ → Stores → Type 0
IsForeign kb_id owner_id w =
    (get_for_user kb_id owner_id w.knowledge_bases ≡ none)
    × All (λ (kb : KnowledgeBase). kb.id ≡ kb_id → kb.owner_id ≡ owner_id → ⊥) w.knowledge_bases

get_for_user-none :
    (kb_id owner_id : ℕ) (rows : List KnowledgeBase)
    → get_for_user kb_id owner_id rows ≡ none
    → All (λ (kb : KnowledgeBase). kb.id ≡ kb_id → kb.owner_id ≡ owner_id → ⊥) rows
unfolding get_for_user
get_for_user-none kb_id owner_id [] h = tt
get_for_user-none kb_id owner_id (kb ∷ rows) h = (
  λ same own.
      ground (arith, h, same, own, nat_beq_iff kb.id kb_id, nat_beq_iff kb.owner_id owner_id),
  get_for_user-none kb_id owner_id rows (ground (arith, h)),
)

pub IsOwner-cases :
    (kb_id owner_id : ℕ) (w : Stores) → IsOwner kb_id owner_id w ⊎ IsForeign kb_id owner_id w
unfolding get_for_user
IsOwner-cases kb_id owner_id w =
    elim (Option-cases (get_for_user kb_id owner_id w.knowledge_bases)) [
      | inl missing ↦ inr (missing, get_for_user-none kb_id owner_id w.knowledge_bases missing)
      | inr (kb, found) ↦
          let (a, b) =
            &&-eq-true (kb.id == kb_id) _ (find_first-passes _ w.knowledge_bases kb found) in
          inl (kb, found, (nat_beq_iff kb.id kb_id).0 a, (nat_beq_iff kb.owner_id owner_id).0 b)
    ]

-- An upload is accepted exactly for the owner of the knowledge base, an allowed extension and a
-- content of at most the largest size. Then the document is pending, its content is saved under its
-- reference, and the task is queued for it. For anyone else it is not found, whatever is uploaded,
-- and for the owner it is invalid for the other reasons; then nothing changes.
pub upload_exact :
    (s : DocumentService) (new_id kb_id owner_id : ℕ) (filename : Text) (content_type : String)
    (content : Text) (w : Stores)
    → ((d : Document) × IsOwner kb_id owner_id w
        × (elem (extract_extension s.lower filename) s.allowed_extensions ≡ true)
        × (length content ≤ s.max_upload_size_bytes)
        × ((upload s new_id kb_id owner_id filename content_type content w).0 ≡ ok d)
        × (d.status ≡ pending)
        × (d.knowledge_base_id ≡ kb_id)
        × ((upload s new_id kb_id owner_id filename content_type content w).1.documents
            ≡ w.documents ++ d ∷ [])
        × ((upload s new_id kb_id owner_id filename content_type content w).1.files
            ≡ w.files ++ (d.storage_ref, content) ∷ [])
        × ((upload s new_id kb_id owner_id filename content_type content w).1.queue
            ≡ w.queue ++ new_id ∷ []))
      ⊎ (IsForeign kb_id owner_id w
          × (upload s new_id kb_id owner_id filename content_type content w ≡ (err not_found, w)))
      ⊎ (IsOwner kb_id owner_id w
          × ((elem (extract_extension s.lower filename) s.allowed_extensions
                && not (ltb s.max_upload_size_bytes (length content)))
              ≡ false)
          × (upload s new_id kb_id owner_id filename content_type content w ≡ (err validation, w)))
unfolding upload get_owned_or_404
upload_exact s new_id kb_id owner_id filename content_type content w =
    elim (IsOwner-cases kb_id owner_id w) [
      | inr (missing, foreign) ↦ inr (inl ((missing, foreign), rw missing))
      | inl (kb, found, a, b) ↦
          elim (Bool-cases (elem (extract_extension s.lower filename) s.allowed_extensions)) [
            | inr refused ↦ inr (inr ((kb, found, a, b), rw refused, rw found (rw refused)))
            | inl allowed ↦ elim (Bool-cases (ltb s.max_upload_size_bytes (length content))) [
              | inl large ↦
                  inr (
                    inr
                      ((kb, found, a, b), rw allowed (rw large), rw found (rw allowed (rw large))))
              | inr fits ↦ inl (
                new_document s new_id kb_id owner_id filename content_type content,
                (kb, found, a, b),
                allowed,
                ground arith,
                rw found (rw allowed (rw fits)),
                refl,
                refl,
                rw found (rw allowed (rw fits)),
                rw found (rw allowed (rw fits)),
                rw found (rw allowed (rw fits)),
              )
            ]
          ]
    ]

-- `get` finds a document only in the knowledge base that is asked for, and only for its owner.
get-owned :
    (document_id kb_id owner_id : ℕ) (w : Stores) (d : Document)
    → get document_id kb_id owner_id w ≡ ok d
    → IsOwner kb_id owner_id w × (d.id ≡ document_id) × (d.knowledge_base_id ≡ kb_id)
unfolding get get_owned_or_404 get_for_knowledge_base
get-owned document_id kb_id owner_id w d h = elim (IsOwner-cases kb_id owner_id w) [
  | inr (missing, _) ↦ absurd (ground arith)
  | inl (kb, found, a, b) ↦
      elim (Option-cases (get_for_knowledge_base document_id kb_id w.documents)) [
        | inl none_there ↦ absurd (ground arith)
        | inr (e, there) ↦
            let same : e ≡ d = ground arith in
            let (p, q) =
              &&-eq-true (e.id == document_id) _ (find_first-passes _ w.documents e there) in
            (
              (kb, found, a, b),
              rw (sym same) ((nat_beq_iff e.id document_id).0 p),
              rw (sym same) ((nat_beq_iff e.knowledge_base_id kb_id).0 q),
            )
      ]
]

-- A document that is another one, or stands in another knowledge base.
abbrev pub IsElsewhere : ℕ → ℕ → Document → Type 0
IsElsewhere document_id kb_id d = d.id ≡ document_id → d.knowledge_base_id ≡ kb_id → ⊥

find_first-IsElsewhere :
    (document_id kb_id : ℕ) (docs : List Document)
    → get_for_knowledge_base document_id kb_id docs ≡ none
    → All (IsElsewhere document_id kb_id) docs
unfolding get_for_knowledge_base
find_first-IsElsewhere document_id kb_id [] h = tt
find_first-IsElsewhere document_id kb_id (d ∷ docs) h = (
  λ same there.
      ground (
        arith,
        h,
        same,
        there,
        nat_beq_iff d.id document_id,
        nat_beq_iff d.knowledge_base_id kb_id,
      ),
  find_first-IsElsewhere document_id kb_id docs (ground (arith, h)),
)

-- `get` gives a document, or it is not found: for anyone but the owner, or since no document has the
-- id in the knowledge base.
get-cases :
    (document_id kb_id owner_id : ℕ) (w : Stores)
    → ((d : Document) × (get document_id kb_id owner_id w ≡ ok d))
      ⊎ ((IsForeign kb_id owner_id w ⊎ All (IsElsewhere document_id kb_id) w.documents)
          × (get document_id kb_id owner_id w ≡ err not_found))
unfolding get get_owned_or_404
get-cases document_id kb_id owner_id w = elim (IsOwner-cases kb_id owner_id w) [
  | inr (missing, foreign) ↦ inr (inl (missing, foreign), rw missing)
  | inl (kb, found, a, b) ↦
      elim (Option-cases (get_for_knowledge_base document_id kb_id w.documents)) [
        | inl gone ↦
            inr
              (inr (find_first-IsElsewhere document_id kb_id w.documents gone), rw found (rw gone))
        | inr (d, there) ↦ inl (d, rw found (rw there))
      ]
]

find-filter :
    (i j : ℕ) (docs : List Document)
    → i ≢ j
    → get_by_id j (filterb (λ (d : Document). not (d.id == i)) docs) ≡ get_by_id j docs
unfolding get_by_id
find-filter i j [] ne = refl
find-filter i j (x ∷ docs) ne =
    ground (arith, find-filter i j docs, nat_beq_iff x.id i, nat_beq_iff x.id j)

filter-none :
    (i : ℕ) (docs : List Document)
    → get_by_id i (filterb (λ (d : Document). not (d.id == i)) docs) ≡ none
unfolding get_by_id
filter-none i [] = refl
filter-none i (x ∷ docs) = ground (arith, filter-none i docs)

filter-All :
    (i : ℕ) (rows : List ChunkRow)
    → All
        (λ (r : ChunkRow). r.document_id ≢ i)
        (filterb (λ (r : ChunkRow). not (r.document_id == i)) rows)
filter-All i [] = tt
filter-All i (r ∷ rows) = elim (Bool-cases (r.document_id == i)) [
  | inl e ↦ rw (e, filterb) (filter-All i rows)
  | inr e ↦ rw (e, filterb) (ground (arith, nat_beq_iff r.document_id i), filter-All i rows)
]

-- What a deletion leaves: the document and its chunk rows are gone, every other document is found
-- as before.
abbrev pub Deleted : ℕ → ℕ → Stores → Result (Unit {0}) × Stores → Type 0
Deleted document_id other w (r, w') =
    (r ≡ ok tt)
    × (get_by_id document_id w'.documents ≡ none)
    × All (λ (c : ChunkRow). c.document_id ≢ document_id) w'.chunks
    × (get_by_id other w'.documents ≡ get_by_id other w.documents)

-- A deletion succeeds exactly for a document that `get` finds: one of the id and in the knowledge base
-- that are asked for, for the owner of that; the document and its chunk rows are then gone and every
-- other document is found as before. For anyone else, and where no document has the id in that
-- knowledge base, it is not found, and nothing changes.
pub delete_exact :
    (s : DocumentService) (document_id other kb_id owner_id : ℕ) (w : Stores)
    → document_id ≢ other
    → ((d : Document) × IsOwner kb_id owner_id w
        × (d.id ≡ document_id)
        × (d.knowledge_base_id ≡ kb_id)
        × (get document_id kb_id owner_id w ≡ ok d)
        × Deleted document_id other w (delete s document_id kb_id owner_id w))
      ⊎ ((IsForeign kb_id owner_id w ⊎ All (IsElsewhere document_id kb_id) w.documents)
          × (delete s document_id kb_id owner_id w ≡ (err not_found, w)))
unfolding delete
delete_exact s document_id other kb_id owner_id w ne =
    elim (get-cases document_id kb_id owner_id w) [
      | inr (why, refused) ↦ inr (why, rw refused)
      | inl (d, found) ↦
          let (owner, same, there) = get-owned document_id kb_id owner_id w d found in
          inl (
            d,
            owner,
            same,
            there,
            found,
            rw found (
                rw same (
                  refl,
                  filter-none document_id w.documents,
                  filter-All document_id w.chunks,
                  find-filter document_id other w.documents ne,
                )),
          )
    ]
