-- ===== src/Loaders/Layout.antt =====
-- app/loaders/advanced_pdf_loader.py: the words of a page in its columns and lines.
use rag_kb.Base.{◌≡◌, refl, List, [], ◌∷◌, ◌++◌, Bool, not, filterb, Bool-cases, inl, inr}
use mathlib.Core.List.{Perm}
use mathlib.Core.List.Perm
use rag_kb.Loaders.Pdf.{Numbers, Word, Page, line_loop, lines, left_words, right_words}

abbrev pub concat : {A : Type 0} → List (List A) → List A
concat [] = []
concat (xs ∷ xss) = xs ++ concat xss

append_nil : {A : Type 0} (xs : List A) → xs ++ [] ≡ xs
append_nil [] = refl
append_nil (x ∷ xs) = rw (append_nil xs) refl

append_assoc : {A : Type 0} (xs ys zs : List A) → (xs ++ ys) ++ zs ≡ xs ++ (ys ++ zs)
append_assoc [] ys zs = refl
append_assoc (x ∷ xs) ys zs = rw (append_assoc xs ys zs) refl

perm_middle : {A : Type 0} (x : A) (xs ys : List A) → Perm (xs ++ x ∷ ys) (x ∷ (xs ++ ys))
perm_middle x [] ys = Perm.refl (x ∷ ys)
perm_middle x (y ∷ xs) ys =
    Perm.trans (Perm.cons y (perm_middle x xs ys)) (Perm.swap x y (xs ++ ys))

-- A test cuts a list in two that together have its entries.
filterb-perm :
    {A : Type 0} (p : A → Bool) (xs : List A)
    → Perm (filterb p xs ++ filterb (λ x. not (p x)) xs) xs
filterb-perm p [] = Perm.refl []
filterb-perm p (x ∷ xs) = elim (Bool-cases (p x)) [
  | inl e ↦ rw (filterb, ◌++◌, e) (Perm.cons x (filterb-perm p xs))
  | inr e ↦
      rw (filterb, ◌++◌, e)
        (Perm.trans (perm_middle x (filterb p xs) (filterb (λ x. not (p x)) xs))
          (Perm.cons x (filterb-perm p xs)))
]

module _ {F : Type 0} (f : Numbers F) where
  line_loop-concat :
      (line : List (Word f)) (last : Word f) (ws : List (Word f))
      → concat (line_loop f line last ws) ≡ line ++ ws
  unfolding line_loop
  line_loop-concat line last [] = refl
  line_loop-concat line last (w ∷ ws) =
      elim (Bool-cases (f.lt (f.abs (f.sub w.top last.top)) f.three)) [
        | inl e ↦
            rw (line_loop, e, line_loop-concat (line ++ w ∷ []) w ws)
              (append_assoc line (w ∷ []) ws)
        | inr e ↦ rw (line_loop, e, line_loop-concat (w ∷ []) w ws) refl
      ]

  -- The lines have the words, in their order.
  lines-concat : (ws : List (Word f)) → concat (lines f ws) ≡ ws
  unfolding lines
  lines-concat [] = refl
  lines-concat (w ∷ ws) = line_loop-concat (w ∷ []) w ws

  -- No word of a page gets lost in its layout, and none appears twice: wherever the middle of the
  -- page is and however high the words stand, the lines of the left column and then those of the
  -- right one have together the words of the page, and the words of each column are in the order of
  -- the page.
  pub layout_keeps_words :
      (page : Page f)
      → (concat (lines f (left_words f page)) ≡ left_words f page)
        × (concat (lines f (right_words f page)) ≡ right_words f page)
        × Perm
            (concat (lines f (left_words f page)) ++ concat (lines f (right_words f page)))
            page.words
  layout_keeps_words page =
      let left = lines-concat (left_words f page) in
      let right = lines-concat (right_words f page) in
      (
        left,
        right,
        rw (left, right) (filterb-perm (λ w. f.lt w.x0 (f.div page.width f.two)) page.words),
      )
