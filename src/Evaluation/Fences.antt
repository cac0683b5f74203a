-- ===== src/Evaluation/Fences.antt =====
-- What `_parse_scores` reads of an answer that has other text around its object.
use rag_kb.Base.{
  ℕ, zero, suc, ◌+◌, ◌-◌, ◌≡◌, ◌≢◌, refl, ap, sym, ◌∙◌, ◌⊎◌, inl, inr, true, false, List, [], ◌∷◌,
  ◌++◌, Option, none, some, length, take, drop, arith, Bool-cases, leb, nat_beq, nat_beq_iff,
  &&-eq-true, take-append-drop, length-append, if◌then◌else◌, ◌&&◌,
}
use rag_kb.Base.Equality.{◌==◌, nat_eq, list_eq, elem, list_beq_iff}
use rag_kb.Base.Text.{Text, codes, strip, lstrip, rstrip, is_space, starts_with, find}
use rag_kb.Evaluation.Judge.{
  JudgeJson, remove_prefix, remove_suffix, rfind, fence, json_fence, cleaned, between, object_from,
  json_object, loaded, parse_scores,
}

-- An object with other text around it: no opening brace in front, no closing one behind.
abbrev pub object : Text → Text
object inner = 123 ∷ (inner ++ 125 ∷ [])

abbrev wrapped : Text → Text → Text → Text
wrapped pre inner post = pre ++ 123 ∷ (inner ++ 125 ∷ post)

abbrev Around : Text → Text → Type 0
Around inner t =
    (pre : Text) × (post : Text) × (t ≡ wrapped pre inner post)
    × (elem 123 pre ≡ false)
    × (elem 125 post ≡ false)

append_assoc : (xs ys zs : Text) → (xs ++ ys) ++ zs ≡ xs ++ (ys ++ zs)
append_assoc [] ys zs = refl
append_assoc (x ∷ xs) ys zs = ap (λ l. x ∷ l) (append_assoc xs ys zs)

elem-suffix : (c : ℕ) (xs ys : Text) → elem c (xs ++ ys) ≡ false → elem c ys ≡ false
elem-suffix c [] ys h = h
elem-suffix c (x ∷ xs) ys h = ground (arith, elem-suffix c xs ys, h)

elem-prefix : (c : ℕ) (xs ys : Text) → elem c (xs ++ ys) ≡ false → elem c xs ≡ false
elem-prefix c [] ys h = refl
elem-prefix c (x ∷ xs) ys h = ground (arith, elem-prefix c xs ys, h)

elem-middle : (c : ℕ) (xs ys : Text) → elem c (xs ++ c ∷ ys) ≡ true
elem-middle c [] ys = ground (arith, nat_beq_iff c c)
elem-middle c (x ∷ xs) ys = ground (arith, elem-middle c xs ys)

lstrip-wrapped :
    (inner pre post : Text)
    → elem 123 pre ≡ false
    → (pre' : Text) × (lstrip (wrapped pre inner post) ≡ wrapped pre' inner post)
      × (elem 123 pre' ≡ false)
unfolding lstrip is_space
lstrip-wrapped inner [] post h = ([], refl, refl)
lstrip-wrapped inner (x ∷ pre) post h = elim (Bool-cases (is_space x)) [
  | inl blank ↦
      let (pre', e, n) = lstrip-wrapped inner pre post (elem-suffix 123 (x ∷ []) pre h) in
      (pre', rw (blank, lstrip) e, n)
  | inr solid ↦ (x ∷ pre, rw (solid, lstrip) refl, h)
]

rstrip-solid :
    (c : ℕ) (xs ys : Text) → is_space c ≡ false → rstrip (xs ++ c ∷ ys) ≡ xs ++ c ∷ rstrip ys
unfolding rstrip
rstrip-solid c [] ys h = rw h refl
rstrip-solid c (x ∷ xs) ys h = rw (rstrip-solid c xs ys h, rstrip) (never xs)
  where
    never :
        (l : Text)
        → (if is_space x && rag_kb.Base.is_empty (l ++ c ∷ rstrip ys)
            then []
            else x ∷ (l ++ c ∷ rstrip ys))
          ≡ x ∷ (l ++ c ∷ rstrip ys)
    never [] = ground arith
    never (y ∷ l) = ground arith

elem-rstrip : (c : ℕ) (xs : Text) → elem c xs ≡ false → elem c (rstrip xs) ≡ false
unfolding rstrip
elem-rstrip c [] h = refl
elem-rstrip c (x ∷ xs) h =
    let ih = elem-rstrip c xs (elem-suffix c (x ∷ []) xs h) in ground (arith, ih, h)

strip-Around : (inner t : Text) → Around inner t → Around inner (strip t)
unfolding strip
strip-Around inner t (pre, post, e, hp, hq) =
    let (pre', f, hp') = lstrip-wrapped inner pre post hp in
    let solid : is_space 123 ≡ false = unfold is_space in refl in
    let closing : is_space 125 ≡ false = unfold is_space in refl in
    (
      pre',
      rstrip post,
      ap (λ x. rstrip (lstrip x)) e
          ∙ (ap rstrip f
              ∙ (rstrip-solid 123 pre' (inner ++ 125 ∷ post) solid
                  ∙ ap (λ x. pre' ++ 123 ∷ x) (rstrip-solid 125 inner post closing))),
      hp',
      elem-rstrip 125 post hq,
    )

starts_with-split :
    (p pre rest : Text)
    → elem 123 p ≡ false
    → starts_with p (pre ++ 123 ∷ rest) ≡ true
    → (pre' : Text) × (pre ≡ p ++ pre')
unfolding starts_with
starts_with-split [] pre rest h s = (pre, refl)
starts_with-split (c ∷ p) [] rest h s = absurd (clash ((&&-eq-true (nat_beq c 123) _ s).0))
  where
    clash : nat_beq c 123 ≡ true → ⊥
    clash g = ground (arith, h, g)
starts_with-split (c ∷ p) (x ∷ pre) rest h s =
    let (a, b) = &&-eq-true (nat_beq c x) _ s in
    let (pre', e) = starts_with-split p pre rest (elem-suffix 123 (c ∷ []) p h) b in
    let same = (nat_beq_iff c x).0 a in (pre', rw same (ap (λ l. x ∷ l) e))

drop-append : (xs ys : Text) → drop (length xs) (xs ++ ys) ≡ ys
drop-append [] ys = refl
drop-append (x ∷ xs) ys = drop-append xs ys

take-append : (xs ys : Text) → take (length xs) (xs ++ ys) ≡ xs
take-append [] ys = refl
take-append (x ∷ xs) ys = ap (λ l. x ∷ l) (take-append xs ys)

remove_prefix-Around :
    (p inner t : Text) → elem 123 p ≡ false → Around inner t → Around inner (remove_prefix p t)
remove_prefix-Around p inner t h (pre, post, e, hp, hq) = elim (Bool-cases (starts_with p t)) [
  | inr other ↦ rw other (pre, post, e, hp, hq)
  | inl there ↦
      let rest : Text = inner ++ 125 ∷ post in
      let (pre', f) = starts_with-split p pre rest h (rw e at there) in
      rw there (
        pre',
        post,
        ap (drop (length p)) (e ∙ (ap (λ l. l ++ 123 ∷ rest) f ∙ append_assoc p pre' (123 ∷ rest)))
            ∙ drop-append p (pre' ++ 123 ∷ rest),
        elem-suffix 123 p pre' (rw f at hp),
        hq,
      )
]

-- A text without a character, at the end of one that has it, stands behind it.
suffix-split :
    (c : ℕ) (a p xs post : Text)
    → elem c p ≡ false
    → a ++ p ≡ xs ++ c ∷ post
    → (post' : Text) × (post ≡ post' ++ p) × (a ≡ xs ++ c ∷ post')
suffix-split c [] p xs post h e = absurd (clash (rw e at h))
  where
    clash : elem c (xs ++ c ∷ post) ≡ false → ⊥
    clash k = let l = elem-middle c xs post in ground (arith, k, l)
suffix-split c (y ∷ a) p [] post h e =
    let same : y ≡ c = cc in let later : a ++ p ≡ post = cc in (a, sym later, ap (λ x. x ∷ a) same)
suffix-split c (y ∷ a) p (x ∷ xs) post h e =
    let same : y ≡ x = cc in
    let later : a ++ p ≡ xs ++ c ∷ post = cc in
    let (post', f, g) = suffix-split c a p xs post h later in
    (post', f, rw same (ap (λ l. x ∷ l) g))

wrapped_assoc :
    (pre inner post : Text) → wrapped pre inner post ≡ (pre ++ 123 ∷ inner) ++ 125 ∷ post
wrapped_assoc pre inner post = sym (append_assoc pre (123 ∷ inner) (125 ∷ post))

remove_suffix-Around :
    (p inner t : Text) → elem 125 p ≡ false → Around inner t → Around inner (remove_suffix p t)
remove_suffix-Around p inner t h (pre, post, e, hp, hq) =
    elim (Bool-cases (leb (length p) (length t) && (drop (length t - length p) t == p))) [
      | inr other ↦ rw other (pre, post, e, hp, hq)
      | inl there ↦
          let n = length t - length p in
          let ends =
            (list_beq_iff (drop n t) p).0 ((&&-eq-true (leb (length p) (length t)) _ there).1) in
          let (post', f, g) = suffix-split 125 (take n t) p (pre ++ 123 ∷ inner) post h (
            ap (λ l. take n t ++ l) (sym ends)
            ∙ (take-append-drop n t ∙ (e ∙ wrapped_assoc pre inner post))) in
          rw there (
            pre,
            post',
            g ∙ sym (wrapped_assoc pre inner post'),
            hp,
            elem-prefix 125 post' p (rw f at hq),
          )
    ]

cleaned-Around : (inner t : Text) → Around inner t → Around inner (cleaned t)
unfolding cleaned
cleaned-Around inner t around = remove_suffix-Around fence inner _ refl (
    remove_prefix-Around fence inner _ refl
      (remove_prefix-Around json_fence inner _ refl (strip-Around inner t around)))

find-brace :
    (pre rest : Text)
    → elem 123 pre ≡ false
    → find (codes "{") (pre ++ 123 ∷ rest) ≡ some (length pre)
unfolding find starts_with
find-brace [] rest h = refl
find-brace (x ∷ pre) rest h = ground (
  arith,
  find-brace pre rest (elem-suffix 123 (x ∷ []) pre h),
  nat_beq_iff 123 x,
  nat_beq_iff x 123,
  h,
)

rfind-none : (c : ℕ) (xs : Text) → elem c xs ≡ false → rfind c xs ≡ none
unfolding rfind
rfind-none c [] h = refl
rfind-none c (x ∷ xs) h = ground (arith, rfind-none c xs (elem-suffix c (x ∷ []) xs h), h)

rfind-last :
    (c : ℕ) (xs post : Text) → elem c post ≡ false → rfind c (xs ++ c ∷ post) ≡ some (length xs)
unfolding rfind
rfind-last c [] post h = ground (arith, rfind-none c post h, nat_beq_iff c c)
rfind-last c (x ∷ xs) post h = rw (rfind-last c xs post h, rfind) refl

between-object :
    (pre inner post : Text)
    → between (length pre) (length (pre ++ 123 ∷ inner)) (wrapped pre inner post) ≡ object inner
between-object pre inner post =
    let n : length (pre ++ 123 ∷ inner) + 1 - length pre ≡ length (object inner) =
      omega (arith, length-append pre (123 ∷ inner), length-append inner (125 ∷ [])) in
    rw (drop-append pre (123 ∷ (inner ++ 125 ∷ post)), n)
      (ap (λ l. take (length (object inner)) (123 ∷ l)) (sym (append_assoc inner (125 ∷ []) post))
        ∙ take-append (object inner) post)

json_object-Around : (inner t : Text) → Around inner t → json_object t ≡ some (object inner)
unfolding json_object
json_object-Around inner t (pre, post, e, hp, hq) =
    let found : rfind 125 (wrapped pre inner post) ≡ some (length (pre ++ 123 ∷ inner)) =
      ap (rfind 125) (wrapped_assoc pre inner post) ∙ rfind-last 125 (pre ++ 123 ∷ inner) post hq in
    ap (λ x. object_from x (find (codes "{") x) (rfind 125 x)) e
    ∙ rw (find-brace pre (inner ++ 125 ∷ post) hp)
        (rw found (ap some (between-object pre inner post)))

-- Whatever stands in front of the object without an opening brace, and behind it without a closing
-- one (white space, fences of Markdown, comments), `_parse_scores` gives what it gives for the object:
-- the scores that are read from it.
pub parse_scores-wrapped :
    (j : JudgeJson) (pre inner post : Text)
    → elem 123 pre ≡ false
    → elem 125 post ≡ false
    → parse_scores j (pre ++ (object inner ++ post)) ≡ loaded j (j.loads (object inner))
unfolding parse_scores
parse_scores-wrapped j pre inner post hp hq =
    let raw = pre ++ (object inner ++ post) in
    let at : raw ≡ wrapped pre inner post =
      ap (λ l. pre ++ 123 ∷ l) (append_assoc inner (125 ∷ []) post) in
    rw (json_object-Around inner (cleaned raw) (cleaned-Around inner raw (pre, post, at, hp, hq)))
      refl
