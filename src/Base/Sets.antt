-- ===== src/Base/Sets.antt =====
-- Python's `set(xs)`, as a list without repetitions, and `sorted(set(texts))`.
use Prim.Native.Nat.{◌<◌}
use mathlib.Core.Path.{◌≡◌, refl, ◌∙◌, ap, sym, subst}
use mathlib.Core.Logic.{◌≢◌, inl, inr}
use mathlib.Core.Bool.{Bool, true, false, ◌&&◌, ◌||◌}
use mathlib.Core.List.{List, [], ◌∷◌}
use native.Mathlib.Omega.{arith}
use rag_kb.Base.Tests.{ltb, nat_beq, if◌then◌else◌, Bool-cases}
use rag_kb.Base.Lists.{length}
use rag_kb.Base.Text.{Text}
use rag_kb.Base.Equality.{Eq, ◌==◌, elem, list_eq, nat_eq, list_beq_iff, ==_refl}

module _ {ℓ} {A : Type ℓ} ⦃e : Eq A⦄ where
  -- `set(xs)`
  unfoldable pub unique : List A → List A
  unique [] = []
  unique (x ∷ xs) = let rest = unique xs in if elem x rest then rest else x ∷ rest

  pub elem-unique : (k : A) (xs : List A) → elem k (unique xs) ≡ elem k xs
  unfolding unique
  elem-unique k [] = refl
  elem-unique k (x ∷ xs) = elim (Bool-cases (elem x (unique xs))) [
    | inl there ↦
        rw (there, unique)
          (elim (Bool-cases (x == k)) [
            | inl same ↦
                rw (same, elem)
                  (subst (λ a. elem a (unique xs) ≡ true) ((e.beq_iff x k).0 same) there)
            | inr other ↦ rw (other, elem) (elem-unique k xs)
          ])
    | inr new ↦
        rw (new, unique) (ap (λ b. elim (x == k) [ true ↦ true | false ↦ b ]) (elem-unique k xs))
  ]

  -- A set has two elements or more exactly if its list has two elements that are not equal.
  pub two-unique :
      (xs : List A)
      → 1 < length (unique xs)
      → (a : A) × (b : A) × (elem a xs ≡ true) × (elem b xs ≡ true) × (a ≢ b)
  unfolding unique
  two-unique [] h = absurd (omega arith)
  two-unique (x ∷ xs) h = elim (Bool-cases (elem x (unique xs))) [
    | inl there ↦
        let (a, b, ea, eb, ne) = two-unique xs (rw (there, unique) at h) in
        (a, b, later a ea, later b eb, ne)
    | inr new ↦ from (unique xs) refl new (rw (new, unique) at h)
  ]
    where
      later : (a : A) → elem a xs ≡ true → elem a (x ∷ xs) ≡ true
      later a h = ground (arith, h)

      from :
          (l : List A)
          → unique xs ≡ l
          → elem x (unique xs) ≡ false
          → 1 < length (x ∷ unique xs)
          → (a : A) × (b : A) × (elem a (x ∷ xs) ≡ true) × (elem b (x ∷ xs) ≡ true) × (a ≢ b)
      from [] same new long = absurd (omega (arith, ap length same))
      from (y ∷ l) same new long =
          let there : elem y (unique xs) ≡ true = rw same (rw (==_refl y, elem)) in
          (
            x,
            y,
            rw (==_refl x, elem),
            later y (sym (elem-unique y xs) ∙ there),
            λ p. ground (arith, new, there, ap (λ a. elem a (unique xs)) p),
          )

  pub unique-two :
      (a b : A) (xs : List A) → elem a xs ≡ true → elem b xs ≡ true → a ≢ b → 1 < length (unique xs)
  unique-two a b xs ea eb ne = from (unique xs) (elem-unique a xs ∙ ea) (elem-unique b xs ∙ eb)
    where
      from : (l : List A) → elem a l ≡ true → elem b l ≡ true → 1 < length l
      from [] ha hb = cc
      from (x ∷ []) ha hb = ground (arith, e.beq_iff x a, e.beq_iff x b, ne)
      from (x ∷ y ∷ l) ha hb = omega arith

-- The order of strings, by code points.
unfoldable pub text_less : Text → Text → Bool
text_less [] [] = false
text_less [] (y ∷ ys) = true
text_less (x ∷ xs) [] = false
text_less (x ∷ xs) (y ∷ ys) = let rest = text_less xs ys in ltb x y || (nat_beq x y && rest)

unfoldable insert_text : Text → List Text → List Text
unfolding text_less
insert_text t [] = t ∷ []
insert_text t (u ∷ us) =
    let later = u ∷ insert_text t us in
    if t == u then u ∷ us else if text_less t u then t ∷ u ∷ us else later

-- `sorted(set(texts))`
unfoldable pub sorted_set : List Text → List Text
unfolding insert_text
sorted_set [] = []
sorted_set (t ∷ ts) = insert_text t (sorted_set ts)

elem-insert_text : (k t : Text) (us : List Text) → elem k (insert_text t us) ≡ elem k (t ∷ us)
unfolding insert_text
elem-insert_text k t [] = refl
elem-insert_text k t (u ∷ us) =
    ground (arith, elem-insert_text k t us, list_beq_iff t u, list_beq_iff t k, list_beq_iff u k)

-- A text is in the sorted set exactly if it is in the list.
pub elem-sorted_set : (k : Text) (ts : List Text) → elem k (sorted_set ts) ≡ elem k ts
unfolding sorted_set
elem-sorted_set k [] = refl
elem-sorted_set k (t ∷ ts) =
    elem-insert_text k t (sorted_set ts)
    ∙ ap (λ b. elim (t == k) [ true ↦ true | false ↦ b ]) (elem-sorted_set k ts)
