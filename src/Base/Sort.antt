-- ===== src/Base/Sort.antt =====
-- `sorted(xs, key=key, reverse=True)`: largest first, and in the old order where neither of two
-- keys is below the other.
use rag_kb.Base.Tests.{Bool-cases, if◌then◌else◌}
use rag_kb.Base.Lists.{All, All-of, All-take, length, take}
use Prim.Native.Nat.{ℕ, zero, suc}
use mathlib.Core.Path.{◌≡◌, refl, ap, ◌∙◌, sym}
use mathlib.Core.Logic.{◌≢◌, inl, inr}
use mathlib.Core.Bool.{Bool, true, false}
use mathlib.Core.List.{List, [], ◌∷◌, Perm}
use mathlib.Core.List.Perm

-- The order that floats have where no NaN stands among them.
pub record IsStrictOrder {ℓ} {S : Type ℓ} (less : S → S → Bool) : Type ℓ where
  pub asymmetric : (a b : S) → less a b ≡ true → less b a ≡ false
  pub co_transitive : (a b c : S) → less a b ≡ false → less b c ≡ false → less a c ≡ false

module _ {ℓ κ} {A : Type ℓ} {S : Type κ} (less : S → S → Bool) (key : A → S) where
  unfoldable pub insert_descending : A → List A → List A
  insert_descending x [] = x ∷ []
  insert_descending x (y ∷ ys) =
      let later = y ∷ insert_descending x ys in if less (key x) (key y) then later else x ∷ y ∷ ys

  unfoldable pub sort_descending : List A → List A
  unfolding insert_descending
  sort_descending [] = []
  sort_descending (x ∷ xs) = insert_descending x (sort_descending xs)

  -- No key is below a later one.
  abbrev pub IsDescending : List A → Type (ℓ ⊔ κ)
  IsDescending [] = Unit
  IsDescending (x ∷ xs) = All (λ y. less (key x) (key y) ≡ false) xs × IsDescending xs

  insert_descending-perm : (x : A) (xs : List A) → Perm (insert_descending x xs) (x ∷ xs)
  unfolding insert_descending
  insert_descending-perm x [] = Perm.refl (x ∷ [])
  insert_descending-perm x (y ∷ ys) = elim (Bool-cases (less (key x) (key y))) [
    | inl e ↦
        rw (e, insert_descending)
          (Perm.trans (Perm.cons y (insert_descending-perm x ys)) (Perm.swap x y ys))
    | inr e ↦ rw (e, insert_descending) (Perm.refl (x ∷ y ∷ ys))
  ]

  -- Sorting rearranges its list.
  pub sort_descending-perm : (xs : List A) → Perm (sort_descending xs) xs
  unfolding sort_descending
  sort_descending-perm [] = Perm.refl []
  sort_descending-perm (x ∷ xs) =
      Perm.trans (insert_descending-perm x (sort_descending xs))
        (Perm.cons x (sort_descending-perm xs))

  pub All-insert_descending {μ} :
      (P : A → Type μ) (x : A) (xs : List A) → P x → All P xs → All P (insert_descending x xs)
  unfolding insert_descending
  All-insert_descending P x [] p h = (p, tt)
  All-insert_descending P x (y ∷ ys) p h = elim (Bool-cases (less (key x) (key y))) [
    | inl e ↦ rw (e, insert_descending) (h.0, All-insert_descending P x ys p h.1)
    | inr e ↦ rw (e, insert_descending) (p, h)
  ]

  pub All-sort_descending {μ} :
      (P : A → Type μ) (xs : List A) → All P xs → All P (sort_descending xs)
  unfolding sort_descending
  All-sort_descending P [] h = tt
  All-sort_descending P (x ∷ xs) h =
      All-insert_descending P x (sort_descending xs) h.0 (All-sort_descending P xs h.1)

  module _ (order : IsStrictOrder less) where
    insert-IsDescending :
        (x : A) (xs : List A) → IsDescending xs → IsDescending (insert_descending x xs)
    unfolding insert_descending
    insert-IsDescending x [] h = (tt, tt)
    insert-IsDescending x (y ∷ ys) h = elim (Bool-cases (less (key x) (key y))) [
      | inl e ↦
          rw (e, insert_descending)
            (
              All-insert_descending _ x ys (order.asymmetric (key x) (key y) e) h.0,
              insert-IsDescending x ys h.1,
            )
      | inr e ↦
          rw (e, insert_descending)
            ((e, All-of _ (λ z q. order.co_transitive (key x) (key y) (key z) e q) ys h.0), h)
    ]

    -- Sorting puts no key below a later one.
    pub sort-IsDescending : (xs : List A) → IsDescending (sort_descending xs)
    unfolding sort_descending
    sort-IsDescending [] = tt
    sort-IsDescending (x ∷ xs) = insert-IsDescending x (sort_descending xs) (sort-IsDescending xs)

  length-insert_descending :
      (y : A) (ys : List A) → length (insert_descending y ys) ≡ suc (length ys)
  unfolding insert_descending
  length-insert_descending y [] = refl
  length-insert_descending y (z ∷ ys) = elim (Bool-cases (less (key y) (key z))) [
    | inl e ↦ rw (e, insert_descending) (ap suc (length-insert_descending y ys))
    | inr e ↦ rw (e, insert_descending)
  ]

  pub length-sort_descending : (xs : List A) → length (sort_descending xs) ≡ length xs
  unfolding sort_descending
  length-sort_descending [] = refl
  length-sort_descending (x ∷ xs) =
      length-insert_descending x (sort_descending xs) ∙ ap suc (length-sort_descending xs)

-- No two elements have the same name.
module _ {ℓ κ} {A : Type ℓ} {K : Type κ} (name : A → K) where
  abbrev pub DistinctBy : List A → Type κ
  DistinctBy [] = Unit
  DistinctBy (x ∷ xs) = All (λ y. name x ≢ name y) xs × DistinctBy xs

  pub take-DistinctBy : (n : ℕ) (xs : List A) → DistinctBy xs → DistinctBy (take n xs)
  take-DistinctBy zero xs h = tt
  take-DistinctBy (suc n) [] h = tt
  take-DistinctBy (suc n) (x ∷ xs) h = (All-take _ n xs h.0, take-DistinctBy n xs h.1)

  module _ {μ} {S : Type μ} (less : S → S → Bool) (key : A → S) where
    insert-DistinctBy :
        (x : A) (xs : List A)
        → All (λ y. name x ≢ name y) xs
        → DistinctBy xs
        → DistinctBy (insert_descending less key x xs)
    unfolding insert_descending
    insert-DistinctBy x [] h d = (tt, tt)
    insert-DistinctBy x (y ∷ ys) h d = elim (Bool-cases (less (key x) (key y))) [
      | inl e ↦
          rw (e, insert_descending)
            (
              All-insert_descending less key _ x ys (λ p. h.0 (sym p)) d.0,
              insert-DistinctBy x ys h.1 d.1,
            )
      | inr e ↦ rw (e, insert_descending) (h, d)
    ]

    pub sort-DistinctBy : (xs : List A) → DistinctBy xs → DistinctBy (sort_descending less key xs)
    unfolding sort_descending
    sort-DistinctBy [] d = tt
    sort-DistinctBy (x ∷ xs) d =
        insert-DistinctBy x (sort_descending less key xs) (All-sort_descending less key _ xs d.0)
          (sort-DistinctBy xs d.1)

module _ {ℓ κ} {A : Type ℓ} {S : Type κ} (less : S → S → Bool) (key : A → S) where
  pub take-IsDescending :
      (n : ℕ) (xs : List A) → IsDescending less key xs → IsDescending less key (take n xs)
  take-IsDescending zero xs h = tt
  take-IsDescending (suc n) [] h = tt
  take-IsDescending (suc n) (x ∷ xs) h = (All-take _ n xs h.0, take-IsDescending n xs h.1)
