-- ===== src/Base/Lists.antt =====
-- Lists measured and cut by native numbers, under the library's names, and predicates on lists.
use Prim.Native.Nat.{ℕ, zero, suc, ◌+◌, ◌-◌, ◌<◌, min}
use mathlib.Core.Path.{◌≡◌, refl, ap}
use mathlib.Core.Bool.{Bool, true, false}
use mathlib.Core.List.{List, [], ◌∷◌, ◌++◌, map}
use mathlib.Core.Option.{Option, none, some}
use native.Mathlib.Omega.{arith}

module _ {ℓ} {A : Type ℓ} where
  abbrev pub length : List A → ℕ
  length [] = 0
  length (x ∷ xs) = suc (length xs)

  abbrev pub get_elem? : List A → ℕ → Option A
  get_elem? [] i = none
  get_elem? (x ∷ xs) zero = some x
  get_elem? (x ∷ xs) (suc i) = get_elem? xs i

  abbrev pub take : ℕ → List A → List A
  take zero xs = []
  take (suc n) [] = []
  take (suc n) (x ∷ xs) = x ∷ take n xs

  abbrev pub drop : ℕ → List A → List A
  drop zero xs = xs
  drop (suc n) [] = []
  drop (suc n) (x ∷ xs) = drop n xs

  -- The rows in the order of creation, turned round.
  abbrev pub newest_first : List A → List A
  newest_first [] = []
  newest_first (x ∷ xs) = newest_first xs ++ x ∷ []

  -- `order_by(created_at.desc()).limit(limit).offset(offset)`
  abbrev pub page : ℕ → ℕ → List A → List A
  page limit offset rows = take limit (drop offset (newest_first rows))

  -- A comprehension with a condition: `[x for x in xs if p(x)]`.
  abbrev pub filterb : (A → Bool) → List A → List A
  filterb p [] = []
  filterb p (x ∷ xs) = let rest = filterb p xs in elim (p x) [ true ↦ x ∷ rest | false ↦ rest ]

  -- `any(p(x) for x in xs)`
  abbrev pub anyb : (A → Bool) → List A → Bool
  anyb p [] = false
  anyb p (x ∷ xs) = elim (p x) [ true ↦ true | false ↦ anyb p xs ]

  -- The first row that passes a test, as a query for one row finds it.
  abbrev pub find_first : (A → Bool) → List A → Option A
  find_first p [] = none
  find_first p (x ∷ xs) = elim (p x) [ true ↦ some x | false ↦ find_first p xs ]

  abbrev pub is_empty : List A → Bool
  is_empty [] = true
  is_empty (x ∷ xs) = false

module _ {ℓ κ} {A : Type ℓ} where
  -- Every element of the list satisfies `P`.
  abbrev pub All : (A → Type κ) → List A → Type κ
  All P [] = Unit
  All P (x ∷ xs) = P x × All P xs

module _ {ℓ} {A : Type ℓ} where
  -- The sum of a measure over a list.
  abbrev pub sum_of : (A → ℕ) → List A → ℕ
  sum_of f [] = 0
  sum_of f (x ∷ xs) = f x + sum_of f xs

  pub get_elem?-total : (xs : List A) (i : ℕ) → i < length xs → (x : A) × (get_elem? xs i ≡ some x)
  get_elem?-total [] i h = absurd (omega arith)
  get_elem?-total (x ∷ xs) zero h = (x, refl)
  get_elem?-total (x ∷ xs) (suc i) h = get_elem?-total xs i (omega arith)

  pub length-append : (xs ys : List A) → length (xs ++ ys) ≡ length xs + length ys
  length-append [] ys = omega arith
  length-append (x ∷ xs) ys = omega (arith, length-append xs ys)

  pub sum_of-append : (f : A → ℕ) (xs ys : List A) → sum_of f (xs ++ ys) ≡ sum_of f xs + sum_of f ys
  sum_of-append f [] ys = omega arith
  sum_of-append f (x ∷ xs) ys = omega (arith, sum_of-append f xs ys)

  pub length-take : (n : ℕ) (xs : List A) → length (take n xs) ≡ min n (length xs)
  length-take zero xs = omega arith
  length-take (suc n) [] = omega arith
  length-take (suc n) (x ∷ xs) = omega (arith, length-take n xs)

  pub length-drop : (n : ℕ) (xs : List A) → length (drop n xs) ≡ length xs - n
  length-drop zero xs = omega arith
  length-drop (suc n) [] = omega arith
  length-drop (suc n) (x ∷ xs) = omega (arith, length-drop n xs)

  pub take_nil : (n : ℕ) → take {A = A} n [] ≡ []
  take_nil zero = refl
  take_nil (suc n) = refl

  pub take-append-drop : (n : ℕ) (xs : List A) → take n xs ++ drop n xs ≡ xs
  take-append-drop zero xs = refl
  take-append-drop (suc n) [] = refl
  take-append-drop (suc n) (x ∷ xs) = ap (λ r. x ∷ r) (take-append-drop n xs)

  pub length-map {κ} : {B : Type κ} (f : A → B) (xs : List A) → length (map f xs) ≡ length xs
  length-map f [] = refl
  length-map f (x ∷ xs) = ap suc (length-map f xs)

module _ {ℓ κ} {A : Type ℓ} (P : A → Type κ) where
  pub All-append : (xs ys : List A) → All P xs → All P ys → All P (xs ++ ys)
  All-append [] ys hx hy = hy
  All-append (x ∷ xs) ys hx hy = (hx.0, All-append xs ys hx.1 hy)

  pub All-take : (n : ℕ) (xs : List A) → All P xs → All P (take n xs)
  All-take zero xs h = tt
  All-take (suc n) [] h = tt
  All-take (suc n) (x ∷ xs) h = (h.0, All-take n xs h.1)

  pub All-of {μ} : {Q : A → Type μ} → ((a : A) → P a → Q a) → (xs : List A) → All P xs → All Q xs
  All-of f [] h = tt
  All-of f (x ∷ xs) h = (f x h.0, All-of f xs h.1)

-- `zip(xs, ys, strict=True)`, with `none` for the `ValueError` of unequal lengths.
module _ {ℓ κ} {A : Type ℓ} {B : Type κ} where
  abbrev pub zip_strict : List A → List B → Option (List (A × B))
  zip_strict [] [] = some []
  zip_strict (x ∷ xs) (y ∷ ys) = elim (zip_strict xs ys) [
    | none ↦ none
    | some ps ↦ some ((x, y) ∷ ps)
  ]
  zip_strict _ _ = none

  -- Lists of one length have a strict zip, whose halves they are.
  pub zip_strict-total :
      (xs : List A) (ys : List B)
      → length xs ≡ length ys
      → (ps : List (A × B)) × (zip_strict xs ys ≡ some ps)
        × (map (λ p. p.0) ps ≡ xs)
        × (map (λ p. p.1) ps ≡ ys)
  zip_strict-total [] [] h = ([], refl, refl, refl)
  zip_strict-total [] (y ∷ ys) h = absurd (omega arith)
  zip_strict-total (x ∷ xs) [] h = absurd (omega arith)
  zip_strict-total (x ∷ xs) (y ∷ ys) h =
      let (ps, e, f, g) = zip_strict-total xs ys (omega arith) in
      ((x, y) ∷ ps, rw (e, zip_strict), ap (λ l. x ∷ l) f, ap (λ l. y ∷ l) g)

module _ {ℓ} {A : Type ℓ} (p : A → Bool) where
  -- What a query finds passes its test.
  pub find_first-passes : (xs : List A) (x : A) → find_first p xs ≡ some x → p x ≡ true
  find_first-passes [] x h = cc
  find_first-passes (y ∷ ys) x h = ground (arith, find_first-passes ys x)

  -- What a query finds stands in the list.
  pub find_first-there :
      (xs : List A) (x : A) → find_first p xs ≡ some x → (i : ℕ) × (get_elem? xs i ≡ some x)
  find_first-there [] x h = cc
  find_first-there (y ∷ ys) x h = there (find_first-there ys x) (p y) refl
    where
      there :
          (find_first p ys ≡ some x → (i : ℕ) × (get_elem? ys i ≡ some x))
          → (b : Bool) → p y ≡ b
          → (i : ℕ) × (get_elem? (y ∷ ys) i ≡ some x)
      there later true e = (0, ground (arith, h, e))
      there later false e = let (i, found) = later (ground (arith, h, e)) in (suc i, found)

  -- A query fails on a list with a row behind it, if it fails on the list and on the row.
  pub find_first-snoc_none :
      (xs : List A) (y : A)
      → find_first p xs ≡ none
      → p y ≡ false
      → find_first p (xs ++ y ∷ []) ≡ none
  find_first-snoc_none [] y h e = rw e
  find_first-snoc_none (x ∷ xs) y h e = ground (arith, find_first-snoc_none xs y)
