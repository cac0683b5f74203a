-- ===== src/Base/Dict.antt =====
-- Python's `dict`: an association list in insertion order, over any keys with equality.
use rag_kb.Base.Tests.{if◌then◌else◌, Bool-cases}
use rag_kb.Base.Equality.{Eq, ◌==◌, ==_refl}
use rag_kb.Base.Lists.{All}
use mathlib.Core.Path.{◌≡◌, refl, subst, ◌∙◌}
use mathlib.Core.Logic.{◌≢◌, inl, inr}
use mathlib.Core.Bool.{Bool, true, false}
use mathlib.Core.List.{List, [], ◌∷◌}
use mathlib.Core.Option.{Option, none, some}
use native.Mathlib.Omega.{arith}

abbrev pub Dict {ℓ κ} : Type ℓ → Type κ → Type (ℓ ⊔ κ)
Dict K V = List (K × V)

module _ {ℓ κ} {K : Type ℓ} {V : Type κ} ⦃e : Eq K⦄ where
  unfoldable pub lookup : K → Dict K V → Option V
  lookup k [] = none
  lookup k ((j, v) ∷ d) = if j == k then some v else lookup k d

  -- `d[k] = v`: in place for a key that is there, else at the end.
  unfoldable pub insert : K → V → Dict K V → Dict K V
  insert k v [] = (k, v) ∷ []
  insert k v ((j, w) ∷ d) = if j == k then (j, v) ∷ d else (j, w) ∷ insert k v d

  -- `k in d`
  unfoldable pub contains : K → Dict K V → Bool
  unfolding lookup
  contains k d = elim (lookup k d) [ none ↦ false | some _ ↦ true ]

  -- `d.get(k, v)`
  unfoldable pub get_or : K → V → Dict K V → V
  unfolding lookup
  get_or k v d = elim (lookup k d) [ none ↦ v | some w ↦ w ]

  -- `d.setdefault(k, v)`, for its effect.
  unfoldable pub set_default : K → V → Dict K V → Dict K V
  unfolding contains insert
  set_default k v d = if contains k d then d else insert k v d

  unfoldable pub keys : Dict K V → List K
  keys [] = []
  keys ((j, v) ∷ d) = j ∷ keys d

  pub lookup-insert :
      (k j : K) (v : V) (d : Dict K V)
      → lookup j (insert k v d) ≡ (if k == j then some v else lookup j d)
  unfolding lookup insert
  lookup-insert k j v [] = refl
  lookup-insert k j v ((i, w) ∷ d) =
      ground (arith, e.beq_iff k j, e.beq_iff i k, e.beq_iff i j, lookup-insert k j v d)

pub lookup-here {ℓ κ} :
    {K : Type ℓ} {V : Type κ} ⦃e : Eq K⦄ (k : K) (v : V) (d : Dict K V)
    → lookup k ((k, v) ∷ d) ≡ some v
unfolding lookup
lookup-here k v d = rw (==_refl k)

pub lookup-there {ℓ κ} :
    {K : Type ℓ} {V : Type κ} ⦃e : Eq K⦄ (j k : K) (v : V) (d : Dict K V)
    → k ≢ j
    → lookup j ((k, v) ∷ d) ≡ lookup j d
unfolding lookup
lookup-there ⦃e⦄ j k v d h = ground (arith, e.beq_iff k j)

-- No key is listed twice.
module _ {ℓ κ} {K : Type ℓ} {V : Type κ} where
  abbrev pub Distinct : Dict K V → Type ℓ
  Distinct [] = Unit
  Distinct ((k, v) ∷ d) = All (λ p. k ≢ p.0) d × Distinct d

module _ {ℓ κ} {K : Type ℓ} {V : Type κ} ⦃e : Eq K⦄ where
  ne-insert :
      (i k : K) (v : V) (d : Dict K V)
      → i ≢ k
      → All (λ p. i ≢ p.0) d
      → All (λ p. i ≢ p.0) (insert k v d)
  unfolding insert
  ne-insert i k v [] h a = (h, tt)
  ne-insert i k v ((j, w) ∷ d) h a = elim (Bool-cases (j == k)) [
    | inl eq ↦ rw (eq, insert) a
    | inr ne ↦ rw (ne, insert) (a.0, ne-insert i k v d h a.1)
  ]

  pub insert-Distinct : (k : K) (v : V) (d : Dict K V) → Distinct d → Distinct (insert k v d)
  unfolding insert
  insert-Distinct k v [] h = (tt, tt)
  insert-Distinct k v ((j, w) ∷ d) h = elim (Bool-cases (j == k)) [
    | inl eq ↦ rw (eq, insert) h
    | inr ne ↦
        rw (ne, insert)
          (ne-insert j k v d (λ p. cc ((e.beq_iff j k).1 p)) h.0, insert-Distinct k v d h.1)
  ]

pub contains_nil {ℓ κ} :
    {K : Type ℓ} ⦃e : Eq K⦄ (V : Type κ) (j : K) → contains {V = V} j [] ≡ false
unfolding contains
contains_nil V j = refl

module _ {ℓ κ} {K : Type ℓ} {V : Type κ} ⦃e : Eq K⦄ where
  pub contains-insert :
      (k j : K) (v : V) (d : Dict K V)
      → contains j (insert k v d) ≡ (if k == j then true else contains j d)
  unfolding contains
  contains-insert k j v d = ground (arith, lookup-insert k j v d)

  pub contains-set_default :
      (k j : K) (v : V) (d : Dict K V)
      → contains j (set_default k v d) ≡ (if k == j then true else contains j d)
  unfolding set_default
  contains-set_default k j v d = elim (Bool-cases (contains k d)) [
    | inl there ↦ rw there (elim (Bool-cases (k == j)) [
      | inl same ↦ rw same (subst (λ i. contains i d ≡ true) ((e.beq_iff k j).0 same) there)
      | inr other ↦ rw other
    ])
    | inr absent ↦ rw absent (contains-insert k j v d)
  ]

  pub lookup-set_default-some :
      (k j : K) (v w : V) (d : Dict K V)
      → lookup j d ≡ some w
      → lookup j (set_default k v d) ≡ some w
  unfolding set_default
  lookup-set_default-some k j v w d h = elim (Bool-cases (contains k d)) [
    | inl there ↦ rw there h
    | inr absent ↦
        rw (absent, lookup-insert k j v d)
          (elim (Bool-cases (k == j)) [
            | inl same ↦ unfold contains in ground (arith, e.beq_iff k j)
            | inr other ↦ rw other h
          ])
  ]

  -- Where no key is listed twice, each entry is what a lookup of its key finds.
  pub Distinct-lookup : (d : Dict K V) → Distinct d → All (λ p. lookup p.0 d ≡ some p.1) d
  Distinct-lookup [] h = tt
  Distinct-lookup ((k, v) ∷ d) h = (lookup-here k v d, go d h.0 (Distinct-lookup d h.1))
    where
      go :
          (l : Dict K V)
          → All (λ p. k ≢ p.0) l
          → All (λ p. lookup p.0 d ≡ some p.1) l
          → All (λ p. lookup p.0 ((k, v) ∷ d) ≡ some p.1) l
      go [] a b = tt
      go (p ∷ l) a b = (lookup-there p.0 k v d a.0 ∙ b.0, go l a.1 b.1)
