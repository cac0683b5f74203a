-- ===== src/Base/Numerals.antt =====
-- `str(n)` for a number that is not negative, as the f-strings of the source print it.
use Prim.Native.Nat.{ℕ, zero, suc, ◌+◌, ◌-◌, ◌*◌, ◌/◌, ◌%◌, ◌≤◌}
use mathlib.Core.Path.{◌≡◌, refl}
use mathlib.Core.Logic.{inl, inr}
use mathlib.Core.List.{[], ◌∷◌, ◌++◌}
use native.Mathlib.Omega.{arith}
use rag_kb.Base.Tests.{ltb, if◌then◌else◌, Bool-cases}
use rag_kb.Base.Text.{Text}

-- The digits of a number; the fuel bounds the number of divisions.
unfoldable digits_of : ℕ → ℕ → Text
digits_of zero n = (48 + n) ∷ []
digits_of (suc fuel) n =
    let longer = digits_of fuel (n / 10) ++ (48 + n % 10) ∷ [] in
    if ltb n 10 then (48 + n) ∷ [] else longer

-- `str(n)`
unfoldable pub decimal : ℕ → Text
unfolding digits_of
decimal n = digits_of n n

-- The number that digits stand for, behind a number that has been read.
unfoldable pub value_from : ℕ → Text → ℕ
value_from acc [] = acc
value_from acc (c ∷ cs) = value_from (acc * 10 + (c - 48)) cs

value_from-append :
    (acc : ℕ) (xs ys : Text) → value_from acc (xs ++ ys) ≡ value_from (value_from acc xs) ys
unfolding value_from
value_from-append acc [] ys = refl
value_from-append acc (x ∷ xs) ys = value_from-append (acc * 10 + (x - 48)) xs ys

value_from-digits_of : (fuel n : ℕ) → n ≤ fuel → value_from 0 (digits_of fuel n) ≡ n
unfolding value_from digits_of
value_from-digits_of zero n h = omega arith
value_from-digits_of (suc fuel) n h = elim (Bool-cases (ltb n 10)) [
  | inl small ↦ rw (small, digits_of) (omega arith)
  | inr large ↦
      let ten : 10 ≤ n = ground arith in
      let ih = value_from-digits_of fuel (n / 10) (omega arith) in
      rw (large, digits_of)
        (rw (value_from-append 0 (digits_of fuel (n / 10)) ((48 + n % 10) ∷ []), ih) (omega arith))
]

-- The digits of a number stand for it, so two numbers with the same digits are equal.
pub value_from-decimal : (n : ℕ) → value_from 0 (decimal n) ≡ n
unfolding decimal
value_from-decimal n = value_from-digits_of n n (omega arith)
