-- ===== src/Base/Floats.antt =====
-- Python's floats, as far as the program computes with scores: a type with the operations that the
-- source applies, and the order that floats have where no NaN stands among them.
use Prim.Native.Nat.{ℕ}
use mathlib.Core.Bool.{Bool}
use rag_kb.Base.Sort.{IsStrictOrder}

pub record Floats : Type 1 where
  pub F : Type 0
  pub zero_f : F
  pub add : F → F → F
  -- `1.0 / n`
  pub recip : ℕ → F
  pub less : F → F → Bool
  pub order : IsStrictOrder less
