-- ===== src/Guardrails.antt =====
-- app/guardrails/base.py, and the outcome of app/guardrails/guardrail_service.py: the checks of a
-- question before it is answered, and of an answer before it is stored. Regular expressions are a
-- parameter; the counter of outcomes and the log are left out.
pub mod Injection
pub mod Output
use rag_kb.Base.{
  String, ◌≡◌, refl, ◌⊎◌, inl, inr, ◌↔◌, Bool, true, false, not, ◌&&◌, List, [], ◌∷◌, Option, none,
  some, if◌then◌else◌, anyb, arith, Bool-cases,
}
use rag_kb.Base.Text.{Text}
use rag_kb.Errors.{Result, ok, err, guardrail_violation}

-- What the guardrails call of `re`: `compile(p, IGNORECASE).search(t)` and `compile(p).search(t)`, each
-- as a test, and `compile(p).sub(replacement, t)`.
pub record Regex : Type 0 where
  pub search_ignoring_case : String → Text → Bool
  pub search : String → Text → Bool
  pub sub : String → Text → Text → Text

pub data Severity : Type 0 where
  low medium high : Severity

pub record GuardrailResult : Type 0 where
  pub passed : Bool
  pub reason : Text
  pub severity : Severity
  pub matched_patterns : List Text
  pub sanitized_text : Option Text

-- `GuardrailResult(passed=True)`
abbrev pub accept : GuardrailResult
accept = record {
  passed = true;
  reason = [];
  severity = low;
  matched_patterns = [];
  sanitized_text = none;
}

pub record Guardrail : Type 0 where
  pub name : String
  pub check : Text → GuardrailResult

pub record GuardrailService : Type 0 where
  pub input_guardrails : List Guardrail
  pub output_guardrails : List Guardrail
  pub enabled : Bool
  pub block_on_input_violation : Bool

-- The loop of `check_input`: the first violation raises, if violations block.
unfoldable pub input_loop : Bool → Text → List Guardrail → Result (Unit {0})
input_loop block text [] = ok tt
input_loop block text (g ∷ gs) =
    let rest = input_loop block text gs in
    if not (g.check text).passed && block then err guardrail_violation else rest

-- `check_input`
unfoldable pub check_input : GuardrailService → Text → Result (Unit {0})
unfolding input_loop
check_input s text =
    if s.enabled then input_loop s.block_on_input_violation text s.input_guardrails else ok tt

abbrev pub or_text : Text → Option Text → Text
or_text old none = old
or_text old (some new) = new

-- The text after one guardrail.
abbrev pub sanitized : Text → GuardrailResult → Text
sanitized text r = if r.passed then text else or_text text r.sanitized_text

-- The loop of `check_output`.
unfoldable pub output_loop : Text → List Guardrail → Text
output_loop current_text [] = current_text
output_loop current_text (g ∷ gs) = output_loop (sanitized current_text (g.check current_text)) gs

-- `check_output`
unfoldable pub check_output : GuardrailService → Text → Text
unfolding output_loop
check_output s text = if s.enabled then output_loop text s.output_guardrails else text

abbrev pub violates : Text → Guardrail → Bool
violates text g = not (g.check text).passed

-- The loop raises exactly if violations block and there is one.
input_loop-cases :
    (block : Bool) (text : Text) (gs : List Guardrail)
    → ((input_loop block text gs ≡ err guardrail_violation)
        × ((block && anyb (violates text) gs) ≡ true))
      ⊎ ((input_loop block text gs ≡ ok tt) × ((block && anyb (violates text) gs) ≡ false))
unfolding input_loop
input_loop-cases true text [] = inr (refl, refl)
input_loop-cases false text [] = inr (refl, refl)
input_loop-cases true text (g ∷ gs) = elim (Bool-cases (g.check text).passed) [
  | inl fine ↦ rw (fine, input_loop, anyb) (input_loop-cases true text gs)
  | inr bad ↦ inl (rw bad, rw (bad, anyb))
]
input_loop-cases false text (g ∷ gs) = elim (Bool-cases (g.check text).passed) [
  | inl fine ↦ rw (fine, input_loop) (input_loop-cases false text gs)
  | inr bad ↦ rw (bad, input_loop) (input_loop-cases false text gs)
]

-- A question is refused exactly if the guardrails are enabled, violations block, and some input
-- guardrail finds one; otherwise the check returns. No other error is raised.
pub check_input_exact :
    (s : GuardrailService) (text : Text)
    → ((check_input s text ≡ err guardrail_violation)
        × (s.enabled ≡ true)
        × (s.block_on_input_violation ≡ true)
        × (anyb (violates text) s.input_guardrails ≡ true))
      ⊎ ((check_input s text ≡ ok tt)
          × ((s.enabled && (s.block_on_input_violation && anyb (violates text) s.input_guardrails))
              ≡ false))
unfolding check_input
check_input_exact s text = elim (Bool-cases s.enabled) [
  | inr off ↦ inr (rw off, rw off)
  | inl on ↦ elim (input_loop-cases s.block_on_input_violation text s.input_guardrails) [
    | inr (e, f) ↦ inr (rw on e, rw on f)
    | inl (e, f) ↦
        let (b, v) = rag_kb.Base.&&-eq-true s.block_on_input_violation _ f in
        inl (rw on e, on, b, v)
  ]
]
