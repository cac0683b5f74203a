-- ===== src/Guardrails/Injection.antt =====
-- app/guardrails/prompt_injection.py: questions that try to override the instructions.
use rag_kb.Base.{
  ℕ, ◌≡◌, ◌≢◌, refl, String, Bool, true, false, not, List, [], ◌∷◌, ◌++◌, map, none, if◌then◌else◌,
  filterb, is_empty, length, ltb, arith, anyb,
}
use rag_kb.Base.Text.{Text, codes}
use rag_kb.Base.Numerals.{decimal}
use rag_kb.Base.Equality.{elem, list_eq, nat_eq}
use rag_kb.Base.Sets.{unique, sorted_set}
use rag_kb.Guardrails.{Regex, medium, high, GuardrailResult, accept, Guardrail}

unfoldable instruction_override_patterns : List (String × Text)
instruction_override_patterns =
    (
      "ignore\\s+((all|the|any)\\s+)*(previous|prior|above|earlier)\\s+(instructions?|prompts?|rules?)",
      codes "instruction_override",
    )
    ∷ (
      "disregard\\s+((all|the|any)\\s+)*(previous|prior|above|earlier)\\s+(instructions?|context|rules?)",
      codes "instruction_override",
    )
    ∷ ("forget\\s+(everything|all)\\s+(you|above|before)", codes "instruction_override")
    ∷ ("you\\s+are\\s+now\\s+(a|an)\\s+", codes "role_reassignment")
    ∷ ("act\\s+as\\s+(if\\s+you\\s+are\\s+)?(a|an)\\s+", codes "role_reassignment")
    ∷ ("pretend\\s+(to\\s+be|you\\s+are)", codes "role_reassignment")
    ∷ ("new\\s+(instructions?|rules?|system\\s+prompt)\\s*:", codes "instruction_injection")
    ∷ []

unfoldable prompt_extraction_patterns : List (String × Text)
prompt_extraction_patterns =
    (
      "(reveal|show|print|repeat|output|display|tell|give|state)\\s+(me\\s+)?(your|the)\\s+(system\\s+)?(prompt|instructions?|rules?|guidelines?|directives?)",
      codes "prompt_extraction",
    )
    ∷ (
      "what\\s+(is|are|was|were)\\s+(your|the)\\s+(original\\s+|initial\\s+|exact\\s+)?(system\\s+)?(prompt|instructions?|rules?|guidelines?|directives?)",
      codes "prompt_extraction",
    )
    ∷ ("repeat\\s+(everything\\s+)?(above|before\\s+this)", codes "prompt_extraction")
    ∷ (
      "(describe|explain|summarize)\\s+(your|the)\\s+(system\\s+)?(prompt|instructions?|rules?)",
      codes "prompt_extraction",
    )
    ∷ (
      "how\\s+(were|are)\\s+you\\s+(instructed|configured|programmed|told)",
      codes "prompt_extraction",
    )
    ∷ []

unfoldable context_escape_patterns : List (String × Text)
context_escape_patterns =
    ("ignore\\s+the\\s+(provided\\s+)?(context|documents?|sources?)", codes "context_escape")
    ∷ (
      "(answer|respond)\\s+(without|regardless\\s+of)\\s+(using\\s+)?the\\s+context",
      codes "context_escape",
    )
    ∷ ("from\\s+your\\s+own\\s+knowledge,?\\s+(not|ignoring)", codes "context_escape")
    ∷ []

-- `_ALL_PATTERNS`
unfoldable pub all_patterns : List (String × Text)
unfolding instruction_override_patterns prompt_extraction_patterns context_escape_patterns
all_patterns =
    instruction_override_patterns ++ (prompt_extraction_patterns ++ context_escape_patterns)

-- The labels of the patterns of a table that match.
abbrev pub labels_of : (String → Text → Bool) → Text → List (String × Text) → List Text
labels_of search text table = map (λ p. p.1) (filterb (λ p. search p.0 text) table)

abbrev override_reason : Text
override_reason =
    codes
      "Your message appears to contain instructions that attempt to override how this assistant works. Please rephrase your question."

abbrev length_reason : ℕ → Text
length_reason n =
    codes "Query exceeds the maximum allowed length of " ++ (decimal n ++ codes " characters")

-- The end of `check`: the result for the labels that have matched.
unfoldable pub judged : List Text → GuardrailResult
unfolding unique sorted_set
judged matched_labels = if is_empty matched_labels then accept else record {
  passed = false;
  reason = override_reason;
  severity = if ltb 1 (length (unique matched_labels)) then high else medium;
  matched_patterns = sorted_set matched_labels;
  sanitized_text = none;
}

-- `PromptInjectionGuardrail.check`
unfoldable pub check : Regex → ℕ → Text → GuardrailResult
unfolding all_patterns judged decimal
check re max_query_length text =
    if ltb max_query_length (length text)
    then record {
      passed = false;
      reason = length_reason max_query_length;
      severity = medium;
      matched_patterns = codes "excessive_length" ∷ [];
      sanitized_text = none;
    }
    else judged (labels_of re.search_ignoring_case text all_patterns)

abbrev pub prompt_injection : Regex → ℕ → Guardrail
prompt_injection re max_query_length = record {
  name = "prompt_injection";
  check = check re max_query_length;
}

pub is_empty-labels_of :
    (search : String → Text → Bool) (text : Text) (table : List (String × Text))
    → is_empty (labels_of search text table) ≡ not (anyb (λ p. search p.0 text) table)
is_empty-labels_of search text [] = refl
is_empty-labels_of search text (p ∷ table) = ground (arith, is_empty-labels_of search text table)

-- Two labels that are not the same, among those of a list.
abbrev pub HasTwo : List Text → Type 0
HasTwo labels = (a : Text) × (b : Text) × (elem a labels ≡ true) × (elem b labels ≡ true) × (a ≢ b)
