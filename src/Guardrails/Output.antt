-- ===== src/Guardrails/Output.antt =====
-- app/guardrails/output_validation.py: answers that show the instructions or personal data.
use rag_kb.Base.{
  ◌≡◌, refl, ◌↔◌, inl, inr, String, Bool, true, false, not, ◌&&◌, List, [], ◌∷◌, ◌++◌, none, some,
  if◌then◌else◌, is_empty, arith, Bool-cases, anyb,
}
use rag_kb.Base.Text.{Text, codes, join}
use rag_kb.Base.Sets.{sorted_set}
use rag_kb.Guardrails.{Regex, medium, high, GuardrailResult, accept, Guardrail}
use rag_kb.Guardrails.Injection.{labels_of, is_empty-labels_of}

unfoldable pub system_prompt_leak_patterns : List (String × Text)
system_prompt_leak_patterns =
    (
      "my\\s+(system\\s+)?(prompt|instructions?|rules?|guidelines?)\\s+(is|are)",
      codes "system_prompt_leak",
    )
    ∷ (
      "i\\s+(was|am|have\\s+been)\\s+(instructed|told|configured|programmed)\\s+to",
      codes "system_prompt_leak",
    )
    ∷ (
      "(my|the)\\s+(rules?|instructions?|guidelines?)\\s+(i\\s+)?(must|should)\\s+follow",
      codes "system_prompt_leak",
    )
    ∷ ("you\\s+are\\s+a\\s+helpful\\s+knowledge\\s+base\\s+assistant", codes "system_prompt_leak")
    ∷ ("rules\\s+you\\s+must\\s+follow", codes "system_prompt_leak")
    ∷ (
      "base\\s+(your\\s+)?answers?\\s+strictly\\s+on\\s+the\\s+provided\\s+context",
      codes "system_prompt_leak",
    )
    ∷ ("answer\\s+the\\s+user'?s?\\s+question\\s+using\\s+only", codes "system_prompt_leak")
    ∷ []

pub record PiiPattern : Type 0 where
  pub pattern : String
  pub label : Text
  pub replacement : Text

unfoldable pub pii_patterns : List PiiPattern
pii_patterns =
    record {
      pattern = "[a-zA-Z0-9._%+-]+@[a-zA-Z0-9.-]+\\.[a-zA-Z]{2,}";
      label = codes "email";
      replacement = codes "[EMAIL REDACTED]";
    }
    ∷ record {
      pattern = "\\b(?:\\+?1[-.\\s]?)?\\(?\\d{3}\\)?[-.\\s]?\\d{3}[-.\\s]?\\d{4}\\b";
      label = codes "phone";
      replacement = codes "[PHONE REDACTED]";
    }
    ∷ record {
      pattern = "\\b(?:\\d{4}[-\\s]?){3}\\d{4}\\b";
      label = codes "credit_card";
      replacement = codes "[CARD NUMBER REDACTED]";
    }
    ∷ record {
      pattern = "\\b\\d{3}-\\d{2}-\\d{4}\\b";
      label = codes "ssn";
      replacement = codes "[SSN REDACTED]";
    }
    ∷ []

module _ (re : Regex) (redact_pii : Bool) where
  -- The text behind one pattern that has matched.
  abbrev pub redacted : PiiPattern → Text → Text
  redacted p text = if redact_pii then re.sub p.pattern p.replacement text else text

  -- The loop over the patterns: the text, and the labels that were found in it.
  unfoldable pub pii_loop : Text → List PiiPattern → Text × List Text
  pii_loop sanitized [] = (sanitized, [])
  pii_loop sanitized (p ∷ ps) = elim (re.search p.pattern sanitized) [
    | false ↦ pii_loop sanitized ps
    | true ↦ let (t, labels) = pii_loop (redacted p sanitized) ps in (t, p.label ∷ labels)
  ]

  abbrev leak_reasons : List Text → List Text
  leak_reasons [] = []
  leak_reasons (l ∷ ls) = codes "response appears to contain system instructions" ∷ []

  abbrev pii_reasons : List Text → List Text
  pii_reasons [] = []
  pii_reasons (l ∷ ls) =
      (codes "response contains potential PII ("
        ++ (join (codes ", ") (sorted_set (l ∷ ls)) ++ codes ")"))
      ∷ []

  -- The end of `check`: the result for the labels of leaks, the text and the labels of PII.
  unfoldable pub judged : List Text → Text → List Text → GuardrailResult
  unfolding sorted_set join
  judged leak_labels sanitized pii_labels =
      if is_empty (leak_labels ++ pii_labels) then accept else record {
        passed = false;
        reason = join (codes "; ") (leak_reasons leak_labels ++ pii_reasons pii_labels);
        severity = if is_empty leak_labels then medium else high;
        matched_patterns = sorted_set (leak_labels ++ pii_labels);
        sanitized_text = if redact_pii && not (is_empty pii_labels) then some sanitized else none;
      }

  -- `OutputValidationGuardrail.check`
  unfoldable pub check : Text → GuardrailResult
  unfolding pii_loop judged pii_patterns system_prompt_leak_patterns
  check text =
      let (sanitized, pii_labels) = pii_loop text pii_patterns in
      judged (labels_of re.search_ignoring_case text system_prompt_leak_patterns) sanitized
        pii_labels

  abbrev pub output_validation : Guardrail
  output_validation = record { name = "output_validation"; check = check }

  abbrev pub leaks : Text → Bool
  leaks text = anyb (λ p. re.search_ignoring_case p.0 text) system_prompt_leak_patterns

  abbrev pub shows_pii : Text → List PiiPattern → Bool
  shows_pii text ps = anyb (λ (p : PiiPattern). re.search p.pattern text) ps

  -- What a text becomes where each pattern in turn is replaced, as long as it is found.
  abbrev pub redacted_all : Text → List PiiPattern → Text
  redacted_all text [] = text
  redacted_all text (p ∷ ps) =
      redacted_all (if re.search p.pattern text then re.sub p.pattern p.replacement text else text)
        ps

  pii_loop-labels :
      (text : Text) (ps : List PiiPattern) → is_empty (pii_loop text ps).1 ≡ not (shows_pii text ps)
  unfolding pii_loop
  pii_loop-labels text [] = refl
  pii_loop-labels text (p ∷ ps) = elim (Bool-cases (re.search p.pattern text)) [
    | inl found ↦ rw (found, pii_loop, anyb) refl
    | inr absent ↦ rw (absent, pii_loop, anyb) (pii_loop-labels text ps)
  ]

  pii_loop-text :
      (text : Text) (ps : List PiiPattern)
      → redact_pii ≡ true
      → (pii_loop text ps).0 ≡ redacted_all text ps
  unfolding pii_loop
  pii_loop-text text [] on = refl
  pii_loop-text text (p ∷ ps) on = elim (Bool-cases (re.search p.pattern text)) [
    | inl found ↦
        rw (found, pii_loop, redacted_all)
          (rw on (pii_loop-text (re.sub p.pattern p.replacement text) ps on))
    | inr absent ↦ rw (absent, pii_loop, redacted_all) (pii_loop-text text ps on)
  ]

  judged_lem :
      (ls : List Text) (t : Text) (ps : List Text) (leak shows : Bool) (full : Text)
      → is_empty ls ≡ not leak
      → is_empty ps ≡ not shows
      → (redact_pii ≡ true → t ≡ full)
      → (((judged ls t ps).passed ≡ true) ↔ ((leak ≡ false) × (shows ≡ false)))
        × (((judged ls t ps).severity ≡ high) ↔ (leak ≡ true))
        × ((judged ls t ps).sanitized_text ≡ (if redact_pii && shows then some full else none))
  unfolding judged
  judged_lem [] t [] false false full hl hp ht =
      ((λ h. (refl, refl), λ h. refl), (λ h. cc, λ h. cc), ground arith)
  judged_lem [] t [] true shows full hl hp ht = cc
  judged_lem [] t [] false true full hl hp ht = cc
  judged_lem (l ∷ ls) t ps false shows full hl hp ht = cc
  judged_lem [] t (p ∷ ps) true shows full hl hp ht = cc
  judged_lem [] t (p ∷ ps) false false full hl hp ht = cc
  judged_lem (l ∷ ls) t [] true true full hl hp ht = cc
  judged_lem (l ∷ ls) t (p ∷ ps) true false full hl hp ht = cc
  judged_lem [] t (p ∷ ps) false true full hl hp ht =
      ((λ h. cc, λ h. cc (h.1)), (λ h. cc, λ h. cc), ground (arith, ht))
  judged_lem (l ∷ ls) t [] true false full hl hp ht =
      ((λ h. cc, λ h. cc (h.0)), (λ h. refl, λ h. refl), ground arith)
  judged_lem (l ∷ ls) t (p ∷ ps) true true full hl hp ht =
      ((λ h. cc, λ h. cc (h.0)), (λ h. refl, λ h. refl), ground (arith, ht))

  -- An answer passes exactly if no pattern of a leak and no pattern of personal data matches it. Its
  -- severity is high exactly if a pattern of a leak does. A text to put in its place is given exactly
  -- if redaction is on and personal data was found: then it is the answer with each pattern replaced
  -- in turn.
  pub output_check_exact :
      (text : Text)
      → (((check text).passed ≡ true)
          ↔ ((leaks text ≡ false) × (shows_pii text pii_patterns ≡ false)))
        × (((check text).severity ≡ high) ↔ (leaks text ≡ true))
        × ((check text).sanitized_text ≡ (
            if redact_pii && shows_pii text pii_patterns
            then some (redacted_all text pii_patterns)
            else none))
  unfolding check
  output_check_exact text =
      judged_lem (labels_of re.search_ignoring_case text system_prompt_leak_patterns)
        (pii_loop text pii_patterns).0 (pii_loop text pii_patterns).1 (leaks text)
        (shows_pii text pii_patterns) (redacted_all text pii_patterns)
        (is_empty-labels_of re.search_ignoring_case text system_prompt_leak_patterns)
        (pii_loop-labels text pii_patterns) (pii_loop-text text pii_patterns)
