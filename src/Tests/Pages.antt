-- ===== src/Tests/Pages.antt =====
-- The layout of a page.
use rag_kb.Base.{ℕ, ◌≡◌, refl, [], ◌∷◌, ◌++◌, ◌+◌, ◌-◌, ◌*◌, ◌/◌, none, some, ltb}
use rag_kb.Base.Text.{Text, codes, join}
use mathlib.Core.List.{Perm}
use rag_kb.Loaders.Pdf.{
  Numbers, Word, Page, lines, left_words, right_words, format_table, words_to_text,
}
use rag_kb.Loaders.Layout.{concat, layout_keeps_words}

-- Numbers from zero on, in thousandths; a difference is taken as its absolute value.
abbrev thousandths_of : Numbers ℕ
thousandths_of = record {
  lt = ltb;
  add = λ a b. a + b;
  sub = λ a b. (a - b) + (b - a);
  mul = λ a b. a * b / 1000;
  div = λ a b. a * 1000 / b;
  abs = λ a. a;
  of_nat = λ n. n * 1000;
  half = 500;
  threshold = 150;
  two = 2000;
  three = 3000;
  twentieth = 50;
}

abbrev word : Text → ℕ → ℕ → Word thousandths_of
word t x y = record { text = t; x0 = x; top = y }

abbrev page : Page thousandths_of
page = record {
  width = 600000;
  words =
      word (codes "left") 10000 5000
      ∷ word (codes "right") 310000 5000
      ∷ word (codes "below") 12000 20000
      ∷ [];
  plain_text = none;
  tables = [];
}

layout_keeps_words_example :
    (concat (lines thousandths_of (left_words thousandths_of page))
      ≡ left_words thousandths_of page)
    × (concat (lines thousandths_of (right_words thousandths_of page))
        ≡ right_words thousandths_of page)
    × Perm
        (concat (lines thousandths_of (left_words thousandths_of page))
          ++ concat (lines thousandths_of (right_words thousandths_of page)))
        page.words
layout_keeps_words_example = layout_keeps_words thousandths_of page

two_lines : words_to_text thousandths_of (left_words thousandths_of page) ≡ codes "left\nbelow"
unfolding words_to_text join
two_lines = refl

one_table :
    format_table thousandths_of
      ((some (codes "a") ∷ none ∷ []) ∷ (some (codes "1") ∷ some (codes "2") ∷ []) ∷ [])
    ≡ codes "a: 1, : 2"
unfolding format_table join
one_table = refl
