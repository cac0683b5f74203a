-- ===== src/Loaders/Pdf.antt =====
-- app/loaders/pdf_loader.py and advanced_pdf_loader.py. What pypdf and pdfplumber read is a parameter,
-- and so is the arithmetic of floats.
use rag_kb.Base.{
  ℕ, Bool, true, false, not, ◌&&◌, List, [], ◌∷◌, ◌++◌, ◌+◌, map, Option, none, some, length,
  filterb, is_empty, if◌then◌else◌, ltb,
}
use rag_kb.Base.Text.{Text, codes, join}
use rag_kb.Errors.{Outcome, returned, raised, uncaught, loader_error}
use rag_kb.Loaders.{number, LoadedDocument, DocumentLoader, Opened, opened, caught, not_caught}

-- A reader of pypdf: the inner `none` is a page without text, the outer one an exception.
pub record PdfReader : Type 0 where
  pub is_encrypted : Bool
  pub pages : List (Option (Option Text))

abbrev pub or_empty : Option Text → Text
or_empty none = []
or_empty (some t) = t

-- The loop over the pages, `none` for an exception in one.
unfoldable pub page_texts : List (Option (Option Text)) → Option (List Text)
page_texts [] = some []
page_texts (none ∷ ps) = none
page_texts (some t ∷ ps) = elim (page_texts ps) [ none ↦ none | some ts ↦ some (or_empty t ∷ ts) ]

abbrev pages_document : ℕ → Option (List Text) → Outcome LoadedDocument
pages_document n none = raised loader_error
pages_document n (some ts) =
    returned (record { text = join (codes "\n\n") ts; metadata = ("page_count", number n) ∷ [] })

abbrev pdf_document : Opened PdfReader → Outcome LoadedDocument
unfolding page_texts
pdf_document not_caught = uncaught
pdf_document caught = raised loader_error
pdf_document (opened r) =
    if r.is_encrypted
    then raised loader_error
    else pages_document (length r.pages) (page_texts r.pages)

-- `PdfLoader.load`
unfoldable pub load_pdf : (List ℕ → Opened PdfReader) → DocumentLoader
unfolding page_texts
load_pdf read content = pdf_document (read content)

-- The floats of a layout, with the literals of the source: 0.5, the threshold 0.15, 2, 3 and 0.05.
pub record Numbers (F : Type 0) : Type 0 where
  pub lt : F → F → Bool
  pub add : F → F → F
  pub sub : F → F → F
  pub mul : F → F → F
  pub div : F → F → F
  pub abs : F → F
  pub of_nat : ℕ → F
  pub half : F
  pub threshold : F
  pub two : F
  pub three : F
  pub twentieth : F

module _ {F : Type 0} (f : Numbers F) where
  pub record Word : Type 0 where
    pub text : Text
    pub x0 : F
    pub top : F

  -- A page of pdfplumber, with the answers of `extract_words`, `extract_text` and `extract_tables`.
  pub record Page : Type 0 where
    pub width : F
    pub words : List Word
    pub plain_text : Option Text
    pub tables : List (List (List (Option Text)))

  -- `w["x0"] < midpoint` and `w["x0"] >= midpoint`
  abbrev pub is_left : F → Word → Bool
  is_left midpoint w = f.lt w.x0 midpoint

  abbrev pub is_right : F → Word → Bool
  is_right midpoint w = not (f.lt w.x0 midpoint)

  -- `_looks_like_two_columns`
  unfoldable pub looks_like_two_columns : List Word → F → Bool
  looks_like_two_columns words page_width =
      let midpoint = f.mul page_width f.half in
      let start = f.mul page_width (f.sub f.half (f.div f.threshold f.two)) in
      let end = f.mul page_width (f.add f.half (f.div f.threshold f.two)) in
      let in_gap = length (filterb (λ (w : Word). f.lt start w.x0 && f.lt w.x0 end) words) in
      let left = length (filterb (is_left midpoint) words) in
      let right = length (filterb (is_right midpoint) words) in
      ltb 5 left
      && ltb 5 right
      && f.lt (f.of_nat in_gap) (f.mul (f.of_nat (length words)) f.twentieth)

  -- The loop over the words: the line that is being filled, and its last word.
  unfoldable pub line_loop : List Word → Word → List Word → List (List Word)
  line_loop line last [] = line ∷ []
  line_loop line last (w ∷ ws) = elim (f.lt (f.abs (f.sub w.top last.top)) f.three) [
    | true ↦ line_loop (line ++ w ∷ []) w ws
    | false ↦ line ∷ line_loop (w ∷ []) w ws
  ]

  -- The lines of `_words_to_text`.
  unfoldable pub lines : List Word → List (List Word)
  unfolding line_loop
  lines [] = []
  lines (w ∷ ws) = line_loop (w ∷ []) w ws

  -- `_words_to_text`; without words there are no lines, and nothing is joined.
  unfoldable pub words_to_text : List Word → Text
  unfolding lines
  words_to_text ws =
      join (codes "\n")
        (map (λ line. join (codes " ") (map (λ (w : Word). w.text) line)) (lines ws))

  -- The words of the two columns.
  abbrev pub left_words : Page → List Word
  left_words page = filterb (is_left (f.div page.width f.two)) page.words

  abbrev pub right_words : Page → List Word
  right_words page = filterb (is_right (f.div page.width f.two)) page.words

  -- `_extract_page_text`
  unfoldable pub extract_page_text : Page → Text
  unfolding looks_like_two_columns words_to_text
  extract_page_text page =
      if is_empty page.words
      then []
      else if looks_like_two_columns page.words page.width
      then words_to_text (left_words page) ++ codes "\n" ++ words_to_text (right_words page)
      else or_empty page.plain_text

  abbrev cell_texts : List Text → List (Option Text) → List Text
  cell_texts [] cells = []
  cell_texts (h ∷ headers) [] = []
  cell_texts (h ∷ headers) (c ∷ cells) = (h ++ codes ": " ++ or_empty c) ∷ cell_texts headers cells

  -- `_format_table`
  unfoldable pub format_table : List (List (Option Text)) → Text
  format_table [] = []
  format_table ([] ∷ rows) = []
  format_table ((h ∷ headers) ∷ rows) =
      join (codes "\n")
        (map (λ row. join (codes ", ") (cell_texts (map or_empty (h ∷ headers)) row)) rows)

  -- The section of a page: its text and its tables, without empty ones.
  unfoldable pub section : Page → Text
  unfolding extract_page_text format_table
  section page =
      join (codes "\n\n")
        (filterb (λ t. not (is_empty t)) (extract_page_text page ∷ map format_table page.tables))

  abbrev table_count : List Page → ℕ
  table_count [] = 0
  table_count (p ∷ ps) = length p.tables + table_count ps

  abbrev layout_document : Option (List Page) → Outcome LoadedDocument
  unfolding section
  layout_document none = raised loader_error
  layout_document (some pages) = returned (record {
    text = join (codes "\n\n") (map section pages);
    metadata =
        ("page_count", number (length pages)) ∷ ("table_count", number (table_count pages)) ∷ [];
  })

  -- `AdvancedPdfLoader.load`; `none` is an exception of pdfplumber, anywhere in the file.
  unfoldable pub load_layout : (List ℕ → Option (List Page)) → DocumentLoader
  unfolding section
  load_layout read content = layout_document (read content)
