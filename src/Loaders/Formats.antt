-- ===== src/Loaders/Formats.antt =====
-- app/loaders/text_loader.py, csv_loader.py, docx_loader.py and html_loader.py. The decoders and the
-- parsers of the formats are parameters.
use rag_kb.Base.{
  ℕ, Bool, not, String, List, [], ◌∷◌, ◌++◌, map, Option, none, some, length, filterb, anyb,
  is_empty, if◌then◌else◌,
}
use rag_kb.Base.Text.{Text, codes, strip, join}
use rag_kb.Errors.{Outcome, returned, raised, uncaught, loader_error}
use rag_kb.Loaders.{
  MetaValue, number, title, names, LoadedDocument, DocumentLoader, Opened, opened, caught,
  not_caught,
}

-- A row of `csv.DictReader`: the columns of the header, with `none` for a missing field, and whether
-- fields without a column stand under the key `None`.
pub record CsvRow : Type 0 where
  pub fields : List (Text × Option Text)
  pub has_rest : Bool

-- What python-docx reads: the texts of the paragraphs, and the tables as rows of cells.
pub record Docx : Type 0 where
  pub paragraphs : List Text
  pub tables : List (List (List Text))

-- What BeautifulSoup reads: the string of the title, and the text that is left without the tags
-- `script`, `style`, `noscript` and `head`, one piece a line.
pub record Html : Type 0 where
  pub title_string : Option Text
  pub readable_text : Text

-- `bytes.decode`, strict and with replacement, and the parsers; `none` is the exception that the
-- loader catches.
pub record Parsers : Type 0 where
  pub decode : List ℕ → Option Text
  pub decode_replacing : List ℕ → Text
  pub dict_reader : Text → Option (List CsvRow)
  pub open_docx : List ℕ → Opened Docx
  pub parse_html : Text → Option Html

module _ (parsers : Parsers) where
  abbrev text_document : Option Text → Outcome LoadedDocument
  text_document none = raised loader_error
  text_document (some t) =
      returned (record { text = t; metadata = ("character_count", number (length t)) ∷ [] })

  -- `TextLoader.load`
  unfoldable pub load_text : DocumentLoader
  load_text content = text_document (parsers.decode content)

  -- `f"{key}: {value}"`, where a missing value is `None`.
  abbrev csv_field : Text × Option Text → Text
  csv_field (key, none) = key ++ codes ": None"
  csv_field (key, some value) = key ++ codes ": " ++ value

  abbrev pub csv_line : CsvRow → Text
  csv_line row =
      join (codes ", ")
        (map csv_field (filterb (λ (f : Text × Option Text). not (is_empty f.0)) row.fields))

  abbrev column_names : CsvRow → List (Option Text)
  column_names row =
      map (λ (f : Text × Option Text). some f.0) row.fields
      ++ (if row.has_rest then none ∷ [] else [])

  abbrev csv_document : Option (List CsvRow) → Outcome LoadedDocument
  csv_document none = raised loader_error
  csv_document (some []) = raised loader_error
  csv_document (some (row ∷ rows)) = returned (record {
    text = join (codes "\n") (map csv_line (row ∷ rows));
    metadata =
        ("row_count", number (length (row ∷ rows)))
        ∷ ("column_names", names (column_names row))
        ∷ [];
  })

  -- `CsvLoader.load`
  unfoldable pub load_csv : DocumentLoader
  load_csv content = csv_document (parsers.dict_reader (parsers.decode_replacing content))

  -- The lines of the rows of a table that have a cell with text.
  abbrev row_texts : List (List Text) → List Text
  row_texts [] = []
  row_texts (row ∷ rows) =
      let rest = row_texts rows in
      let cells = map strip row in
      if anyb (λ c. not (is_empty c)) cells then join (codes " | ") cells ∷ rest else rest

  abbrev pub table_texts : List (List (List Text)) → List Text
  table_texts [] = []
  table_texts (t ∷ ts) = row_texts t ++ table_texts ts

  abbrev docx_document : Opened Docx → Outcome LoadedDocument
  docx_document not_caught = uncaught
  docx_document caught = raised loader_error
  docx_document (opened d) =
      let paragraph_texts = filterb (λ (p : Text). not (is_empty (strip p))) d.paragraphs in
      returned (record {
        text = join (codes "\n") (paragraph_texts ++ table_texts d.tables);
        metadata =
            ("paragraph_count", number (length paragraph_texts))
            ∷ ("table_count", number (length d.tables))
            ∷ [];
      })

  -- `DocxLoader.load`
  unfoldable pub load_docx : DocumentLoader
  load_docx content = docx_document (parsers.open_docx content)

  abbrev title_of : Option Text → List (String × MetaValue)
  title_of none = []
  title_of (some t) = if is_empty (strip t) then [] else ("title", title (strip t)) ∷ []

  abbrev html_document : Option Html → Outcome LoadedDocument
  html_document none = raised loader_error
  html_document (some h) =
      returned (record { text = h.readable_text; metadata = title_of h.title_string })

  -- `HtmlLoader.load`
  unfoldable pub load_html : DocumentLoader
  load_html content = html_document (parsers.parse_html (parsers.decode_replacing content))
