-- ===== src/Loaders/Factory.antt =====
-- app/loaders/factory.py: the loader of an extension.
use rag_kb.Base.{ℕ, List, [], ◌∷◌, Option, none, some}
use rag_kb.Base.Text.{Text, codes}
use rag_kb.Base.Equality.{list_eq, nat_eq}
use rag_kb.Base.Dict.{Dict, lookup}
use rag_kb.Errors.{Result, ok, err, loader_error}
use rag_kb.Loaders.{DocumentLoader}
use rag_kb.Loaders.Formats.{Parsers, load_text, load_csv, load_docx, load_html}
use rag_kb.Loaders.Pdf.{Numbers, Page, load_layout}

pub data LoaderClass : Type 0 where
  text_loader advanced_pdf_loader docx_loader html_loader csv_loader : LoaderClass

-- `LoaderFactory._LOADERS`
abbrev pub loaders : Dict Text LoaderClass
loaders =
    (codes "txt", text_loader)
    ∷ (codes "md", text_loader)
    ∷ (codes "pdf", advanced_pdf_loader)
    ∷ (codes "docx", docx_loader)
    ∷ (codes "html", html_loader)
    ∷ (codes "csv", csv_loader)
    ∷ []

-- The `lower` of strings, and what the loaders read with.
pub record Readers (F : Type 0) : Type 0 where
  pub lower : Text → Text
  pub parsers : Parsers
  pub numbers : Numbers F
  pub read_layout : List ℕ → Option (List (Page numbers))

module _ {F : Type 0} (r : Readers F) where
  -- The `load` of an instance of the class.
  unfoldable pub load_of : LoaderClass → DocumentLoader
  load_of text_loader = load_text r.parsers
  load_of advanced_pdf_loader = load_layout r.numbers r.read_layout
  load_of docx_loader = load_docx r.parsers
  load_of html_loader = load_html r.parsers
  load_of csv_loader = load_csv r.parsers

  abbrev loader_for : Option LoaderClass → Result DocumentLoader
  loader_for none = err loader_error
  loader_for (some c) = ok (load_of c)

  -- `LoaderFactory.get_loader`
  unfoldable pub get_loader : Text → Result DocumentLoader
  unfolding load_of lookup
  get_loader extension = loader_for (lookup (r.lower extension) loaders)
