-- ===== src/Loaders.antt =====
-- app/loaders: the text of an uploaded file. The children are the formats (Formats), PDF files (Pdf),
-- what the layout of a PDF page keeps (Layout), and the choice of a loader (Factory).
use rag_kb.Base.{ℕ, String, List, Option}
use rag_kb.Base.Text.{Text}
use rag_kb.Errors.{Outcome}
pub mod Formats
pub mod Pdf
pub mod Layout
pub mod Factory

-- A value in the metadata of a document.
pub data MetaValue : Type 0 where
  number : ℕ → MetaValue
  title : Text → MetaValue
  names : List (Option Text) → MetaValue

pub record LoadedDocument : Type 0 where
  pub text : Text
  pub metadata : List (String × MetaValue)

-- `DocumentLoader.load`, for the bytes of a file.
abbrev pub DocumentLoader : Type 0
DocumentLoader = List ℕ → Outcome LoadedDocument

-- What opening a file gives: the document, an exception of the classes that the loader catches, or
-- another one.
pub data Opened (A : Type 0) : Type 0 where
  opened : A → Opened A
  caught not_caught : Opened A
