-- ===== src/Retained/File.antt =====
-- The retention file of modelstore/registry/retained.py, `read_retained` and `_read_header_only`.
use kenaz_ml.Prelude.{
  ℕ, suc, Bool, true, false, ◌&&◌, not, Option, none, some, List, [], ◌∷◌, ◌++◌, Text,
  if◌then◌else◌,
}
use kenaz_ml.Exceptions.{Exc, ok, raised}
use kenaz_ml.Retained.{
  all_white, RetainedExample, RetainedHeader, JsonLines, parse_header, parse_example,
}

-- The pieces that a newline ends, and the bytes after the last newline. Both readers of the code
-- split at the newlines that the writers put.
pub record RetainedFile : Type 0 where
  pub lines : List Text
  pub tail : Text

-- What stands on the disk: no file is `none`.
abbrev pub OnDisk : Type 0
OnDisk = Option RetainedFile

-- text.split("\n") without an empty last piece
abbrev pub pieces_with : Text → List Text → List Text
pieces_with [] lines = lines
pieces_with (byte ∷ tail) lines = lines ++ ((byte ∷ tail) ∷ [])

abbrev pub pieces : RetainedFile → List Text
pieces file = pieces_with file.tail file.lines

abbrev pub is_nil {ℓ} : {A : Type ℓ} → List A → Bool
is_nil [] = true
is_nil (x ∷ xs) = false

abbrev pub white_pieces : List Text → Bool
white_pieces [] = true
white_pieces (line ∷ lines) = all_white line && white_pieces lines

pub data NoSet : Type 0 where
  missing unreadable empty no_header : NoSet

pub record Examples : Type 0 where
  pub examples : List RetainedExample
  pub skipped_lines : ℕ
  pub truncated_final_line : Bool

-- `RetainedSet`: with a header, or the reason why there is none.
pub data RetainedSet : Type 0 where
  no_set : NoSet → RetainedSet
  read_set : RetainedHeader → Examples → RetainedSet

abbrev pub no_examples : Examples
no_examples = record { examples = []; skipped_lines = 0; truncated_final_line = false }

abbrev pub note_line : Bool → Option RetainedExample → Examples → Examples
note_line torn (some ex) read = record read { examples = ex ∷ read.examples }
note_line true none read = record read { truncated_final_line = true }
note_line false none read = record read { skipped_lines = suc read.skipped_lines }

abbrev pub on_example : Bool → Exc (Option RetainedExample) → Exc Examples → Exc Examples
on_example torn (raised e) rest = raised e
on_example torn (ok parsed) (raised e) = raised e
on_example torn (ok parsed) (ok read) = ok (note_line torn parsed read)

module _ (c : JsonLines) where
  -- The lines after the header; `incomplete` says that the last piece ends in no newline.
  unfoldable pub read_examples : Bool → List Text → Exc Examples
  read_examples incomplete [] = ok no_examples
  read_examples incomplete (line ∷ lines) =
      let rest = read_examples incomplete lines in
      if c.is_blank line
      then rest
      else on_example (is_nil lines && incomplete) (parse_example c line) rest

  -- The first line that is not blank, and those after it.
  unfoldable pub from_first : List Text → Option (Text × List Text)
  from_first [] = none
  from_first (line ∷ lines) =
      let rest = from_first lines in if c.is_blank line then rest else some (line, lines)

  -- An exception of a line's parser makes the whole file unreadable.
  abbrev pub on_examples : RetainedHeader → Exc Examples → RetainedSet
  on_examples header (ok read) = read_set header read
  on_examples header (raised e) = no_set unreadable

  abbrev pub on_header : Bool → Option RetainedHeader → List Text → RetainedSet
  on_header incomplete none lines = no_set no_header
  on_header incomplete (some header) lines = on_examples header (read_examples incomplete lines)

  abbrev pub on_first : Bool → Option (Text × List Text) → RetainedSet
  on_first incomplete none = no_set no_header
  on_first incomplete (some (line, lines)) = on_header incomplete (parse_header c line) lines

  unfoldable pub read_file : RetainedFile → RetainedSet
  read_file file =
      if white_pieces (pieces file)
      then no_set empty
      else on_first (not (is_nil file.tail)) (from_first (pieces file))

  -- `read_retained`: `fails` says that the path or the bytes of a file cannot be had.
  unfoldable pub read_retained : Bool → OnDisk → RetainedSet
  read_retained fails none = no_set missing
  read_retained true (some file) = no_set unreadable
  read_retained false (some file) = read_file file

  abbrev pub header_at : Option (Text × List Text) → Option RetainedHeader
  header_at none = none
  header_at (some (line, lines)) = parse_header c line

  -- `_read_header_only`, of a file that may not be there
  unfoldable pub read_header_only : Bool → OnDisk → Option RetainedHeader
  read_header_only fails none = none
  read_header_only true (some file) = none
  read_header_only false (some file) = header_at (from_first (pieces file))

-- The examples of a read, none where there is no set.
abbrev pub examples_in : RetainedSet → List RetainedExample
examples_in (no_set reason) = []
examples_in (read_set header read) = read.examples

abbrev pub header_in : RetainedSet → Option RetainedHeader
header_in (no_set reason) = none
header_in (read_set header read) = some header
