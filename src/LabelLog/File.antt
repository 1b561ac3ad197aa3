-- ===== src/LabelLog/File.antt =====
-- The label log as a file of advice/label_log.py: its lines, what a read makes of them, the labels
-- by key, appending, rewriting in place, and the bound on its size.
use kenaz_ml.Prelude.{
  ℕ, suc, ◌+◌, ◌-◌, nat_eq, Bool, true, false, not, ◌&&◌, Option, none, some, List, [], ◌∷◌, ◌++◌,
  nat_beq, leb, if◌then◌else◌, length, filter,
}
use kenaz_ml.Dict.{Dict, get, put}
use kenaz_ml.LabelLog.{
  Line, label_key_eq, Record, LabelKey, label_key, is_newer, LogEntry, label, unrelated,
}

-- The file's pieces between newlines, and whether its last byte is a newline: if not, the last
-- piece may be a torn line.
pub record LogFile : Type 0 where
  pub lines : List Line
  pub ends_clean : Bool

pub record LabelLogRead : Type 0 where
  pub records : List LogEntry
  pub skipped_lines : ℕ
  pub truncated_final_line : Bool

-- `LabelLogRead.labels`
unfoldable pub note_label : Record → Dict LabelKey Record → Dict LabelKey Record
note_label rec out =
    if is_newer (get out (label_key rec)) rec then put out (label_key rec) rec else out

unfoldable pub labels_from : List LogEntry → Dict LabelKey Record → Dict LabelKey Record
labels_from [] out = out
labels_from (label rec ∷ records) out = labels_from records (note_label rec out)
labels_from (unrelated object ∷ records) out = labels_from records out

unfoldable pub labels : LabelLogRead → Dict LabelKey Record
labels read = labels_from read.records []

abbrev pub nothing_read : LabelLogRead
nothing_read = record { records = []; skipped_lines = 0; truncated_final_line = false }

-- One line of the read; `torn` says that it is the last piece of a file that ends in no newline.
abbrev pub on_line : Bool → Bool → Option LogEntry → LabelLogRead → LabelLogRead
on_line true torn entry read = read
on_line false torn (some entry) read = record read { records = entry ∷ read.records }
on_line false true none read = record read { truncated_final_line = true }
on_line false false none read = record read { skipped_lines = suc read.skipped_lines }

abbrev pub is_empty {ℓ} : {A : Type ℓ} → List A → Bool
is_empty [] = true
is_empty (x ∷ xs) = false

unfoldable pub reversed_onto : List Line → List Line → List Line
reversed_onto [] acc = acc
reversed_onto (line ∷ lines) acc = reversed_onto lines (line ∷ acc)

-- The file after the eviction and the number of lines it dropped: no line is dropped, or the
-- write fails and changes nothing.
abbrev pub evicting : Bool → LogFile → List Line → ℕ → LogFile × ℕ
evicting fails file kept dropped =
    if nat_beq dropped 0
    then (file, 0)
    else if fails
    then (file, 0)
    else (record { lines = kept; ends_clean = true }, dropped)

unfoldable pub read_lines : Bool → List Line → LabelLogRead
read_lines clean [] = nothing_read
read_lines clean (line ∷ lines) =
    on_line (line.is_blank) (is_empty lines && not clean) (line.loads) (read_lines clean lines)

-- `read_label_log`: a missing file reads as no lines, and one that cannot be read as nothing.
unfoldable pub read_label_log : Bool → LogFile → LabelLogRead
read_label_log true file = nothing_read
read_label_log false file = read_lines file.ends_clean file.lines

-- len(line) + 1 over all lines: the size of a file that ends in a newline
unfoldable pub bytes : List Line → ℕ
bytes [] = 0
bytes (line ∷ lines) = line.size + 1 + bytes lines

-- path.stat().st_size
abbrev pub file_size : LogFile → ℕ
file_size file = if file.ends_clean then bytes file.lines else bytes file.lines - 1

-- The loop of `enforce_bound` over the lines from the newest.
unfoldable pub keep_newest : ℕ → ℕ → List Line → List Line → List Line
keep_newest max_bytes used kept [] = kept
keep_newest max_bytes used kept (line ∷ older) =
    let more = keep_newest max_bytes (used + (line.size + 1)) (line ∷ kept) older in
    if leb (used + (line.size + 1)) max_bytes then more else kept

abbrev pub nonempty_lines : List Line → List Line
nonempty_lines lines = filter (λ line. not (nat_beq (line.size) 0)) lines

unfoldable pub kept_lines : ℕ → List Line → List Line
kept_lines max_bytes lines = keep_newest max_bytes 0 [] (reversed_onto lines [])

abbrev pub evicted_to : Bool → ℕ → LogFile → List Line → LogFile × ℕ
evicted_to fails max_bytes file lines =
    evicting fails file (kept_lines max_bytes lines)
      (length lines - length (kept_lines max_bytes lines))

-- `enforce_bound`; a bound of None or below zero is the bound 0, which bounds nothing.
unfoldable pub enforce_bound : Bool → ℕ → LogFile → LogFile × ℕ
enforce_bound fails max_bytes file =
    if nat_beq max_bytes 0
    then (file, 0)
    else if leb (file_size file) max_bytes
    then (file, 0)
    else evicted_to fails max_bytes file (nonempty_lines file.lines)

-- `_append`: a newline repairs a torn last line first, so the new lines stand on their own.
unfoldable pub append : List Line → LogFile → LogFile
append [] file = file
append (line ∷ lines) file = record { lines = file.lines ++ (line ∷ lines); ends_clean = true }

-- `_atomic_write`
abbrev pub atomic_write : List Line → LogFile
atomic_write lines = record { lines = lines; ends_clean = true }
