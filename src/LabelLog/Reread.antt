-- ===== src/LabelLog/Reread.antt =====
-- What a read of the log returns for lines that were appended or written.
use kenaz_ml.Prelude.{Bool, false, List, [], ◌∷◌, ◌++◌, ◌≡◌, refl, arith}
use kenaz_ml.LabelLog.{Line, LogEntry, Codec, IsFaithful}
use kenaz_ml.LabelLog.File.{on_line, read_lines}
use kenaz_ml.LabelLog.Ingest.{dumped}

-- The objects that lines hold, whatever else is said of the lines.
unfoldable pub objects : List Line → List LogEntry
objects [] = []
objects (line ∷ lines) =
    (on_line (line.is_blank) false (line.loads)
      (record { records = objects lines; skipped_lines = 0; truncated_final_line = false })).records

pub records-read_lines :
    (clean : Bool) (lines : List Line) → (read_lines clean lines).records ≡ objects lines
unfolding read_lines objects
records-read_lines clean [] = refl
records-read_lines clean (line ∷ lines) = ground (arith, records-read_lines clean lines)

pub objects-append :
    (lines more : List Line) → objects (lines ++ more) ≡ objects lines ++ objects more
unfolding objects
objects-append [] more = refl
objects-append (line ∷ lines) more = ground (arith, objects-append lines more)

pub objects-dumped :
    (c : Codec) (entries : List LogEntry) → IsFaithful c → objects (dumped c entries) ≡ entries
unfolding objects dumped
objects-dumped c [] h = refl
objects-dumped c (entry ∷ entries) h =
    ground (arith, h.not_blank entry, h.loads-dumps entry, objects-dumped c entries h)
