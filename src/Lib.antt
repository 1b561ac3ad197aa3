-- ===== src/Lib.antt =====
-- A verification library for kenaz-ml, the local engine that serves a developer tool's models.
--
-- The engine is a process that several clients share. Clients hold leases on it and it ends itself
-- when it is idle (src/kenaz_ml/lifecycle/leases.py). It loads trained models from slots: a local
-- one, an optional one of an organisation, and the one it ships with. A model is served only after
-- its manifest, its bytes, its ordered feature contract and its runtime have been checked
-- (src/kenaz_ml/modelstore/registry). Loaded models are kept for a while in a cache by tenant and
-- name (src/kenaz_ml/modelstore/cache.py). Recommendations are dispatched by kind through a table of
-- backends that is swapped as a whole or entry by entry (src/kenaz_ml/advice/dispatch.py). What users
-- did with recommendations comes back in batches of rows, which a label log per kind keeps and a
-- retained training set mirrors (src/kenaz_ml/advice/label_log.py). Predictions of a model that does
-- not serve yet are paired with these rows, and the rates decide whether a model may serve its kind
-- and when it must stop (src/kenaz_ml/advice/shadow.py).
--
-- Files:
--   Prelude      names shared by all modules, tests on numbers and texts, lists, least elements
--   Exceptions   a Python call that may raise, as a value
--   Dict         Python's dict, and its laws
--   Lease        lifecycle/leases.py: `pid_alive`, and `LeaseTable` with its methods of the same
--                names; `sweep` is `sweep_scan` and `sweep_collect`, its two critical sections.
--                Lease/Engine has the threads as a step relation.
--   Cache        modelstore/cache.py: `ModelCache`; `get_model` and `put_model` are its `get` and
--                `put`. Cache/Accounts has the calls as data.
--   Registry     modelstore/registry: Json is what `json.loads` returns, Manifest reads a manifest
--                and Manifest/Written writes one (manifest.py), Validate has the checks of a file and
--                Directory those of a directory (manifest.py), and Slots is the ladder of
--                `resolve_model` (slots.py).
--   Dispatch     advice/dispatch.py: Serve has `dispatch` and Table has `DispatchTable`,
--                `timed_dispatch` and the latency rings; Reload has `reload_kind`. A function's early
--                returns stand in helpers by clauses, in the order of the function's body.
--   LabelLog     advice/label_log.py: File has the log as lines (`read_label_log`, `labels`, `_append`,
--                `enforce_bound`), Checks the refusals of rows and batches, Rows the loop of `_ingest`
--                and the rewrite, Mirror `_mirror` and `_rebuild_retained`, Ingest the whole `ingest`
--                and `append_records`. Labels, Loop, Placed and Rewrite have the laws of the log and
--                of the loop; Kept and Course say how an ingest ends. The per-kind lock makes each
--                batch one step.
--   Shadow       advice/shadow.py: the rates and the tests on label rows, Log has
--                `read_shadow_log` and `write_shadow_records` on the label log, Writer has
--                `ShadowWriter` with its queue (the steps of the requests and of its thread), Join has
--                `join_shadow_to_labels`, Flipback `_evaluate_post_flip` and Graduation
--                `_graduation_check`. A label row's place in the log stands for its identity.
--   Retained     modelstore/registry/retained.py: the records with their lines and parsers, File has
--                `read_retained`, Write `append_examples` and `_enforce_bound` (`retain_within`), Reset
--                `reset_retained`, `delete_retained`, `expire_examples` and the summaries. Mirrored
--                makes it the retained set of the label log.
-- The Scenarios modules apply the theorems to small concrete states.
--
-- State is passed on explicitly: an operation takes the state last and returns the new one. A
-- clock's reading is an argument for each time that the code reads it. Numbers are natural numbers
-- without a bound, as Python's integers are; times are natural numbers of ticks and the differences
-- that the code forms are written as sums. The timestamps of label rows and shadow records are
-- integers. Loops are recursion on the list they run over; the only loop over numbers, the pieces
-- of the digest, runs as many rounds as its `range` has, and these are shown to cover the payload.
-- No recursion is on fuel that could run out.
--
-- Parameters: joblib, hashlib, the JSON parser, `str` of a value that is no text, the text of given
-- code points, the encoding of a path, the declared contracts and the scikit-learn that runs
-- (`Outside`, `Sha256` of the registry), the backends' answers, and the test for a finite float. Of
-- hashlib only this is assumed: feeding two pieces is feeding their concatenation, and feeding
-- nothing changes nothing.
--
-- Of the label log, `float`, the JSON text of a row and of an object and what `json.loads` makes of a
-- line are parameters (`Codec`), with the hypothesis that a line is read as the object it was written
-- for (`IsFaithful`); which file operations of a batch fail is an argument (`Disk`), and the retained
-- set is an interface (`Retained`), which the retained file implements (`retained_file`). Of the
-- retained file, `json.loads`, `json.dumps` and the conversions of numbers are parameters
-- (`JsonLines`), with the hypothesis that a line that was written reads as its value
-- (`IsFaithfulJson`); the failures of the file operations are an argument (`Faults`).
--
-- Of the verdicts, the rounded float difference of two rates (in millionths of a point), the test of a
-- latency against the budget, the hash of a vector and the session of a row are parameters.
--
-- Not modelled: logging, the readable texts of refusals, environment settings, the file system beyond
-- what stands at each path at the time of a call, and floats other than as values that are or are not
-- finite. Texts are lower-cased and stripped as ASCII. The other parts of the repository, such as
-- training, feature extraction, storage and the HTTP layer, are not modelled.
--
-- Some exceptions of the source have no case in the model. Of the label log: the ValueError of
-- writing a stored NaN or infinite number again (`_dumps`), the int() of a stored revision that is no
-- number, and the decoding of a line in `_enforce_bound` that is no UTF-8; so nothing is claimed on
-- whether a batch returns for such a log. Of `_graduation_check`: the exceptions behind the answer
-- "check failed", and a kind with no contract. A file of a directory is hashed in one piece, and the
-- header of a retained file is looked for up to a newline, not up to a carriage return.
pub mod Cache
pub mod Dict
pub mod Dispatch
pub mod Exceptions
pub mod LabelLog
pub mod Lease
pub mod Prelude
pub mod Registry
pub mod Retained
pub mod Shadow
