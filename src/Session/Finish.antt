-- ===== src/Session/Finish.antt =====
-- A session's start, its boots and the two results files that `pytest_sessionfinish` writes. The formats of a
-- time and of a duration are arguments.
use drtm_tests.Prelude.Dict.{Dict, lookup}
use drtm_tests.Prelude.{
  ℕ, ◌-◌, leb, ◌&&◌, Bool, Option, none, some, List, [], ◌∷◌, ◌++◌, Text, txt, text_eq,
  if◌then◌else◌, show, join, length, replicate, Result, ok, err, system_exit,
}
use drtm_tests.Session.{
  passed, failed, skipped, TestReport, TestRecord, Session, run_log_dir, boot_dir_name,
}
use drtm_tests.Session.Records.{outcome_per_test, session_summary, records_of}

-- `pytest_sessionstart`, on what `check()` returns if there is one
unfoldable pub sessionstart : Option (Option Text) → Result (Unit {0})
sessionstart none = ok tt
sessionstart (some none) = ok tt
sessionstart (some (some reason)) = err system_exit

-- `boot_log_dir`
abbrev pub in_run_dir : Text → Session × Result Text → Session × Result Text
in_run_dir name (s, err e) = (s, err e)
in_run_dir name (s, ok dir) = (s, ok (dir ++ (b'/' ∷ boot_dir_name name)))

unfoldable pub boot_log_dir :
    Option (List (Text × Bool)) → Text → Text → Session → Session × Result Text
unfolding run_log_dir boot_dir_name
boot_log_dir logs_dir date name s = in_run_dir name (run_log_dir logs_dir date s)

-- `_run`, with the boot
abbrev pub boot_in {ℓ} :
    {T : Type ℓ} → (Text → Text → Result T) → Text → Session × Result Text → Session × Result T
boot_in boot name (s, err e) = (s, err e)
boot_in boot name (s, ok dir) = (s, boot name dir)

-- `booted`: the future's result if there is one, else the boot now.
unfoldable pub booted {ℓ} :
    {T : Type ℓ}
    → (Text → Text → Result T)
    → Option (List (Text × Bool))
    → Text
    → Dict Text (Result T)
    → Text
    → Session
    → Session × Result T
unfolding boot_log_dir
booted boot logs_dir date futures name s = elim (lookup name futures) [
  | some result ↦ (s, result)
  | none ↦ boot_in boot name (boot_log_dir logs_dir date name s)
]

-- `outcome.upper()`, of ASCII letters
unfoldable pub upper : Text → Text
upper [] = []
upper (c ∷ s) = (if leb b'a' c && leb c b'z' then c - 32 else c) ∷ upper s

-- `f"{text:<7}"` and `f"{text:>7}"`
abbrev pub left_7 : Text → Text
left_7 text = text ++ replicate (7 - length text) b' '

abbrev pub right_7 : Text → Text
right_7 text = replicate (7 - length text) b' ' ++ text

-- What a session's end is given: its exit status, the time, how long it took, the lines of `header()`, and the
-- formats `.1f` and `round(_, 1)`.
pub record Finish : Type 0 where
  pub exit_status : ℕ
  pub finished : Text
  pub elapsed : ℕ
  pub header : List Text
  pub one_decimal : ℕ → Text
  pub rounded : ℕ → ℕ

unfoldable pub rows : (ℕ → Text) → Dict Text (Text × ℕ) → List Text
unfolding upper
rows one_decimal [] = []
rows one_decimal ((nodeid, (outcome, duration)) ∷ collapsed) =
    (left_7 (upper outcome) ++ (b' ' ∷ (right_7 (one_decimal duration) ++ (txt "s  " ++ nodeid))))
    ∷ rows one_decimal collapsed

-- The reports of the phases that failed
unfoldable pub failures_of : List TestReport → List TestReport
failures_of [] = []
failures_of (r ∷ reports) =
    let rest = failures_of reports in
    elim r.phase [ passed ↦ rest | failed ↦ r ∷ rest | skipped ↦ rest ]

unfoldable pub failure_lines : List TestReport → List Text
failure_lines [] = []
failure_lines (r ∷ failures) =
    (txt "=== " ++ (r.nodeid ++ (txt " (" ++ (r.when ++ txt ") ==="))))
    ∷ r.longreprtext
    ∷ []
    ∷ failure_lines failures

abbrev pub failure_part : List TestReport → List Text
failure_part [] = []
failure_part (r ∷ failures) = [] ∷ failure_lines (r ∷ failures)

-- The lines of `results.txt`
unfoldable pub results_lines : Finish → List TestReport → List Text
unfolding rows failures_of failure_lines session_summary
results_lines f reports =
    ((txt "finished:    " ++ f.finished) ∷ f.header)
    ++ ((txt "exit status: " ++ show f.exit_status)
        ∷ (txt "summary:     "
            ++ (session_summary reports ++ (txt " in " ++ (f.one_decimal f.elapsed ++ txt "s"))))
        ∷ []
        ∷ (rows f.one_decimal (outcome_per_test reports) ++ failure_part (failures_of reports)))

-- What `results.json` holds, less the session's details.
pub record ResultsFile : Type 0 where
  pub finished : Text
  pub exit_status : ℕ
  pub duration : ℕ
  pub tests : List TestRecord

unfoldable pub results_file : Finish → Session → ResultsFile
unfolding records_of
results_file f s = record {
  finished = f.finished;
  exit_status = f.exit_status;
  duration = f.rounded f.elapsed;
  tests = records_of f.rounded s.entries s.reports;
}

-- `pytest_sessionfinish` behind the pool's shutdown: the two files in the run's directory, or nothing where
-- no test reported.
abbrev pub write_files :
    Finish → Session × Result Text → Session × Result (Option (Text × Text × ResultsFile))
write_files f (s, err e) = (s, err e)
write_files f (s, ok dir) =
    (s, ok (some (dir, join (10 ∷ []) (results_lines f s.reports) ++ (10 ∷ []), results_file f s)))

unfoldable pub sessionfinish :
    Finish
    → Option (List (Text × Bool))
    → Text
    → Session
    → Session × Result (Option (Text × Text × ResultsFile))
unfolding results_lines results_file run_log_dir
sessionfinish f logs_dir date s = elim s.reports [
  | [] ↦ (s, ok none)
  | r ∷ reports ↦ write_files f (run_log_dir logs_dir date s)
]
