-- ===== src/Session/Records.antt =====
-- `_outcome_per_test`, `_records` and the summary that `pytest_sessionfinish` writes.
use drtm_tests.Prelude.Dict.{Dict, lookup, values, insert}
use drtm_tests.Prelude.Sort.{text_leb, sort_by, counts_of}
use drtm_tests.Prelude.{
  ℕ, ◌+◌, Bool, true, false, none, some, List, [], ◌∷◌, ◌++◌, map, Text, txt, text_eq, ◌is◌,
  if◌then◌else◌, get_or, starts_with, strip, join, show, drop, length,
}
use drtm_tests.Session.{Phase, passed, failed, skipped, TestReport, TestRecord}

abbrev pub phase_text : Phase → Text
phase_text passed = txt "passed"
phase_text failed = txt "failed"
phase_text skipped = txt "skipped"

-- One round of `_outcome_per_test`: a phase that did not pass decides.
unfoldable pub collapse : TestReport → Text × ℕ → Text × ℕ
collapse report (outcome, duration) = (
  elim report.phase [
    | passed ↦ outcome
    | failed ↦ phase_text failed
    | skipped ↦ phase_text skipped
  ],
  duration + report.duration,
)

unfoldable pub outcome_loop : List TestReport → Dict Text (Text × ℕ) → Dict Text (Text × ℕ)
unfolding collapse
outcome_loop [] collapsed = collapsed
outcome_loop (report ∷ reports) collapsed =
    let old = get_or (txt "passed", 0) (lookup report.nodeid collapsed) in
    outcome_loop reports (insert report.nodeid (collapse report old) collapsed)

abbrev pub outcome_per_test : List TestReport → Dict Text (Text × ℕ)
outcome_per_test reports = outcome_loop reports []

unfoldable pub xpass_strict : Text
xpass_strict = txt "[XPASS(strict)]"

-- What stands in front of the first "::"
unfoldable pub file_of : Text → Text
file_of [] = []
file_of (c ∷ nodeid) =
    let rest = file_of nodeid in if starts_with (c ∷ nodeid) (txt "::") then [] else c ∷ rest

unfoldable pub fresh : Dict Text (List Text) → Text → TestRecord
unfolding file_of
fresh entries nodeid = record {
  id = nodeid;
  file = file_of nodeid;
  entries = elim (lookup nodeid entries) [ none ↦ [] | some names ↦ names ];
  outcome = txt "passed";
  ok = true;
  reason = none;
  duration = 0;
}

-- A failed phase: a strict expectation that did not hold says so at the start of its text.
unfoldable pub fail : TestReport → TestRecord → TestRecord
unfolding xpass_strict
fail report r =
    if starts_with report.longreprtext xpass_strict
    then record r {
      ok = false;
      outcome = txt "xpassed";
      reason = some (strip (drop (length xpass_strict) report.longreprtext));
    }
    else record r { ok = false; outcome = txt "failed" }

unfoldable pub skip : TestReport → TestRecord → TestRecord
skip report r = elim report.wasxfail [
  | some reason ↦ record r { outcome = txt "xfailed"; reason = some reason }
  | none ↦ if r.outcome is txt "passed" then record r { outcome = txt "skipped" } else r
]

unfoldable pub pass : TestReport → TestRecord → TestRecord
pass report r = elim report.wasxfail [
  | none ↦ r
  | some reason ↦ if r.ok then record r { outcome = txt "xpassed"; reason = some reason } else r
]

-- One round of `_records`, on the test's record.
unfoldable pub amend : TestReport → TestRecord → TestRecord
unfolding fail skip pass
amend report r =
    let timed : TestRecord = record r { duration = r.duration + report.duration } in
    elim report.phase [
      | failed ↦ fail report timed
      | skipped ↦ skip report timed
      | passed ↦ pass report timed
    ]

unfoldable pub records_loop :
    Dict Text (List Text) → List TestReport → Dict Text TestRecord → Dict Text TestRecord
unfolding amend fresh
records_loop entries [] records = records
records_loop entries (report ∷ reports) records =
    let old = get_or (fresh entries report.nodeid) (lookup report.nodeid records) in
    records_loop entries reports (insert report.nodeid (amend report old) records)

-- `_records`, with the rounding of a duration as an argument
abbrev pub rounded : (ℕ → ℕ) → TestRecord → TestRecord
rounded round r = record r { duration = round r.duration }

unfoldable pub records_of : (ℕ → ℕ) → Dict Text (List Text) → List TestReport → List TestRecord
unfolding records_loop
records_of round entries reports = map (rounded round) (values (records_loop entries reports []))

abbrev pub by_text : Text × ℕ → Text × ℕ → Bool
by_text a b = text_leb a.0 b.0

-- `f"{count} {outcome}"` for each outcome, in the order of their names
unfoldable pub summary_of : Dict Text ℕ → Text
unfolding text_leb
summary_of counts =
    join (txt ", ")
      (map (λ (outcome, count). show count ++ (b' ' ∷ outcome)) (sort_by by_text counts))

abbrev pub outcomes : Dict Text (Text × ℕ) → List Text
outcomes collapsed = map (λ (outcome, duration). outcome) (values collapsed)

-- The summary in `results.txt`
unfoldable pub session_summary : List TestReport → Text
unfolding summary_of outcome_loop
session_summary reports = summary_of (counts_of (outcomes (outcome_per_test reports)))
