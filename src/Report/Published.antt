-- ===== src/Report/Published.antt =====
-- A session's `results.json` as the report reads it: from the phases that failed to the badge.
use mathlib.Core.Path.{ap₂}
use drtm_tests.Prelude.Dict.{Dict, lookup, lookup-has, insert, values}
use drtm_tests.Prelude.{
  ℕ, ◌==◌, ◌≡◌, refl, sym, ap, ◌∙◌, Bool, true, false, not, ◌&&◌, Option, none, some, List, [], ◌∷◌,
  map, Text, txt, text_eq, ◌is◌, get_or, every, length, arith,
}
use drtm_tests.Session.{TestReport, TestRecord, Session}
use drtm_tests.Session.Records.{amend, fresh, records_loop, rounded, records_of}
use drtm_tests.Session.Outcomes.{is_failed, amend_ok}
use drtm_tests.Session.Finish.{Finish, results_file, failures_of}
use drtm_tests.Report.{TestResult, Details, Results, ByConfiguration, tests_of, count_ok, badge}
use drtm_tests.Report.Badges.{
  all_ok as all_ok_tests, count_ok-all_ok, is_good, is_covered, badge_lem,
}

-- One test of the file, as it was written and read back
abbrev pub read_test : TestRecord → TestResult
read_test r = record {
  id = r.id;
  entries = r.entries;
  outcome = r.outcome;
  ok = r.ok;
  reason = get_or [] r.reason;
}

-- The results of a session with these details
abbrev pub read_results : Details → Finish → Session → Results
read_results details f s = record {
  details = details;
  finished = f.finished;
  tests = map read_test (results_file f s).tests;
}

abbrev no_failure : List TestReport → Bool
no_failure reports = every (λ r. not (is_failed r.phase)) reports

abbrev all_ok : Dict Text TestRecord → Bool
all_ok records = every (λ r. r.ok) (values records)

abbrev was_ok : Option TestRecord → Bool
was_ok none = true
was_ok (some r) = r.ok

all_ok-insert :
    (key : Text) (r : TestRecord) (records : Dict Text TestRecord) (fine : Bool)
    → r.ok ≡ (was_ok (lookup key records) && fine)
    → all_ok (insert key r records) ≡ (all_ok records && fine)
unfolding insert lookup
all_ok-insert key r [] fine h = ground arith
all_ok-insert key r ((j, w) ∷ records) fine h = ground (arith, all_ok-insert key r records fine)

all_ok-amend :
    (report : TestReport) (start : TestRecord) (records : Dict Text TestRecord)
    → start.ok ≡ true
    → all_ok
        (insert report.nodeid (amend report (get_or start (lookup report.nodeid records))) records)
      ≡ (all_ok records && not (is_failed report.phase))
all_ok-amend report start records h =
    all_ok-insert report.nodeid (amend report (get_or start (lookup report.nodeid records))) records
      (not (is_failed report.phase))
      (amend_ok report (get_or start (lookup report.nodeid records))
        ∙ ap (λ b. b && not (is_failed report.phase)) (was (lookup report.nodeid records)))
  where
    was : (o : Option TestRecord) → (get_or start o).ok ≡ was_ok o
    was none = h
    was (some r) = refl

and_assoc_lem : (a b c : Bool) → ((a && b) && c) ≡ (a && (b && c))
and_assoc_lem a b c = ground arith

all_ok-records_loop :
    (entries : Dict Text (List Text)) (reports : List TestReport) (records : Dict Text TestRecord)
    → all_ok (records_loop entries reports records) ≡ (all_ok records && no_failure reports)
unfolding records_loop
all_ok-records_loop entries [] records = ground arith
all_ok-records_loop entries (report ∷ reports) records =
    let old = get_or (fresh entries report.nodeid) (lookup report.nodeid records) in
    all_ok-records_loop entries reports (insert report.nodeid (amend report old) records)
    ∙ ap (λ b. b && no_failure reports)
        (all_ok-amend report (fresh entries report.nodeid) records (unfold fresh in refl))
    ∙ and_assoc_lem (all_ok records) (not (is_failed report.phase)) (no_failure reports)

-- The count behind a badge is zero exactly when every test is ok.
count_ok-rounded :
    (round : ℕ → ℕ) (records : List TestRecord)
    → (count_ok false (map read_test (map (rounded round) records)) == 0)
      ≡ every (λ r. r.ok) records
unfolding count_ok
count_ok-rounded round [] = refl
count_ok-rounded round (r ∷ records) = ground (arith, count_ok-rounded round records)

no_failure-failures_of :
    (reports : List TestReport) → (length (failures_of reports) == 0) ≡ no_failure reports
unfolding failures_of
no_failure-failures_of [] = refl
no_failure-failures_of (r ∷ reports) = ground (arith, no_failure-failures_of reports)

pub failed_tests_none :
    (details : Details) (f : Finish) (s : Session)
    → (count_ok false (read_results details f s).tests == 0) ≡ (length (failures_of s.reports) == 0)
unfolding results_file records_of
failed_tests_none details f s =
    count_ok-rounded f.rounded (values (records_loop s.entries s.reports []))
    ∙ all_ok-records_loop s.entries s.reports []
    ∙ sym (no_failure-failures_of s.reports)

-- A cell's session, with the details that it recorded and what its end was given
pub record Run : Type 0 where
  pub details : Details
  pub finish : Finish
  pub session : Session

abbrev pub results_of : Run → Results
results_of run = read_results run.details run.finish run.session

-- No phase of a test failed: the part of `results.txt` for them is empty.
abbrev pub is_clean : Run → Bool
is_clean run = length (failures_of run.session.reports) == 0

-- The files of the sessions are where the report looks for a release's results.
abbrev pub AreFiled : Text → ByConfiguration → (Text → Run) → List Text → Type 0
AreFiled release d run_of [] = Unit {0}
AreFiled release d run_of (name ∷ names) =
    (lookup release (get_or [] (lookup name d)) ≡ some (results_of (run_of name)))
    × AreFiled release d run_of names

all_ok-results_of : (run : Run) → all_ok_tests (results_of run).tests ≡ is_clean run
all_ok-results_of run =
    sym (count_ok-all_ok (results_of run).tests)
    ∙ failed_tests_none run.details run.finish run.session

is_good-is_clean :
    (release : Text) (d : ByConfiguration) (run_of : Text → Run) (names : List Text)
    → AreFiled release d run_of names
    → every (is_good release d) names ≡ every (λ name. is_clean (run_of name)) names
is_good-is_clean release d run_of [] h = refl
is_good-is_clean release d run_of (name ∷ names) (filed, h) =
    ap₂ ◌&&◌ (ap (λ o. all_ok_tests (tests_of o)) filed ∙ all_ok-results_of (run_of name))
      (is_good-is_clean release d run_of names h)

covered_of_filed :
    (release : Text) (d : ByConfiguration) (run_of : Text → Run) (names : List Text)
    → AreFiled release d run_of names
    → every (is_covered release d) names ≡ true
covered_of_filed release d run_of [] h = refl
covered_of_filed release d run_of (name ∷ names) (filed, h) =
    ap₂ ◌&&◌ (lookup-has release (get_or [] (lookup name d)) filed)
      (covered_of_filed release d run_of names h)

-- From the tests to the badge: where the report finds, for each configuration of a run, the `results.json`
-- that a session wrote for the release, the release's badge is green exactly when no phase of a test
-- failed in any of these sessions, so exactly when none of their `results.txt` lists a failure.
pub badge-sessions :
    (release : Text) (d : ByConfiguration) (run_of : Text → Run) (names : List Text)
    → AreFiled release d run_of names
    → ((badge release d names).color is txt "brightgreen")
      ≡ every (λ name. is_clean (run_of name)) names
badge-sessions release d run_of names filed =
    (badge_lem release d names).0
    ∙ ap₂ ◌&&◌ (is_good-is_clean release d run_of names filed)
        (covered_of_filed release d run_of names filed)
    ∙ ground arith
