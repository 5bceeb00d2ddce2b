-- ===== src/Session/Outcomes.antt =====
-- What the two results files say of a test, against the reports of its phases.
use drtm_tests.Prelude.Dict.{Dict, lookup, insert, lookup-insert}
use drtm_tests.Prelude.{
  ℕ, ◌≡◌, refl, ◌∙◌, sym, Bool, true, false, not, ◌&&◌, ◌||◌, Option, none, some, List, [], ◌∷◌,
  Text, txt, text_eq, ◌is◌, if◌then◌else◌, arith, some_of, every, get_or, ap,
}
use drtm_tests.Session.{Phase, passed, failed, skipped, TestReport, TestRecord}
use drtm_tests.Session.Records.{
  phase_text, collapse, outcome_loop, outcome_per_test, fail, skip, pass, amend, fresh,
  records_loop,
}

abbrev pub is_failed : Phase → Bool
is_failed failed = true
is_failed _ = false

abbrev pub is_passed : Phase → Bool
is_passed passed = true
is_passed _ = false

-- Whether a phase of the test failed, and whether they all passed.
abbrev pub any_failed : Text → List TestReport → Bool
any_failed id reports = some_of (λ r. id is r.nodeid && is_failed r.phase) reports

abbrev pub all_passed : Text → List TestReport → Bool
all_passed id reports = every (λ r. not (id is r.nodeid) || is_passed r.phase) reports

abbrev ok_of : Option TestRecord → Bool
ok_of none = true
ok_of (some r) = r.ok

-- A dict's record of a test; one without a record has not failed.
abbrev ok_in : Text → Dict Text TestRecord → Bool
ok_in id records = ok_of (lookup id records)

pub amend_ok :
    (report : TestReport) (r : TestRecord)
    → (amend report r).ok ≡ (r.ok && not (is_failed report.phase))
unfolding amend fail skip pass
amend_ok report r = ground arith

ok_in-insert :
    (id key : Text) (r : TestRecord) (records : Dict Text TestRecord)
    → ok_in id (insert key r records) ≡ (if id is key then r.ok else ok_in id records)
ok_in-insert id key r records = ground (arith, lookup-insert id key r records)

ok_in-amend :
    (id : Text) (report : TestReport) (start : TestRecord) (records : Dict Text TestRecord)
    → start.ok ≡ true
    → ok_in id
        (insert report.nodeid (amend report (get_or start (lookup report.nodeid records))) records)
      ≡ (ok_in id records && not (id is report.nodeid && is_failed report.phase))
ok_in-amend id report start records h = ground (
  arith,
  ok_in-insert id report.nodeid (amend report (get_or start (lookup report.nodeid records)))
      records,
  amend_ok report (get_or start (lookup report.nodeid records)),
  h,
)

and_not_or : (a b c : Bool) → ((a && not b) && not c) ≡ (a && not (b || c))
and_not_or a b c = ground arith

ok_in-records_loop :
    (id : Text) (entries : Dict Text (List Text)) (reports : List TestReport)
    (records : Dict Text TestRecord)
    → ok_in id (records_loop entries reports records)
      ≡ (ok_in id records && not (any_failed id reports))
unfolding records_loop
ok_in-records_loop id entries [] records = ground arith
ok_in-records_loop id entries (report ∷ reports) records =
    let old = get_or (fresh entries report.nodeid) (lookup report.nodeid records) in
    ok_in-records_loop id entries reports (insert report.nodeid (amend report old) records)
    ∙ ap (λ b. b && not (any_failed id reports))
        (ok_in-amend id report (fresh entries report.nodeid) records (unfold fresh in refl))
    ∙ and_not_or (ok_in id records) (id is report.nodeid && is_failed report.phase)
        (any_failed id reports)

abbrev passed_of : Option (Text × ℕ) → Bool
passed_of none = true
passed_of (some (outcome, duration)) = outcome is txt "passed"

abbrev passed_in : Text → Dict Text (Text × ℕ) → Bool
passed_in id collapsed = passed_of (lookup id collapsed)

phase_text_passed : (phase : Phase) → (phase_text phase is txt "passed") ≡ is_passed phase
unfolding txt text_eq
phase_text_passed passed = refl
phase_text_passed failed = refl
phase_text_passed skipped = refl

collapse_passed :
    (report : TestReport) (old : Option (Text × ℕ))
    → passed_of (some (collapse report (get_or (txt "passed", 0) old)))
      ≡ (passed_of old && is_passed report.phase)
unfolding collapse
collapse_passed report old =
    ground (arith, phase_text_passed passed, phase_text_passed failed, phase_text_passed skipped)

passed_in-insert :
    (id key : Text) (r : Text × ℕ) (collapsed : Dict Text (Text × ℕ))
    → passed_in id (insert key r collapsed)
      ≡ (if id is key then passed_of (some r) else passed_in id collapsed)
passed_in-insert id key r collapsed = ground (arith, lookup-insert id key r collapsed)

passed_in-collapse :
    (id : Text) (report : TestReport) (collapsed : Dict Text (Text × ℕ))
    → passed_in id (
        insert report.nodeid
          (collapse report (get_or (txt "passed", 0) (lookup report.nodeid collapsed)))
          collapsed)
      ≡ (passed_in id collapsed && (not (id is report.nodeid) || is_passed report.phase))
passed_in-collapse id report collapsed = ground (
  arith,
  passed_in-insert id report.nodeid
      (collapse report (get_or (txt "passed", 0) (lookup report.nodeid collapsed))) collapsed,
  collapse_passed report (lookup report.nodeid collapsed),
)

and_assoc_lem : (a b c : Bool) → ((a && b) && c) ≡ (a && (b && c))
and_assoc_lem a b c = ground arith

passed_in-outcome_loop :
    (id : Text) (reports : List TestReport) (collapsed : Dict Text (Text × ℕ))
    → passed_in id (outcome_loop reports collapsed)
      ≡ (passed_in id collapsed && all_passed id reports)
unfolding outcome_loop
passed_in-outcome_loop id [] collapsed = ground arith
passed_in-outcome_loop id (report ∷ reports) collapsed =
    passed_in-outcome_loop id reports (
      insert report.nodeid
        (collapse report (get_or (txt "passed", 0) (lookup report.nodeid collapsed))) collapsed)
    ∙ ap (λ b. b && all_passed id reports) (passed_in-collapse id report collapsed)
    ∙ and_assoc_lem (passed_in id collapsed) (not (id is report.nodeid) || is_passed report.phase)
        (all_passed id reports)

-- The two results files, on any reports in any order: a test's record in `results.json` is ok exactly
-- when none of its phases failed, and its outcome in `results.txt` is "passed" exactly when all of
-- its phases passed.
pub records-outcome_per_test :
    (id : Text) (entries : Dict Text (List Text)) (reports : List TestReport) {r : TestRecord}
    {outcome : Text} {duration : ℕ}
    → lookup id (records_loop entries reports []) ≡ some r
    → lookup id (outcome_per_test reports) ≡ some (outcome, duration)
    → (r.ok ≡ not (any_failed id reports)) × ((outcome is txt "passed") ≡ all_passed id reports)
unfolding lookup
records-outcome_per_test id entries reports h k = (
  sym (ap ok_of h) ∙ ok_in-records_loop id entries reports [],
  sym (ap passed_of k) ∙ passed_in-outcome_loop id reports [],
)
