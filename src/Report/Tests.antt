-- ===== src/Report/Tests.antt =====
-- Two small results files, and the theorems at them.
use drtm_tests.Prelude.Dict.{lookup}
use drtm_tests.Prelude.{
  ◌≡◌, refl, true, none, some, List, [], ◌∷◌, txt, text_eq, ok, err, map, system_exit, value_error,
  show, ◌is◌, every,
}
use drtm_tests.Report.{
  TestResult, Details, Results, ByConfiguration, mark, badge, by_configuration, fail_mark, did_fail,
  code,
}
use drtm_tests.Report.Tables.{table}
use drtm_tests.Report.Pages.{page_releases, entry_notes}
use drtm_tests.Report.Header.{readable, report}
use drtm_tests.Report.Files.{badge_name, names_of, names_of-report}
use drtm_tests.Report.Published.{Run, results_of, is_clean, badge-sessions}
use drtm_tests.Session.{failed}

abbrev booted : TestResult
booted = record {
  id = txt "t";
  entries = txt "xen" ∷ [];
  outcome = txt "passed";
  ok = true;
  reason = [];
}

abbrev expected : TestResult
expected = record booted { outcome = txt "xfailed"; reason = txt "no PSP" }

abbrev details : Details
details = record {
  release = some (txt "v0.5.2");
  image = none;
  configuration = some (txt "psp");
  vendor = none;
  psp = none;
  banks = none;
  commit = none;
  qemu_bundle = none;
  qemu = none;
  swtpm = none;
  entries = txt "xen" ∷ [];
}

abbrev results : List Results
results = record { details = details; finished = []; tests = booted ∷ expected ∷ [] } ∷ []

marked : mark (booted ∷ expected ∷ []) ≡ fail_mark
unfolding mark text_eq txt fail_mark did_fail
marked = refl

noted : entry_notes (txt "x") (expected ∷ expected ∷ []) ≡ txt "    - `x` expected: no PSP" ∷ []
unfolding entry_notes text_eq txt code
noted = refl

ragged : table (txt "a" ∷ []) ((txt "b" ∷ txt "c" ∷ []) ∷ []) ≡ err value_error
unfolding table txt
ragged = refl

abbrev d : ByConfiguration
d = by_configuration results []

names_of-report_example :
    (names_of (report (λ badge. badge.message) results none none)
      ≡ ok (txt "README.md" ∷ map badge_name (page_releases results)))
    × (names_of (report (λ badge. badge.message) [] none none) ≡ err system_exit)
names_of-report_example =
    names_of-report (λ badge. badge.message)
      (record { details = details; finished = []; tests = booted ∷ expected ∷ [] }) [] none none

header_lines : readable (txt "2026-01-02T03:04:05.678+01:00") ≡ txt "2026-01-02 03:04:05"
unfolding readable txt
header_lines = refl

-- A session in which one test's call failed
abbrev failing : Run
failing = record {
  details = details;
  finish = record {
    exit_status = 1;
    finished = txt "now";
    elapsed = 10;
    header = [];
    one_decimal = show;
    rounded = λ n. n;
  };
  session = record {
    run_log_dir = none;
    submitted = [];
    prepared = [];
    entries = [];
    reports =
        record {
          nodeid = txt "t";
          when = txt "call";
          phase = failed;
          wasxfail = none;
          longreprtext = txt "no";
          duration = 3;
        }
        ∷ [];
  };
}

abbrev filed : ByConfiguration
filed = (txt "psp", (txt "v0.5.2", results_of failing) ∷ []) ∷ []

badge-sessions_example :
    ((badge (txt "v0.5.2") filed (txt "psp" ∷ [])).color is txt "brightgreen")
    ≡ every (λ name. is_clean failing) (txt "psp" ∷ [])
unfolding lookup text_eq txt
badge-sessions_example =
    badge-sessions (txt "v0.5.2") filed (λ name. failing) (txt "psp" ∷ []) (refl, tt)
