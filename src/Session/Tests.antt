-- ===== src/Session/Tests.antt =====
-- A session of a few tests over two boots, and the theorems at it.
use drtm_tests.Prelude.Dict.{lookup, has, insert}
use drtm_tests.Prelude.Sort.{unique, unique_onto, counts_onto, insert_by, sort_by}
use drtm_tests.Prelude.{
  ◌≡◌, refl, not, Bool, true, false, none, some, List, [], ◌∷◌, Text, txt, text_eq, starts_with,
  strip, show, join, ◌is◌, Option, nat_eq, arith,
}
use drtm_tests.Session.{
  passed, failed, skipped, TestReport, TestRecord, Session, Item, run_number, next_run_number,
  last_number, padded, run_log_dir, boot_dir_name, collection_modifyitems, taken,
}
use drtm_tests.Session.Records.{records_loop, outcome_loop, xpass_strict, session_summary}
use drtm_tests.Session.Runs.{IsNew, run_log_dir-IsNew}
use drtm_tests.Prelude.Steps.{Reach, here, next, moved}
use drtm_tests.Session.Threads.{
  Step, System, waiting, testing, numbered, made, returned, run_dir_name, new_system, acquire,
  known, number, mkdir, stamp, elsewhere, IsOwn, calls_agree,
}
use drtm_tests.Session.Calls.{RunsTo, run_log_dir-RunsTo}
use drtm_tests.Session.Pool.{
  Pool, PoolStep, start, finish, shutdown, new_pool, InOrder, collection-InOrder,
}
use drtm_tests.Session.Boots.{asked_for}
use drtm_tests.Session.Outcomes.{any_failed, all_passed, records-outcome_per_test}

abbrev new_session : Session
new_session = record {
  run_log_dir = none;
  submitted = [];
  prepared = [];
  entries = [];
  reports = [];
}

abbrev paths : List (Text × Bool)
paths = (txt "0007-2026-01-02", true) ∷ (txt "0012-x", false) ∷ (txt "notes", true) ∷ []

run_log_dir-IsNew_example :
    IsNew paths (record new_session { run_log_dir = some (txt "0008-2026") }) (txt "0008-2026")
unfolding run_log_dir run_number txt
run_log_dir-IsNew_example = run_log_dir-IsNew paths (txt "2026") new_session refl refl

boot_dir : boot_dir_name (txt "xen_skl_boot") ≡ txt "boot-xen-skl"
unfolding boot_dir_name txt text_eq
boot_dir = refl

abbrev items : List Item
items =
    record { nodeid = txt "t1"; fixturenames = txt "b" ∷ txt "tmp" ∷ []; params = [] }
    ∷ record {
      nodeid = txt "t2";
      fixturenames = [];
      params = none ∷ some (txt "a") ∷ some (txt "b") ∷ [];
    }
    ∷ []

in_order :
    (collection_modifyitems (txt "a" ∷ txt "b" ∷ []) false items new_session).submitted
    ≡ txt "b" ∷ txt "a" ∷ []
unfolding collection_modifyitems taken unique_onto has insert sort_by insert_by txt text_eq
in_order = refl

abbrev report : TestReport
report = record {
  nodeid = txt "t1";
  phase = passed;
  wasxfail = none;
  when = txt "call";
  longreprtext = [];
  duration = 5;
}

abbrev reports : List TestReport
reports =
    report
    ∷ record report { phase = failed; longreprtext = txt "[XPASS(strict)] no" }
    ∷ record report { nodeid = txt "t2"; phase = skipped; wasxfail = some (txt "why") }
    ∷ record report { nodeid = txt "t3" }
    ∷ []

abbrev first_record : TestRecord
first_record = record {
  id = txt "t1";
  file = txt "t1";
  entries = [];
  outcome = txt "xpassed";
  ok = false;
  reason = some (txt "no");
  duration = 10;
}

records-outcome_per_test_example :
    (false ≡ not (any_failed (txt "t1") reports))
    × ((txt "failed" is txt "passed") ≡ all_passed (txt "t1") reports)
unfolding records_loop outcome_loop lookup insert text_eq txt xpass_strict starts_with strip
records-outcome_per_test_example =
    records-outcome_per_test (txt "t1") [] reports {r = first_record} {outcome = txt "failed"}
      {duration = 10} refl refl

summed : session_summary reports ≡ txt "1 failed, 1 passed, 1 skipped"
unfolding session_summary lookup insert counts_onto sort_by insert_by text_eq txt show join
summed = refl

-- Two calls: the first one makes the directory, while another process makes one of its own, and the second one
-- finds it.
abbrev logs : Option (List (Text × Bool))
logs = some paths

abbrev made_dir : Text
made_dir = run_dir_name 8 (txt "2026")

abbrev both_back : System
both_back = record {
  logs_dir = some ((made_dir, true) ∷ (txt "scratch", true) ∷ paths);
  run_log_dir = some made_dir;
  lock = none;
  place = moved 1 (returned made_dir) (
      moved 1 testing (
        moved 0 (returned made_dir)
          (moved 0 (made made_dir) (moved 0 (numbered 8) (moved 0 testing (λ i. waiting))))));
  created = made_dir ∷ [];
  others = txt "scratch" ∷ txt "0007-2026-01-02" ∷ txt "0012-x" ∷ txt "notes" ∷ [];
}

both_calls : Reach Step (new_system logs) both_back
unfolding run_number next_run_number last_number padded text_eq txt nat_eq
both_calls =
    next
      (next
        (next
          (next
            (next (next (next here (acquire 0 refl refl refl)) (number 0 refl refl refl))
              (elsewhere (txt "scratch") true refl refl))
            (mkdir 0 8 (txt "2026") refl (omega arith) refl refl))
          (stamp 0 made_dir refl refl))
        (acquire 1 refl refl refl))
      (known 1 made_dir refl refl refl)

calls_agree_example : (made_dir ≡ made_dir) × IsOwn both_back made_dir
unfolding nat_eq
calls_agree_example = calls_agree logs 0 1 both_calls refl refl

run_log_dir-RunsTo_example : RunsTo 0 (new_system logs) (run_log_dir logs (txt "2026") new_session)
unfolding run_number next_run_number last_number padded text_eq txt
run_log_dir-RunsTo_example =
    run_log_dir-RunsTo (new_system logs) 0 (txt "2026") new_session refl refl refl refl

-- One thread: the first boot has ended when the session is shut down, and the second one is dropped.
abbrev boots : List Text
boots = txt "a" ∷ txt "b" ∷ []

abbrev shut_down : Pool
shut_down = record {
  queued = [];
  running = [];
  ended = txt "b" ∷ [];
  started = txt "b" ∷ [];
  dropped = txt "a" ∷ [];
  is_open = false;
}

pool_run :
    Reach
      (PoolStep 1)
      (new_pool (collection_modifyitems boots false items new_session).submitted)
      shut_down
unfolding collection_modifyitems taken unique_onto has insert sort_by insert_by txt text_eq
pool_run =
    next
      (next (next here (start (txt "b") (txt "a" ∷ []) refl (omega arith) refl))
        (finish [] (txt "b") [] refl refl))
      (shutdown refl refl)

collection-InOrder_example : InOrder 1 (unique (asked_for boots items)) shut_down
collection-InOrder_example = collection-InOrder boots items new_session 1 refl pool_run
