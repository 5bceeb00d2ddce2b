-- ===== src/Session/Calls.antt =====
-- `run_log_dir` as a way through the steps of the calls that overlap.
use drtm_tests.Prelude.Steps.{Reach, here, next, moved, moved_self}
use drtm_tests.Prelude.{
  ℕ, ◌≤◌, ◌<◌, ◌≡◌, refl, sym, ◌∙◌, Bool, true, false, Option, none, some, ◌∷◌, Text, text_eq,
  contains, if◌then◌else◌, arith, ltb, Result, ok, err, system_exit,
}
use drtm_tests.Session.{Session, next_run_number, max_run_number, run_log_dir}
use drtm_tests.Session.Threads.{
  System, Place, waiting, testing, numbered, made, returned, raised, paths_in, path_names,
  run_dir_name, Step, acquire, known, number, exhausted, mkdir, stamp,
}

-- Where a call is once it is out of the function.
abbrev pub out_of : Result Text → Place
out_of (ok dir) = returned dir
out_of (err e) = raised

-- A call's run through the function that leaves this session and this result.
abbrev pub RunsTo : ℕ → System → Session × Result Text → Type 0
RunsTo i s (session, result) =
    (t : System) × Reach Step s t
    × (t.run_log_dir ≡ session.run_log_dir)
    × (t.lock ≡ none)
    × (t.place i ≡ out_of result)

module _ (s : System) (i : ℕ) (waits : s.place i ≡ waiting) (free : s.lock ≡ none) where
  entered : System
  entered = record s { lock = some i; place = moved i testing s.place }

  enters : Reach Step s entered
  unfolding entered
  enters = next here (acquire i waits free refl)

  known_run :
      (session : Session) (dir : Text)
      → s.run_log_dir ≡ some dir
      → s.run_log_dir ≡ session.run_log_dir
      → RunsTo i s (session, ok dir)
  unfolding entered
  known_run session dir found same = (
    record entered { lock = none; place = moved i (returned dir) entered.place },
    next enters (known i dir (moved_self i testing s.place) found refl),
    same,
    refl,
    moved_self i (returned dir) entered.place,
  )

  module _ (absent : s.run_log_dir ≡ none) where
    n : ℕ
    n = next_run_number s.logs_dir

    at_number : System
    unfolding n
    at_number = record entered { place = moved i (numbered n) entered.place }

    numbers : Reach Step s at_number
    unfolding entered at_number n
    numbers = next enters (number i (moved_self i testing s.place) absent refl)

    exhausted_run :
        (session : Session)
        → s.run_log_dir ≡ session.run_log_dir
        → max_run_number < next_run_number s.logs_dir
        → RunsTo i s (session, err system_exit)
    unfolding entered at_number n
    exhausted_run session same above = (
      record at_number { lock = none; place = moved i raised at_number.place },
      next numbers (exhausted i n (moved_self i (numbered n) entered.place) above refl),
      same,
      refl,
      moved_self i raised at_number.place,
    )

    made_run :
        (session : Session) (date : Text)
        → session.run_log_dir ≡ some (run_dir_name (next_run_number s.logs_dir) date)
        → next_run_number s.logs_dir ≤ max_run_number
        → contains
            (path_names (paths_in s.logs_dir))
            (run_dir_name (next_run_number s.logs_dir) date)
          ≡ false
        → RunsTo i s (session, ok (run_dir_name (next_run_number s.logs_dir) date))
    unfolding entered at_number n
    made_run session date named fits unused =
        let dir = run_dir_name n date in
        let at_dir : System = record at_number {
          logs_dir = some ((dir, true) ∷ paths_in s.logs_dir);
          created = dir ∷ s.created;
          place = moved i (made dir) at_number.place;
        } in
        (
          record at_dir {
            run_log_dir = some dir;
            lock = none;
            place = moved i (returned dir) at_dir.place;
          },
          next
              (next numbers
                (mkdir i n date (moved_self i (numbered n) entered.place) fits unused refl))
              (stamp i dir (moved_self i (made dir) at_number.place) refl),
          sym named,
          refl,
          moved_self i (returned dir) at_dir.place,
        )

pub run_log_dir-RunsTo :
    (s : System) (i : ℕ) (date : Text) (session : Session)
    → s.place i ≡ waiting
    → s.lock ≡ none
    → s.run_log_dir ≡ session.run_log_dir
    → contains (path_names (paths_in s.logs_dir)) (run_dir_name (next_run_number s.logs_dir) date)
      ≡ false
    → RunsTo i s (run_log_dir s.logs_dir date session)
unfolding run_log_dir
run_log_dir-RunsTo s i date session waits free same unused = cases session.run_log_dir refl
  where
    number_cases :
        (above : Bool)
        → ltb max_run_number (next_run_number s.logs_dir) ≡ above
        → s.run_log_dir ≡ none
        → RunsTo i s (
            if above then (session, err system_exit) else (
              record session {
                run_log_dir = some (run_dir_name (next_run_number s.logs_dir) date);
              },
              ok (run_dir_name (next_run_number s.logs_dir) date),
            ))
    number_cases true e absent = exhausted_run s i waits free absent session same (ground arith)
    number_cases false e absent =
        made_run s i waits free absent
          (record session { run_log_dir = some (run_dir_name (next_run_number s.logs_dir) date) })
          date refl (ground arith) unused

    cases :
        (found : Option Text)
        → session.run_log_dir ≡ found
        → RunsTo i s (elim found [
          | some dir ↦ (session, ok dir)
          | none ↦
              if ltb max_run_number (next_run_number s.logs_dir)
              then (session, err system_exit)
              else (
                record session {
                  run_log_dir = some (run_dir_name (next_run_number s.logs_dir) date);
                },
                ok (run_dir_name (next_run_number s.logs_dir) date),
              )
        ])
    cases (some dir) e = known_run s i waits free session dir (same ∙ e) same
    cases none e = number_cases (ltb max_run_number (next_run_number s.logs_dir)) refl (same ∙ e)
