-- ===== src/Session.antt =====
-- drtmtest/session.py: the boots of a session and what is recorded of its tests. Durations are in
-- milliseconds; the log directory is the list of what it holds, a name and whether it is a directory.
pub mod Records
pub mod Runs
pub mod Boots
pub mod Outcomes
pub mod Finish
pub mod Threads
pub mod Calls
pub mod Pool
mod Tests
use drtm_tests.Prelude.Dict.{Dict, lookup, has, keys, values, insert}
use drtm_tests.Prelude.Sort.{text_leb, sort_by, unique, counts_of}
use drtm_tests.Prelude.{
  ℕ, zero, suc, ◌+◌, ◌-◌, ◌*◌, ◌/◌, ◌%◌, ◌==◌, ltb, leb, Bool, true, false, not, ◌&&◌, ◌||◌, Option,
  none, some, List, [], ◌∷◌, ◌++◌, map, Text, txt, text_eq, ◌is◌, contains, if◌then◌else◌,
  starts_with, strip, split_on, join, show, drop, take, length, Error, Result, ok, err, system_exit,
}

-- How pytest ended a phase of a test, and what its report holds.
pub data Phase : Type 0 where
  passed failed skipped : Phase

pub record TestReport : Type 0 where
  pub nodeid : Text
  pub when : Text
  pub phase : Phase
  pub wasxfail : Option Text
  pub longreprtext : Text
  pub duration : ℕ

-- One test's record for `results.json`.
pub record TestRecord : Type 0 where
  pub id : Text
  pub file : Text
  pub entries : List Text
  pub outcome : Text
  pub ok : Bool
  pub reason : Option Text
  pub duration : ℕ

-- What a session keeps: its log directory once there is one, the boots of the pool in the order of
-- their submission, what was prepared, the boots that each test takes, and the reports.
pub record Session : Type 0 where
  pub run_log_dir : Option Text
  pub submitted : List Text
  pub prepared : List Text
  pub entries : Dict Text (List Text)
  pub reports : List TestReport

-- The value of a digit, an ASCII one.
abbrev pub digit_value : ℕ → Option ℕ
digit_value c = if leb b'0' c && leb c b'9' then some (c - b'0') else none

abbrev pub four : Option ℕ → Option ℕ → Option ℕ → Option ℕ → Option ℕ
four (some a) (some b) (some c) (some d) = some (1000 * a + 100 * b + 10 * c + d)
four _ _ _ _ = none

-- `_RUN_DIR_RE`: four digits and a dash, and the number that they are.
unfoldable pub run_number : Text → Option ℕ
run_number (a ∷ b ∷ c ∷ d ∷ dash ∷ _) =
    if dash == b'-'
    then four (digit_value a) (digit_value b) (digit_value c) (digit_value d)
    else none
run_number _ = none

abbrev pub max : ℕ → ℕ → ℕ
max a b = if leb a b then b else a

-- `max(numbers, default=0)` over the directories that a run numbered
unfoldable pub last_number : List (Text × Bool) → ℕ
last_number [] = 0
last_number ((name, is_dir) ∷ paths) =
    let rest = last_number paths in
    if is_dir then elim (run_number name) [ none ↦ rest | some n ↦ max n rest ] else rest

-- `_next_run_number`; `none` is a log directory that is not there.
unfoldable pub next_run_number : Option (List (Text × Bool)) → ℕ
unfolding last_number
next_run_number none = 1
next_run_number (some paths) = last_number paths + 1

abbrev pub max_run_number : ℕ
max_run_number = 9999

-- `f"{number:04d}"` of a number of at most four digits
unfoldable pub padded : ℕ → Text
padded n =
    (b'0' + n / 1000 % 10) ∷ (b'0' + n / 100 % 10) ∷ (b'0' + n / 10 % 10) ∷ (b'0' + n % 10) ∷ []

unfoldable pub run_log_dir : Option (List (Text × Bool)) → Text → Session → Session × Result Text
unfolding next_run_number padded
run_log_dir logs_dir date s = elim s.run_log_dir [
  | some dir ↦ (s, ok dir)
  | none ↦
      let number = next_run_number logs_dir in
      let dir = padded number ++ (b'-' ∷ date) in
      if ltb max_run_number number
      then (s, err system_exit)
      else (record s { run_log_dir = some dir }, ok dir)
]

-- `name.removesuffix("_boot")`
unfoldable pub without_suffix : Text → Text → Text
without_suffix suffix [] = []
without_suffix suffix (c ∷ name) =
    let rest = without_suffix suffix name in if (c ∷ name) is suffix then [] else c ∷ rest

-- The name of a boot's own directory in the run's
unfoldable pub boot_dir_name : Text → Text
unfolding without_suffix
boot_dir_name name =
    txt "boot-" ++ map (λ c. if c == b'_' then b'-' else c) (without_suffix (txt "_boot") name)

-- A collected test: the fixtures that it names, and its parameters, `none` for one that is no text.
pub record Item : Type 0 where
  pub nodeid : Text
  pub fixturenames : List Text
  pub params : List (Option Text)

unfoldable pub texts_of : List (Option Text) → List Text
texts_of [] = []
texts_of (none ∷ ps) = texts_of ps
texts_of (some p ∷ ps) = p ∷ texts_of ps

unfoldable pub among : List Text → List Text → List Text
among names [] = []
among names (n ∷ ns) = let rest = among names ns in if contains names n then n ∷ rest else rest

-- The boots that a test takes, each once
unfoldable pub taken : List Text → Item → List Text
unfolding among texts_of
taken names item = among names (unique (item.fixturenames ++ texts_of item.params))

-- `first_wanted.setdefault(name, index)` for each of the names
unfoldable pub want : ℕ → List Text → Dict Text ℕ → Dict Text ℕ
want index [] first_wanted = first_wanted
want index (name ∷ names) first_wanted =
    want index names
      (if has name first_wanted then first_wanted else insert name index first_wanted)

unfoldable pub first_wanted_loop : List Text → ℕ → List Item → Dict Text ℕ → Dict Text ℕ
unfolding want taken
first_wanted_loop names index [] first_wanted = first_wanted
first_wanted_loop names index (item ∷ items) first_wanted =
    first_wanted_loop names (index + 1) items (want index (taken names item) first_wanted)

unfoldable pub entries_loop : List Text → List Item → Dict Text (List Text) → Dict Text (List Text)
unfolding taken
entries_loop names [] entries = entries
entries_loop names (item ∷ items) entries =
    entries_loop names items (insert item.nodeid (taken names item) entries)

abbrev pub earlier : Text × ℕ → Text × ℕ → Bool
earlier a b = leb a.1 b.1

-- The boots to start, in the order of the tests that ask for them first
unfoldable pub wanted_boots : List Text → List Item → List Text
unfolding first_wanted_loop
wanted_boots names items = keys (sort_by earlier (first_wanted_loop names 0 items []))

unfoldable pub collection_modifyitems : List Text → Bool → List Item → Session → Session
unfolding wanted_boots entries_loop
collection_modifyitems names collectonly items s =
    if collectonly
    then s
    else let wanted = wanted_boots names items in
      record s {
        entries = entries_loop names items s.entries;
        prepared = s.prepared ++ wanted;
        submitted = s.submitted ++ wanted;
      }

abbrev pub runtest_logreport : TestReport → Session → Session
runtest_logreport report s = record s { reports = s.reports ++ (report ∷ []) }
