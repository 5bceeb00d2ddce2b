-- ===== src/Session/Runs.antt =====
-- The numbers of the runs' directories.
use drtm_tests.Prelude.{
  ℕ, ◌+◌, ◌/◌, ◌%◌, ◌<◌, ◌≤◌, ◌≡◌, ◌∙◌, ap, Bool, true, false, Option, none, some, List, [], ◌∷◌,
  ◌++◌, Text, text_eq, arith, if◌then◌else◌, ok, contains,
}
use drtm_tests.Session.{
  Session, digit_value, run_number, last_number, next_run_number, max_run_number, padded,
  run_log_dir,
}

digit_value_lem : (d : ℕ) → d < 10 → digit_value (b'0' + d) ≡ some d
digit_value_lem d h = ground arith

run_number-padded :
    (n : ℕ) (date : Text) → n ≤ max_run_number → run_number (padded n ++ (b'-' ∷ date)) ≡ some n
unfolding run_number padded
run_number-padded n date h = ground (
  arith,
  digit_value_lem (n / 1000 % 10),
  digit_value_lem (n / 100 % 10),
  digit_value_lem (n / 10 % 10),
  digit_value_lem (n % 10),
)

-- The directories among what the log directory holds
abbrev pub dir_names : List (Text × Bool) → List Text
dir_names [] = []
dir_names ((name, is_dir) ∷ paths) =
    let rest = dir_names paths in if is_dir then name ∷ rest else rest

-- A directory that is numbered is numbered below the next run.
dir_names-last_number :
    (paths : List (Text × Bool)) (name : Text) {n : ℕ}
    → contains (dir_names paths) name ≡ true
    → run_number name ≡ some n
    → n ≤ last_number paths
unfolding last_number
dir_names-last_number [] name h e = cc
dir_names-last_number ((other, is_dir) ∷ paths) name {n} h e =
    ground (arith, dir_names-last_number paths name {n = n})

-- What a run's new directory is to be: it is none of those that are there, its number is above all of
-- theirs, and asking again, whatever is there then, gives it again and changes nothing.
pub record IsNew (paths : List (Text × Bool)) (s : Session) (dir : Text) : Type 0 where
  pub number : ℕ
  pub numbered : run_number dir ≡ some number
  pub absent : contains (dir_names paths) dir ≡ false
  pub above :
      (name : Text) (n : ℕ)
      → contains (dir_names paths) name ≡ true
      → run_number name ≡ some n
      → n < number
  pub again :
      (later : Option (List (Text × Bool))) (date : Text) → run_log_dir later date s ≡ (s, ok dir)

first_run :
    (logs_dir : Option (List (Text × Bool))) (date : Text) (s : Session) {s' : Session} {dir : Text}
    → s.run_log_dir ≡ none
    → run_log_dir logs_dir date s ≡ (s', ok dir)
    → (next_run_number logs_dir ≤ max_run_number)
      × (dir ≡ padded (next_run_number logs_dir) ++ (b'-' ∷ date))
      × (s'.run_log_dir ≡ some dir)
unfolding run_log_dir
first_run logs_dir date s h e = ground arith

run_log_dir_again :
    (logs_dir : Option (List (Text × Bool))) (date : Text) (s : Session) {dir : Text}
    → s.run_log_dir ≡ some dir
    → run_log_dir logs_dir date s ≡ (s, ok dir)
unfolding run_log_dir
run_log_dir_again logs_dir date s h = ground arith

-- Above every number that is there, so none of those that are there.
above-absent :
    (paths : List (Text × Bool)) (dir : Text) (number : ℕ)
    → run_number dir ≡ some number
    → last_number paths < number
    → contains (dir_names paths) dir ≡ false
above-absent paths dir number h above = ground (arith, dir_names-last_number paths dir {n = number})

-- A session's first log directory, over any directories that are there, is new in each of these ways,
-- if there is a number left for it.
pub run_log_dir-IsNew :
    (paths : List (Text × Bool)) (date : Text) (s : Session) {s' : Session} {dir : Text}
    → s.run_log_dir ≡ none
    → run_log_dir (some paths) date s ≡ (s', ok dir)
    → IsNew paths s' dir
run_log_dir-IsNew paths date s {s'} {dir} h e =
    let (fits, named, kept) = first_run (some paths) date s h e in
    let number = next_run_number (some paths) in
    let numbered : run_number dir ≡ some number =
      ap run_number named ∙ run_number-padded number date fits in
    let above : last_number paths < number = unfold next_run_number in omega arith in
    record {
      number = number;
      numbered = numbered;
      absent = above-absent paths dir number numbered above;
      above = λ name n there its. omega (arith, dir_names-last_number paths name there its);
      again = λ later date'. run_log_dir_again later date' s' kept;
    }
