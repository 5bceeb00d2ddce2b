-- ===== src/Session/Threads.antt =====
-- `run_log_dir` called by the pool's threads at the same time, under `_run_log_dir_lock`: a step relation on
-- the log directory, the session's own directory, the lock and where each call is. Other processes make
-- directories meanwhile.
use mathlib.Core.Path.{subst}
use drtm_tests.Prelude.Steps.{Reach, Reach_keeps_all, moved}
use drtm_tests.Prelude.{
  ℕ, ◌≤◌, ◌<◌, ◌≡◌, refl, sym, Bool, true, false, Option, none, some, List, [], ◌∷◌, ◌++◌, Text,
  text_eq, contains, arith,
}
use drtm_tests.Session.{next_run_number, max_run_number, padded}
use drtm_tests.Session.Runs.{dir_names}

-- Where a call is: in front of the lock, at the test for a directory, with a number, with the directory that
-- it made, or out of the function again.
pub data Place : Type 0 where
  waiting testing : Place
  numbered : ℕ → Place
  made : Text → Place
  returned : Text → Place
  raised : Place

abbrev pub is_inside : Place → Bool
is_inside waiting = false
is_inside testing = true
is_inside (numbered n) = true
is_inside (made dir) = true
is_inside (returned dir) = false
is_inside raised = false

-- `created` is what this session made, and `others` what was there before it or was made by another process.
pub record System : Type 0 where
  pub logs_dir : Option (List (Text × Bool))
  pub run_log_dir : Option Text
  pub lock : Option ℕ
  pub place : ℕ → Place
  pub created : List Text
  pub others : List Text

-- What is in the log directory, and the names of it all
abbrev pub paths_in : Option (List (Text × Bool)) → List (Text × Bool)
paths_in none = []
paths_in (some paths) = paths

abbrev pub path_names : List (Text × Bool) → List Text
path_names [] = []
path_names ((name, is_dir) ∷ paths) = name ∷ path_names paths

abbrev pub run_dir_name : ℕ → Text → Text
run_dir_name number date = padded number ++ (b'-' ∷ date)

abbrev pub new_system : Option (List (Text × Bool)) → System
new_system logs_dir = record {
  logs_dir = logs_dir;
  run_log_dir = none;
  lock = none;
  place = λ i. waiting;
  created = [];
  others = path_names (paths_in logs_dir);
}

pub data Step (s t : System) : Type 0 where
  acquire :
      (i : ℕ)
      → s.place i ≡ waiting
      → s.lock ≡ none
      → t ≡ record s { lock = some i; place = moved i testing s.place }
      → Step s t
  known :
      (i : ℕ) (dir : Text)
      → s.place i ≡ testing
      → s.run_log_dir ≡ some dir
      → t ≡ record s { lock = none; place = moved i (returned dir) s.place }
      → Step s t
  number :
      (i : ℕ)
      → s.place i ≡ testing
      → s.run_log_dir ≡ none
      → t ≡ record s { place = moved i (numbered (next_run_number s.logs_dir)) s.place }
      → Step s t
  exhausted :
      (i n : ℕ)
      → s.place i ≡ numbered n
      → max_run_number < n
      → t ≡ record s { lock = none; place = moved i raised s.place }
      → Step s t
  mkdir :
      (i n : ℕ) (date : Text)
      → s.place i ≡ numbered n
      → n ≤ max_run_number
      → contains (path_names (paths_in s.logs_dir)) (run_dir_name n date) ≡ false
      → t ≡ record s {
        logs_dir = some ((run_dir_name n date, true) ∷ paths_in s.logs_dir);
        created = run_dir_name n date ∷ s.created;
        place = moved i (made (run_dir_name n date)) s.place;
      }
      → Step s t
  mkdir_fails :
      (i n : ℕ)
      → s.place i ≡ numbered n
      → t ≡ record s { lock = none; place = moved i raised s.place }
      → Step s t
  stamp :
      (i : ℕ) (dir : Text)
      → s.place i ≡ made dir
      → t ≡ record s { run_log_dir = some dir; lock = none; place = moved i (returned dir) s.place }
      → Step s t
  stamp_fails :
      (i : ℕ) (dir : Text)
      → s.place i ≡ made dir
      → t ≡ record s { lock = none; place = moved i raised s.place }
      → Step s t
  elsewhere :
      (name : Text) (is_dir : Bool)
      → contains (path_names (paths_in s.logs_dir)) name ≡ false
      → t ≡ record s {
        logs_dir = some ((name, is_dir) ∷ paths_in s.logs_dir);
        others = name ∷ s.others;
      }
      → Step s t

pub record Inv (s : System) : Type 0 where
  pub holds : (i : ℕ) → is_inside (s.place i) ≡ true → s.lock ≡ some i
  pub undecided : (i n : ℕ) → s.place i ≡ numbered n → s.run_log_dir ≡ none
  pub own :
      (i : ℕ) (dir : Text)
      → s.place i ≡ made dir
      → (contains s.created dir ≡ true) × (s.run_log_dir ≡ none)
  pub decided : (i : ℕ) (dir : Text) → s.place i ≡ returned dir → s.run_log_dir ≡ some dir
  pub kept : (dir : Text) → s.run_log_dir ≡ some dir → contains s.created dir ≡ true
  pub there :
      (dir : Text)
      → contains s.created dir ≡ true
      → contains (dir_names (paths_in s.logs_dir)) dir ≡ true
  pub listed_others :
      (name : Text)
      → contains s.others name ≡ true
      → contains (path_names (paths_in s.logs_dir)) name ≡ true
  pub apart : (dir : Text) → contains s.created dir ≡ true → contains s.others dir ≡ false

-- What a directory's name is among all names
dir_names_listed :
    (paths : List (Text × Bool)) (name : Text)
    → contains (dir_names paths) name ≡ true
    → contains (path_names paths) name ≡ true
dir_names_listed [] name h = h
dir_names_listed ((other, is_dir) ∷ paths) name h = ground (arith, dir_names_listed paths name)

new-Inv : (logs_dir : Option (List (Text × Bool))) → Inv (new_system logs_dir)
new-Inv logs_dir = record {
  holds = λ i h. ground arith;
  undecided = λ i n h. ground arith;
  own = λ i dir h. absurd (ground arith);
  decided = λ i dir h. ground arith;
  kept = λ dir h. ground arith;
  there = λ dir h. ground arith;
  listed_others = λ name h. h;
  apart = λ dir h. ground arith;
}

-- A call that holds the lock leaves with the session's directory or with an exception.
leave :
    (s : System) (i : ℕ) (p : Place)
    → is_inside (s.place i) ≡ true
    → is_inside p ≡ false
    → ((dir : Text) → p ≡ returned dir → s.run_log_dir ≡ some dir)
    → Inv s
    → Inv (record s { lock = none; place = moved i p s.place })
leave s i p inside outside gives inv = record {
  holds = λ j h. ground (arith, inv.holds j, inv.holds i);
  undecided = λ j n h. ground (arith, inv.undecided j n);
  own = λ j d h. inv.own j d (ground arith);
  decided = λ j d h. ground (arith, inv.decided j d, gives d);
  kept = inv.kept;
  there = inv.there;
  listed_others = inv.listed_others;
  apart = inv.apart;
}

Step-Inv : (s t : System) → Step s t → Inv s → Inv t
Step-Inv s t (acquire i at free e) inv = subst Inv (sym e) (record {
  holds = λ j h. ground (arith, inv.holds j);
  undecided = λ j n h. ground (arith, inv.undecided j n);
  own = λ j dir h. inv.own j dir (ground arith);
  decided = λ j dir h. ground (arith, inv.decided j dir);
  kept = inv.kept;
  there = inv.there;
  listed_others = inv.listed_others;
  apart = inv.apart;
})
Step-Inv s t (known i dir at found e) inv =
    subst Inv (sym e) (leave s i (returned dir) (ground arith) refl (λ d h. ground arith) inv)
Step-Inv s t (number i at absent e) inv = subst Inv (sym e) (record {
  holds = λ j h. ground (arith, inv.holds j, inv.holds i);
  undecided = λ j n h. ground (arith, inv.undecided j n);
  own = λ j d h. inv.own j d (ground arith);
  decided = λ j d h. ground (arith, inv.decided j d);
  kept = inv.kept;
  there = inv.there;
  listed_others = inv.listed_others;
  apart = inv.apart;
})
Step-Inv s t (exhausted i n at above e) inv =
    subst Inv (sym e) (leave s i raised (ground arith) refl (λ d h. ground arith) inv)
Step-Inv s t (mkdir i n date at fits absent e) inv = subst Inv (sym e) (record {
  holds = λ j h. ground (arith, inv.holds j, inv.holds i);
  undecided = λ j m h. ground (arith, inv.undecided j m);
  own = λ j d h. ground (arith, inv.own j d, inv.undecided i n);
  decided = λ j d h. ground (arith, inv.decided j d);
  kept = λ d h. ground (arith, inv.kept d, inv.undecided i n);
  there = λ d h. ground (arith, inv.there d);
  listed_others = λ d h. ground (arith, inv.listed_others d);
  apart = λ d h. ground (arith, inv.apart d, inv.listed_others d);
})
Step-Inv s t (mkdir_fails i n at e) inv =
    subst Inv (sym e) (leave s i raised (ground arith) refl (λ d h. ground arith) inv)
Step-Inv s t (stamp i dir at e) inv = subst Inv (sym e) (record {
  holds = λ j h. ground (arith, inv.holds j, inv.holds i);
  undecided = λ j n h. ground (arith, inv.holds j, inv.holds i);
  own = λ j d h. ground (arith, inv.own j d, inv.holds j, inv.holds i);
  decided = λ j d h. ground (arith, inv.decided j d, inv.own i dir);
  kept = λ d h. ground (arith, inv.own i dir);
  there = inv.there;
  listed_others = inv.listed_others;
  apart = inv.apart;
})
Step-Inv s t (stamp_fails i dir at e) inv =
    subst Inv (sym e) (leave s i raised (ground arith) refl (λ d h. ground arith) inv)
Step-Inv s t (elsewhere name is_dir absent e) inv = subst Inv (sym e) (record {
  holds = inv.holds;
  undecided = inv.undecided;
  own = inv.own;
  decided = inv.decided;
  kept = inv.kept;
  there = λ d h. ground (arith, inv.there d);
  listed_others = λ d h. ground (arith, inv.listed_others d);
  apart = λ d h. ground (arith, inv.apart d, inv.there d, dir_names_listed (paths_in s.logs_dir) d);
})

-- What all calls of a session agree on: a directory that one of them made, that is there, and that is not one
-- of those that were there before or that another process made.
pub record IsOwn (s : System) (dir : Text) : Type 0 where
  pub created : contains s.created dir ≡ true
  pub is_there : contains (dir_names (paths_in s.logs_dir)) dir ≡ true
  pub apart : contains s.others dir ≡ false

-- In a run of any number of calls of `run_log_dir`, in which other processes may make what they like and
-- the session's own calls may fail: any two calls that returned have returned the same directory, and the
-- session owns it.
pub calls_agree :
    (logs_dir : Option (List (Text × Bool))) {s : System} (i j : ℕ) {dir other : Text}
    → Reach Step (new_system logs_dir) s
    → s.place i ≡ returned dir
    → s.place j ≡ returned other
    → (dir ≡ other) × IsOwn s dir
calls_agree logs_dir {s} i j {dir} {other} run at_i at_j =
    let inv = Reach_keeps_all Inv Step-Inv run (new-Inv logs_dir) in
    let owned = inv.kept dir (inv.decided i dir at_i) in
    (
      ground (arith, inv.decided i dir, inv.decided j other),
      record { created = owned; is_there = inv.there dir owned; apart = inv.apart dir owned },
    )
