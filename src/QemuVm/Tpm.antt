-- ===== src/QemuVm/Tpm.antt =====
-- `start_swtpm`, what it runs before, and `_wait_for_socket`. What the programs do is what the functions
-- are given; times are in milliseconds.
pub mod Waiting
mod Tests
use drtm_tests.Prelude.{
  ℕ, ◌+◌, Bool, true, false, not, Option, none, some, List, [], ◌∷◌, ◌++◌, Text, txt, if◌then◌else◌,
  leb, join, Error, Result, ok, err, ◌>>=◌, runtime_error, timeout_error, called_process_error,
  exhausted,
}

-- How a run of `swtpm_setup` ends: with another exit code than zero, or with zero, and whether the
-- state's file is there then.
pub data Setup : Type 0 where
  failed : Setup
  ended : Bool → Setup

unfoldable pub bank_args : Text → Text → List Text → List Text
bank_args program state_dir banks =
    program
    ∷ txt "--tpm2"
    ∷ txt "--tpmstate"
    ∷ state_dir
    ∷ txt "--pcr-banks"
    ∷ join (txt ",") banks
    ∷ txt "--overwrite"
    ∷ []

unfoldable pub manufacture_args : Text → Text → List Text
manufacture_args program state_dir = program ∷ txt "--tpmstate" ∷ state_dir ∷ txt "--overwrite" ∷ []

-- `check=True`, and the test for the state's file
abbrev pub checked : Setup → Result (Unit {0})
checked failed = err called_process_error
checked (ended false) = err runtime_error
checked (ended true) = ok tt

-- `if log_level`
abbrev pub log_args : Option Text → List Text
log_args none = []
log_args (some []) = []
log_args (some (c ∷ level)) = txt "--log" ∷ (txt "fd=1,level=" ++ (c ∷ level)) ∷ []

unfoldable pub swtpm_args : Text → Text → Text → Bool → Option Text → List Text
swtpm_args program state_dir sock tpm_1_2 log_level =
    (program ∷ txt "socket" ∷ [])
    ++ ((if tpm_1_2 then [] else txt "--tpm2" ∷ [])
        ++ (txt "--tpmstate"
            ∷ (txt "dir=" ++ state_dir)
            ∷ txt "--ctrl"
            ∷ (txt "type=unixio,path=" ++ sock)
            ∷ log_args log_level))

-- What one round of `_wait_for_socket` meets: the time, whether the socket is there, and whether the
-- process has exited.
pub record Poll : Type 0 where
  pub now : ℕ
  pub exists : Bool
  pub exited : Bool

-- The loop, with the deadline, over the rounds; with it, whether swtpm runs at the end. On a timeout it
-- is killed.
unfoldable pub wait_loop : ℕ → List Poll → Bool × Result (Unit {0})
wait_loop deadline [] = (true, err exhausted)
wait_loop deadline (p ∷ polls) =
    let rest = wait_loop deadline polls in
    if leb deadline p.now
    then (false, err timeout_error)
    else if p.exists
    then (not p.exited, ok tt)
    else if p.exited
    then (false, err runtime_error)
    else rest

unfoldable pub wait_for_socket : ℕ → List Poll → Bool × Result (Unit {0})
unfolding wait_loop
wait_for_socket now polls = wait_loop (now + 5000) polls

-- A call of `start_swtpm`.
pub record Start : Type 0 where
  pub state_dir : Text
  pub sock : Text
  pub banks : List Text
  pub log_level : Option Text
  pub setup : Text
  pub swtpm : Text
  pub tpm_1_2 : Bool

abbrev pub setup_args : Start → List Text
setup_args s =
    if s.tpm_1_2
    then manufacture_args s.setup s.state_dir
    else bank_args s.setup s.state_dir s.banks

-- `start_swtpm`: the commands that it ran, whether swtpm runs at the end, and how it ended.
unfoldable pub start_swtpm :
    Start → Setup → ℕ → List Poll → List (List Text) × Bool × Result (Unit {0})
unfolding bank_args manufacture_args swtpm_args wait_for_socket
start_swtpm s prepared now polls = elim (checked prepared) [
  | err e ↦ (setup_args s ∷ [], false, err e)
  | ok _ ↦
      let (runs, outcome) = wait_for_socket now polls in
      (
        setup_args s ∷ swtpm_args s.swtpm s.state_dir s.sock s.tpm_1_2 s.log_level ∷ [],
        runs,
        outcome,
      )
]
