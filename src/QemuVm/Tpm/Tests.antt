-- ===== src/QemuVm/Tpm/Tests.antt =====
-- A start whose socket comes, and one whose does not.
use drtm_tests.Prelude.{
  ◌≡◌, refl, true, false, none, List, [], ◌∷◌, txt, ok, err, timeout_error, join,
}
use drtm_tests.QemuVm.Tpm.{ended, Poll, Start, start_swtpm}
use drtm_tests.QemuVm.Tpm.Waiting.{IsSettled, start_swtpm-IsSettled}

abbrev tpm : Start
tpm = record {
  state_dir = txt "d";
  sock = txt "s";
  banks = txt "sha1" ∷ txt "sha256" ∷ [];
  log_level = none;
  setup = txt "swtpm_setup";
  swtpm = txt "swtpm";
  tpm_1_2 = false;
}

abbrev waiting : Poll
waiting = record { now = 10; exists = false; exited = false }

abbrev polls : List Poll
polls = waiting ∷ record waiting { now = 60; exists = true } ∷ record waiting { now = 6000 } ∷ []

started : (start_swtpm tpm (ended true) 10 polls).2 ≡ ok tt
unfolding start_swtpm
started = refl

ran :
    (start_swtpm tpm (ended true) 10 polls).0
    ≡ (txt "swtpm_setup"
        ∷ txt "--tpm2"
        ∷ txt "--tpmstate"
        ∷ txt "d"
        ∷ txt "--pcr-banks"
        ∷ txt "sha1,sha256"
        ∷ txt "--overwrite"
        ∷ [])
      ∷ (txt "swtpm"
          ∷ txt "socket"
          ∷ txt "--tpm2"
          ∷ txt "--tpmstate"
          ∷ txt "dir=d"
          ∷ txt "--ctrl"
          ∷ txt "type=unixio,path=s"
          ∷ [])
      ∷ []
unfolding start_swtpm txt join
ran = refl

abbrev never : List Poll
never = waiting ∷ record waiting { now = 5010 } ∷ []

start_swtpm-IsSettled_example :
    IsSettled true
      ((start_swtpm tpm (ended true) 10 polls).1, (start_swtpm tpm (ended true) 10 polls).2)
start_swtpm-IsSettled_example = start_swtpm-IsSettled tpm (ended true) 10 polls refl

timed_out : (start_swtpm tpm (ended true) 10 never).2 ≡ err timeout_error
unfolding start_swtpm
timed_out = refl
