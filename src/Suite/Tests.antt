-- ===== src/Suite/Tests.antt =====
-- Hosts of both vendors, what is expected of the entries on them, and the theorems at them.
use drtm_tests.Prelude.Dict.{lookup, keys}
use drtm_tests.Prelude.{
  ℕ, nat_eq, ◌≡◌, refl, Bool, true, false, Option, none, some, List, [], ◌∷◌, map, Text, txt,
  text_eq, contains, split_on, Result, ok, err, index_error, runtime_error, value_error, ◌is◌,
  if◌then◌else◌,
}
use drtm_tests.QemuVm.Settings.{default_banks}
use drtm_tests.Matrix.{same_texts}
use drtm_tests.Session.{Session, texts_of, collection_modifyitems}
use drtm_tests.Suite.{Surroundings, entries, broken_reason, other_banks}
use drtm_tests.Suite.Expects.{boot}
use drtm_tests.Suite.Machines.{
  smp_values, rpartition, count_items, smp, workers, pages, event_log_range,
}
use drtm_tests.Suite.Plan.{Collected, drop_amd_only}
use drtm_tests.Suite.Intel.{items_of, submitted_without}

abbrev amd_host : Surroundings
amd_host = record {
  vendor = txt "amd";
  psp = none;
  banks = txt "sha1" ∷ txt "sha256" ∷ [];
  upstream = true;
  legacy_bootable = true;
}

abbrev intel_host : Surroundings
intel_host = record amd_host { vendor = txt "intel" }

-- By entry, whether the boot is not expected
abbrev unexpected : Surroundings → List Bool
unexpected host = map (λ named. boot host named.1) (entries host.psp)

unexpected_amd :
    unexpected amd_host ≡ false ∷ false ∷ false ∷ true ∷ false ∷ false ∷ true ∷ false ∷ false ∷ []
unfolding boot broken_reason other_banks same_texts default_banks entries text_eq txt
unexpected_amd = refl

unexpected_classic :
    unexpected (record amd_host { psp = some (txt "classic"); upstream = false })
    ≡ false ∷ false ∷ false ∷ true ∷ true ∷ true ∷ false ∷ false ∷ false ∷ []
unfolding boot broken_reason other_banks same_texts default_banks entries text_eq txt
unexpected_classic = refl

unexpected_intel :
    unexpected intel_host ≡ false ∷ false ∷ false ∷ true ∷ true ∷ true ∷ false ∷ false ∷ false ∷ []
unfolding boot broken_reason other_banks same_texts default_banks entries text_eq txt
unexpected_intel = refl

abbrev int : Text → Result ℕ
int (c ∷ []) = if c is b'2' then ok 2 else if c is b'3' then ok 3 else err value_error
int _ = err value_error

topology :
    smp int (txt "-smp" ∷ txt "2" ∷ txt "-smp" ∷ txt "sockets=2,maxcpus=8,cores=3" ∷ []) ≡ ok 6
unfolding smp smp_values count_items rpartition split_on text_eq txt nat_eq
topology = refl

no_smp : smp int (txt "-m" ∷ txt "-smp" ∷ []) ≡ err index_error
unfolding smp smp_values text_eq txt
no_smp = refl

eight_cpus : workers (some 8) 16000000 2 ≡ 4
unfolding workers
eight_cpus = refl

log_pages : event_log_range (some (8192, 73728)) ≡ ok (pages (record { skip = 2; count = 16 }))
unfolding event_log_range
log_pages = refl

log_unaligned : event_log_range (some (8193, 73728)) ≡ err runtime_error
unfolding event_log_range
log_unaligned = refl

abbrev new_session : Session
new_session = record {
  run_log_dir = none;
  submitted = [];
  prepared = [];
  entries = [];
  reports = [];
}

abbrev collected : Text → List Text → Bool → List (Option Text) → Collected
collected nodeid fixturenames marked params = record {
  item = record { nodeid = nodeid; fixturenames = fixturenames; params = params };
  marked = marked;
}

abbrev tests : List Collected
tests =
    collected (txt "t1") (txt "xen_efi_debug_launch" ∷ []) false []
    ∷ collected (txt "t2") (txt "request" ∷ []) false (some (txt "xen_efi") ∷ [])
    ∷ collected (txt "t3") (txt "linux" ∷ []) true []
    ∷ []

submitted_without_example :
    contains
      ((collection_modifyitems
        (keys (entries none))
        false
        (items_of (drop_amd_only intel_host tests))
        new_session).submitted)
      (txt "xen_efi_debug_launch")
    ≡ false
unfolding entries lookup text_eq txt texts_of
submitted_without_example =
    submitted_without intel_host tests new_session (txt "xen_efi_debug_launch") _ refl refl refl
      refl refl
