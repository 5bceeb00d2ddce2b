-- ===== src/Dasharo/Tests.antt =====
-- One thread that warms the firmware, a second one that finds it, and a boot that is interrupted.
use drtm_tests.Prelude.Dict.{lookup, has, insert, erase}
use drtm_tests.Prelude.{
  nat_eq, ◌≡◌, refl, true, none, some, [], ◌∷◌, txt, text_eq, contains, timeout_error, ok, err,
}
use drtm_tests.Assets.{Asset, has_dot, stem, with_suffix}
use drtm_tests.Dasharo.{WarmBoot, warm_of, replace, warmed_firmware}
use drtm_tests.Prelude.Steps.{Reach, here, next, moved}
use drtm_tests.Dasharo.Threads.{
  Step, System, waiting, testing, booting, replacing, returned, acquire, miss, write, finish, keep,
  restart, new_system,
}
use drtm_tests.Dasharo.Runs.{scratch_of, RunsTo, warm_stays, warmed_firmware-RunsTo}

abbrev asset : Asset
asset = record { url = txt "u"; sha256 = b'a' ∷ [] }

abbrev boot : WarmBoot
boot scratch cache = (insert scratch (7 ∷ []) cache, none)

abbrev boot_fails : WarmBoot
boot_fails scratch cache = (insert scratch (7 ∷ []) cache, some timeout_error)

warmed : warmed_firmware asset boot [] ≡ ((txt "a.warm", 7 ∷ []) ∷ [], ok (txt "a.warm"))
unfolding warmed_firmware replace with_suffix stem has_dot lookup has insert erase text_eq txt
warmed = refl

interrupted :
    warmed_firmware asset boot_fails [] ≡ ((txt "a.warming", 7 ∷ []) ∷ [], err timeout_error)
unfolding warmed_firmware replace with_suffix stem has_dot lookup has insert erase text_eq txt
interrupted = refl

warmed_firmware-RunsTo_example :
    RunsTo (warm_of asset) (scratch_of asset) 0 (new_system []) (warmed_firmware asset boot [])
warmed_firmware-RunsTo_example =
    warmed_firmware-RunsTo asset boot (new_system []) 0 (7 ∷ []) none refl refl refl

abbrev kept : System
kept = record {
  cache = (replace (scratch_of asset) (warm_of asset) (insert (scratch_of asset) (7 ∷ []) [])).0;
  lock = none;
  place = moved 0 returned (moved 0 replacing (moved 0 booting (moved 0 testing (λ i. waiting))));
  finished = (7 ∷ []) ∷ [];
}

first_thread : Reach (Step (warm_of asset) (scratch_of asset)) (new_system []) kept
unfolding has lookup insert nat_eq text_eq with_suffix stem has_dot txt
first_thread =
    next
      (next
        (next (next (next here (acquire 0 refl refl refl)) (miss 0 refl refl refl))
          (write 0 (7 ∷ []) refl refl))
        (finish 0 (7 ∷ []) refl refl refl))
      (keep 0 refl refl)

abbrev after_kill : System
after_kill = record kept { place = λ i. waiting }

killed : Reach (Step (warm_of asset) (scratch_of asset)) kept after_kill
killed = next here (restart refl)

found : lookup (warm_of asset) kept.cache ≡ some (7 ∷ [])
unfolding replace with_suffix stem has_dot lookup has insert erase text_eq txt
found = refl

warm_stays_example :
    (lookup (warm_of asset) after_kill.cache ≡ some (7 ∷ []))
    × (contains kept.finished (7 ∷ []) ≡ true)
unfolding has_dot has
warm_stays_example = warm_stays asset [] (7 ∷ []) refl refl first_thread found killed
