-- ===== src/Matrix/Tests.antt =====
-- A cell of the matrix over a caller's environment that has its own values, and the theorems at it.
use drtm_tests.Prelude.Dict.{lookup, has, insert, erase, update}
use drtm_tests.Prelude.{
  ◌≡◌, refl, Option, List, Text, true, some, [], ◌∷◌, txt, text_eq, bool_eq, split_on, strip, lower,
  ok, err, ◌>>=◌, join, system_exit,
}
use drtm_tests.QemuVm.Settings.{Env, words, or_else, pcr_banks}
use drtm_tests.Machine.{Asked, options, vendor, psp_mode, vendors}
use drtm_tests.Trenchboot.{Disk, releases as pinned_releases, v0_5_2}
use drtm_tests.Matrix.{
  is_some, set_variables, Matrix, environment, current, selected, workflow_matrix, configurations,
  variables,
}
use drtm_tests.Matrix.Launch.{current-options}
use drtm_tests.Matrix.Cells.{IsCell, workflow_matrix-IsCell}

abbrev caller : Env
caller =
    (txt "HOME", txt "/root")
    ∷ (txt "DRTM_VENDOR", txt "intel")
    ∷ (txt "DRTM_TB_IMAGE", txt "/tmp/disk")
    ∷ []

abbrev disk : Disk
disk = record { resolve = λ path. path; is_file = λ path. true }

psp_cell :
    (environment caller (txt "v0.5.2") (txt "psp-sha256") >>= current)
    ≡ ok (some (txt "psp-sha256"))
unfolding environment variables has lookup insert erase update current configurations
    pinned_releases text_eq bool_eq txt vendor psp_mode pcr_banks words split_on strip lower or_else
    vendors join v0_5_2 set_variables
psp_cell = refl

not_pinned : selected (txt "v0.5.2, ,nope") ≡ err system_exit
unfolding selected pinned_releases text_eq txt words split_on strip
not_pinned = refl

abbrev one_release : Matrix
one_release = record {
  release = txt "v0.5.2" ∷ [];
  configuration =
      txt "classic"
      ∷ txt "psp"
      ∷ txt "sha256"
      ∷ txt "psp-sha256"
      ∷ txt "sha384"
      ∷ txt "intel"
      ∷ txt "intel-sha256"
      ∷ txt "intel-sha384"
      ∷ [];
}

workflow_matrix-IsCell_example :
    (env : Env) × (environment caller (txt "v0.5.2") (txt "intel") ≡ ok env)
    × IsCell disk caller (txt "v0.5.2") (txt "intel") env
unfolding workflow_matrix pinned_releases configurations text_eq txt words split_on strip
workflow_matrix-IsCell_example =
    workflow_matrix-IsCell disk caller (txt " v0.5.2,") (txt "v0.5.2") (txt "intel")
      {m = one_release} refl refl refl

current-options_example :
    (asked : Text) × (psp : Option Text) × (vendor [] ≡ ok asked)
    × (psp_mode [] ≡ ok psp)
    × ((a : Asked) (extra : List Text)
        → a.vendor ≡ asked
        → a.psp ≡ is_some psp
        → (args : List Text) × (options a extra ≡ ok args))
unfolding current lookup configurations text_eq bool_eq txt vendor psp_mode pcr_banks strip lower
    or_else vendors join split_on
current-options_example = current-options [] (txt "classic") refl
