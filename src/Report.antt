-- ===== src/Report.antt =====
-- drtmtest/report.py: the page and the badges of a matrix run. A `results.json` is a record whose
-- optional keys are options.
pub mod Tables
pub mod Pages
pub mod Renders
pub mod Order
pub mod Badges
pub mod Widths
pub mod Published
pub mod Header
pub mod Files
mod Tests
use drtm_tests.Prelude.Dict.{Dict, lookup, has, keys, values, insert}
use drtm_tests.Prelude.Sort.{text_leb, sort_by, unique, counts_of}
use drtm_tests.Prelude.{
  ℕ, ◌+◌, Bool, true, false, not, ◌&&◌, ◌||◌, Option, none, some, List, [], ◌∷◌, ◌++◌, map, Text,
  txt, text_eq, ◌is◌, contains, if◌then◌else◌, get_or, some_of, join, show, length, ◌==◌, ltb,
  Result, ok, err, system_exit,
}
use drtm_tests.QemuVm.Settings.{or_else}
use drtm_tests.Session.Records.{summary_of}
use drtm_tests.Matrix.{configurations}

-- A test of a results file, and the session's details.
pub record TestResult : Type 0 where
  pub id : Text
  pub entries : List Text
  pub outcome : Text
  pub ok : Bool
  pub reason : Text

pub record Details : Type 0 where
  pub release : Option Text
  pub image : Option Text
  pub configuration : Option Text
  pub vendor : Option Text
  pub psp : Option Text
  pub banks : Option (List Text)
  pub commit : Option Text
  pub qemu_bundle : Option Text
  pub qemu : Option Text
  pub swtpm : Option Text
  pub entries : List Text

pub record Results : Type 0 where
  pub details : Details
  pub finished : Text
  pub tests : List TestResult

unfoldable pub pass_mark : Text
pass_mark = txt "✅"

unfoldable pub fail_mark : Text
fail_mark = txt "❌"

unfoldable pub none_mark : Text
none_mark = txt "-"

unfoldable pub did_fail : List Text
did_fail = txt "failed" ∷ txt "xfailed" ∷ []

unfoldable pub did_pass : List Text
did_pass = txt "passed" ∷ txt "xpassed" ∷ []

-- `Cell.mark`
unfoldable pub mark : List TestResult → Text
mark tests =
    if some_of (λ t. contains did_fail t.outcome) tests
    then fail_mark
    else if some_of (λ t. contains did_pass t.outcome) tests
    then pass_mark
    else none_mark

-- `load`, of the files' contents in path order
unfoldable pub load : List Results → Result (List Results)
load [] = err system_exit
load (r ∷ rs) = ok (r ∷ rs)

unfoldable pub found_in : List Text → List Text → List Text
found_in found [] = []
found_in found (name ∷ known) =
    let rest = found_in found known in if contains found name then name ∷ rest else rest

unfoldable pub missing_from : List Text → List Text → List Text
missing_from known [] = []
missing_from known (name ∷ found) =
    let rest = missing_from known found in if contains known name then rest else name ∷ rest

-- `_ordered`
unfoldable pub ordered : List Text → List Text → List Text
unfolding found_in missing_from
ordered found known = found_in found known ++ missing_from known found

-- `details.get(key) or default`
abbrev pub or_text : Option Text → Text → Text
or_text value default = or_else (get_or [] value) default

-- `_release` and `_configuration`
unfoldable pub release_of : Results → Text
unfolding or_else
release_of r = or_text r.details.release (get_or (txt "?") r.details.image)

unfoldable pub configuration_of : Results → Text
unfolding or_else
configuration_of r =
    or_text r.details.configuration (txt "custom-" ++ or_text r.details.vendor (txt "amd"))

abbrev pub first_vendor : List Results → Text
first_vendor [] = txt "amd"
first_vendor (r ∷ rs) = or_text r.details.vendor (txt "amd")

-- `_vendor` and `_configuration_title`. Neither is called without results.
unfoldable pub vendor_of : Text → List Results → Text
unfolding or_else
vendor_of name results = elim (lookup name configurations) [
  | some c ↦ c.vendor
  | none ↦ first_vendor results
]

abbrev pub custom_title : List Results → Text
custom_title [] = []
custom_title (r ∷ rs) =
    txt "psp="
    ++ (or_text r.details.psp (txt "off")
        ++ (txt ", banks=" ++ join (txt ",") (get_or [] r.details.banks)))

unfoldable pub configuration_title : Text → List Results → Text
unfolding or_else
configuration_title name results = elim (lookup name configurations) [
  | some c ↦ c.title
  | none ↦ custom_title results
]

unfoldable pub code : Text → Text
code text = b'`' ∷ (text ++ (b'`' ∷ []))

-- `_outcome`
unfoldable pub outcome_of : List TestResult → Text
unfolding text_leb
outcome_of [] = none_mark
outcome_of (t ∷ ts) = join (txt ", ") (sort_by text_leb (unique (map (λ u. u.outcome) (t ∷ ts))))

-- `_summary`
unfoldable pub summary : List TestResult → Text
summary tests = summary_of (counts_of (map (λ t. t.outcome) tests))

-- The results by configuration and release: a later file takes the place of an earlier one.
abbrev pub ByConfiguration : Type 0
ByConfiguration = Dict Text (Dict Text Results)

unfoldable pub by_configuration : List Results → ByConfiguration → ByConfiguration
by_configuration [] d = d
by_configuration (r ∷ rs) d =
    let cells = get_or [] (lookup (configuration_of r) d) in
    by_configuration rs (insert (configuration_of r) (insert (release_of r) r cells) d)

pub record Badge : Type 0 where
  pub label : Text
  pub message : Text
  pub color : Text

-- The tests of a configuration for a release, none where it has no results
abbrev pub tests_of : Option Results → List TestResult
tests_of none = []
tests_of (some r) = r.tests

unfoldable pub count_ok : Bool → List TestResult → ℕ
count_ok wanted [] = 0
count_ok wanted (t ∷ ts) =
    let rest = count_ok wanted ts in
    if (if t.ok then wanted else not wanted) then rest + 1 else rest

unfoldable pub badge_tests : Text → ByConfiguration → List Text → List TestResult
badge_tests release d [] = []
badge_tests release d (name ∷ names) =
    tests_of (lookup release (get_or [] (lookup name d))) ++ badge_tests release d names

unfoldable pub badge_missing : Text → ByConfiguration → List Text → List Text
badge_missing release d [] = []
badge_missing release d (name ∷ names) =
    let rest = badge_missing release d names in
    if has release (get_or [] (lookup name d)) then rest else name ∷ rest

-- `_badge`, on the counts of its loops
unfoldable pub badge_of : Text → ℕ → ℕ → ℕ → Badge
badge_of release failed missing passed =
    if ltb 0 failed
    then record { label = release; message = show failed ++ txt " failed"; color = txt "red" }
    else if ltb 0 missing
    then record { label = release; message = show missing ++ txt " missing"; color = txt "red" }
    else record {
      label = release;
      message = show passed ++ txt " passed";
      color = txt "brightgreen";
    }

unfoldable pub badge : Text → ByConfiguration → List Text → Badge
unfolding badge_tests badge_missing count_ok badge_of
badge release d names =
    let tests = badge_tests release d names in
    badge_of release (count_ok false tests) (length (badge_missing release d names))
      (count_ok true tests)
