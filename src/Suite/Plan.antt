-- ===== src/Suite/Plan.antt =====
-- The plan of a session: the check in front of it, what it prepares, and the tests that Intel does not run.
use drtm_tests.Prelude.Dict.{Dict, lookup}
use drtm_tests.Prelude.{
  Bool, false, not, ◌&&◌, ◌||◌, Option, none, some, List, [], ◌∷◌, ◌++◌, Text, txt, text_eq, ◌is◌,
  contains, if◌then◌else◌,
}
use drtm_tests.Session.{Item}
use drtm_tests.Suite.{Surroundings, Entry, entries, is_absent}

-- `_check`, on why the QEMU in use is no good if there is a reason, and on whether mtools are there
unfoldable pub check : Surroundings → Option Text → Bool → Option Text
check host unsupported has_mtype =
    if host.vendor is txt "intel" && not (is_absent host.psp)
    then some (txt "DRTM_PSP adds AMD's Secure Processor, unset it for DRTM_VENDOR=intel")
    else elim unsupported [
      | some reason ↦
          some (txt "This suite needs the QEMU drtm-txt branch, see docs/testing.md: " ++ reason)
      | none ↦
          if has_mtype
          then none
          else some (txt "This suite needs mtools on PATH, it reads grub.cfg off the image")
    ]

-- Whether `_prepare` warms the firmware
unfoldable pub warms : Dict Text Entry → List Text → Bool
warms table [] = false
warms table (name ∷ names) =
    (elim (lookup name table) [ none ↦ false | some entry ↦ entry.firmware is txt "dasharo" ])
    || warms table names

-- A collected test, and whether it is marked `amd_only`.
pub record Collected : Type 0 where
  pub item : Item
  pub marked : Bool

unfoldable pub amd_only_names : Dict Text Entry → List Text
amd_only_names [] = []
amd_only_names ((name, entry) ∷ table) =
    let rest = amd_only_names table in if entry.amd_only then name ∷ rest else rest

unfoldable pub meets : List Text → List Text → Bool
meets names [] = false
meets names (n ∷ ns) = contains names n || meets names ns

abbrev pub is_dropped : List Text → Collected → Bool
is_dropped amd_only test = test.marked || meets amd_only test.item.fixturenames

unfoldable pub undropped : List Text → List Collected → List Collected
unfolding meets
undropped amd_only [] = []
undropped amd_only (test ∷ tests) =
    let rest = undropped amd_only tests in if is_dropped amd_only test then rest else test ∷ rest

-- conftest's `pytest_collection_modifyitems`
unfoldable pub drop_amd_only : Surroundings → List Collected → List Collected
unfolding undropped amd_only_names entries
drop_amd_only host tests =
    if host.vendor is txt "amd" then tests else undropped (amd_only_names (entries host.psp)) tests
