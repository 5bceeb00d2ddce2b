-- ===== src/Matrix.antt =====
-- drtmtest/matrix.py: the machine configurations, the matrix that CI runs, and a cell's environment.
pub mod Variables
pub mod Cells
pub mod Launch
mod Tests
use drtm_tests.Prelude.Dict.{Dict, lookup, has, keys, insert, erase, update}
use drtm_tests.Prelude.{
  Bool, true, false, not, ◌&&◌, ◌||◌, Option, none, some, List, [], ◌∷◌, ◌++◌, Text, txt, text_eq,
  bool_eq, ◌is◌, contains, if◌then◌else◌, split_on, join, every, Error, Result, ok, err, ◌>>=◌,
  or_raise, key_error, system_exit,
}
use drtm_tests.QemuVm.Settings.{Env, words, or_else, pcr_banks, default_banks}
use drtm_tests.Machine.{vendor, psp_mode}
use drtm_tests.Trenchboot.{releases as pinned_releases}

pub record Configuration : Type 0 where
  pub title : Text
  pub psp : Bool
  pub banks : Option Text
  pub vendor : Text

-- `trenchboot.RELEASES[release].upstream`
unfoldable pub is_upstream : Text → Result Bool
is_upstream release = do
  pinned ← or_raise key_error (lookup release pinned_releases)
  ok pinned.upstream

unfoldable pub psp_value : Bool → Text
psp_value upstream = if upstream then txt "classic" else txt "on"

unfoldable pub with_vendor : Configuration → Env → Env
with_vendor c env =
    if not (c.vendor is txt "amd") then insert (txt "DRTM_VENDOR") c.vendor env else env

unfoldable pub with_psp : Configuration → Text → Env → Result Env
unfolding is_upstream psp_value
with_psp c release env =
    if c.psp
    then (is_upstream release >>= λ upstream. ok (insert (txt "DRTM_PSP") (psp_value upstream) env))
    else ok env

unfoldable pub with_banks : Configuration → Env → Env
with_banks c env = elim c.banks [
  | none ↦ env
  | some banks ↦ insert (txt "DRTM_PCR_BANKS") banks env
]

-- `Configuration.env`
unfoldable pub variables : Configuration → Text → Result Env
unfolding with_psp with_vendor with_banks
variables c release = do env ← with_psp c release (with_vendor c []); ok (with_banks c env)

abbrev amd : Text → Bool → Option Text → Configuration
amd title psp banks = record { title = title; psp = psp; banks = banks; vendor = txt "amd" }

abbrev intel : Text → Option Text → Configuration
intel title banks = record { title = title; psp = false; banks = banks; vendor = txt "intel" }

unfoldable pub configurations : Dict Text Configuration
configurations =
    (txt "classic", amd (txt "Without PSP, TPM with SHA-1 and SHA-256") false none)
    ∷ (txt "psp", amd (txt "With PSP DRTM service, TPM with SHA-1 and SHA-256") true none)
    ∷ (txt "sha256", amd (txt "Without PSP, TPM with SHA-256 alone") false (some (txt "sha256")))
    ∷ (
      txt "psp-sha256",
      amd (txt "With PSP DRTM service, TPM with SHA-256 alone") true (some (txt "sha256")),
    )
    ∷ (
      txt "sha384",
      amd (txt "Without PSP, TPM with SHA-1, SHA-256 and SHA-384") false
          (some (txt "sha1,sha256,sha384")),
    )
    ∷ (txt "intel", intel (txt "TPM with SHA-1 and SHA-256") none)
    ∷ (txt "intel-sha256", intel (txt "TPM with SHA-256 alone") (some (txt "sha256")))
    ∷ (
      txt "intel-sha384",
      intel (txt "TPM with SHA-1, SHA-256 and SHA-384") (some (txt "sha1,sha256,sha384")),
    )
    ∷ []

-- `_VARIABLES`
unfoldable pub set_variables : List Text
set_variables = txt "DRTM_VENDOR" ∷ txt "DRTM_PSP" ∷ txt "DRTM_PCR_BANKS" ∷ []

unfoldable pub wanted_banks : Configuration → List Text
unfolding or_else default_banks
wanted_banks c =
    split_on b','
      (or_else (elim c.banks [ none ↦ [] | some banks ↦ banks ]) (join (txt ",") default_banks))

unfoldable pub same_texts : List Text → List Text → Bool
same_texts [] [] = true
same_texts (a ∷ xs) (b ∷ ys) = a is b && same_texts xs ys
same_texts [] (b ∷ ys) = false
same_texts (a ∷ xs) [] = false

-- The loop of `current` over the configurations
unfoldable pub matching : Text → Bool → List Text → Dict Text Configuration → Option Text
unfolding wanted_banks same_texts
matching vendor psp banks [] = none
matching vendor psp banks ((name, c) ∷ rest) =
    if vendor is c.vendor && (psp is c.psp && same_texts banks (wanted_banks c))
    then some name
    else matching vendor psp banks rest

abbrev pub is_some : Option Text → Bool
is_some none = false
is_some (some _) = true

unfoldable pub current : Env → Result (Option Text)
unfolding matching
current env = do
  asked ← vendor env
  psp ← psp_mode env
  ok (matching asked (is_some psp) (pcr_banks env) configurations)

-- `releases`, on the tags that the selection names
unfoldable pub accepted : List Text → Result (List Text)
accepted [] = ok (keys pinned_releases)
accepted (tag ∷ tags) =
    if every (contains (keys pinned_releases)) (tag ∷ tags)
    then ok (tag ∷ tags)
    else err system_exit

unfoldable pub selected : Text → Result (List Text)
unfolding accepted
selected selection = accepted (words (split_on b',' selection))

pub record Matrix : Type 0 where
  pub release : List Text
  pub configuration : List Text

unfoldable pub workflow_matrix : Text → Result Matrix
unfolding selected
workflow_matrix selection = do
  tags ← selected selection
  ok (record { release = tags; configuration = keys configurations })

-- The variables of the caller that a cell keeps
unfoldable pub without : List Text → Env → Env
without names [] = []
without names ((key, value) ∷ env) =
    let rest = without names env in if contains names key then rest else (key, value) ∷ rest

unfoldable pub cleared : Text → Env → Env
unfolding without
cleared release env =
    insert (txt "DRTM_TB_RELEASE") release (erase (txt "DRTM_TB_IMAGE") (without set_variables env))

unfoldable pub environment : Env → Text → Text → Result Env
unfolding cleared
environment caller release configuration =
    if not (has release pinned_releases) then err system_exit else do
      c ← or_raise system_exit (lookup configuration configurations)
      own ← variables c release
      ok (update (cleared release caller) own)

-- What the command line of the module asks for, and what `main` did: it printed the matrix, or called
-- pytest with its arguments in the cell's environment.
pub data Command : Type 0 where
  show_matrix : Text → Command
  run_cell : Text → Text → List Text → Command

pub data Done : Type 0 where
  printed : Matrix → Done
  called_pytest : Env → List Text → Done

unfoldable pub main : Env → Command → Result Done
unfolding workflow_matrix environment
main env (show_matrix selection) = do matrix ← workflow_matrix selection; ok (printed matrix)
main env (run_cell release configuration pytest_args) = do
  cell ← environment env release configuration
  ok (called_pytest cell pytest_args)
