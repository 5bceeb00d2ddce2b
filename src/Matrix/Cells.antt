-- ===== src/Matrix/Cells.antt =====
-- A cell's environment, by what each variable reads in it.
use drtm_tests.Prelude.Dict.{
  lookup, has, keys, erase, update, lookup-insert, lookup-erase, lookup-update, lookup-Entries,
  contains-keys, has-some,
}
use drtm_tests.Prelude.{
  ◌≡◌, refl, sym, ap, ◌∙◌, Bool, true, false, Option, none, some, List, [], ◌∷◌, Text, txt, text_eq,
  bool_eq, ◌is◌, contains, if◌then◌else◌, split_on, every, Returns, Returns-ok, Result, ok, err,
  ◌>>=◌, system_exit, arith,
}
use drtm_tests.QemuVm.Settings.{Env, env_get, words}
use drtm_tests.Trenchboot.{
  Disk, default_release, is_set, local_image, release as release_of, releases as pinned_releases,
}
use drtm_tests.Matrix.{
  Configuration, is_upstream, configurations, set_variables, current, accepted, selected, Matrix,
  workflow_matrix, without, cleared, environment,
}
use drtm_tests.Matrix.Variables.{
  own, variables-own, own-NodupKeys, lookup-own, lookup-without, current_agree, IsNamed, named_own,
  all-IsNamed,
}

-- What a cell's environment is to be: the session reads the cell's configuration and release in it,
-- and every variable that neither of them sets reads as it does in the caller's.
pub record IsCell (disk : Disk) (caller : Env) (release name : Text) (env : Env) : Type 0 where
  pub is_current : current env ≡ ok (some name)
  pub is_release : release_of disk env ≡ ok (some release)
  pub is_kept :
      (k : Text)
      → contains (txt "DRTM_TB_IMAGE" ∷ txt "DRTM_TB_RELEASE" ∷ set_variables) k ≡ false
      → lookup k env ≡ lookup k caller

lookup-cleared :
    (k release : Text) (caller : Env)
    → lookup k (cleared release caller) ≡ (
        if k is txt "DRTM_TB_RELEASE"
        then some release
        else if k is txt "DRTM_TB_IMAGE"
        then none
        else if contains set_variables k
        then none
        else lookup k caller)
unfolding cleared
lookup-cleared k release caller = ground (
  arith,
  lookup-insert k (txt "DRTM_TB_RELEASE") release
      (erase (txt "DRTM_TB_IMAGE") (without set_variables caller)),
  lookup-erase k (txt "DRTM_TB_IMAGE") (without set_variables caller),
  lookup-without set_variables k caller,
)

unset_release : contains set_variables (txt "DRTM_TB_RELEASE") ≡ false
unfolding set_variables txt text_eq
unset_release = refl

unset_image : contains set_variables (txt "DRTM_TB_IMAGE") ≡ false
unfolding set_variables txt text_eq
unset_image = refl

image_apart : (txt "DRTM_TB_IMAGE" is txt "DRTM_TB_RELEASE") ≡ false
unfolding txt text_eq
image_apart = refl

env_get_of :
    (k default : Text) (env : Env) {o : Option Text}
    → lookup k env ≡ o
    → env_get env k default ≡ (elim o [ none ↦ default | some value ↦ value ])
unfolding env_get
env_get_of k default env h = ap (λ o. elim o [ none ↦ default | some value ↦ value ]) h

reads_release :
    (disk : Disk) (env : Env) (release : Text)
    → env_get env (txt "DRTM_TB_IMAGE") [] ≡ []
    → env_get env (txt "DRTM_TB_RELEASE") default_release ≡ release
    → release_of disk env ≡ ok (some release)
unfolding release_of local_image is_set
reads_release disk env release none_named named = rw (none_named, named) refl

apart_unset :
    (k j : Text)
    → contains set_variables k ≡ true
    → contains set_variables j ≡ false
    → (k is j) ≡ false
unfolding set_variables
apart_unset k j known h = ground arith

module _ (caller : Env) (release : Text) (c : Configuration) (upstream : Bool) where
  abbrev cell_env : Env
  cell_env = update (cleared release caller) (own c upstream)

  lookup-cell :
      (k : Text)
      → lookup k cell_env ≡ (elim (lookup k (own c upstream)) [
        | none ↦ lookup k (cleared release caller)
        | some v ↦ some v
      ])
  lookup-cell k =
      lookup-update k (cleared release caller) (own c upstream) (own-NodupKeys c upstream)

  -- A variable that the configuration does not set.
  lookup_other :
      (k : Text)
      → contains set_variables k ≡ false
      → lookup k cell_env ≡ lookup k (cleared release caller)
  lookup_other k h = rw (lookup-cell k, lookup-own c upstream k h) refl

  lookup_set :
      (k : Text) → contains set_variables k ≡ true → lookup k cell_env ≡ lookup k (own c upstream)
  lookup_set k h = set (lookup k (own c upstream)) refl
    where
      known : lookup k (cleared release caller) ≡ none
      known = ground (
        arith,
        lookup-cleared k release caller,
        apart_unset k (txt "DRTM_TB_RELEASE") h unset_release,
      )

      set :
          (o : Option Text)
          → lookup k (own c upstream) ≡ o
          → lookup k cell_env ≡ lookup k (own c upstream)
      set none e = rw (lookup-cell k, e, known) refl
      set (some v) e = rw (lookup-cell k, e) refl

  cell_image : lookup (txt "DRTM_TB_IMAGE") cell_env ≡ none
  cell_image = ground (
    arith,
    lookup_other (txt "DRTM_TB_IMAGE") unset_image,
    lookup-cleared (txt "DRTM_TB_IMAGE") release caller,
    image_apart,
  )

  cell_release : lookup (txt "DRTM_TB_RELEASE") cell_env ≡ some release
  cell_release = ground (
    arith,
    lookup_other (txt "DRTM_TB_RELEASE") unset_release,
    lookup-cleared (txt "DRTM_TB_RELEASE") release caller,
  )

  release_of-cell_env : (disk : Disk) → release_of disk cell_env ≡ ok (some release)
  release_of-cell_env disk =
      reads_release disk cell_env release (env_get_of (txt "DRTM_TB_IMAGE") [] cell_env cell_image)
        (env_get_of (txt "DRTM_TB_RELEASE") default_release cell_env cell_release)

  cell_env-IsCell :
      (disk : Disk) (name : Text)
      → current (own c upstream) ≡ ok (some name)
      → IsCell disk caller release name cell_env
  cell_env-IsCell disk name named = record {
    is_current = current_agree cell_env (own c upstream) lookup_set ∙ named;
    is_release = release_of-cell_env disk;
    is_kept = λ k h. ground (arith, lookup_other k, lookup-cleared k release caller, h);
  }

-- Over any environment of the caller, each cell of a pinned release and a known configuration has an
-- environment, and it is that cell's: the session that boots in it reads that configuration and
-- that release, not a local image, and every variable that the cell does not set is the caller's.
pub environment-IsCell :
    (disk : Disk) (caller : Env) (release name : Text)
    → has release pinned_releases ≡ true
    → has name configurations ≡ true
    → (env : Env) × (environment caller release name ≡ ok env) × IsCell disk caller release name env
unfolding environment
environment-IsCell disk caller release name h k =
    let (c, found) = has-some name configurations k in
    let (pinned, is_pinned) = has-some release pinned_releases h in
    let own_is =
      variables-own c release pinned.upstream (unfold is_upstream in rw is_pinned refl) in
    (
      cell_env caller release c pinned.upstream,
      rw (h, found, own_is) refl,
      cell_env-IsCell caller release c pinned.upstream disk name (
          named_own name c pinned.upstream
            (lookup-Entries IsNamed name configurations all-IsNamed found)),
    )

-- What CI's matrix holds, for a selection of releases that it takes: pinned releases and known
-- configurations.
abbrev pub IsRunnable : Matrix → Type 0
IsRunnable m =
    ((tag : Text) → contains m.release tag ≡ true → has tag pinned_releases ≡ true)
    × ((name : Text) → contains m.configuration name ≡ true → has name configurations ≡ true)

every-contains :
    (xs known : List Text) (x : Text)
    → every (contains known) xs ≡ true
    → contains xs x ≡ true
    → contains known x ≡ true
every-contains [] known x h k = cc
every-contains (y ∷ ys) known x h k = ground (arith, every-contains ys known x)

-- The tags of a selection that is taken are pinned.
abbrev ArePinned : List Text → Type 0
ArePinned tags = (tag : Text) → contains tags tag ≡ true → has tag pinned_releases ≡ true

accepted-ArePinned : (tags : List Text) → Returns ArePinned (accepted tags)
unfolding accepted
accepted-ArePinned [] = λ tag h. sym (contains-keys tag pinned_releases) ∙ h
accepted-ArePinned (tag ∷ tags) =
    checked (every (contains (keys pinned_releases)) (tag ∷ tags)) refl
  where
    checked :
        (b : Bool)
        → every (contains (keys pinned_releases)) (tag ∷ tags) ≡ b
        → Returns ArePinned (if b then ok (tag ∷ tags) else err system_exit)
    checked true e = λ t h.
        sym (contains-keys t pinned_releases)
        ∙ every-contains (tag ∷ tags) (keys pinned_releases) t e h
    checked false e = tt

workflow_matrix-IsRunnable :
    (selection : Text) {m : Matrix} → workflow_matrix selection ≡ ok m → IsRunnable m
unfolding workflow_matrix selected
workflow_matrix-IsRunnable selection h =
    Returns-ok IsRunnable
      (of_tags (accepted (words (split_on b',' selection)))
        (accepted-ArePinned (words (split_on b',' selection))))
      h
  where
    of_tags :
        (r : Result (List Text))
        → Returns ArePinned r
        → Returns IsRunnable
            (r >>= λ tags. ok (record { release = tags; configuration = keys configurations }))
    of_tags (ok tags) p = (p, λ name k. sym (contains-keys name configurations) ∙ k)
    of_tags (err e) p = tt

-- Whatever releases are selected, if the selection is taken then each cell of the matrix that CI gets
-- has an environment, over any environment of the caller: the session that boots in it reads that
-- cell's configuration and that cell's release, not a local image, and every variable that the cell
-- does not set is the caller's.
pub workflow_matrix-IsCell :
    (disk : Disk) (caller : Env) (selection release name : Text) {m : Matrix}
    → workflow_matrix selection ≡ ok m
    → contains m.release release ≡ true
    → contains m.configuration name ≡ true
    → (env : Env) × (environment caller release name ≡ ok env) × IsCell disk caller release name env
workflow_matrix-IsCell disk caller selection release name {m} h r n =
    let (pinned, known) = workflow_matrix-IsRunnable selection h in
    environment-IsCell disk caller release name (pinned release r) (known name n)
