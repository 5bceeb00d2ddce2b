-- ===== src/Matrix/Variables.antt =====
-- What a configuration sets, and what `current` reads of an environment.
use drtm_tests.Prelude.Dict.{
  lookup, has, insert, NodupKeys, insert-NodupKeys, lookup-insert, Entries,
}
use drtm_tests.Prelude.{
  ◌≡◌, refl, ap, Bool, true, false, not, Option, none, some, List, [], ◌∷◌, Text, txt, text_eq,
  bool_eq, ◌is◌, contains, if◌then◌else◌, split_on, join, ok, arith, strip, lower,
}
use drtm_tests.QemuVm.Settings.{Env, env_get, words, or_else, pcr_banks, default_banks}
use drtm_tests.Machine.{vendor, vendors, psp_mode}
use drtm_tests.Matrix.{
  Configuration, is_upstream, psp_value, with_vendor, with_psp, with_banks, variables,
  configurations, set_variables, current, without,
}

pub lookup-without :
    (names : List Text) (k : Text) (env : Env)
    → lookup k (without names env) ≡ (if contains names k then none else lookup k env)
unfolding without lookup
lookup-without names k [] = ground arith
lookup-without names k (_ ∷ env) = ground (arith, lookup-without names k env)

-- What the configuration sets, by whether the release is an upstream one.
abbrev pub own : Configuration → Bool → Env
own c upstream = with_banks c (
    if c.psp
    then insert (txt "DRTM_PSP") (psp_value upstream) (with_vendor c [])
    else with_vendor c [])

pub variables-own :
    (c : Configuration) (release : Text) (upstream : Bool)
    → is_upstream release ≡ ok upstream
    → variables c release ≡ ok (own c upstream)
unfolding variables with_psp
variables-own c release upstream h = ground arith

pub known_vendor : contains set_variables (txt "DRTM_VENDOR") ≡ true
unfolding set_variables txt text_eq
known_vendor = refl

known_psp : contains set_variables (txt "DRTM_PSP") ≡ true
unfolding set_variables txt text_eq
known_psp = refl

known_banks : contains set_variables (txt "DRTM_PCR_BANKS") ≡ true
unfolding set_variables txt text_eq
known_banks = refl

-- What holds of the empty dict, and of a dict with one of the variables set if of the dict, holds of
-- what a configuration sets.
module _ (P : Env → Type 0)
    (sets : (k v : Text) (env : Env)
      → contains set_variables k ≡ true
      → P env
      → P (insert k v env)) where
  if-lem : (b : Bool) {x y : Env} → P x → P y → P (if b then x else y)
  if-lem true p q = p
  if-lem false p q = q

  with_vendor-lem : (c : Configuration) (env : Env) → P env → P (with_vendor c env)
  unfolding with_vendor
  with_vendor-lem c env p = if-lem (not (c.vendor is txt "amd")) (sets _ _ env known_vendor p) p

  banks-lem :
      (banks : Option Text) (env : Env)
      → P env
      → P (elim banks [ none ↦ env | some b ↦ insert (txt "DRTM_PCR_BANKS") b env ])
  banks-lem none env p = p
  banks-lem (some b) env p = sets _ b env known_banks p

  own-lem : (c : Configuration) (upstream : Bool) → P [] → P (own c upstream)
  unfolding with_banks
  own-lem c upstream p =
      let v = with_vendor-lem c [] p in
      banks-lem c.banks _ (if-lem c.psp (sets _ _ _ known_psp v) v)

-- A name that the list does not contain is none of those that it does.
set_apart :
    (k j : Text)
    → contains set_variables k ≡ false
    → contains set_variables j ≡ true
    → (k is j) ≡ false
unfolding set_variables
set_apart k j h known = ground arith

pub own-NodupKeys : (c : Configuration) (upstream : Bool) → NodupKeys (own c upstream)
own-NodupKeys c upstream =
    own-lem NodupKeys (λ k v env _ u. insert-NodupKeys k v env u) c upstream tt

pub lookup-own :
    (c : Configuration) (upstream : Bool) (k : Text)
    → contains set_variables k ≡ false
    → lookup k (own c upstream) ≡ none
lookup-own c upstream k h =
    own-lem (λ env. lookup k env ≡ none)
      (λ j v env known p. ground (arith, lookup-insert k j v env, set_apart k j h known)) c upstream
      (unfold lookup in refl)

env_get_agree :
    (k default : Text) (env env' : Env)
    → lookup k env ≡ lookup k env'
    → env_get env k default ≡ env_get env' k default
unfolding env_get
env_get_agree k default env env' h = ap (λ o. elim o [ none ↦ default | some value ↦ value ]) h

module _ (env env' : Env)
    (same : (k : Text) → contains set_variables k ≡ true → lookup k env ≡ lookup k env') where
  get_agree :
      (k : Text)
      → contains set_variables k ≡ true
      → (default : Text) → env_get env k default ≡ env_get env' k default
  get_agree k h default = env_get_agree k default env env' (same k h)

  vendor_agree : vendor env ≡ vendor env'
  unfolding vendor
  vendor_agree = rw (get_agree (txt "DRTM_VENDOR") known_vendor []) refl

  psp_mode_agree : psp_mode env ≡ psp_mode env'
  unfolding psp_mode
  psp_mode_agree = rw (get_agree (txt "DRTM_PSP") known_psp []) refl

  pcr_banks_agree : pcr_banks env ≡ pcr_banks env'
  unfolding pcr_banks
  pcr_banks_agree =
      ap
        (λ value. elim (lower (strip value)) [
          | [] ↦ default_banks
          | c ∷ s ↦ words (split_on b',' (c ∷ s))
        ])
        (get_agree (txt "DRTM_PCR_BANKS") known_banks [])

  pub current_agree : current env ≡ current env'
  unfolding current
  current_agree = rw (vendor_agree, psp_mode_agree, pcr_banks_agree) refl

abbrev pub IsNamed : Text → Configuration → Type 0
IsNamed name c = (current (own c true) ≡ ok (some name)) × (current (own c false) ≡ ok (some name))

pub named_own :
    (name : Text) (c : Configuration) (upstream : Bool)
    → IsNamed name c
    → current (own c upstream) ≡ ok (some name)
named_own name c true (t, f) = t
named_own name c false (t, f) = f

pub all-IsNamed : Entries IsNamed configurations
unfolding configurations variables has lookup insert current text_eq bool_eq txt vendor psp_mode
    pcr_banks words split_on strip lower or_else vendors join with_vendor with_banks psp_value
all-IsNamed = (
  (refl, refl),
  (
    (refl, refl),
    (
      (refl, refl),
      ((refl, refl), ((refl, refl), ((refl, refl), ((refl, refl), ((refl, refl), tt))))),
    ),
  ),
)
