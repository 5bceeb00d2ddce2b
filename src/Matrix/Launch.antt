-- ===== src/Matrix/Launch.antt =====
-- The machine that a session of one of the configurations asks for.
use drtm_tests.Prelude.Dict.{Dict, Entries}
use drtm_tests.Prelude.{
  ◌≡◌, refl, ap, ◌∙◌, Bool, true, false, not, ◌&&◌, Option, some, List, [], ◌∷◌, Text, txt, text_eq,
  bool_eq, ◌is◌, if◌then◌else◌, arith, ok, err, >>=-eq-ok, value_error,
}
use drtm_tests.QemuVm.Settings.{Env, pcr_banks}
use drtm_tests.Machine.{Asked, vendor, psp_mode, options}
use drtm_tests.Matrix.{Configuration, configurations, matching, is_some, current}

-- No Secure Processor on Intel's machine
abbrev pub is_machine : Text → Bool → Bool
is_machine vendor psp = not ((vendor is txt "intel") && psp)

abbrev AreMachines : Dict Text Configuration → Type 0
AreMachines d = Entries (λ name c. is_machine c.vendor c.psp ≡ true) d

configurations-AreMachines : AreMachines configurations
unfolding configurations text_eq txt
configurations-AreMachines = (refl, (refl, (refl, (refl, (refl, (refl, (refl, (refl, tt))))))))

matching-is_machine :
    (vendor : Text) (psp : Bool) (banks : List Text) (d : Dict Text Configuration) {name : Text}
    → AreMachines d
    → matching vendor psp banks d ≡ some name
    → is_machine vendor psp ≡ true
unfolding matching
matching-is_machine vendor psp banks [] m h = ground arith
matching-is_machine vendor psp banks ((n, c) ∷ d) {name} (m, ms) h =
    ground (arith, matching-is_machine vendor psp banks d {name = name} ms)

options_accepted :
    (a : Asked) (extra : List Text)
    → is_machine a.vendor a.psp ≡ true
    → (args : List Text) × (options a extra ≡ ok args)
unfolding options
options_accepted a extra h = accepted (a.vendor is txt "intel") a.psp _ h
  where
    accepted :
        (intel psp : Bool) (args : List Text)
        → not (intel && psp) ≡ true
        → (xs : List Text) × ((if (if intel then psp else false) then err value_error else ok args)
            ≡ ok xs)
    accepted true true args k = ground arith
    accepted true false args k = (args, refl)
    accepted false psp args k = (args, refl)

pub current-options :
    (env : Env) (name : Text)
    → current env ≡ ok (some name)
    → (asked : Text) × (psp : Option Text) × (vendor env ≡ ok asked)
      × (psp_mode env ≡ ok psp)
      × ((a : Asked) (extra : List Text)
          → a.vendor ≡ asked
          → a.psp ≡ is_some psp
          → (args : List Text) × (options a extra ≡ ok args))
unfolding current
current-options env name h =
    let (asked, reads, rest) = >>=-eq-ok (vendor env) _ h in
    let (psp, mode, found) = >>=-eq-ok (psp_mode env) _ rest in
    let machine =
      matching-is_machine asked (is_some psp) (pcr_banks env) configurations {name = name}
        configurations-AreMachines (ground (arith, found)) in
    (
      asked,
      psp,
      reads,
      mode,
      λ a extra v p.
          options_accepted a extra
            (ap (λ t. is_machine t a.psp) v ∙ ap (is_machine asked) p ∙ machine),
    )
