-- ===== src/Report/Badges.antt =====
-- When a release's badge is green.
use drtm_tests.Prelude.Dict.{lookup, has}
use drtm_tests.Prelude.{
  ℕ, ◌≡◌, refl, ◌∙◌, sym, ap, Bool, true, false, ◌&&◌, List, [], ◌∷◌, ◌++◌, Text, txt, text_eq,
  ◌is◌, ◌==◌, arith, get_or, every, length, show,
}
use drtm_tests.Report.{
  TestResult, ByConfiguration, tests_of, count_ok, badge_tests, badge_missing, badge_of, badge,
}

abbrev pub all_ok : List TestResult → Bool
all_ok tests = every (λ t. t.ok) tests

-- Whether the release has results under a configuration, and whether those that it has are ok.
abbrev pub is_covered : Text → ByConfiguration → Text → Bool
is_covered release d name = has release (get_or [] (lookup name d))

abbrev pub is_good : Text → ByConfiguration → Text → Bool
is_good release d name = all_ok (tests_of (lookup release (get_or [] (lookup name d))))

pub count_ok-all_ok : (tests : List TestResult) → (count_ok false tests == 0) ≡ all_ok tests
unfolding count_ok
count_ok-all_ok [] = refl
count_ok-all_ok (t ∷ ts) = ground (arith, count_ok-all_ok ts)

count_ok-length :
    (tests : List TestResult) → all_ok tests ≡ true → count_ok true tests ≡ length tests
unfolding count_ok
count_ok-length [] h = refl
count_ok-length (t ∷ ts) h = ground (arith, count_ok-length ts)

all_ok-append : (xs ys : List TestResult) → all_ok (xs ++ ys) ≡ (all_ok xs && all_ok ys)
all_ok-append [] ys = refl
all_ok-append (x ∷ xs) ys = ground (arith, all_ok-append xs ys)

all_ok-badge_tests :
    (release : Text) (d : ByConfiguration) (names : List Text)
    → all_ok (badge_tests release d names) ≡ every (is_good release d) names
unfolding badge_tests
all_ok-badge_tests release d [] = refl
all_ok-badge_tests release d (name ∷ names) =
    all_ok-append (tests_of (lookup release (get_or [] (lookup name d))))
      (badge_tests release d names)
    ∙ ap (λ b. is_good release d name && b) (all_ok-badge_tests release d names)

missing-covered :
    (release : Text) (d : ByConfiguration) (names : List Text)
    → (length (badge_missing release d names) == 0) ≡ every (is_covered release d) names
unfolding badge_missing
missing-covered release d [] = refl
missing-covered release d (name ∷ names) = ground (arith, missing-covered release d names)

red_apart : (txt "red" is txt "brightgreen") ≡ false
unfolding txt text_eq
red_apart = refl

badge_of-color :
    (release : Text) (failed missing passed : ℕ)
    → ((badge_of release failed missing passed).color is txt "brightgreen")
      ≡ ((failed == 0) && (missing == 0))
unfolding badge_of
badge_of-color release failed missing passed = ground (arith, red_apart)

badge_of-message :
    (release : Text) (failed missing passed : ℕ)
    → (badge_of release failed missing passed).color ≡ txt "brightgreen"
    → ((failed == 0) ≡ true)
      × ((badge_of release failed missing passed).message ≡ show passed ++ txt " passed")
unfolding badge_of
badge_of-message release failed missing passed h = ground (arith, red_apart)

-- A release's badge is green exactly when it has results under every configuration of the run and
-- every test there was as the suite expected, and then the badge counts all of those tests.
pub badge_lem :
    (release : Text) (d : ByConfiguration) (names : List Text)
    → (((badge release d names).color is txt "brightgreen")
        ≡ (every (is_good release d) names && every (is_covered release d) names))
      × ((badge release d names).color ≡ txt "brightgreen"
          → (badge release d names).message
            ≡ show (length (badge_tests release d names)) ++ txt " passed")
unfolding badge
badge_lem release d names =
    let tests = badge_tests release d names in
    let failed = count_ok false tests in
    let missing = length (badge_missing release d names) in
    let color =
      badge_of-color release failed missing (count_ok true tests)
      ∙ ap (λ b. b && (missing == 0)) (count_ok-all_ok tests ∙ all_ok-badge_tests release d names)
      ∙ ap (λ b. every (is_good release d) names && b) (missing-covered release d names) in
    (
      color,
      λ green.
          let (none_failed, message) =
            badge_of-message release failed missing (count_ok true tests) green in
          message
          ∙ ap (λ n. show n ++ txt " passed")
              (count_ok-length tests (sym (count_ok-all_ok tests) ∙ none_failed)),
    )
