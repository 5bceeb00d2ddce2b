-- ===== src/Report/Order.antt =====
-- The order of the releases, the configurations and the vendors on the page.
use drtm_tests.Prelude.Sort.{occurrences}
use drtm_tests.Prelude.{
  ◌+◌, ◌≤◌, ◌≡◌, refl, true, false, List, [], ◌∷◌, ◌++◌, Text, text_eq, arith, contains,
  if◌then◌else◌,
}
use drtm_tests.Report.{found_in, missing_from, ordered}

occurrences-append :
    (x : Text) (xs ys : List Text) → occurrences x (xs ++ ys) ≡ occurrences x xs + occurrences x ys
occurrences-append x [] ys = omega arith
occurrences-append x (y ∷ xs) ys = ground (arith, occurrences-append x xs ys)

occurrences-found_in :
    (x : Text) (found known : List Text)
    → occurrences x (found_in found known) ≡ (if contains found x then occurrences x known else 0)
unfolding found_in
occurrences-found_in x found [] = ground arith
occurrences-found_in x found (name ∷ known) = ground (arith, occurrences-found_in x found known)

occurrences-missing_from :
    (x : Text) (known found : List Text)
    → occurrences x (missing_from known found)
      ≡ (if contains known x then 0 else occurrences x found)
unfolding missing_from
occurrences-missing_from x known [] = ground arith
occurrences-missing_from x known (name ∷ found) =
    ground (arith, occurrences-missing_from x known found)

contains-occurrences : (x : Text) (xs : List Text) → contains xs x ≡ true → 1 ≤ occurrences x xs
contains-occurrences x [] h = cc
contains-occurrences x (y ∷ xs) h = ground (arith, contains-occurrences x xs)

absent-occurrences : (x : Text) (xs : List Text) → contains xs x ≡ false → occurrences x xs ≡ 0
absent-occurrences x [] h = refl
absent-occurrences x (y ∷ xs) h = ground (arith, absent-occurrences x xs)

-- Nothing is lost and nothing is doubled: names that stand at most once in what was found and in what
-- is known stand in the ordered list just as often as in what was found.
pub occurrences-ordered :
    (x : Text) (found known : List Text)
    → occurrences x found ≤ 1
    → occurrences x known ≤ 1
    → occurrences x (ordered found known) ≡ occurrences x found
unfolding ordered
occurrences-ordered x found known h k = ground (
  arith,
  occurrences-append x (found_in found known) (missing_from known found),
  occurrences-found_in x found known,
  occurrences-missing_from x known found,
  contains-occurrences x found,
  contains-occurrences x known,
  absent-occurrences x found,
  absent-occurrences x known,
)
