-- ===== src/Report/Files.antt =====
-- The files that a report consists of.
use drtm_tests.Prelude.Dict.{Dict, keys}
use drtm_tests.Prelude.{
  ◌≡◌, refl, ap, Option, List, [], ◌∷◌, ◌++◌, map, Text, txt, Result, ok, err, system_exit,
}
use drtm_tests.Report.{Results, Badge, badge, by_configuration, load}
use drtm_tests.Report.Pages.{badges, page_names, page_releases}
use drtm_tests.Report.Header.{badge_files, render, report}
use drtm_tests.Report.Renders.{body-Prints}

abbrev pub badge_name : Text → Text
badge_name release = txt "badges/" ++ (release ++ txt ".json")

keys-badge_files :
    (dumps : Badge → Text) (mark : Text → Badge) (releases : List Text)
    → keys (badge_files dumps (map (λ release. (release, mark release)) releases))
      ≡ map badge_name releases
keys-badge_files dumps mark [] = refl
keys-badge_files dumps mark (r ∷ releases) =
    ap (◌∷◌ (badge_name r)) (keys-badge_files dumps mark releases)

-- The names of the files that a report writes, or its exception
abbrev pub names_of : Result (Dict Text Text) → Result (List Text)
names_of (ok files) = ok (keys files)
names_of (err e) = err e

pub names_of-report :
    (dumps : Badge → Text) (r : Results) (files : List Results) (run run_url : Option Text)
    → (names_of (report dumps (r ∷ files) run run_url)
        ≡ ok (txt "README.md" ∷ map badge_name (page_releases (r ∷ files))))
      × (names_of (report dumps [] run run_url) ≡ err system_exit)
unfolding report load render badges
names_of-report dumps r files run run_url =
    let (lines, printed) = body-Prints (r ∷ files) in
    let d = by_configuration (r ∷ files) [] in
    (
      rw printed (
          ap (λ names. ok (txt "README.md" ∷ names))
            (keys-badge_files dumps (λ release. badge release d (page_names d))
              (page_releases (r ∷ files)))),
      refl,
    )
