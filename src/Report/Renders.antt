-- ===== src/Report/Renders.antt =====
-- The printing of the page: its tables and its sections.
use drtm_tests.Prelude.Dict.{Dict, lookup, keys, values}
use drtm_tests.Prelude.Sort.{unique}
use drtm_tests.Prelude.{
  suc, ◌≡◌, refl, ap, Bool, true, false, List, [], ◌∷◌, ◌++◌, map, Text, txt, text_eq, ◌is◌, length,
  if◌then◌else◌, get_or, Result, ok, ◌>>=◌,
}
use drtm_tests.Report.{Results, ByConfiguration, vendor_of, ordered, by_configuration}
use drtm_tests.Report.Tables.{table}
use drtm_tests.Report.Widths.{Rectangular, table-AllLong}
use drtm_tests.Report.Pages.{
  section, vendor_sections, sections, body, entry_row, test_row, gather, present, all_entries,
  page_names, page_releases, page_vendors,
}

abbrev pub Prints : Result (List Text) → Type 0
Prints r = (lines : List Text) × (r ≡ ok lines)

length-map : {A B : Type 0} (f : A → B) (xs : List A) → length (map f xs) ≡ length xs
length-map f [] = refl
length-map f (x ∷ xs) = ap suc (length-map f xs)

table-Prints :
    (title : Text) (releases : List Text) (row : Text → List Text) (names : List Text)
    → ((name : Text) → length (row name) ≡ suc (length releases))
    → Prints (table (title ∷ releases) (map row names))
table-Prints title releases row names long =
    let (lines, n, e, _) = table-AllLong title releases (map row names) (rectangular names) in
    (lines, e)
  where
    rectangular : (ns : List Text) → Rectangular (suc (length releases)) (map row ns)
    rectangular [] = tt
    rectangular (n ∷ ns) = (long n, rectangular ns)

both_print :
    (r s : Result (List Text)) (f : List Text → List Text → List Text)
    → Prints r
    → Prints s
    → Prints (r >>= λ own. s >>= λ rest. ok (f own rest))
both_print r s f (own, e) (rest, e') = (f own rest, rw (e, e') refl)

section-Prints :
    (name : Text) (cells : Dict Text Results) (releases : List Text)
    → Prints (section name cells releases)
unfolding section
section-Prints name cells releases =
    let found = gather releases cells ([], []) in
    both_print _ _ _
      (table-Prints (txt "Entry") releases (entry_row found.1 releases)
        (ordered (keys found.1) (unique (all_entries (present releases cells))))
        (λ n. ap suc (length-map _ releases)))
      (table-Prints (txt "Test") releases (test_row found.0 releases) (keys found.0)
        (λ n. ap suc (length-map _ releases)))

vendor_sections-Prints :
    (vendor : Text) (d : ByConfiguration) (releases names : List Text)
    → Prints (vendor_sections vendor d releases names)
unfolding vendor_sections
vendor_sections-Prints vendor d releases [] = ([], refl)
vendor_sections-Prints vendor d releases (name ∷ names) =
    let (rest, e) = vendor_sections-Prints vendor d releases names in
    let (lines, e') = section-Prints name (get_or [] (lookup name d)) releases in
    rw (e, e') (chosen (vendor_of name (values (get_or [] (lookup name d))) is vendor) lines rest)
  where
    chosen :
        (b : Bool) (lines rest : List Text) → Prints (if b then ok (lines ++ rest) else ok rest)
    chosen true lines rest = (lines ++ rest, refl)
    chosen false lines rest = (rest, refl)

sections-Prints :
    (vendors : List Text) (d : ByConfiguration) (releases names : List Text)
    → Prints (sections vendors d releases names)
unfolding sections
sections-Prints [] d releases names = ([], refl)
sections-Prints (vendor ∷ vendors) d releases names =
    both_print _ _ _ (vendor_sections-Prints vendor d releases names)
      (sections-Prints vendors d releases names)

-- Whatever the results files hold, the sections of the page are printed and nothing is raised.
pub body-Prints : (results : List Results) → Prints (body results)
unfolding body
body-Prints results =
    let d = by_configuration results [] in
    let names = page_names d in
    sections-Prints (page_vendors d names) d (page_releases results) names
