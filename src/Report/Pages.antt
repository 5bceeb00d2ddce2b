-- ===== src/Report/Pages.antt =====
-- `_section`, `_notes` and `render`: the lines of the page behind its header.
use drtm_tests.Prelude.Dict.{Dict, lookup, keys, values, insert}
use drtm_tests.Prelude.Sort.{text_leb, sort_by, unique}
use drtm_tests.Prelude.{
  ◌==◌, not, ◌&&◌, Option, none, some, List, [], ◌∷◌, ◌++◌, map, Text, txt, text_eq, ◌is◌, contains,
  if◌then◌else◌, get_or, show, length, drop, starts_with, strip, split_on, Result, ok, ◌>>=◌,
}
use drtm_tests.Matrix.{configurations}
use drtm_tests.Trenchboot.{releases as pinned_releases}
use drtm_tests.Machine.{vendors}
use drtm_tests.Report.{
  TestResult, Results, ByConfiguration, Badge, mark, ordered, release_of, vendor_of,
  configuration_title, code, outcome_of, summary, by_configuration, badge,
}
use drtm_tests.Report.Tables.{table}

-- The `defaultdict` of cells: a row's tests by release
abbrev pub Cells : Type 0
Cells = Dict Text (Dict Text (List TestResult))

abbrev pub cell : Text → Text → Cells → List TestResult
cell row release cells = get_or [] (lookup release (get_or [] (lookup row cells)))

unfoldable pub add_test : Text → Text → TestResult → Cells → Cells
add_test row release test cells =
    insert row
      (insert release (cell row release cells ++ (test ∷ [])) (get_or [] (lookup row cells))) cells

unfoldable pub add_to_all : List Text → Text → TestResult → Cells → Cells
unfolding add_test
add_to_all [] release test cells = cells
add_to_all (entry ∷ entries) release test cells =
    add_to_all entries release test (add_test entry release test cells)

-- The loop over one release's tests, into the cells by test and by entry
unfoldable pub gather_tests : Text → List TestResult → Cells × Cells → Cells × Cells
unfolding add_to_all
gather_tests release [] cells = cells
gather_tests release (test ∷ tests) (by_test, by_entry) =
    gather_tests release tests
      (add_test test.id release test by_test, add_to_all test.entries release test by_entry)

abbrev pub results_tests : Option Results → List TestResult
results_tests none = []
results_tests (some r) = r.tests

unfoldable pub gather : List Text → Dict Text Results → Cells × Cells → Cells × Cells
unfolding gather_tests
gather [] cells found = found
gather (release ∷ releases) cells found =
    gather releases cells (gather_tests release (results_tests (lookup release cells)) found)

-- `[cells[release] for release in releases if release in cells]`
unfoldable pub present : List Text → Dict Text Results → List Results
present [] cells = []
present (release ∷ releases) cells =
    let rest = present releases cells in
    elim (lookup release cells) [ none ↦ rest | some r ↦ r ∷ rest ]

abbrev pub all_entries : List Results → List Text
all_entries [] = []
all_entries (r ∷ rs) = r.details.entries ++ all_entries rs

-- The expected failures of an entry, each reason once
unfoldable pub expected_notes : Text → List Text → List TestResult → List Text
expected_notes entry seen [] = []
expected_notes entry seen (t ∷ ts) =
    let old = expected_notes entry seen ts in
    let new = expected_notes entry (t.reason ∷ seen) ts in
    if (t.outcome is txt "xfailed") && not (contains seen t.reason)
    then (txt "    - " ++ (code entry ++ (txt " expected: " ++ t.reason))) ∷ new
    else old

unfoldable pub with_outcome : Text → List TestResult → List TestResult
with_outcome outcome [] = []
with_outcome outcome (t ∷ ts) =
    let rest = with_outcome outcome ts in if t.outcome is outcome then t ∷ rest else rest

unfoldable pub entry_notes : Text → List TestResult → List Text
unfolding expected_notes with_outcome
entry_notes entry tests =
    let failed = length (with_outcome (txt "failed") tests) in
    expected_notes entry [] tests
    ++ ((if failed == 0
          then []
          else (txt "    - "
              ++ (code entry ++ (txt ": " ++ (show failed ++ txt " failed unexpectedly"))))
            ∷ [])
        ++ map
            (λ t.
              txt "    - " ++ (code entry ++ (txt " passed against the expectation: " ++ t.reason)))
            (with_outcome (txt "xpassed") tests))

unfoldable pub entries_notes : Text → Cells → List Text → List Text
unfolding entry_notes
entries_notes release by_entry [] = []
entries_notes release by_entry (entry ∷ entries) =
    entry_notes entry (cell entry release by_entry) ++ entries_notes release by_entry entries

unfoldable pub release_notes : Cells → Dict Text Results → Text → List Text
unfolding entries_notes
release_notes by_entry cells release = elim (lookup release cells) [
  | none ↦ (txt "- No results for " ++ (code release ++ txt ".")) ∷ []
  | some r ↦
      (txt "- " ++ (code release ++ (txt ": " ++ (summary r.tests ++ txt "."))))
      ∷ entries_notes release by_entry (keys by_entry)
]

-- `_notes`
unfoldable pub notes : Cells → Dict Text Results → List Text → List Text
unfolding release_notes
notes by_entry cells [] = [] ∷ []
notes by_entry cells (release ∷ releases) =
    release_notes by_entry cells release ++ notes by_entry cells releases

abbrev pub entry_row : Cells → List Text → Text → List Text
entry_row by_entry releases entry =
    code entry ∷ map (λ release. mark (cell entry release by_entry)) releases

abbrev pub test_row : Cells → List Text → Text → List Text
test_row by_test releases test =
    code test ∷ map (λ release. outcome_of (cell test release by_test)) releases

-- `_section`
unfoldable pub section : Text → Dict Text Results → List Text → Result (List Text)
unfolding gather present notes mark
section name cells releases = do
  let results = present releases cells
  let (by_test, by_entry) = gather releases cells ([], [])
  let rows = ordered (keys by_entry) (unique (all_entries results))
  compact ← table (txt "Entry" ∷ releases) (map (entry_row by_entry releases) rows)
  full ← table (txt "Test" ∷ releases) (map (test_row by_test releases) (keys by_test))
  ok (
      (txt "### " ++ configuration_title name results)
      ∷ []
      ∷ (compact
          ++ ([]
              ∷ (notes by_entry cells releases
                  ++ (txt "<details>"
                      ∷ txt "<summary>Every test</summary>"
                      ∷ []
                      ∷ (full ++ ([] ∷ txt "</details>" ∷ [] ∷ [])))))))

-- `_version`
unfoldable pub version : Option Text → Text → Text
version none prefix = txt "?"
version (some []) prefix = txt "?"
version (some (c ∷ l)) prefix =
    let rest = if starts_with (c ∷ l) prefix then drop (length prefix) (c ∷ l) else c ∷ l in
    elim (split_on b',' rest) [ [] ↦ [] | word ∷ _ ↦ strip word ]

-- `matrix.VENDOR_TITLES.get(vendor, vendor)`
unfoldable pub vendor_title : Text → Text
vendor_title vendor =
    if vendor is txt "amd"
    then txt "AMD SKINIT"
    else if vendor is txt "intel"
    then txt "Intel TXT"
    else vendor

-- The sections of a vendor's configurations
unfoldable pub vendor_sections : Text → ByConfiguration → List Text → List Text → Result (List Text)
vendor_sections vendor d releases [] = ok []
vendor_sections vendor d releases (name ∷ names) = do
  let cells = get_or [] (lookup name d)
  rest ← vendor_sections vendor d releases names
  if vendor_of name (values cells) is vendor
      then (section name cells releases >>= λ lines. ok (lines ++ rest))
      else ok rest

unfoldable pub sections : List Text → ByConfiguration → List Text → List Text → Result (List Text)
unfolding vendor_sections vendor_title
sections [] d releases names = ok []
sections (vendor ∷ vendors) d releases names = do
  own ← vendor_sections vendor d releases names
  rest ← sections vendors d releases names
  ok ((txt "## " ++ vendor_title vendor) ∷ [] ∷ (own ++ rest))

-- What `render` orders: its configurations, its releases and its vendors.
unfoldable pub page_names : ByConfiguration → List Text
page_names d = ordered (keys d) (keys configurations)

unfoldable pub page_releases : List Results → List Text
unfolding text_leb
page_releases results =
    ordered (sort_by text_leb (unique (map release_of results))) (keys pinned_releases)

unfoldable pub page_vendors : ByConfiguration → List Text → List Text
unfolding text_leb
page_vendors d names =
    ordered
      (sort_by text_leb
        (unique (map (λ name. vendor_of name (values (get_or [] (lookup name d)))) names)))
      vendors

-- The page behind its header, and the badges by release
unfoldable pub body : List Results → Result (List Text)
unfolding sections page_names page_releases page_vendors by_configuration
body results =
    let d = by_configuration results [] in
    let names = page_names d in sections (page_vendors d names) d (page_releases results) names

unfoldable pub badges : List Results → Dict Text Badge
unfolding page_names page_releases by_configuration
badges results =
    let d = by_configuration results [] in
    let names = page_names d in
    map (λ release. (release, badge release d names)) (page_releases results)
