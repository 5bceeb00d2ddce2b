-- ===== src/Report/Header.antt =====
-- `_header`, the whole of `render`, `write` and `main` behind its arguments: the page's first lines and the
-- files that are written.
use drtm_tests.Prelude.Dict.{Dict}
use drtm_tests.Prelude.Sort.{text_leb, sort_by, unique}
use drtm_tests.Prelude.{
  ◌==◌, Option, none, some, List, [], ◌∷◌, ◌++◌, map, Text, txt, text_eq, if◌then◌else◌, join, take,
  Result, ok, ◌>>=◌,
}
use drtm_tests.QemuVm.Settings.{or_else}
use drtm_tests.Report.{Results, Badge, or_text, code, pass_mark, fail_mark, none_mark, load}
use drtm_tests.Report.Pages.{version, body, badges}

-- `sorted({...})`
abbrev pub sorted_set : List Text → List Text
sorted_set texts = sort_by text_leb (unique texts)

-- `... - {""}`
unfoldable pub nonempty : List Text → List Text
nonempty [] = []
nonempty ([] ∷ texts) = nonempty texts
nonempty ((c ∷ s) ∷ texts) = (c ∷ s) ∷ nonempty texts

-- `max` of one text or more
unfoldable pub latest : Text → List Text → Text
unfolding text_leb
latest last [] = last
latest last (t ∷ ts) = latest (if text_leb last t then t else last) ts

abbrev pub last_finished : List Results → Text
last_finished [] = []
last_finished (r ∷ rs) = latest r.finished (map (λ s. s.finished) rs)

-- `finished[:19].replace("T", " ")`
unfoldable pub readable : Text → Text
readable finished = map (λ c. if c == b'T' then b' ' else c) (take 19 finished)

-- `if run and run_url`, `elif run`
abbrev pub run_part : Option Text → Option Text → List Text
run_part none url = []
run_part (some []) url = []
run_part (some (c ∷ run)) (some (d ∷ url)) =
    (txt "run [" ++ ((c ∷ run) ++ (txt "](" ++ ((d ∷ url) ++ txt ")")))) ∷ []
run_part (some (c ∷ run)) other = (txt "run " ++ (c ∷ run)) ∷ []

abbrev pub qemu_part : List Text → Text → Text
qemu_part [] qemu = qemu
qemu_part (b ∷ bundles) qemu =
    txt "bundle " ++ (join (txt ", ") (map code (b ∷ bundles)) ++ (txt " (" ++ (qemu ++ txt ")")))

unfoldable pub header : List Results → Option Text → Option Text → List Text
unfolding version or_else code nonempty latest readable text_leb
header results run run_url =
    let commits = sorted_set (map (λ r. or_text r.details.commit (txt "?")) results) in
    let bundles = nonempty (sorted_set (map (λ r. or_text r.details.qemu_bundle []) results)) in
    let qemus =
      sorted_set (map (λ r. version r.details.qemu (txt "QEMU emulator version ")) results) in
    let swtpms =
      sorted_set (map (λ r. version r.details.swtpm (txt "TPM emulator version ")) results) in
    let parts =
      (txt "Commit " ++ join (txt ", ") (map (λ c. code (take 12 c)) commits))
      ∷ (run_part run run_url ++ ((txt "finished " ++ readable (last_finished results)) ∷ [])) in
    txt "# Boot matrix results"
    ∷ []
    ∷ (join (txt ", ") parts ++ txt ".")
    ∷ (txt "QEMU "
        ++ (qemu_part bundles (join (txt ", ") qemus)
            ++ (txt ", swtpm " ++ (join (txt ", ") swtpms ++ txt "."))))
    ∷ []
    ∷ txt "Rows are the GRUB entries the suite boots, named as their fixtures"
    ∷ (txt "in `tests/conftest.py`, columns the releases. "
        ++ (pass_mark ++ txt " every test of the"))
    ∷ (txt "entry passed, "
        ++ (fail_mark
            ++ (txt " one failed, " ++ (none_mark ++ txt " nothing ran. A mark says what the"))))
    ∷ txt "boot did, and the notes under the table what the suite expected of it."
    ∷ []
    ∷ []

-- `.rstrip("\\n")`
unfoldable pub without_newlines : Text → Text
without_newlines [] = []
without_newlines (c ∷ s) = elim (without_newlines s) [
  | [] ↦ if c == 10 then [] else c ∷ []
  | d ∷ rest ↦ c ∷ d ∷ rest
]

-- `render`: the page and the badges by release
unfoldable pub render : List Results → Option Text → Option Text → Result (Text × Dict Text Badge)
unfolding header body badges without_newlines
render results run run_url = do
  lines ← body results
  ok (
    without_newlines (join (10 ∷ []) (header results run run_url ++ lines)) ++ (10 ∷ []),
    badges results,
  )

-- `write`: the files by name, with JSON's encoding of a badge
abbrev pub badge_files : (Badge → Text) → Dict Text Badge → Dict Text Text
badge_files dumps [] = []
badge_files dumps ((release, badge) ∷ rest) =
    (txt "badges/" ++ (release ++ txt ".json"), dumps badge ++ (10 ∷ [])) ∷ badge_files dumps rest

abbrev pub written : (Badge → Text) → Text × Dict Text Badge → Dict Text Text
written dumps (page, marks) = (txt "README.md", page) ∷ badge_files dumps marks

-- `main`, of the results files that it finds
unfoldable pub report :
    (Badge → Text) → List Results → Option Text → Option Text → Result (Dict Text Text)
unfolding render load
report dumps files run run_url = do
  results ← load files
  page ← render results run run_url
  ok (written dumps page)
