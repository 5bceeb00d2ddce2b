-- ===== src/Suite/Intel.antt =====
-- What a session on Intel boots: conftest's hook, and the session's own behind it.
use drtm_tests.Prelude.Dict.{Dict, lookup, keys}
use drtm_tests.Prelude.Sort.{unique, unique_onto}
use drtm_tests.Prelude.{
  ◌≡◌, refl, ap, ◌∙◌, Bool, true, false, not, ◌||◌, some, List, [], ◌∷◌, ◌++◌, Text, txt, text_eq,
  ◌is◌, contains, every, map, arith,
}
use drtm_tests.Session.{Session, Item, texts_of, among, taken, collection_modifyitems}
use drtm_tests.Session.Boots.{asked_for, collection_modifyitems_lem}
use drtm_tests.Suite.{Surroundings, Entry, entries}
use drtm_tests.Suite.Plan.{Collected, amd_only_names, meets, undropped, drop_amd_only}

contains-append :
    (xs ys : List Text) (n : Text) → contains (xs ++ ys) n ≡ (contains xs n || contains ys n)
contains-append [] ys n = refl
contains-append (x ∷ xs) ys n = ground (arith, contains-append xs ys n)

unique_onto_lacks :
    (seen xs : List Text) (n : Text)
    → contains seen n ≡ false
    → contains xs n ≡ false
    → contains (unique_onto seen xs) n ≡ false
unfolding unique_onto
unique_onto_lacks seen [] n new h = new
unique_onto_lacks seen (x ∷ xs) n new h = ground (
  arith,
  unique_onto_lacks seen xs n,
  unique_onto_lacks (seen ++ (x ∷ [])) xs n,
  contains-append seen (x ∷ []) n,
)

among_lacks :
    (names xs : List Text) (n : Text) → contains xs n ≡ false → contains (among names xs) n ≡ false
unfolding among
among_lacks names [] n h = refl
among_lacks names (x ∷ xs) n h = ground (arith, among_lacks names xs n)

meets_lacks :
    (names xs : List Text) (n : Text)
    → contains names n ≡ true
    → meets names xs ≡ false
    → contains xs n ≡ false
unfolding meets
meets_lacks names [] n there h = refl
meets_lacks names (x ∷ xs) n there h = ground (arith, meets_lacks names xs n)

contains-amd_only_names :
    (table : Dict Text Entry) (name : Text) (entry : Entry)
    → lookup name table ≡ some entry
    → entry.amd_only ≡ true
    → contains (amd_only_names table) name ≡ true
unfolding lookup amd_only_names
contains-amd_only_names [] name entry found only = cc
contains-amd_only_names ((k, e) ∷ table) name entry found only =
    ground (arith, contains-amd_only_names table name entry)

-- No test takes the boot by a parameter.
abbrev pub is_unnamed : Text → List Collected → Bool
is_unnamed name tests = every (λ test. not (contains (texts_of test.item.params) name)) tests

abbrev pub items_of : List Collected → List Item
items_of tests = map (λ test. test.item) tests

taken_lacks :
    (names : List Text) (item : Item) (n : Text)
    → contains item.fixturenames n ≡ false
    → contains (texts_of item.params) n ≡ false
    → contains (taken names item) n ≡ false
unfolding taken
taken_lacks names item n h h' =
    let named = item.fixturenames ++ texts_of item.params in
    let lacks : contains named n ≡ false =
      contains-append item.fixturenames (texts_of item.params) n ∙ ground arith in
    among_lacks names (unique named) n (unique_onto_lacks [] named n refl lacks)

asked_for_lacks :
    (names amd_only : List Text) (tests : List Collected) (n : Text)
    → contains amd_only n ≡ true
    → is_unnamed n tests ≡ true
    → contains (asked_for names (items_of (undropped amd_only tests))) n ≡ false
unfolding undropped
asked_for_lacks names amd_only [] n there unnamed = refl
asked_for_lacks names amd_only (test ∷ tests) n there unnamed = ground (
  arith,
  asked_for_lacks names amd_only tests n,
  taken_lacks names test.item n,
  meets_lacks amd_only test.item.fixturenames n,
  contains-append (taken names test.item) (asked_for names (items_of (undropped amd_only tests))) n,
)

-- On any machine but AMD's, a session's first collection behind conftest's hook submits no AMD-only entry's
-- boot, whatever was collected and marked, if no collected test takes that boot by a
-- parameter.
pub submitted_without :
    (host : Surroundings) (tests : List Collected) (session : Session) (name : Text) (entry : Entry)
    → (host.vendor is txt "amd") ≡ false
    → lookup name (entries host.psp) ≡ some entry
    → entry.amd_only ≡ true
    → is_unnamed name tests ≡ true
    → session.submitted ≡ []
    → contains
        ((collection_modifyitems
          (keys (entries host.psp))
          false
          (items_of (drop_amd_only host tests))
          session).submitted)
        name
      ≡ false
unfolding drop_amd_only
submitted_without host tests session name entry other found only unnamed first =
    let names = keys (entries host.psp) in
    let amd_only = amd_only_names (entries host.psp) in
    let kept : drop_amd_only host tests ≡ undropped amd_only tests = ground arith in
    let boots = asked_for names (items_of (undropped amd_only tests)) in
    let lacks : contains boots name ≡ false =
      asked_for_lacks names amd_only tests name
        (contains-amd_only_names (entries host.psp) name entry found only) unnamed in
    ap (λ ts. contains ((collection_modifyitems names false (items_of ts) session).submitted) name)
      kept
    ∙ ap (λ started. contains started name)
        ((collection_modifyitems_lem names (items_of (undropped amd_only tests)) session).0)
    ∙ ap (λ before. contains (before ++ unique boots) name) first
    ∙ unique_onto_lacks [] boots name refl lacks
