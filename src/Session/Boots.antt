-- ===== src/Session/Boots.antt =====
-- Which boots a session starts, and in which order.
use mathlib.Core.Path.{subst}
use drtm_tests.Prelude.Dict.{Dict, has, keys, insert, insert_new, contains-keys}
use drtm_tests.Prelude.Sort.{IsSorted, sort_by_sorted, unique, unique_onto}
use drtm_tests.Prelude.{
  ℕ, ◌+◌, ◌≤◌, ◌≡◌, refl, ◌∙◌, sym, ap, Bool, true, false, List, [], ◌∷◌, ◌++◌, Text, text_eq,
  arith, if◌then◌else◌,
}
use drtm_tests.Session.{
  Item, Session, taken, want, first_wanted_loop, earlier, wanted_boots, collection_modifyitems,
}

-- The boots that the tests ask for, one test after the other
abbrev pub asked_for : List Text → List Item → List Text
asked_for names [] = []
asked_for names (item ∷ items) = taken names item ++ asked_for names items

keys-append :
    (d : Dict Text ℕ) (name : Text) (i : ℕ) → keys (d ++ ((name, i) ∷ [])) ≡ keys d ++ (name ∷ [])
keys-append [] name i = refl
keys-append ((k, v) ∷ d) name i = ap (◌∷◌ k) (keys-append d name i)

keys-want :
    (index : ℕ) (names : List Text) (d : Dict Text ℕ) (more : List Text)
    → unique_onto (keys (want index names d)) more ≡ unique_onto (keys d) (names ++ more)
unfolding want unique_onto
keys-want index [] d more = refl
keys-want index (name ∷ names) d more = ground (
  arith,
  keys-want index names d more,
  keys-want index names (insert name index d) more,
  contains-keys name d,
  insert_new name index d,
  keys-append d name index,
)

keys-first_wanted_loop :
    (names : List Text) (index : ℕ) (items : List Item) (d : Dict Text ℕ)
    → keys (first_wanted_loop names index items d) ≡ unique_onto (keys d) (asked_for names items)
unfolding first_wanted_loop
keys-first_wanted_loop names index [] d = unfold unique_onto in refl
keys-first_wanted_loop names index (item ∷ items) d =
    keys-first_wanted_loop names (index + 1) items (want index (taken names item) d)
    ∙ keys-want index (taken names item) d (asked_for names items)

-- All indices are at most a bound, and they do not go down.
abbrev Below : ℕ → Dict Text ℕ → Type 0
Below bound [] = Unit {0}
Below bound ((name, i) ∷ d) = (i ≤ bound) × Below bound d

Below-later : (bound : ℕ) (d : Dict Text ℕ) → Below bound d → Below (bound + 1) d
Below-later bound [] h = tt
Below-later bound ((name, i) ∷ d) (h, hs) = (omega arith, Below-later bound d hs)

Below-append :
    (bound : ℕ) (name : Text) (d : Dict Text ℕ)
    → Below bound d
    → Below bound (d ++ ((name, bound) ∷ []))
Below-append bound name [] h = (omega arith, tt)
Below-append bound name ((n, i) ∷ d) (h, hs) = (h, Below-append bound name d hs)

IsSorted-append :
    (bound : ℕ) (name : Text) (d : Dict Text ℕ)
    → Below bound d
    → IsSorted earlier d
    → IsSorted earlier (d ++ ((name, bound) ∷ []))
IsSorted-append bound name [] b h = tt
IsSorted-append bound name ((n, i) ∷ []) (b, _) h = (ground arith, tt)
IsSorted-append bound name ((n, i) ∷ (m, j) ∷ d) (b, bs) (h, hs) =
    (h, IsSorted-append bound name ((m, j) ∷ d) bs hs)

abbrev Ascends : ℕ → Dict Text ℕ → Type 0
Ascends bound d = Below bound d × IsSorted earlier d

want-Ascends :
    (index : ℕ) (names : List Text) (d : Dict Text ℕ)
    → Ascends index d
    → Ascends index (want index names d)
unfolding want
want-Ascends index [] d h = h
want-Ascends index (name ∷ names) d (b, h) = want-Ascends index names _ (added (has name d) refl)
  where
    added :
        (there : Bool)
        → has name d ≡ there
        → Ascends index (if there then d else insert name index d)
    added true e = (b, h)
    added false e =
        subst (Ascends index) (sym (insert_new name index d e))
          (Below-append index name d b, IsSorted-append index name d b h)

first_wanted_loop-IsSorted :
    (names : List Text) (index : ℕ) (items : List Item) (d : Dict Text ℕ)
    → Ascends index d
    → IsSorted earlier (first_wanted_loop names index items d)
unfolding first_wanted_loop
first_wanted_loop-IsSorted names index [] d (b, h) = h
first_wanted_loop-IsSorted names index (item ∷ items) d a =
    let (b, h) = want-Ascends index (taken names item) d a in
    first_wanted_loop-IsSorted names (index + 1) items (want index (taken names item) d)
      (Below-later index _ b, h)

-- A session that runs its tests submits to its pool the boots that the tests take, each once, in
-- the order of the first test that takes it, behind those that it had submitted, and it prepares
-- the same boots.
pub collection_modifyitems_lem :
    (names : List Text) (items : List Item) (s : Session)
    → ((collection_modifyitems names false items s).submitted
        ≡ s.submitted ++ unique (asked_for names items))
      × ((collection_modifyitems names false items s).prepared
          ≡ s.prepared ++ unique (asked_for names items))
unfolding collection_modifyitems wanted_boots
collection_modifyitems_lem names items s =
    let wanted : wanted_boots names items ≡ unique (asked_for names items) =
      ap keys (sort_by_sorted earlier _ (first_wanted_loop-IsSorted names 0 items [] (tt, tt)))
      ∙ keys-first_wanted_loop names 0 items [] in
    (ap (λ ws. s.submitted ++ ws) wanted, ap (λ ws. s.prepared ++ ws) wanted)
