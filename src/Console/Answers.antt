-- ===== src/Console/Answers.antt =====
-- What `pcrs` answers about the listing of a bank.
use mathlib.Core.Path.{subst, subst₂, fun_ext}
use drtm_tests.Prelude.Dict.{Dict, lookup, has, insert, lookup-insert, has-some, has-lookup}
use drtm_tests.Prelude.{
  ℕ, ◌≡◌, refl, sym, ap, ◌∙◌, Bool, true, false, Bool-cases, ◌&&◌, inl, inr, Option, none, some,
  List, [], ◌∷◌, map, Text, nat_eq, ◌is◌, contains, if◌then◌else◌, every, lower, Result, ok, err,
  lookup_error, key_error, arith,
}
use drtm_tests.Console.Shell.{int_from, found_from, chosen_from, pcrs_of}
use drtm_tests.Console.Pcrs.{
  Line, line_index, line_value, is_word, AreLines, print_pcrs, pcrs_from-print_pcrs,
}

-- The value that the listing has for an index, in lower case: the last line's, should there be more.
unfoldable pub listed : ℕ → List Line → Option Text
listed i [] = none
listed i (l ∷ lines) = elim (listed i lines) [
  | some value ↦ some value
  | none ↦ if i is int_from 0 (line_index l) then some (lower (line_value l)) else none
]

abbrev or_old : Option Text → Option Text → Option Text
or_old (some value) old = some value
or_old none old = old

lookup-found_from :
    (i : ℕ) (lines : List Line) (old : Dict ℕ Text)
    → lookup i (found_from (map (λ l. (line_index l, line_value l)) lines) old)
      ≡ or_old (listed i lines) (lookup i old)
unfolding found_from listed
lookup-found_from i [] old = refl
lookup-found_from i (l ∷ lines) old =
    lookup-found_from i lines (insert (int_from 0 (line_index l)) (lower (line_value l)) old)
    ∙ ap (or_old (listed i lines))
        (lookup-insert i (int_from 0 (line_index l)) (lower (line_value l)) old)
    ∙ ground arith

-- An answer for these indices: each of them is listed, and the answer has their values and no others; or
-- one of them is not listed, and a `LookupError` says so.
abbrev pub Answers : (ℕ → Option Text) → List ℕ → Result (Dict ℕ Text) → Type 0
Answers values indices (ok chosen) =
    (i : ℕ) → lookup i chosen ≡ (if contains indices i then values i else none)
Answers values indices (err e) =
    (e ≡ lookup_error) × ((i : ℕ) × (contains indices i ≡ true) × (values i ≡ none))

or_old-none : (o : Option Text) → or_old o none ≡ o
or_old-none none = refl
or_old-none (some value) = refl

first_true : (a b : Bool) → (a && b) ≡ true → a ≡ true
first_true a b h = ground arith

rest_true : (a b : Bool) → (a && b) ≡ true → b ≡ true
rest_true a b h = ground arith

rest_false : (a b : Bool) → a ≡ true → (a && b) ≡ false → b ≡ false
rest_false a b g h = ground arith

module _ (found : Dict ℕ Text) where
  chosen :
      (indices : List ℕ) (old : Dict ℕ Text)
      → every (λ i. has i found) indices ≡ true
      → (d : Dict ℕ Text) × (chosen_from indices found old ≡ ok d)
        × ((i : ℕ) → lookup i d ≡ (if contains indices i then lookup i found else lookup i old))
  unfolding chosen_from
  chosen [] old h = (old, refl, λ i. refl)
  chosen (j ∷ indices) old h =
      let (value, there) = has-some j found (first_true (has j found) _ h) in
      let (d, returns, reads) = chosen indices (insert j value old) (rest_true (has j found) _ h) in
      (
        d,
        subst
            (λ o.
              (elim o as (λ (x : Option Text). Result (Dict ℕ Text)) [
                | none ↦ err key_error
                | some value ↦ chosen_from indices found (insert j value old)
              ])
              ≡ ok d)
            (sym there) returns,
        λ i. reads i ∙ ground (arith, lookup-insert i j value old, there),
      )

  missing :
      (indices : List ℕ)
      → every (λ i. has i found) indices ≡ false
      → (i : ℕ) × (contains indices i ≡ true) × (lookup i found ≡ none)
  missing [] h = absurd (ground arith)
  missing (j ∷ indices) h = elim (Bool-cases (has j found)) [
    | inr absent ↦ (j, ground arith, has-lookup j found absent)
    | inl there ↦
        let (i, asked, absent) = missing indices (rest_false (has j found) _ there h) in
        (i, ground arith, absent)
  ]

  answer :
      (indices : List ℕ)
      → Answers
          (λ i. lookup i found)
          indices
          (if every (λ i. has i found) indices
            then chosen_from indices found []
            else err lookup_error)
  unfolding lookup
  answer indices = elim (Bool-cases (every (λ i. has i found) indices)) [
    | inl all ↦
        let (d, returns, reads) = chosen indices [] all in
        subst (Answers (λ i. lookup i found) indices)
          (sym
            (ap (λ b. if b then chosen_from indices found [] else err lookup_error) all ∙ returns))
          reads
    | inr some_missing ↦
        subst (Answers (λ i. lookup i found) indices)
          (sym
            (ap (λ b. if b then chosen_from indices found [] else err lookup_error) some_missing))
          (refl, missing indices some_missing)
  ]

pub pcrs_of-Answers :
    (bank : Text) (lines : List Line) (indices : List ℕ)
    → every is_word bank ≡ true
    → AreLines lines
    → Answers (λ i. listed i lines) indices (pcrs_of indices (print_pcrs bank lines))
unfolding pcrs_of lookup
pcrs_of-Answers bank lines indices word h =
    subst₂
      (λ matches values. Answers values indices (
        let found = found_from matches [] in
        if every (λ i. has i found) indices
        then chosen_from indices found []
        else err lookup_error))
      (sym (pcrs_from-print_pcrs bank lines word h))
      (fun_ext (λ i. lookup-found_from i lines [] ∙ or_old-none (listed i lines)))
      (answer (found_from (map (λ l. (line_index l, line_value l)) lines) []) indices)
