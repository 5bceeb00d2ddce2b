-- ===== src/Prelude/Sort.antt =====
-- `sorted` as a stable insertion sort, the order of texts, and Python's first occurrences.
use Prim.Native.Nat.{ℕ, suc, ◌+◌}
use mathlib.Core.Path.{◌≡◌, refl}
use mathlib.Core.Bool.{Bool, true, false}
use mathlib.Core.List.{List, [], ◌∷◌, ◌++◌}
use mathlib.Core.Option.{none, some}
use native.Mathlib.Omega.{arith}
use drtm_tests.Prelude.Tests.{ltb, ◌==◌, if◌then◌else◌, Eq, ◌is◌, contains}
use drtm_tests.Prelude.Dict.{Dict, lookup, insert, lookup-insert}
use drtm_tests.Prelude.Texts.{Text}

-- `a <= b`, of two texts
unfoldable pub text_leb : Text → Text → Bool
text_leb [] b = true
text_leb (x ∷ a) [] = false
text_leb (x ∷ a) (y ∷ b) = if x == y then text_leb a b else ltb x y

module _ {ℓ} {A : Type ℓ} (le : A → A → Bool) where
  unfoldable pub insert_by : A → List A → List A
  insert_by a [] = a ∷ []
  insert_by a (b ∷ bs) = let rest = insert_by a bs in if le a b then a ∷ b ∷ bs else b ∷ rest

  -- `sorted(xs)`
  unfoldable pub sort_by : List A → List A
  unfolding insert_by
  sort_by [] = []
  sort_by (a ∷ as') = insert_by a (sort_by as')

  -- Each element is before or with the next one.
  abbrev pub IsSorted : List A → Type 0
  IsSorted [] = Unit {0}
  IsSorted (a ∷ []) = Unit {0}
  IsSorted (a ∷ b ∷ bs) = (le a b ≡ true) × IsSorted (b ∷ bs)

  pub sort_by_sorted : (as' : List A) → IsSorted as' → sort_by as' ≡ as'
  unfolding sort_by
  sort_by_sorted [] h = refl
  sort_by_sorted (a ∷ []) h = refl
  sort_by_sorted (a ∷ b ∷ bs) (h, hs) = ground (arith, sort_by_sorted (b ∷ bs) hs)

module _ {ℓ} {A : Type ℓ} ⦃e : Eq A⦄ where
  -- `list(dict.fromkeys(xs))`, behind those that were there
  unfoldable pub unique_onto : List A → List A → List A
  unique_onto seen [] = seen
  unique_onto seen (x ∷ xs) =
      let old = unique_onto seen xs in
      let new = unique_onto (seen ++ (x ∷ [])) xs in if contains seen x then old else new

  abbrev pub unique : List A → List A
  unique xs = unique_onto [] xs

  -- How often each element comes, in the order of their first places: `counts[x] += 1`
  unfoldable pub counts_onto : Dict A ℕ → List A → Dict A ℕ
  counts_onto counts [] = counts
  counts_onto counts (x ∷ xs) =
      counts_onto (insert x (elim (lookup x counts) [ none ↦ 1 | some n ↦ n + 1 ]) counts) xs

  abbrev pub counts_of : List A → Dict A ℕ
  counts_of xs = counts_onto [] xs

  abbrev pub occurrences : A → List A → ℕ
  occurrences a [] = 0
  occurrences a (x ∷ xs) = let rest = occurrences a xs in if a is x then suc rest else rest

  abbrev pub count_in : A → Dict A ℕ → ℕ
  count_in a counts = elim (lookup a counts) [ none ↦ 0 | some n ↦ n ]

  count_in-insert :
      (a x : A) (n : ℕ) (counts : Dict A ℕ)
      → count_in a (insert x n counts) ≡ (if a is x then n else count_in a counts)
  count_in-insert a x n counts = ground (arith, lookup-insert a x n counts)

  pub count_in-counts_onto :
      (a : A) (counts : Dict A ℕ) (xs : List A)
      → count_in a (counts_onto counts xs) ≡ count_in a counts + occurrences a xs
  unfolding counts_onto
  count_in-counts_onto a counts [] = omega arith
  count_in-counts_onto a counts (x ∷ xs) = ground (
    arith,
    count_in-counts_onto a (insert x (elim (lookup x counts) [ none ↦ 1 | some n ↦ n + 1 ]) counts)
        xs,
    count_in-insert a x (elim (lookup x counts) [ none ↦ 1 | some n ↦ n + 1 ]) counts,
  )
