-- ===== src/Prelude/Dict.antt =====
-- Python dicts, in insertion order.
use mathlib.Core.Path.{◌≡◌, refl, subst₂}
use mathlib.Core.Logic.{◌⊎◌, inl, inr}
use mathlib.Core.Bool.{Bool, true, false}
use mathlib.Core.List.{List, [], ◌∷◌, ◌++◌}
use mathlib.Core.Option.{Option, none, some}
use native.Mathlib.Omega.{arith}
use drtm_tests.Prelude.Tests.{Eq, ◌is◌, contains, if◌then◌else◌}

abbrev pub Dict {ℓ κ} : Type ℓ → Type κ → Type (ℓ ⊔ κ)
Dict K V = List (K × V)

abbrev pub keys {ℓ κ} : {K : Type ℓ} {V : Type κ} → Dict K V → List K
keys [] = []
keys ((k, _) ∷ d) = k ∷ keys d

abbrev pub values {ℓ κ} : {K : Type ℓ} {V : Type κ} → Dict K V → List V
values [] = []
values ((_, v) ∷ d) = v ∷ values d

module _ {ℓ κ} {K : Type ℓ} {V : Type κ} ⦃e : Eq K⦄ where
  unfoldable pub lookup : K → Dict K V → Option V
  lookup k [] = none
  lookup k ((j, v) ∷ d) = if k is j then some v else lookup k d

  -- `k in d`
  unfoldable pub has : K → Dict K V → Bool
  has k [] = false
  has k ((j, v) ∷ d) = if k is j then true else has k d

  -- `d[k] = v`: a key that is there keeps its place.
  unfoldable pub insert : K → V → Dict K V → Dict K V
  insert k v [] = (k, v) ∷ []
  insert k v ((j, w) ∷ d) = if k is j then (j, v) ∷ d else (j, w) ∷ insert k v d

  -- `d.pop(k, None)`
  unfoldable pub erase : K → Dict K V → Dict K V
  erase k [] = []
  erase k ((j, w) ∷ d) = let rest = erase k d in if k is j then rest else (j, w) ∷ rest

  -- `d.update(other)`
  unfoldable pub update : Dict K V → Dict K V → Dict K V
  unfolding insert
  update d [] = d
  update d ((k, v) ∷ other) = update (insert k v d) other

  pub lookup-insert :
      (j k : K) (v : V) (d : Dict K V)
      → lookup j (insert k v d) ≡ (if j is k then some v else lookup j d)
  unfolding insert lookup
  lookup-insert j k v [] = refl
  lookup-insert j k v (_ ∷ d) = ground (arith, lookup-insert j k v d)

  pub lookup-erase :
      (j k : K) (d : Dict K V) → lookup j (erase k d) ≡ (if j is k then none else lookup j d)
  unfolding erase lookup
  lookup-erase j k [] = ground arith
  lookup-erase j k (_ ∷ d) = ground (arith, lookup-erase j k d)

  pub has-insert :
      (j k : K) (v : V) (d : Dict K V) → has j (insert k v d) ≡ (if j is k then true else has j d)
  unfolding insert has
  has-insert j k v [] = refl
  has-insert j k v (_ ∷ d) = ground (arith, has-insert j k v d)

  pub has-erase : (j k : K) (d : Dict K V) → has j (erase k d) ≡ (if j is k then false else has j d)
  unfolding erase has
  has-erase j k [] = ground arith
  has-erase j k (_ ∷ d) = ground (arith, has-erase j k d)

  -- `k in d` exactly when a lookup finds a value.
  pub has-lookup : (k : K) (d : Dict K V) → has k d ≡ false → lookup k d ≡ none
  unfolding has lookup
  has-lookup k [] h = refl
  has-lookup k (_ ∷ d) h = ground (arith, has-lookup k d)

  pub has_of_lookup : (k : K) (d : Dict K V) → lookup k d ≡ none → has k d ≡ false
  unfolding has lookup
  has_of_lookup k [] h = refl
  has_of_lookup k (_ ∷ d) h = ground (arith, has_of_lookup k d)

  pub lookup-has : (k : K) {v : V} (d : Dict K V) → lookup k d ≡ some v → has k d ≡ true
  unfolding has lookup
  lookup-has k [] h = cc
  lookup-has k {v} (_ ∷ d) h = ground (arith, lookup-has k {v = v} d)

  pub has-some : (k : K) (d : Dict K V) → has k d ≡ true → (v : V) × (lookup k d ≡ some v)
  unfolding has lookup
  has-some k [] h = cc
  has-some k ((j, v) ∷ d) h = found (k is j) (has-some k d) h
    where
      found :
          (same : Bool)
          → (has k d ≡ true → (w : V) × (lookup k d ≡ some w))
          → (if same then true else has k d) ≡ true
          → (w : V) × ((if same then some v else lookup k d) ≡ some w)
      found true rest _ = (v, refl)
      found false rest there = rest there

  pub contains-keys : (k : K) (d : Dict K V) → contains (keys d) k ≡ has k d
  unfolding has
  contains-keys k [] = refl
  contains-keys k (_ ∷ d) = ground (arith, contains-keys k d)

  abbrev pub NodupKeys : Dict K V → Type 0
  NodupKeys [] = Unit {0}
  NodupKeys ((k, _) ∷ d) = (has k d ≡ false) × NodupKeys d

  pub insert-NodupKeys : (k : K) (v : V) (d : Dict K V) → NodupKeys d → NodupKeys (insert k v d)
  unfolding insert has
  insert-NodupKeys k v [] _ = (refl, tt)
  insert-NodupKeys k v ((j, _) ∷ d) (fresh, u) =
      ground (arith, insert-NodupKeys k v d u, has-insert j k v d)

  -- A new key goes to the end.
  pub insert_new :
      (k : K) (v : V) (d : Dict K V) → has k d ≡ false → insert k v d ≡ d ++ ((k, v) ∷ [])
  unfolding insert has
  insert_new k v [] h = refl
  insert_new k v (_ ∷ d) h = ground (arith, insert_new k v d)

  -- The other dict wins.
  pub lookup-update :
      (j : K) (d other : Dict K V)
      → NodupKeys other
      → lookup j (update d other) ≡ (elim (lookup j other) [ none ↦ lookup j d | some v ↦ some v ])
  unfolding update lookup has
  lookup-update j d [] u = refl
  lookup-update j d ((k, v) ∷ other) (fresh, u) =
      ground
        (arith, lookup-update j (insert k v d) other u, lookup-insert j k v d, has-lookup k other)

  -- A property of each entry is one of what a lookup finds.
  abbrev pub Entries {μ} : (K → V → Type μ) → Dict K V → Type μ
  Entries P [] = Unit {μ}
  Entries P ((k, v) ∷ d) = P k v × Entries P d

  lookup-cons :
      (k j : K) (v w : V) (d : Dict K V)
      → lookup k ((j, w) ∷ d) ≡ some v
      → ((j ≡ k) × (w ≡ v)) ⊎ (lookup k d ≡ some v)
  unfolding lookup
  lookup-cons k j v w d h = ground arith

  pub lookup-Entries {μ} :
      (P : K → V → Type μ) (k : K) {v : V} (d : Dict K V)
      → Entries P d
      → lookup k d ≡ some v
      → P k v
  lookup-Entries P k [] _ h = unfold lookup in cc
  lookup-Entries P k {v} ((j, w) ∷ d) (p, ps) h = elim (lookup-cons k j v w d h) [
    | inl (same, value) ↦ subst₂ P same value p
    | inr found ↦ lookup-Entries P k d ps found
  ]
