-- ===== src/Prelude/Steps.antt =====
-- Runs of a step relation, and families that change at one index.
use Prim.Native.Nat.{ℕ}
use mathlib.Core.Path.{◌≡◌}
use native.Mathlib.Omega.{arith}
use drtm_tests.Prelude.Tests.{◌==◌, if◌then◌else◌}

-- What any number of steps reaches
pub data Reach {ℓ κ} {S : Type ℓ} (Step : S → S → Type κ) (s : S) : S → Type (ℓ ⊔ κ) where
  here : Reach Step s s
  next : {t u : S} → Reach Step s t → Step t u → Reach Step s u

-- A property that every step keeps
pub Reach_keeps_all {ℓ κ μ} :
    {S : Type ℓ} {Step : S → S → Type κ} (P : S → Type μ)
    → ((s t : S) → Step s t → P s → P t)
    → {s t : S} → Reach Step s t
    → P s
    → P t
Reach_keeps_all P keeps here h = h
Reach_keeps_all P keeps (next {t} {u} run step) h = keeps t u step (Reach_keeps_all P keeps run h)

-- A family with another value at one index
abbrev pub moved {ℓ} : {A : Type ℓ} → ℕ → A → (ℕ → A) → ℕ → A
moved i a family j = if j == i then a else family j

pub moved_self {ℓ} : {A : Type ℓ} (i : ℕ) (a : A) (family : ℕ → A) → moved i a family i ≡ a
moved_self i a family = ground arith
