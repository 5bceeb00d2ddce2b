-- ===== src/Prelude/Find.antt =====
-- `find` on bytes: the first place where a needle stands.
use Prim.Native.Nat.{ℕ, zero, suc, ◌+◌, ◌<◌, ◌≤◌}
use mathlib.Core.Path.{subst, ◌≡◌, refl, ap, ◌∙◌}
use mathlib.Core.Logic.{inl, inr}
use mathlib.Core.Bool.{true, false}
use mathlib.Core.List.{[], ◌∷◌, ◌++◌}
use mathlib.Core.Option.{Option, none, some}
use native.Mathlib.Nat.{zero-add, suc-add}
use native.Mathlib.Omega.{arith}
use drtm_tests.Prelude.Tests.{Option-cases, ltb, if◌then◌else◌, Bool-cases}
use drtm_tests.Prelude.Lists.{length, take, drop, length-append, length-drop, drop-append_le}
use drtm_tests.Prelude.Texts.{Bytes, starts_with}

abbrev shift : Option ℕ → Option ℕ
shift none = none
shift (some at) = some (suc at)

-- `buf.find(needle)`, with `none` for its -1.
unfoldable pub find : Bytes → Bytes → Option ℕ
unfolding starts_with
find needle [] = if starts_with [] needle then some 0 else none
find needle (c ∷ buf) =
    let later = find needle buf in if starts_with (c ∷ buf) needle then some 0 else shift later

abbrev from : ℕ → Option ℕ → Option ℕ
from start none = none
from start (some at) = some (start + at)

-- `buf.find(needle, start)`: a start behind the end finds nothing.
unfoldable pub find_from : Bytes → ℕ → Bytes → Option ℕ
unfolding find
find_from needle start buf =
    if ltb (length buf) start then none else from start (find needle (drop start buf))

-- A needle begins at this place of the buffer.
abbrev pub OccursAt : Bytes → Bytes → ℕ → Type 0
OccursAt needle buf at = starts_with (drop at buf) needle ≡ true

-- The place is the first one.
pub record IsFirst (needle buf : Bytes) (at : ℕ) : Type 0 where
  pub within : at ≤ length buf
  pub occurs : OccursAt needle buf at
  pub first : (k : ℕ) → k < at → starts_with (drop k buf) needle ≡ false

find-cons-IsFirst :
    (needle : Bytes) (c : ℕ) (buf : Bytes) {at : ℕ}
    → starts_with (c ∷ buf) needle ≡ false
    → IsFirst needle buf at
    → IsFirst needle (c ∷ buf) (suc at)
find-cons-IsFirst needle c buf {at} miss f = record {
  within = omega (arith, f.within);
  occurs = f.occurs;
  first = earlier;
}
  where
    earlier : (k : ℕ) → k < suc at → starts_with (drop k (c ∷ buf)) needle ≡ false
    earlier zero h = miss
    earlier (suc k) h = f.first k (omega arith)

IsFirst-here :
    (needle buf : Bytes) (at : ℕ) → 0 ≡ at → starts_with buf needle ≡ true → IsFirst needle buf at
IsFirst-here needle buf at e hit =
    subst (IsFirst needle buf) e
      (record { within = omega arith; occurs = hit; first = λ k h. elim h [ ] })

-- What `find` answers is the first place.
pub find-IsFirst : (needle buf : Bytes) (at : ℕ) → find needle buf ≡ some at → IsFirst needle buf at
unfolding find
find-IsFirst needle [] at e = elim (Bool-cases (starts_with [] needle)) [
  | inl hit ↦ IsFirst-here needle [] at (ground arith) hit
  | inr miss ↦ absurd (ground arith)
]
find-IsFirst needle (c ∷ buf) at e = elim (Bool-cases (starts_with (c ∷ buf) needle)) [
  | inl hit ↦ IsFirst-here needle (c ∷ buf) at (ground arith) hit
  | inr miss ↦ elim (Option-cases (find needle buf)) [
    | inl nowhere ↦ absurd (ground arith)
    | inr (k, there) ↦
        subst (IsFirst needle (c ∷ buf)) {x = suc k} (ground arith)
          (find-cons-IsFirst needle c buf miss (find-IsFirst needle buf k there))
  ]
]

-- What `find` does not find, stands nowhere.
pub find-none :
    (needle buf : Bytes) (k : ℕ)
    → k ≤ length buf
    → find needle buf ≡ none
    → starts_with (drop k buf) needle ≡ false
unfolding find
find-none needle [] zero h e = ground arith
find-none needle [] (suc k) h e = elim h [ ]
find-none needle (c ∷ buf) zero h e = ground arith
find-none needle (c ∷ buf) (suc k) h e = find-none needle buf k (omega arith) (ground arith)

take_prefix :
    (needle buf : Bytes)
    → starts_with buf needle ≡ true
    → (take (length needle) buf ≡ needle) × (length needle ≤ length buf)
unfolding starts_with
take_prefix [] buf h = (refl, omega arith)
take_prefix (n ∷ needle) [] h = absurd (ground arith)
take_prefix (n ∷ needle) (c ∷ buf) h =
    let (same, le) = take_prefix needle buf (ground arith) in (ground (arith, same), omega arith)

-- The text up to the needle's end is what stands before the needle, and the needle.
pub take-OccursAt :
    (needle buf : Bytes) (at : ℕ)
    → at ≤ length buf
    → OccursAt needle buf at
    → (take (at + length needle) buf ≡ take at buf ++ needle) × (at + length needle ≤ length buf)
take-OccursAt needle buf zero w h =
    let (same, le) = take_prefix needle buf h in (rw zero-add same, omega arith)
take-OccursAt [] [] (suc at) w h = elim w [ ]
take-OccursAt (n ∷ needle) [] (suc at) w h = elim w [ ]
take-OccursAt needle (c ∷ buf) (suc at) w h =
    let (same, le) = take-OccursAt needle buf at (omega arith) h in
    (rw suc-add (ap (◌∷◌ c) same), omega arith)

-- The first place is what `find` answers.
pub find_of_IsFirst :
    (needle buf : Bytes) (at : ℕ) → IsFirst needle buf at → find needle buf ≡ some at
unfolding find
find_of_IsFirst needle [] zero f = ground (arith, f.occurs)
find_of_IsFirst needle [] (suc at) f = elim f.within [ ]
find_of_IsFirst needle (c ∷ buf) zero f = ground (arith, f.occurs)
find_of_IsFirst needle (c ∷ buf) (suc at) f =
    let later : find needle buf ≡ some at = find_of_IsFirst needle buf at (record {
      within = omega (arith, f.within);
      occurs = f.occurs;
      first = λ k h. f.first (suc k) (omega (arith, h));
    }) in
    ground (arith, f.first 0 (omega arith), later)

starts_with-append :
    (needle buf more : Bytes)
    → length needle ≤ length buf
    → starts_with (buf ++ more) needle ≡ starts_with buf needle
unfolding starts_with
starts_with-append [] buf more fits = refl
starts_with-append (n ∷ needle) [] more fits = elim fits [ ]
starts_with-append (n ∷ needle) (c ∷ buf) more fits =
    ground (arith, starts_with-append needle buf more (omega arith))

-- More text behind it does not change the first place.
pub find-append :
    (needle buf more : Bytes) (at : ℕ)
    → find needle buf ≡ some at
    → find needle (buf ++ more) ≡ some at
find-append needle buf more at e = find_of_IsFirst needle (buf ++ more) at (record {
  within = omega (arith, f.within, length-append buf more);
  occurs = same at (omega (arith, fits)) ∙ f.occurs;
  first = λ k h. same k (omega (arith, fits, h)) ∙ f.first k h;
})
  where
    f : IsFirst needle buf at
    f = find-IsFirst needle buf at e

    fits : at + length needle ≤ length buf
    fits = (take-OccursAt needle buf at f.within f.occurs).1

    same :
        (k : ℕ)
        → k + length needle ≤ length buf
        → starts_with (drop k (buf ++ more)) needle ≡ starts_with (drop k buf) needle
    same k h =
        ap (λ xs. starts_with xs needle) (drop-append_le k buf more (omega (arith, h)))
        ∙ starts_with-append needle (drop k buf) more (omega (arith, h, length-drop k buf))
