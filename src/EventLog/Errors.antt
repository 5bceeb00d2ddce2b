-- ===== src/EventLog/Errors.antt =====
-- The exceptions of `parse` on any bytes, and the fuel of its loop.
use drtm_tests.Prelude.Dict.{Dict, lookup, insert}
use drtm_tests.Prelude.{
  ℕ, zero, suc, ◌+◌, ◌*◌, ◌<◌, ◌≤◌, ◌≡◌, refl, none, some, List, [], ◌∷◌, ◌++◌, Text, Bytes, nat_eq,
  text_eq, arith, length, leb, leb→le, Result, Error, value_error, key_error, struct_error, ok, err,
  ◌>>=◌, >>=-eq-ok, true, false, Option, ltb, drop, or_raise, not, starts_with, if◌then◌else◌, Bool,
  ◌==◌,
}
use mathlib.Core.Path.{subst}
use drtm_tests.EventLog.{
  Event, spec_id_signature, ev_no_action, read_body, slice, u16_of, u32_of, u16_at, u32_at,
  algorithms_loop, declared, algorithms, padded, parse, digests_loop, read_event, events_loop,
}

-- The exceptions that a malformed log raises.
abbrev pub IsParseError : Error → Type 0
IsParseError value_error = Unit {0}
IsParseError key_error = Unit {0}
IsParseError struct_error = Unit {0}
IsParseError _ = ⊥

abbrev pub RaisesParseError {ℓ} : {A : Type ℓ} → Result A → Type 0
RaisesParseError (ok a) = Unit {0}
RaisesParseError (err e) = IsParseError e

bind_raises {ℓ κ} :
    {A : Type ℓ} {B : Type κ} (m : Result A) (f : A → Result B)
    → RaisesParseError m
    → ((a : A) → m ≡ ok a → RaisesParseError (f a))
    → RaisesParseError (m >>= f)
bind_raises (ok a) f h k = k a refl
bind_raises (err e) f h k = h

or_raise_raises {ℓ} :
    {A : Type ℓ} (e : Error) (o : Option A) → IsParseError e → RaisesParseError (or_raise e o)
or_raise_raises e none h = h
or_raise_raises e (some a) h = tt

u16_at_raises : (raw : Bytes) (off : ℕ) → RaisesParseError (u16_at raw off)
unfolding u16_at
u16_at_raises raw off = or_raise_raises struct_error (u16_of (drop off raw)) tt

u32_at_raises : (raw : Bytes) (off : ℕ) → RaisesParseError (u32_at raw off)
unfolding u32_at
u32_at_raises raw off = or_raise_raises struct_error (u32_of (drop off raw)) tt

algorithms_loop_raises :
    (n i : ℕ) (spec : Bytes) (algs : Dict ℕ ℕ) → RaisesParseError (algorithms_loop n i spec algs)
unfolding algorithms_loop
algorithms_loop_raises zero i spec algs = tt
algorithms_loop_raises (suc n) i spec algs =
    bind_raises (u16_at spec (28 + 4 * i)) _ (u16_at_raises spec (28 + 4 * i)) λ alg _.
      bind_raises (u16_at spec (28 + 4 * i + 2)) _ (u16_at_raises spec (28 + 4 * i + 2))
        λ size _. algorithms_loop_raises n (i + 1) spec (insert alg size algs)

if_raises {ℓ} :
    {A : Type ℓ} (b : Bool) (x y : Result A)
    → RaisesParseError x
    → RaisesParseError y
    → RaisesParseError (if b then x else y)
if_raises true x y h k = h
if_raises false x y h k = k

elim_raises {ℓ} :
    {A : Type ℓ} (b : Bool) (x y : Result A)
    → (b ≡ true → RaisesParseError x)
    → RaisesParseError y
    → RaisesParseError (elim b [ false ↦ y | true ↦ x ])
elim_raises true x y h k = h refl
elim_raises false x y h k = k

else-eq-some {ℓ} :
    {A : Type ℓ} (b : Bool) (m : Result (Option A)) {a : A}
    → (if b then ok none else m) ≡ ok (some a)
    → m ≡ ok (some a)
else-eq-some true m e = cc
else-eq-some false m e = e

declared_raises : (spec : Bytes) → RaisesParseError (declared spec)
unfolding declared
declared_raises spec = if_raises (not (starts_with spec spec_id_signature)) (err value_error) _ tt (
    bind_raises (u32_at spec 24) _ (u32_at_raises spec 24)
      λ count _. algorithms_loop_raises count 0 spec [])

algorithms_raises : (raw : Bytes) → RaisesParseError (algorithms raw)
unfolding algorithms
algorithms_raises raw = if_raises (ltb (length raw) 32) (err value_error) _ tt (
    bind_raises (u32_at raw 4) _ (u32_at_raises raw 4) λ type _.
      if_raises (not (type == ev_no_action)) (err value_error) _ tt (
        bind_raises (u32_at raw 28) _ (u32_at_raises raw 28)
          λ size _. declared_raises (slice raw 32 size)))

module _ (raw : Bytes) (algs : Dict ℕ ℕ) where
  digests_loop_raises :
      (n off : ℕ) (named : Dict Text Text) → RaisesParseError (digests_loop n raw algs off named)
  unfolding digests_loop
  digests_loop_raises zero off named = tt
  digests_loop_raises (suc n) off named =
      bind_raises (u16_at raw off) _ (u16_at_raises raw off) λ alg _.
        bind_raises (or_raise key_error (lookup alg algs)) _ (or_raise_raises key_error _ tt)
          λ size _. digests_loop_raises n (off + 2 + size) _

  -- The digests lie behind the offset where they begin.
  digests_loop-le :
      (n off : ℕ) (named : Dict Text Text) {out : Dict Text Text × ℕ}
      → digests_loop n raw algs off named ≡ ok out
      → off ≤ out.1
  unfolding digests_loop
  digests_loop-le zero off named e = ground arith
  digests_loop-le (suc n) off named e =
      let (alg, _, e') = >>=-eq-ok (u16_at raw off) _ e in
      let (size, _, e'') = >>=-eq-ok (or_raise key_error (lookup alg algs)) _ e' in
      omega (arith, digests_loop-le n (off + 2 + size) _ e'')

  read_body_raises : (off pcr type n : ℕ) → RaisesParseError (read_body raw algs off pcr type n)
  unfolding read_body
  read_body_raises off pcr type n =
      bind_raises (digests_loop n raw algs (off + 12) []) _ (digests_loop_raises n (off + 12) [])
        λ (digests, behind) _.
          bind_raises (u32_at raw behind) _ (u32_at_raises raw behind) λ size _. tt

  read_event_raises : (off : ℕ) → RaisesParseError (read_event raw algs off)
  unfolding read_event
  read_event_raises off = bind_raises (u32_at raw off) _ (u32_at_raises raw off) λ pcr _.
      bind_raises (u32_at raw (off + 4)) _ (u32_at_raises raw (off + 4)) λ type _.
        bind_raises (u32_at raw (off + 8)) _ (u32_at_raises raw (off + 8)) λ count _.
          if_raises (count == 0) (ok none) (read_body raw algs off pcr type count) tt
            (read_body_raises off pcr type count)

  read_body-lt :
      (off pcr type n : ℕ) {event : Event} {behind : ℕ}
      → read_body raw algs off pcr type n ≡ ok (some (event, behind))
      → off < behind
  unfolding read_body
  read_body-lt off pcr type n e =
      let (d, digests, e') = >>=-eq-ok (digests_loop n raw algs (off + 12) []) _ e in
      let (size, _, last) = >>=-eq-ok (u32_at raw d.1) _ e' in
      ground (arith, last, digests_loop-le n (off + 12) [] digests)

  read_event-lt :
      (off : ℕ) {event : Event} {behind : ℕ}
      → read_event raw algs off ≡ ok (some (event, behind))
      → off < behind
  unfolding read_event
  read_event-lt off e =
      let (pcr, _, e') = >>=-eq-ok (u32_at raw off) _ e in
      let (type, _, e'') = >>=-eq-ok (u32_at raw (off + 4)) _ e' in
      let (count, _, last) = >>=-eq-ok (u32_at raw (off + 8)) _ e'' in
      read_body-lt off pcr type count (else-eq-some (count == 0) _ last)

  -- What a round of the loop does with the event that it read.
  next_raises :
      (fuel off : ℕ) (done : List Event) (o : Option (Event × ℕ))
      → ((behind : ℕ) (more : List Event)
          → length raw ≤ behind + fuel
          → RaisesParseError (events_loop (suc fuel) raw algs behind more))
      → length raw ≤ off + suc fuel
      → read_event raw algs off ≡ ok o
      → RaisesParseError (elim o [
        | none ↦ ok done
        | some (event, behind) ↦ events_loop (suc fuel) raw algs behind (done ++ (event ∷ []))
      ])
  next_raises fuel off done none ih room e = tt
  next_raises fuel off done (some (event, behind)) ih room e =
      ih behind (done ++ (event ∷ [])) (omega (arith, read_event-lt off e))

  events_loop_raises :
      (fuel off : ℕ) (done : List Event)
      → length raw ≤ off + fuel
      → RaisesParseError (events_loop (suc fuel) raw algs off done)
  unfolding events_loop
  events_loop_raises zero off done more =
      elim_raises (leb (off + 12) (length raw)) _ (ok done)
        (λ room. absurd (omega (arith, leb→le _ _ room))) tt
  events_loop_raises (suc fuel) off done more =
      elim_raises (leb (off + 12) (length raw)) _ (ok done)
        (λ room.
          bind_raises (read_event raw algs off) _ (read_event_raises off) λ o e.
            unfold events_loop in next_raises fuel off done o (events_loop_raises fuel) more e)
        tt

-- Whatever the bytes, `parse` ends, and the exceptions that it can raise are `ValueError`,
-- `KeyError` and `struct.error`.
pub parse_errors : (raw : Bytes) {e : Error} → parse raw ≡ err e → IsParseError e
unfolding parse
parse_errors raw {e} h = subst RaisesParseError h (
    bind_raises (algorithms (padded raw)) _ (algorithms_raises (padded raw)) λ algs _.
      bind_raises (u32_at (padded raw) 28) _ (u32_at_raises (padded raw) 28) λ size _.
        events_loop_raises (padded raw) algs (length (padded raw)) (32 + size) [] (omega arith))
