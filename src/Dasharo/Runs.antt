-- ===== src/Dasharo/Runs.antt =====
-- `warmed_firmware` as a way through the threads' steps, and what the file that it keeps is.
use mathlib.Core.Path.{subst}
use drtm_tests.Prelude.Dict.{lookup, has, insert, erase, lookup-insert}
use drtm_tests.Prelude.{
  ℕ, nat_eq, ◌≡◌, refl, sym, ap, ◌∙◌, Bool, true, false, Option, none, some, [], ◌∷◌, ◌++◌, Text,
  Bytes, txt, text_eq, ◌is◌, contains, if◌then◌else◌, arith, Error, Result, ok, err,
}
use drtm_tests.Assets.{Asset, Cache, has_dot, stem, with_suffix}
use drtm_tests.Assets.Names.{append_apart}
use drtm_tests.Dasharo.{WarmBoot, warm_of, replace, keep_warm, warmed_firmware}
use drtm_tests.Prelude.Steps.{Reach, here, next, moved, moved_self}
use drtm_tests.Dasharo.Threads.{
  Step, System, Place, waiting, testing, booting, replacing, returned, raised, acquire, hit, miss,
  write, interrupt, finish, keep, new_system, new-Inv, Reach-Inv, Reach_keeps, replace_found,
}

abbrev pub scratch_of : Asset → Text
scratch_of asset = with_suffix (warm_of asset) (txt ".warming")

stem_warm : (name : Text) → has_dot name ≡ false → stem (name ++ txt ".warm") ≡ name
unfolding stem has_dot txt
stem_warm [] h = refl
stem_warm (c ∷ name) h = ground (arith, stem_warm name)

suffixes_apart : (txt ".warm" is txt ".warming") ≡ false
unfolding txt text_eq
suffixes_apart = refl

warm_apart :
    (asset : Asset) → has_dot asset.sha256 ≡ false → (warm_of asset is scratch_of asset) ≡ false
unfolding with_suffix
warm_apart asset h =
    ap (λ t. warm_of asset is (t ++ txt ".warming")) (stem_warm asset.sha256 h)
    ∙ append_apart asset.sha256 (txt ".warm") (txt ".warming") suffixes_apart

-- The warmed firmware's file, in a run of any number of threads that starts without the file and may be
-- killed and started anew at any moment: once the file is there, its content is what a boot that came to
-- its end had written, and it stays that through every further step. The digest has no dot in it, and
-- a boot writes to its scratch file only.
pub warm_stays :
    (asset : Asset) (cache : Cache) {s t : System} (content : Bytes)
    → has_dot asset.sha256 ≡ false
    → has (warm_of asset) cache ≡ false
    → Reach (Step (warm_of asset) (scratch_of asset)) (new_system cache) s
    → lookup (warm_of asset) s.cache ≡ some content
    → Reach (Step (warm_of asset) (scratch_of asset)) s t
    → (lookup (warm_of asset) t.cache ≡ some content) × (contains s.finished content ≡ true)
warm_stays asset cache {s} {t} content dotless absent before found after =
    let apart = warm_apart asset dotless in
    let inv =
      Reach-Inv (warm_of asset) (scratch_of asset) apart before
        (new-Inv (warm_of asset) (scratch_of asset) apart cache absent) in
    (
      Reach_keeps (warm_of asset) (scratch_of asset) apart content inv after found,
      inv.complete content found,
    )

replace_ok :
    (scratch path : Text) (cache : Cache) (content : Bytes)
    → lookup scratch cache ≡ some content
    → replace scratch path cache ≡ (insert path content (erase scratch cache), ok path)
unfolding replace
replace_ok scratch path cache content found = ground arith

-- Where a thread is once it is out of the function.
abbrev pub out_of : Result Text → Place
out_of (ok name) = returned
out_of (err e) = raised

-- A thread's run through the function that leaves this cache and this result.
abbrev pub RunsTo : Text → Text → ℕ → System → Cache × Result Text → Type 0
RunsTo path scratch i s (cache, result) =
    (t : System) × Reach (Step path scratch) s t
    × (t.cache ≡ cache)
    × (t.lock ≡ none)
    × (t.place i ≡ out_of result)

module _ (path scratch : Text) (s : System) (i : ℕ) (waits : s.place i ≡ waiting)
    (free : s.lock ≡ none) where
  entered : System
  entered = record s { lock = some i; place = moved i testing s.place }

  enters : Reach (Step path scratch) s entered
  unfolding entered
  enters = next here (acquire i waits free refl)

  hit_run : has path s.cache ≡ true → RunsTo path scratch i s (s.cache, ok path)
  unfolding entered
  hit_run there = (
    record entered { lock = none; place = moved i returned entered.place },
    next enters (hit i (moved_self i testing s.place) there refl),
    refl,
    refl,
    moved_self i returned entered.place,
  )

  module _ (absent : has path s.cache ≡ false) (content : Bytes) where
    booted : System
    booted = record s {
      cache = insert scratch content s.cache;
      lock = some i;
      place = moved i booting (moved i testing s.place);
    }

    boots : Reach (Step path scratch) s booted
    unfolding entered booted
    boots =
        next (next enters (miss i (moved_self i testing s.place) absent refl))
          (write i content (moved_self i booting (moved i testing s.place)) refl)

    at_boot : booted.place i ≡ booting
    unfolding booted
    at_boot = moved_self i booting (moved i testing s.place)

    found : lookup scratch booted.cache ≡ some content
    unfolding booted
    found = ground (arith, lookup-insert scratch scratch content s.cache)

    finished : System
    finished = record booted {
      finished = content ∷ booted.finished;
      place = moved i replacing booted.place;
    }

    boot_run :
        (ended : Option Error)
        → RunsTo path scratch i s (keep_warm scratch path (insert scratch content s.cache, ended))
    unfolding booted finished replace
    boot_run (some e) = (
      record booted { lock = none; place = moved i raised booted.place },
      next boots (interrupt i at_boot refl),
      refl,
      refl,
      moved_self i raised booted.place,
    )
    boot_run none =
        subst (RunsTo path scratch i s) (sym (replace_ok scratch path booted.cache content found)) (
          record finished {
            cache = (replace scratch path booted.cache).0;
            lock = none;
            place = moved i returned finished.place;
          },
          next (next boots (finish i content at_boot found refl))
              (keep i (moved_self i replacing booted.place) refl),
          replace_found path scratch booted.cache content found,
          refl,
          moved_self i returned finished.place,
        )

pub warmed_firmware-RunsTo :
    (asset : Asset) (boot : WarmBoot) (s : System) (i : ℕ) (content : Bytes) (ended : Option Error)
    → s.place i ≡ waiting
    → s.lock ≡ none
    → boot (scratch_of asset) s.cache ≡ (insert (scratch_of asset) content s.cache, ended)
    → RunsTo (warm_of asset) (scratch_of asset) i s (warmed_firmware asset boot s.cache)
unfolding warmed_firmware
warmed_firmware-RunsTo asset boot s i content ended waits free boots =
    cases (has (warm_of asset) s.cache) refl
  where
    cases :
        (there : Bool)
        → has (warm_of asset) s.cache ≡ there
        → RunsTo (warm_of asset) (scratch_of asset) i s (
            if there
            then (s.cache, ok (warm_of asset))
            else keep_warm (scratch_of asset) (warm_of asset) (boot (scratch_of asset) s.cache))
    cases true e = hit_run (warm_of asset) (scratch_of asset) s i waits free e
    cases false e =
        subst
          (λ r.
            RunsTo (warm_of asset) (scratch_of asset) i s
              (keep_warm (scratch_of asset) (warm_of asset) r))
          (sym boots) (boot_run (warm_of asset) (scratch_of asset) s i waits free e content ended)
