-- ===== src/TbBoot/Runs.antt =====
-- What `tb-boot` does to the processes and to the firmware's copy.
use mathlib.Core.Path.{subst, subst₂}
use drtm_tests.Prelude.{
  ℕ, ◌≡◌, refl, sym, ap, Bool, true, false, Option, none, some, List, [], ◌∷◌, Text, Bytes, txt,
  text_eq, ◌is◌, if◌then◌else◌, arith, Result, ok, err, >>=-eq-ok, ◌⊎◌, inl, inr, Error, os_error,
}
use drtm_tests.QemuVm.Settings.{Env}
use drtm_tests.Machine.{vendor, psp_mode, vendors}
use drtm_tests.Assets.{Cache, Web, has_dot, fetch}
use drtm_tests.Assets.Fetch.{IsTrusted, Outcome, fetch-Outcome}
use drtm_tests.Dasharo.{firmware}
use drtm_tests.Trenchboot.{RawDisk, unpacked_image}
use drtm_tests.TbBoot.{
  Flags, Opts, State, Place, Outside, ProcessEvent, started, called, terminated, waited, Ending,
  queried, printed, ran, run_line, use_line, boot_image, boot_with, boot_args, image_path,
  asks_query, query, parse_args, choose, firmwares, prepare_firmware, copy_firmware, with_opts,
  main,
}

-- QEMU's call between swtpm's start and its end
abbrev pub one_run : List Text → List ProcessEvent
one_run args = started ∷ called args ∷ terminated ∷ waited ∷ []

-- A run of the program, by what it ended in.
abbrev pub IsOrderly : Bool → Bool → List ProcessEvent → Result Ending → Type 0
IsOrderly dry_run asked events (ok queried) = (asked ≡ true) × (events ≡ [])
IsOrderly dry_run asked events (ok (printed args)) =
    (asked ≡ false) × (dry_run ≡ true) × (events ≡ [])
IsOrderly dry_run asked events (ok (ran args code)) =
    (asked ≡ false) × (dry_run ≡ false) × (events ≡ one_run args)
IsOrderly dry_run asked events (err e) =
    (events ≡ [])
    ⊎ ((asked ≡ false) × (dry_run ≡ false) × ((args : List Text) × (events ≡ one_run args)))

-- What the parser hands on as it was given
parse_args_keeps :
    (env : Env) (f : Flags) {o : Opts}
    → parse_args env f ≡ ok o
    → (o.dry_run ≡ f.dry_run) × (o.rest ≡ f.rest)
unfolding parse_args
parse_args_keeps env f {o} e =
    let (default_vendor, _, e₁) = >>=-eq-ok (vendor env) _ e in
    let (mode, _, e₂) = >>=-eq-ok (psp_mode env) _ e₁ in
    let (chosen_firmware, _, e₃) = >>=-eq-ok (choose firmwares (txt "dasharo") f.firmware) _ e₂ in
    let (chosen_vendor, _, e₄) = >>=-eq-ok (choose vendors default_vendor f.vendor) _ e₃ in
    ground arith

query-IsOrderly : (dry_run : Bool) (ends : Option Error) → IsOrderly dry_run true [] (query ends)
query-IsOrderly dry_run none = (refl, refl)
query-IsOrderly dry_run (some e) = inl refl

run_line-IsOrderly :
    (swtpm_ends : Option Error) (call : Result ℕ) (args : List Text)
    → IsOrderly false false (run_line swtpm_ends call args).0 (run_line swtpm_ends call args).1
unfolding run_line
run_line-IsOrderly (some e) call args = inl refl
run_line-IsOrderly none (err e) args = inr (refl, refl, (args, refl))
run_line-IsOrderly none (ok code) args = (refl, refl, refl)

use_line-IsOrderly :
    (swtpm_ends : Option Error) (call : Result ℕ) (dry_run : Bool) (s : State)
    (line : Result (List Text))
    → let (_, events, ended) = use_line swtpm_ends call dry_run s line in
      IsOrderly dry_run false events ended
use_line-IsOrderly swtpm_ends call dry_run s (err e) = inl refl
use_line-IsOrderly swtpm_ends call true s (ok args) = (refl, refl, refl)
use_line-IsOrderly swtpm_ends call false s (ok args) = run_line-IsOrderly swtpm_ends call args

boot_image-IsOrderly :
    (w : Outside) (p : Place) (o : Opts) (rom : Option Bytes) (r : Cache × Result RawDisk)
    → let (_, events, ended) = boot_image w.split p w.swtpm_ends w.call o rom r in
      IsOrderly o.dry_run false events ended
boot_image-IsOrderly w p o rom (cache, err e) = inl refl
boot_image-IsOrderly w p o rom (cache, ok raw) =
    use_line-IsOrderly w.swtpm_ends w.call o.dry_run (record { cache = cache; rom = rom })
      (boot_args w.split p o (image_path p.cache_dir raw))

boot_with-IsOrderly :
    (w : Outside) (p : Place) (o : Opts) (r : State × Result (Unit {0}))
    → let (_, events, ended) = boot_with w p o r in IsOrderly o.dry_run false events ended
boot_with-IsOrderly w p o (s, err e) = inl refl
boot_with-IsOrderly w p o (s, ok _) =
    boot_image-IsOrderly w p o s.rom (unpacked_image w.web w.gunzip w.disk p.env s.cache)

-- Where a run ended, with its state left out
abbrev pub Orderly : Bool → Bool → State × List ProcessEvent × Result Ending → Type 0
Orderly dry_run asked (s, events, ended) = IsOrderly dry_run asked events ended

with_opts-Orderly :
    (w : Outside) (p : Place) (f : Flags) (s : State) (r : Result Opts)
    → ((o : Opts) → r ≡ ok o → (o.dry_run ≡ f.dry_run) × (o.rest ≡ f.rest))
    → Orderly f.dry_run (asks_query f.rest) (with_opts w p s r)
with_opts-Orderly w p f s (err e) keeps = inl refl
with_opts-Orderly w p f s (ok o) keeps =
    let (same_dry_run, same_rest) = keeps o refl in
    subst₂ (λ dry_run rest. Orderly dry_run (asks_query rest) (with_opts w p s (ok o))) same_dry_run
      same_rest (cases (asks_query o.rest))
  where
    cases :
        (asked : Bool)
        → Orderly o.dry_run asked (
            if asked
            then (s, [], query w.query_ends)
            else boot_with w p o (prepare_firmware w.web o s))
    cases true = query-IsOrderly o.dry_run w.query_ends
    cases false = boot_with-IsOrderly w p o (prepare_firmware w.web o s)

-- The copy of the firmware: it is the one of before, or it was made now, and is what the fetch left under
-- the pinned hash.
abbrev pub Kept : Web → Option Bytes → Option Bytes → Type 0
Kept web before after =
    (after ≡ before)
    ⊎ ((before ≡ none)
        × ((content : Bytes) × (after ≡ some content) × (web.sha256_of content ≡ firmware.sha256)))

copy_firmware-Kept :
    (web : Web) (s : State) (r : Cache × Result Text)
    → s.rom ≡ none
    → Outcome web firmware r
    → Kept web s.rom (copy_firmware s r).0.rom
copy_firmware-Kept web s (cache, err e) new o = inl refl
copy_firmware-Kept web s (cache, ok name) new (named, (content, found, hash)) = inr (
  new,
  (
    content,
    ap
        (λ r.
          (elim r as (λ (c : Option Bytes). State × Result (Unit {0})) [
            | none ↦ (record s { cache = cache }, err os_error)
            | some c ↦ (record s { cache = cache; rom = some c }, ok tt)
          ]).0.rom)
        found,
    hash,
  ),
)

firmware_dotless : has_dot firmware.sha256 ≡ false
unfolding firmware has_dot txt
firmware_dotless = refl

module _ (web : Web) (s : State) (trusted : IsTrusted web firmware s.cache) where
  copy-Kept :
      (rom : Option Bytes)
      → s.rom ≡ rom
      → Kept web s.rom
          (elim rom as (λ (c : Option Bytes). State × Result (Unit {0})) [
            | none ↦ copy_firmware s (fetch web firmware s.cache)
            | some content ↦ (s, ok tt)
          ]).0.rom
  copy-Kept none e =
      copy_firmware-Kept web s (fetch web firmware s.cache) e
        (fetch-Outcome web firmware s.cache firmware_dotless trusted)
  copy-Kept (some content) e = inl refl

  prepare_firmware-Kept : (o : Opts) → Kept web s.rom (prepare_firmware web o s).0.rom
  unfolding prepare_firmware
  prepare_firmware-Kept o = cases (o.firmware is txt "dasharo")
    where
      cases :
          (dasharo : Bool)
          → Kept web s.rom
              (if dasharo
                then (elim s.rom as (λ (c : Option Bytes). State × Result (Unit {0})) [
                  | none ↦ copy_firmware s (fetch web firmware s.cache)
                  | some content ↦ (s, ok tt)
                ])
                else (s, ok tt)).0.rom
      cases true = copy-Kept s.rom refl
      cases false = inl refl

use_line_rom :
    (swtpm_ends : Option Error) (call : Result ℕ) (dry_run : Bool) (s : State)
    (line : Result (List Text))
    → (use_line swtpm_ends call dry_run s line).0 ≡ s
use_line_rom swtpm_ends call dry_run s (err e) = refl
use_line_rom swtpm_ends call true s (ok args) = refl
use_line_rom swtpm_ends call false s (ok args) = refl

boot_image_rom :
    (w : Outside) (p : Place) (o : Opts) (rom : Option Bytes) (r : Cache × Result RawDisk)
    → (boot_image w.split p w.swtpm_ends w.call o rom r).0.rom ≡ rom
boot_image_rom w p o rom (cache, err e) = refl
boot_image_rom w p o rom (cache, ok raw) =
    ap (λ (s : State). s.rom)
      (use_line_rom w.swtpm_ends w.call o.dry_run (record { cache = cache; rom = rom })
        (boot_args w.split p o (image_path p.cache_dir raw)))

boot_with_rom :
    (w : Outside) (p : Place) (o : Opts) (r : State × Result (Unit {0}))
    → (boot_with w p o r).0.rom ≡ r.0.rom
boot_with_rom w p o (s, err e) = refl
boot_with_rom w p o (s, ok _) =
    boot_image_rom w p o s.rom (unpacked_image w.web w.gunzip w.disk p.env s.cache)

with_opts-Kept :
    (w : Outside) (p : Place) (s : State) (r : Result Opts)
    → IsTrusted w.web firmware s.cache
    → Kept w.web s.rom (with_opts w p s r).0.rom
with_opts-Kept w p s (err e) trusted = inl refl
with_opts-Kept w p s (ok o) trusted = cases (asks_query o.rest)
  where
    cases :
        (asked : Bool)
        → Kept w.web s.rom
            (if asked
              then (s, [], query w.query_ends)
              else boot_with w p o (prepare_firmware w.web o s)).0.rom
    cases true = inl refl
    cases false =
        subst (Kept w.web s.rom) (sym (boot_with_rom w p o (prepare_firmware w.web o s)))
          (prepare_firmware-Kept w.web s trusted o)

pub main-Orderly :
    (w : Outside) (p : Place) (f : Flags) (s : State)
    → IsTrusted w.web firmware s.cache
    → Orderly f.dry_run (asks_query f.rest) (main w p f s) × Kept w.web s.rom (main w p f s).0.rom
unfolding main
main-Orderly w p f s trusted = (
  with_opts-Orderly w p f s (parse_args p.env f) (λ o e. parse_args_keeps p.env f e),
  with_opts-Kept w p s (parse_args p.env f) trusted,
)
