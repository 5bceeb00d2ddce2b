-- ===== src/TbBoot.antt =====
-- drtmtest/boot.py: `tb-boot`, a boot by hand with the console on stdio. What the command line gives
-- is the record `Flags`; the network, gzip, `shlex.split` and the runs of swtpm and QEMU are
-- arguments.
pub mod Lines
pub mod Runs
mod Tests
use drtm_tests.Prelude.Dict.{lookup}
use drtm_tests.Prelude.{
  ℕ, Bool, true, false, not, ◌&&◌, Option, none, some, List, [], ◌∷◌, ◌++◌, Text, Bytes, txt,
  text_eq, ◌is◌, contains, if◌then◌else◌, get_or, Error, Result, ok, err, ◌>>=◌, system_exit,
  os_error,
}
use drtm_tests.QemuVm.Settings.{
  Env, binary, use_kvm, locality0_drops_hash, tpm_args, pflash_args, qmp_args,
}
use drtm_tests.Machine.{Asked, vendors, vendor, psp_mode, default_smp, options, extra_args}
use drtm_tests.Assets.{Cache, Web, fetch}
use drtm_tests.Dasharo.{firmware}
use drtm_tests.Trenchboot.{RawDisk, local, cached, Disk, unpacked_image}

-- What the command line gives.
pub record Flags : Type 0 where
  pub firmware : Option Text
  pub mem : Option Text
  pub smp : Option ℕ
  pub writable : Bool
  pub dry_run : Bool
  pub graphics : Bool
  pub vendor : Option Text
  pub no_strict : Bool
  pub psp : Bool
  pub rest : List Text

-- What `parse_args` returns.
pub record Opts : Type 0 where
  pub firmware : Text
  pub mem : Option Text
  pub smp : ℕ
  pub writable : Bool
  pub dry_run : Bool
  pub graphics : Bool
  pub vendor : Text
  pub no_strict : Bool
  pub psp : Bool
  pub rest : List Text

unfoldable pub firmwares : List Text
firmwares = txt "dasharo" ∷ txt "seabios" ∷ []

-- An argument with `choices`: argparse ends the program on another value.
abbrev pub choose : List Text → Text → Option Text → Result Text
choose choices default none = ok default
choose choices default (some value) = if contains choices value then ok value else err system_exit

abbrev pub is_on : Option Text → Bool
is_on none = false
is_on (some mode) = true

-- The parser with its defaults, and the check behind it
unfoldable pub parse_args : Env → Flags → Result Opts
unfolding vendor psp_mode vendors firmwares
parse_args env f = do
  default_vendor ← vendor env
  mode ← psp_mode env
  chosen_firmware ← choose firmwares (txt "dasharo") f.firmware
  chosen_vendor ← choose vendors default_vendor f.vendor
  let psp : Bool = if f.psp then true else is_on mode
  if chosen_vendor is txt "intel" && psp
      then err system_exit
      else ok (record {
        firmware = chosen_firmware;
        mem = f.mem;
        smp = get_or default_smp f.smp;
        writable = f.writable;
        dry_run = f.dry_run;
        graphics = f.graphics;
        vendor = chosen_vendor;
        no_strict = f.no_strict;
        psp = psp;
        rest = f.rest;
      })

-- The cache directory, and the copy of the firmware under `run/`.
pub record State : Type 0 where
  pub cache : Cache
  pub rom : Option Bytes

-- `shutil.copy` of what the fetch returned
abbrev pub copy_firmware : State → Cache × Result Text → State × Result (Unit {0})
copy_firmware s (cache, err e) = (record s { cache = cache }, err e)
copy_firmware s (cache, ok name) = elim (lookup name cache) [
  | none ↦ (record s { cache = cache }, err os_error)
  | some content ↦ (record s { cache = cache; rom = some content }, ok tt)
]

-- The firmware's copy, made once and kept between runs
unfoldable pub prepare_firmware : Web → Opts → State → State × Result (Unit {0})
prepare_firmware web o s =
    if o.firmware is txt "dasharo"
    then elim s.rom [
      | none ↦ copy_firmware s (fetch web firmware s.cache)
      | some content ↦ (s, ok tt)
    ]
    else (s, ok tt)

abbrev pub under : Text → Text → Text
under dir name = dir ++ (b'/' ∷ name)

-- The image's path
abbrev pub image_path : Text → RawDisk → Text
image_path cache_dir (local path) = path
image_path cache_dir (cached name) = under cache_dir name

-- `machine.options(...)`
abbrev pub asked_of : Opts → Text → Asked
asked_of o image = record {
  image = image;
  cpu = none;
  smp = o.smp;
  mem = o.mem;
  strict = not o.no_strict;
  snapshot = not o.writable;
  psp = o.psp;
  extra = none;
  vendor = o.vendor;
}

-- Where it runs: the `run` directory, the cache directory, the environment, and whether `/dev/kvm` can
-- be used.
pub record Place : Type 0 where
  pub run_dir : Text
  pub cache_dir : Text
  pub env : Env
  pub usable : Bool

-- The list of words, once its parts are there
unfoldable pub line_of : Place → Opts → Bool → List Text → List Text → List Text
unfolding binary pflash_args qmp_args
line_of p o kvm machine tpm =
    (binary p.env ∷ txt "-accel" ∷ (if kvm then txt "kvm" else txt "tcg") ∷ [])
    ++ ((if o.graphics then [] else txt "-display" ∷ txt "none" ∷ [])
        ++ ((txt "-action"
              ∷ txt "panic=pause"
              ∷ txt "-D"
              ∷ under p.run_dir (txt "qemu.log")
              ∷ machine)
            ++ (tpm
                ++ (qmp_args (under p.run_dir (txt "qmp.sock"))
                    ++ ((if o.graphics
                          then txt "-display" ∷ txt "sdl" ∷ txt "-vga" ∷ txt "std" ∷ []
                          else [])
                        ++ ((if o.firmware is txt "dasharo"
                              then pflash_args (under p.run_dir (txt "firmware.rom"))
                              else [])
                            ++ (txt "-serial" ∷ txt "mon:stdio" ∷ o.rest)))))))

-- The command line of QEMU, with `shlex.split`
unfoldable pub boot_args : (Text → List Text) → Place → Opts → Text → Result (List Text)
unfolding use_kvm options extra_args tpm_args locality0_drops_hash line_of
boot_args split p o image = do
  kvm ← use_kvm p.env p.usable
  machine ← options (asked_of o image) (extra_args split p.env)
  drops_hash ← locality0_drops_hash p.env
  tpm ← tpm_args (under p.run_dir (txt "swtpm.sock")) (txt "tis") drops_hash
  ok (line_of p o kvm machine tpm)

-- What `main` did when it returned: it asked for the launch record, printed the command line, or ran
-- it, with the exit code.
pub data Ending : Type 0 where
  queried : Ending
  printed : List Text → Ending
  ran : List Text → ℕ → Ending

-- What happens to the processes: swtpm starts, QEMU is called, and swtpm is terminated and waited for.
pub data ProcessEvent : Type 0 where
  started terminated waited : ProcessEvent
  called : List Text → ProcessEvent

-- The part that starts processes: what `start_swtpm` raises, which leaves none running then, and how
-- `subprocess.call` ends.
unfoldable pub run_line : Option Error → Result ℕ → List Text → List ProcessEvent × Result Ending
run_line (some e) call args = ([], err e)
run_line none call args =
    (started ∷ called args ∷ terminated ∷ waited ∷ [], call >>= λ code. ok (ran args code))

-- `main` behind the command line: it is printed or run.
abbrev pub use_line :
    Option Error
    → Result ℕ
    → Bool
    → State
    → Result (List Text)
    → State × List ProcessEvent × Result Ending
use_line swtpm_ends call dry_run s (err e) = (s, [], err e)
use_line swtpm_ends call dry_run s (ok args) =
    let (events, ended) = run_line swtpm_ends call args in
    if dry_run then (s, [], ok (printed args)) else (s, events, ended)

-- `main` behind the firmware, with what `unpacked_image` gave
abbrev pub boot_image :
    (Text → List Text)
    → Place
    → Option Error
    → Result ℕ
    → Opts
    → Option Bytes
    → Cache × Result RawDisk
    → State × List ProcessEvent × Result Ending
boot_image split p swtpm_ends call o rom (cache, err e) =
    (record { cache = cache; rom = rom }, [], err e)
boot_image split p swtpm_ends call o rom (cache, ok raw) =
    use_line swtpm_ends call o.dry_run (record { cache = cache; rom = rom })
      (boot_args split p o (image_path p.cache_dir raw))

-- `opts.rest[:1] == ["query"]`
abbrev pub asks_query : List Text → Bool
asks_query [] = false
asks_query (word ∷ words) = word is txt "query"

-- What `main` is given besides: the network, gzip, the file system, `shlex.split`, how `start_swtpm` and
-- the call of QEMU end, and how the query ends.
pub record Outside : Type 0 where
  pub web : Web
  pub gunzip : Bytes → Bytes × Option Error
  pub disk : Disk
  pub split : Text → List Text
  pub swtpm_ends : Option Error
  pub call : Result ℕ
  pub query_ends : Option Error

abbrev pub query : Option Error → Result Ending
query none = ok queried
query (some e) = err e

-- `main` with its options behind the query
abbrev pub boot_with :
    Outside → Place → Opts → State × Result (Unit {0}) → State × List ProcessEvent × Result Ending
boot_with w p o (s, err e) = (s, [], err e)
boot_with w p o (s, ok _) =
    boot_image w.split p w.swtpm_ends w.call o s.rom
      (unpacked_image w.web w.gunzip w.disk p.env s.cache)

-- `main` behind the parser
abbrev pub with_opts :
    Outside → Place → State → Result Opts → State × List ProcessEvent × Result Ending
with_opts w p s (err e) = (s, [], err e)
with_opts w p s (ok o) =
    if asks_query o.rest
    then (s, [], query w.query_ends)
    else boot_with w p o (prepare_firmware w.web o s)

unfoldable pub main : Outside → Place → Flags → State → State × List ProcessEvent × Result Ending
unfolding parse_args prepare_firmware boot_args run_line
main w p f s = with_opts w p s (parse_args p.env f)
