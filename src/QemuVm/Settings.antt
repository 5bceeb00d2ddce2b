-- ===== src/QemuVm/Settings.antt =====
-- What the environment says of a boot, and the command lines that it turns into. An environment is
-- a dict; `shutil.which`, `/dev/kvm` and the probe's run are what the functions are given.
use drtm_tests.Prelude.Dict.{Dict, lookup}
use drtm_tests.Prelude.{
  ℕ, ◌==◌, Bool, true, false, not, ◌&&◌, Option, none, some, List, [], ◌∷◌, ◌++◌, Text, txt,
  text_eq, ◌is◌, contains, if◌then◌else◌, strip, lower, split_on, split_lines, show, contains_text,
  Result, ok, err, ◌>>=◌, value_error, runtime_error,
}

abbrev pub Env : Type 0
Env = Dict Text Text

-- `os.environ.get(key, default)`
unfoldable pub env_get : Env → Text → Text → Text
env_get env key default = elim (lookup key env) [ none ↦ default | some value ↦ value ]

-- `value or default`, of a text
unfoldable pub or_else : Text → Text → Text
or_else [] default = default
or_else (c ∷ s) default = c ∷ s

unfoldable pub binary : Env → Text
unfolding env_get
binary env = env_get env (txt "DRTM_QEMU_BINARY") (txt "qemu-system-x86_64")

-- `usable` is what `os.access` says of `/dev/kvm`.
unfoldable pub use_kvm : Env → Bool → Result Bool
unfolding env_get
use_kvm env usable =
    let accel = lower (env_get env (txt "DRTM_QEMU_ACCEL") (txt "tcg")) in
    if accel is txt "tcg"
    then ok false
    else if accel is txt "kvm"
    then ok true
    else if not (accel is txt "auto")
    then err value_error
    else ok usable

-- How the probe's run ends: no such program, the time ran out, or its exit code and its errors.
pub data Probe : Type 0 where
  not_found timed_out : Probe
  finished : Bool → ℕ → Text → Probe

abbrev last_line : List Text → Option Text
last_line [] = none
last_line (l ∷ []) = some l
last_line (_ ∷ l ∷ ls) = last_line (l ∷ ls)

unfoldable pub rejected : List (Text × Text) → Text → Option Text
unfolding contains_text
rejected [] stderr = none
rejected ((needle, reason) ∷ rejects) stderr =
    if contains_text stderr needle then some reason else rejected rejects stderr

-- `unsupported_binary`, on the end of its probe; the flag of a finished one says that its exit code
-- is negative.
unfoldable pub unsupported_binary : Env → List (Text × Text) → Probe → Option Text
unfolding binary rejected
unsupported_binary env rejects not_found = some (binary env ++ txt " was not found")
unsupported_binary env rejects timed_out = some (binary env ++ txt " did not quit within 30s")
unsupported_binary env rejects (finished negative code stderr) =
    let number = if negative then b'-' ∷ show code else show code in
    if not (code == 0)
    then elim (last_line (split_lines (strip stderr))) [
      | none ↦ some (txt "it exited with " ++ number)
      | some line ↦ some line
    ]
    else rejected rejects stderr

-- The probe's command line
unfoldable pub probe_args : Env → List Text → List Text
unfolding binary
probe_args env options =
    binary env
    ∷ txt "-accel"
    ∷ txt "tcg"
    ∷ txt "-nodefaults"
    ∷ txt "-display"
    ∷ txt "none"
    ∷ txt "-S"
    ∷ txt "-monitor"
    ∷ txt "stdio"
    ∷ options

unfoldable pub tpm_kinds : List Text
tpm_kinds = txt "tis" ∷ txt "crb" ∷ txt "tis-1.2" ∷ []

unfoldable pub tpm_is_1_2 : Text → Bool
tpm_is_1_2 kind = kind is txt "tis-1.2"

unfoldable pub locality0_drops_hash : Env → Result Bool
unfolding env_get
locality0_drops_hash env =
    let value = lower (strip (env_get env (txt "DRTM_LOCALITY0_DROPS_HASH") [])) in
    if contains ([] ∷ txt "on" ∷ []) value
    then ok true
    else if value is txt "off"
    then ok false
    else err runtime_error

unfoldable pub tpm_args : Text → Text → Bool → Result (List Text)
unfolding tpm_kinds tpm_is_1_2
tpm_args sock kind drops_hash =
    if not (contains tpm_kinds kind)
    then err value_error
    else let frontend = if tpm_is_1_2 kind then txt "tis" else kind in
      let device = txt "tpm-" ++ (frontend ++ txt ",tpmdev=tpm0") in
      ok (
        txt "-chardev"
        ∷ (txt "socket,id=chrtpm,path=" ++ sock)
        ∷ txt "-tpmdev"
        ∷ txt "emulator,id=tpm0,chardev=chrtpm"
        ∷ txt "-device"
        ∷ (if frontend is txt "tis" && drops_hash
            then device ++ txt ",locality0-drops-hash=on"
            else device)
        ∷ [])

unfoldable pub pflash_args : Text → List Text
pflash_args firmware = txt "-drive" ∷ (txt "if=pflash,format=raw,file=" ++ firmware) ∷ []

unfoldable pub qmp_args : Text → List Text
qmp_args sock = txt "-qmp" ∷ (txt "unix:" ++ (sock ++ txt ",server,nowait")) ∷ []

unfoldable pub default_banks : List Text
default_banks = txt "sha1" ∷ txt "sha256" ∷ []

-- The words of a comma-separated list, stripped, the empty ones dropped
unfoldable pub words : List Text → List Text
words [] = []
words (w ∷ ws) = let rest = words ws in elim (strip w) [ [] ↦ rest | c ∷ s ↦ (c ∷ s) ∷ rest ]

unfoldable pub pcr_banks : Env → List Text
unfolding env_get words default_banks
pcr_banks env = elim (lower (strip (env_get env (txt "DRTM_PCR_BANKS") []))) [
  | [] ↦ default_banks
  | c ∷ s ↦ words (split_on b',' (c ∷ s))
]

pub record Settings : Type 0 where
  pub binary : Text
  pub kvm : Bool
  pub banks : List Text
  pub swtpm_log_level : Option Text
  pub swtpm_setup : Text
  pub swtpm : Text
  pub environment : Env
  pub drops_hash : Bool

-- `which(name) or name`
unfoldable pub found_or_name : (Text → Option Text) → Text → Text
unfolding or_else
found_or_name which name = elim (which name) [ none ↦ name | some path ↦ or_else path name ]

unfoldable pub from_environment : Env → Bool → (Text → Option Text) → Result Settings
unfolding binary use_kvm pcr_banks found_or_name locality0_drops_hash
from_environment env usable which = do
  kvm ← use_kvm env usable
  drops_hash ← locality0_drops_hash env
  ok (record {
    binary = binary env;
    kvm = kvm;
    banks = pcr_banks env;
    swtpm_log_level = lookup (txt "DRTM_SWTPM_LOG_LEVEL") env;
    swtpm_setup = found_or_name which (txt "swtpm_setup");
    swtpm = found_or_name which (txt "swtpm");
    environment = env;
    drops_hash = drops_hash;
  })
