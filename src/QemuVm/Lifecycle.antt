-- ===== src/QemuVm/Lifecycle.antt =====
-- `QemuVm.__enter__` and `__exit__`: what a block starts on the host and what it takes down. What the
-- processes and the sockets do is what the functions are given.
pub mod Cleanup
mod Tests
use drtm_tests.Prelude.{
  ℕ, ◌+◌, ◌-◌, Bool, true, false, not, ◌&&◌, Option, none, some, List, [], ◌∷◌, ◌++◌, Text, Bytes,
  txt, text_eq, bool_eq, ◌is◌, if◌then◌else◌, join, show, Error, Result, ok, err, runtime_error,
  timeout_error, qemu_exited,
}
use drtm_tests.QemuVm.Settings.{Settings, tpm_args, pflash_args, qmp_args, tpm_is_1_2}

pub data Process : Type 0 where
  swtpm qemu : Process

-- The host: what runs, the sockets' names in the file system, whether the scratch directory is there,
-- how many log files are open, the processes in the order in which they were stopped, and the
-- firmware that was saved.
pub record Host : Type 0 where
  pub runs_swtpm : Bool
  pub runs_qemu : Bool
  pub sockets : List Text
  pub workdir : Bool
  pub open_files : ℕ
  pub stopped : List Process
  pub saved : Option Bytes

-- The attributes of a `QemuVm` that `__enter__` sets and `__exit__` reads.
pub record Handles : Type 0 where
  pub swtpm : Bool
  pub process : Bool
  pub connected : Bool
  pub swtpm_sock : Option Text
  pub qmp_sock : Option Text
  pub firmware_copy : Bool
  pub workdir : Bool
  pub files : ℕ

-- The arguments of `QemuVm`: its options, the flash, the TPM, and whether the flash is saved.
pub record Boot : Type 0 where
  pub settings : Settings
  pub options : List Text
  pub log_dir : Text
  pub firmware : Option Bytes
  pub tpm : Option Text
  pub save_firmware : Bool

-- What the host does during `__enter__`: the sockets' names that it reserves, the serial port, where
-- the flash's copy goes, and the exceptions of `start_swtpm`, which leaves no swtpm behind then, and
-- of `_connect_serial`.
pub record World : Type 0 where
  pub swtpm_sock : Text
  pub qmp_sock : Text
  pub serial_port : ℕ
  pub firmware_path : Text
  pub swtpm_ends : Option Error
  pub connect_ends : Option Error

unfoldable pub fresh_block : Handles
fresh_block = record {
  swtpm = false;
  process = false;
  connected = false;
  swtpm_sock = none;
  qmp_sock = none;
  firmware_copy = false;
  workdir = false;
  files = 0;
}

-- The arguments in front of the flash and the TPM
unfoldable pub base_args : Boot → List Text
base_args b =
    b.settings.binary
    ∷ txt "-accel"
    ∷ (if b.settings.kvm then txt "kvm" else txt "tcg")
    ∷ txt "-display"
    ∷ txt "none"
    ∷ txt "-action"
    ∷ txt "panic=pause"
    ∷ txt "-D"
    ∷ (b.log_dir ++ txt "/qemu.log")
    ∷ b.options

unfoldable pub firmware_args : Boot → World → List Text
firmware_args b w = elim b.firmware [ none ↦ [] | some _ ↦ pflash_args w.firmware_path ]

unfoldable pub serial_args : World → List Text
serial_args w = txt "-serial" ∷ (txt "tcp:127.0.0.1:" ++ (show w.serial_port ++ txt ",server")) ∷ []

-- The scratch directory, the two log files and the copy of the flash
unfoldable pub prepare : Boot → Host → Handles → Host × Handles
prepare b h v = (
  record h { workdir = true; open_files = h.open_files + 2 },
  record v {
    workdir = true;
    files = 2;
    firmware_copy = elim b.firmware [ none ↦ false | some _ ↦ true ];
  },
)

-- The TPM: its log file and its socket's name, swtpm, and its arguments.
unfoldable pub attach : Boot → World → Text → Host → Handles → Host × Handles × Result (List Text)
attach b w kind h v =
    let logged : Host = record h { open_files = h.open_files + 1 } in
    let named : Handles = record v { files = v.files + 1; swtpm_sock = some w.swtpm_sock } in
    elim w.swtpm_ends [
      | some e ↦ (logged, named, err e)
      | none ↦ (
        record logged { runs_swtpm = true; sockets = w.swtpm_sock ∷ h.sockets },
        record named { swtpm = true },
        tpm_args w.swtpm_sock kind b.settings.drops_hash,
      )
    ]

unfoldable pub attach_tpm : Boot → World → Host × Handles → Host × Handles × Result (List Text)
unfolding attach
attach_tpm b w (h, v) = elim b.tpm [ none ↦ (h, v, ok []) | some kind ↦ attach b w kind h v ]

-- The whole command line, with the TPM's arguments
abbrev pub launch_args : Boot → World → List Text → List Text
launch_args b w tpm =
    base_args b ++ (firmware_args b w ++ (tpm ++ (qmp_args w.qmp_sock ++ serial_args w)))

-- `_connect_serial` raises `QemuExited` once the process is gone.
abbrev pub left_running : Error → Bool
left_running qemu_exited = false
left_running _ = true

-- QEMU, whose QMP socket appears, and the console.
unfoldable pub launch :
    Boot → World → Host × Handles × Result (List Text) → Host × Handles × Result (List Text)
launch b w (h, v, err e) = (h, v, err e)
launch b w (h, v, ok tpm) =
    let started : Host = record h { runs_qemu = true; sockets = w.qmp_sock ∷ h.sockets } in
    let running : Handles = record v { qmp_sock = some w.qmp_sock; process = true } in
    elim w.connect_ends [
      | some e ↦ (record started { runs_qemu = left_running e }, running, err e)
      | none ↦ (started, record running { connected = true }, ok (launch_args b w tpm))
    ]

unfoldable pub enter_block : Boot → World → Host → Host × Handles × Result (List Text)
unfolding prepare attach_tpm launch fresh_block
enter_block b w h = launch b w (attach_tpm b w (prepare b h fresh_block))

-- `unlink(missing_ok=True)`
unfoldable pub unlink : Option Text → List Text → List Text
unlink none sockets = sockets
unlink (some name) [] = []
unlink (some name) (s ∷ sockets) =
    let rest = unlink (some name) sockets in if name is s then rest else s ∷ rest

-- `terminate`, then `kill` after five seconds: the process is gone either way.
unfoldable pub stop_qemu : Handles → Host → Host
stop_qemu v h =
    if v.process then record h { runs_qemu = false; stopped = h.stopped ++ (qemu ∷ []) } else h

unfoldable pub stop_swtpm : Handles → Host → Host
stop_swtpm v h =
    if v.swtpm then record h { runs_swtpm = false; stopped = h.stopped ++ (swtpm ∷ []) } else h

-- `__exit__`: `clean` says that the block raised nothing, and `flash` is what is in the flash's copy
-- once QEMU is down.
unfoldable pub exit : Boot → Bool → Bytes → Handles → Host → Host
unfolding stop_qemu stop_swtpm unlink
exit b clean flash v h =
    let down = stop_swtpm v (stop_qemu v h) in
    record down {
      sockets = unlink v.qmp_sock (unlink v.swtpm_sock down.sockets);
      saved = if b.save_firmware && (clean && v.firmware_copy) then some flash else down.saved;
      workdir = if v.workdir then false else down.workdir;
      open_files = down.open_files - v.files;
    }
