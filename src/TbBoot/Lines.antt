-- ===== src/TbBoot/Lines.antt =====
-- The command line of `tb-boot` against the one of a `QemuVm` block that boots the same.
use drtm_tests.Prelude.{
  ℕ, ◌≡◌, refl, ap, ◌∙◌, Bool, true, false, Option, none, some, List, [], ◌∷◌, ◌++◌, Text, Bytes,
  txt, text_eq, ◌is◌, if◌then◌else◌, arith, ok, >>=-eq-ok,
}
use drtm_tests.QemuVm.Settings.{
  Settings, from_environment, binary, use_kvm, locality0_drops_hash, tpm_args, pflash_args,
  qmp_args, tpm_kinds,
}
use drtm_tests.QemuVm.Lifecycle as Lifecycle
use drtm_tests.QemuVm.Lifecycle.{Boot, base_args, firmware_args, serial_args, launch_args}
use drtm_tests.Machine.{options, extra_args}
use drtm_tests.TbBoot.{Place, Opts, asked_of, under, line_of, boot_args}

abbrev pub flash_given : Bool → Option Bytes
flash_given b = if b then some [] else none

-- The block that boots the same: its sockets and its firmware's copy are those under `run`.
abbrev pub block_of : Place → Opts → Settings → List Text → Boot
block_of p o settings machine = record {
  settings = settings;
  options = machine;
  log_dir = p.run_dir;
  firmware = flash_given (o.firmware is txt "dasharo");
  tpm = some (txt "tis");
  save_firmware = false;
}

abbrev pub world_of : Place → ℕ → Lifecycle.World
world_of p port = record {
  swtpm_sock = under p.run_dir (txt "swtpm.sock");
  qmp_sock = under p.run_dir (txt "qmp.sock");
  serial_port = port;
  firmware_path = under p.run_dir (txt "firmware.rom");
  swtpm_ends = none;
  connect_ends = none;
}

-- What the environment's settings are once they were read.
pub record IsRead (p : Place) (settings : Settings) : Type 0 where
  pub binary_is : settings.binary ≡ binary p.env
  pub kvm_is : use_kvm p.env p.usable ≡ ok settings.kvm
  pub drops_is : locality0_drops_hash p.env ≡ ok settings.drops_hash

from_environment-IsRead :
    (p : Place) (which : Text → Option Text) (settings : Settings)
    → from_environment p.env p.usable which ≡ ok settings
    → IsRead p settings
unfolding from_environment
from_environment-IsRead p which settings e =
    let (kvm, has_kvm, rest) = >>=-eq-ok (use_kvm p.env p.usable) _ e in
    let (drops, has_drops, made) = >>=-eq-ok (locality0_drops_hash p.env) _ rest in
    record { binary_is = ground arith; kvm_is = ground arith; drops_is = ground arith }

tis_args :
    (sock : Text) (drops : Bool) → (tpm : List Text) × (tpm_args sock (txt "tis") drops ≡ ok tpm)
unfolding tpm_args tpm_kinds txt text_eq
tis_args sock drops = (_, refl)

boot_args_of :
    (split : Text → List Text) (p : Place) (o : Opts) (image : Text) (settings : Settings)
    {machine tpm : List Text}
    → IsRead p settings
    → options (asked_of o image) (extra_args split p.env) ≡ ok machine
    → tpm_args (under p.run_dir (txt "swtpm.sock")) (txt "tis") settings.drops_hash ≡ ok tpm
    → boot_args split p o image ≡ ok (line_of p o settings.kvm machine tpm)
unfolding boot_args
boot_args_of split p o image settings read has_machine has_tpm =
    rw (read.kvm_is, has_machine, read.drops_is, has_tpm) refl

log_path : (dir : Text) → under dir (txt "qemu.log") ≡ dir ++ txt "/qemu.log"
unfolding txt
log_path dir = refl

abbrev flash_if : Bool → Text → List Text
flash_if dasharo path = if dasharo then pflash_args path else []

flash_of :
    (dasharo : Bool) (path : Text)
    → flash_if dasharo path
      ≡ (elim (flash_given dasharo) [ none ↦ [] | some content ↦ pflash_args path ])
flash_of true path = refl
flash_of false path = refl

line_of-base_args :
    (p : Place) (o : Opts) (settings : Settings) (machine tpm : List Text) (port : ℕ)
    → o.graphics ≡ false
    → settings.binary ≡ binary p.env
    → line_of p o settings.kvm machine tpm
      ≡ base_args (block_of p o settings machine)
        ++ (tpm
            ++ (qmp_args (under p.run_dir (txt "qmp.sock"))
                ++ (firmware_args (block_of p o settings machine) (world_of p port)
                    ++ (txt "-serial" ∷ txt "mon:stdio" ∷ o.rest))))
unfolding line_of base_args firmware_args
line_of-base_args p o settings machine tpm port plain same =
    rw
      (
        plain,
        same,
        flash_of (o.firmware is txt "dasharo") (under p.run_dir (txt "firmware.rom")),
        log_path p.run_dir,
      )
      refl

-- The command line of `tb-boot` without graphics against the one of a `QemuVm` block with the same
-- settings, options, paths and flash behind swtpm as a TIS: once the settings and the options are there,
-- the line is there too. Both lines begin with the block's words in front of the flash, and have the same
-- words for the TPM, QMP and the flash; the flash stands behind the two others here and in front of
-- them there. The console is on stdio here, with the user's own arguments behind it, and on a socket
-- there.
pub boot_args-launch_args :
    (split : Text → List Text) (which : Text → Option Text) (p : Place) (o : Opts) (image : Text)
    (settings : Settings) (machine : List Text) (port : ℕ)
    → o.graphics ≡ false
    → from_environment p.env p.usable which ≡ ok settings
    → options (asked_of o image) (extra_args split p.env) ≡ ok machine
    → (tpm : List Text) × (tpm_args
          (under p.run_dir (txt "swtpm.sock"))
          (txt "tis")
          settings.drops_hash
        ≡ ok tpm)
      × (boot_args split p o image
          ≡ ok (
              base_args (block_of p o settings machine)
              ++ (tpm
                  ++ (qmp_args (under p.run_dir (txt "qmp.sock"))
                      ++ (firmware_args (block_of p o settings machine) (world_of p port)
                          ++ (txt "-serial" ∷ txt "mon:stdio" ∷ o.rest))))))
      × (launch_args (block_of p o settings machine) (world_of p port) tpm
          ≡ base_args (block_of p o settings machine)
            ++ (firmware_args (block_of p o settings machine) (world_of p port)
                ++ (tpm
                    ++ (qmp_args (under p.run_dir (txt "qmp.sock"))
                        ++ serial_args (world_of p port)))))
boot_args-launch_args split which p o image settings machine port plain read has_machine =
    let settings_read = from_environment-IsRead p which settings read in
    let (tpm, has_tpm) = tis_args (under p.run_dir (txt "swtpm.sock")) settings.drops_hash in
    (
      tpm,
      has_tpm,
      boot_args_of split p o image settings settings_read has_machine has_tpm
          ∙ ap ok (line_of-base_args p o settings machine tpm port plain settings_read.binary_is),
      refl,
    )
