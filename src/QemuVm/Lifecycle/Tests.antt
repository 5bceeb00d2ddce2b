-- ===== src/QemuVm/Lifecycle/Tests.antt =====
-- A boot with a TPM and a flash, and one whose console cannot be connected.
use drtm_tests.Prelude.{
  ◌≡◌, refl, true, false, none, some, List, [], ◌∷◌, Text, txt, text_eq, err, timeout_error,
}
use drtm_tests.QemuVm.Settings.{Settings, tpm_args, tpm_kinds}
use drtm_tests.QemuVm.Lifecycle.{Boot, World, enter_block, exit, launch_args}
use drtm_tests.QemuVm.Lifecycle.Cleanup.{
  idle, IsClean, stopped_by, exit-enter_block-IsClean, enter_block_leaks, exit-enter_block_lem,
}

abbrev settings : Settings
settings = record {
  binary = txt "qemu";
  kvm = false;
  banks = [];
  swtpm_log_level = none;
  swtpm_setup = txt "swtpm_setup";
  swtpm = txt "swtpm";
  environment = [];
  drops_hash = false;
}

abbrev boot : Boot
boot = record {
  settings = settings;
  options = [];
  log_dir = txt "logs";
  firmware = some (1 ∷ []);
  tpm = some (txt "tis");
  save_firmware = true;
}

abbrev world : World
world = record {
  swtpm_sock = txt "s";
  qmp_sock = txt "q";
  serial_port = 4444;
  firmware_path = txt "f";
  swtpm_ends = none;
  connect_ends = none;
}

abbrev refusing : World
refusing = record world { connect_ends = some timeout_error }

exit-enter_block-IsClean_example : IsClean 3 (
    exit boot false []
      (enter_block boot refusing (idle 3)).1
      (enter_block boot refusing (idle 3)).0)
exit-enter_block-IsClean_example = exit-enter_block-IsClean 3 boot refusing false []

abbrev bare_boot : Boot
bare_boot = record boot { tpm = none }

enter_block_leaks_example :
    ((enter_block bare_boot refusing (idle 3)).2 ≡ err timeout_error)
    × ((enter_block bare_boot refusing (idle 3)).0.runs_qemu ≡ true)
    × ((enter_block bare_boot refusing (idle 3)).0.workdir ≡ true)
    × ((enter_block bare_boot refusing (idle 3)).0.sockets ≡ txt "q" ∷ [])
enter_block_leaks_example = enter_block_leaks 3 bare_boot refusing refl refl

abbrev tis_args : List Text
tis_args =
    txt "-chardev"
    ∷ txt "socket,id=chrtpm,path=s"
    ∷ txt "-tpmdev"
    ∷ txt "emulator,id=tpm0,chardev=chrtpm"
    ∷ txt "-device"
    ∷ txt "tpm-tis,tpmdev=tpm0"
    ∷ []

exit-enter_block_lem_example :
    ((exit boot true
        (7 ∷ [])
        (enter_block boot world (idle 3)).1
        (enter_block boot world (idle 3)).0).stopped
      ≡ stopped_by boot.tpm)
    × ((exit boot true
          (7 ∷ [])
          (enter_block boot world (idle 3)).1
          (enter_block boot world (idle 3)).0).saved
        ≡ some (7 ∷ []))
unfolding enter_block tpm_args tpm_kinds text_eq txt
exit-enter_block_lem_example =
    exit-enter_block_lem 3 boot world true (7 ∷ []) {args = launch_args boot world tis_args} refl
