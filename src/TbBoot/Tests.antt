-- ===== src/TbBoot/Tests.antt =====
-- A boot of a local image under SeaBIOS, printed and run.
use drtm_tests.Prelude.Dict.{lookup}
use drtm_tests.Prelude.{
  ◌≡◌, refl, true, false, none, some, List, [], ◌∷◌, ◌++◌, Text, txt, text_eq, strip, lower, ok,
  err, system_exit, timeout_error,
}
use drtm_tests.Prelude.Hex.{hex_bytes}
use drtm_tests.QemuVm.Settings.{
  Env, Settings, from_environment, binary, default_banks, tpm_args, qmp_args,
}
use drtm_tests.QemuVm.Lifecycle.{base_args, firmware_args, serial_args, launch_args}
use drtm_tests.Machine.{options, extra_args}
use drtm_tests.Assets.{complete}
use drtm_tests.TbBoot.{
  Flags, Opts, State, Place, Outside, queried, main, boot_args, asked_of, under, parse_args,
}
use drtm_tests.TbBoot.Lines.{block_of, world_of, boot_args-launch_args}
use drtm_tests.TbBoot.Runs.{Orderly, Kept, main-Orderly}

abbrev env : Env
env = (txt "DRTM_TB_IMAGE", txt "/disk") ∷ []

abbrev place : Place
place = record { run_dir = txt "run"; cache_dir = txt "cache"; env = env; usable = false }

abbrev split : Text → List Text
split s = []

abbrev world : Outside
world = record {
  web = record { download = λ url. complete (1 ∷ []); sha256_of = hex_bytes };
  gunzip = λ raw. (raw, none);
  disk = record { resolve = λ path. path; is_file = λ path. true };
  split = split;
  swtpm_ends = none;
  call = err timeout_error;
  query_ends = none;
}

abbrev flags : Flags
flags = record {
  firmware = some (txt "seabios");
  mem = none;
  smp = none;
  writable = false;
  dry_run = false;
  graphics = false;
  vendor = none;
  no_strict = false;
  psp = false;
  rest = [];
}

abbrev state : State
state = record { cache = []; rom = none }

asked_for_record :
    main world place (record flags { rest = txt "query" ∷ [] }) state ≡ (state, [], ok queried)
unfolding main lookup strip lower text_eq txt
asked_for_record = refl

no_psp_on_intel :
    parse_args env (record flags { vendor = some (txt "intel"); psp = true }) ≡ err system_exit
unfolding parse_args lookup strip lower text_eq txt
no_psp_on_intel = refl

main-Orderly_example :
    Orderly false false (main world place flags state)
    × Kept world.web none (main world place flags state).0.rom
unfolding lookup
main-Orderly_example = main-Orderly world place flags state (λ content found. cc)

abbrev opts : Opts
opts = record {
  firmware = txt "dasharo";
  mem = none;
  smp = 2;
  writable = false;
  dry_run = true;
  graphics = false;
  vendor = txt "amd";
  no_strict = false;
  psp = false;
  rest = [];
}

abbrev settings : Settings
settings = record {
  binary = binary env;
  kvm = false;
  banks = default_banks;
  swtpm_log_level = none;
  swtpm_setup = txt "swtpm_setup";
  swtpm = txt "swtpm";
  environment = env;
  drops_hash = true;
}

settings_read : from_environment env false (λ name. none) ≡ ok settings
unfolding from_environment lookup strip lower text_eq txt
settings_read = refl

machine_options :
    (machine : List Text) × (options (asked_of opts (txt "/disk")) (extra_args split env)
      ≡ ok machine)
unfolding options text_eq txt
machine_options = (_, refl)

boot_args-launch_args_example :
    (tpm : List Text) × (tpm_args (under (txt "run") (txt "swtpm.sock")) (txt "tis") true ≡ ok tpm)
    × (boot_args split place opts (txt "/disk")
        ≡ ok (
            base_args (block_of place opts settings machine_options.0)
            ++ (tpm
                ++ (qmp_args (under (txt "run") (txt "qmp.sock"))
                    ++ (firmware_args
                          (block_of place opts settings machine_options.0)
                          (world_of place 7)
                        ++ (txt "-serial" ∷ txt "mon:stdio" ∷ []))))))
    × (launch_args (block_of place opts settings machine_options.0) (world_of place 7) tpm
        ≡ base_args (block_of place opts settings machine_options.0)
          ++ (firmware_args (block_of place opts settings machine_options.0) (world_of place 7)
              ++ (tpm
                  ++ (qmp_args (under (txt "run") (txt "qmp.sock"))
                      ++ serial_args (world_of place 7)))))
boot_args-launch_args_example =
    boot_args-launch_args split (λ name. none) place opts (txt "/disk") settings machine_options.0 7
      refl settings_read machine_options.1
