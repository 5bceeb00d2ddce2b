-- ===== src/Machine.antt =====
-- drtmtest/machine.py: the launch machine as QEMU options. `shlex.split` is a function that
-- `extra_args` is given.
use drtm_tests.Prelude.{
  ℕ, Bool, false, Option, none, some, List, [], ◌∷◌, ◌++◌, Text, txt, text_eq, ◌is◌, contains,
  if◌then◌else◌, strip, lower, show, Result, ok, err, runtime_error, value_error,
}
use drtm_tests.QemuVm.Settings.{Env, env_get, or_else, Probe, unsupported_binary as unsupported}

unfoldable pub vendors : List Text
vendors = txt "amd" ∷ txt "intel" ∷ []

unfoldable pub default_cpu : Text
default_cpu = txt "EPYC-Genoa"

abbrev pub default_smp : ℕ
default_smp = 2

unfoldable pub default_mem : Text
default_mem = txt "2G"

unfoldable pub intel_cpu : Text
intel_cpu = txt "Skylake-Client,+smx,+monitor"

unfoldable pub intel_mem : Text
intel_mem = txt "3G"

unfoldable pub intel_iommu : Text
intel_iommu = txt "intel-iommu,intremap=on,eim=on"

unfoldable pub launch_traces : List Text
launch_traces =
    txt "amd_drtm_*"
    ∷ txt "amd_nb_*"
    ∷ txt "amd_psp_*"
    ∷ txt "x86_skinit"
    ∷ txt "x86_vm_cr_write"
    ∷ txt "x86_sipi_after_launch"
    ∷ txt "x86_init_held"
    ∷ txt "x86_init_redirected"
    ∷ []

unfoldable pub intel_traces : List Text
intel_traces = txt "txt_*" ∷ txt "getsec_*" ∷ []

-- `PROBE_OPTIONS[vendor]` of the two vendors
unfoldable pub probe_options : Text → List Text
probe_options vendor =
    if vendor is txt "intel"
    then txt "-machine" ∷ txt "q35,txt-firmware=off" ∷ []
    else txt "-machine" ∷ txt "q35,amd-drtm=on" ∷ []

unfoldable pub psp_device : Text
psp_device = txt "amd-psp,drtm-service=on"

unfoldable pub vendor : Env → Result Text
unfolding env_get or_else vendors
vendor env =
    let value = or_else (lower (strip (env_get env (txt "DRTM_VENDOR") []))) (txt "amd") in
    if contains vendors value then ok value else err runtime_error

unfoldable pub memory : Text → Text
unfolding intel_mem default_mem
memory vendor = if vendor is txt "intel" then intel_mem else default_mem

unfoldable pub psp_mode : Env → Result (Option Text)
unfolding env_get
psp_mode env =
    let value = lower (strip (env_get env (txt "DRTM_PSP") [])) in
    if contains ([] ∷ txt "off" ∷ []) value
    then ok none
    else if contains (txt "on" ∷ txt "classic" ∷ []) value
    then ok (some value)
    else err runtime_error

unfoldable pub extra_args : (Text → List Text) → Env → List Text
unfolding env_get
extra_args split env = split (env_get env (txt "DRTM_QEMU_ARGS") [])

-- Why the QEMU in use cannot boot on a vendor's machine, by how its probe ended.
unfoldable pub unsupported_binary : Env → Probe → Option Text
unsupported_binary env probe = unsupported env [] probe

-- The arguments of `options` that have a default, and what `extra_args()` reads.
pub record Asked : Type 0 where
  pub image : Text
  pub cpu : Option Text
  pub smp : ℕ
  pub mem : Option Text
  pub strict : Bool
  pub snapshot : Bool
  pub psp : Bool
  pub extra : Option (List Text)
  pub vendor : Text

-- `value or default`, of an argument that may be `None`
unfoldable pub chosen : Option Text → Text → Text
unfolding or_else
chosen none default = default
chosen (some value) default = or_else value default

abbrev pub on_off : Bool → Text
on_off b = if b then txt "on" else txt "off"

unfoldable pub trace_args : List Text → List Text
trace_args [] = []
trace_args (trace ∷ traces) = txt "-trace" ∷ trace ∷ trace_args traces

-- The machine and the CPU, the part that the vendor decides
unfoldable pub machine_args : Asked → List Text
unfolding chosen intel_cpu intel_iommu default_cpu
machine_args a =
    if a.vendor is txt "intel"
    then txt "-machine"
      ∷ txt "q35,smm=on,txt=on,txt-firmware=on"
      ∷ txt "-device"
      ∷ intel_iommu
      ∷ txt "-cpu"
      ∷ chosen a.cpu intel_cpu
      ∷ []
    else txt "-machine"
      ∷ txt "q35,smm=on,amd-drtm=on"
      ∷ txt "-cpu"
      ∷ chosen a.cpu default_cpu
      ∷ txt "-global"
      ∷ (txt "amd-drtm-platform.strict=" ++ on_off a.strict)
      ∷ []

unfoldable pub common_args : Asked → List Text
unfolding chosen memory
common_args a =
    txt "-smp"
    ∷ show a.smp
    ∷ txt "-m"
    ∷ chosen a.mem (memory a.vendor)
    ∷ txt "-drive"
    ∷ (txt "file=" ++ (a.image ++ (txt ",format=raw,if=none,id=hd,snapshot=" ++ on_off a.snapshot)))
    ∷ txt "-device"
    ∷ txt "ide-hd,drive=hd"
    ∷ txt "-vga"
    ∷ txt "none"
    ∷ txt "-nic"
    ∷ txt "none"
    ∷ txt "-d"
    ∷ txt "guest_errors"
    ∷ []

abbrev pub psp_args : Bool → List Text
psp_args b = if b then txt "-device" ∷ psp_device ∷ [] else []

unfoldable pub options : Asked → List Text → Result (List Text)
unfolding machine_args common_args trace_args launch_traces intel_traces
options a from_env =
    let traces = if a.vendor is txt "intel" then intel_traces else launch_traces in
    if (if a.vendor is txt "intel" then a.psp else false)
    then err value_error
    else ok (
        machine_args a
        ++ (common_args a
            ++ (psp_args a.psp
                ++ (trace_args traces ++ (elim a.extra [ none ↦ from_env | some extra ↦ extra ])))))
