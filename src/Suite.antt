-- ===== src/Suite.antt =====
-- tests/conftest.py: the entries of the menu that a session boots, what is expected of them, and the plan of
-- a session: its check, its workers and the tests that it drops. What the module reads of its surroundings at
-- import is the record `Surroundings`.
pub mod Expects
pub mod Machines
pub mod Plan
pub mod Intel
pub mod Fits
mod Tests
use drtm_tests.Prelude.Dict.{Dict, lookup}
use drtm_tests.Prelude.{
  ℕ, ◌==◌, Bool, true, false, not, ◌&&◌, ◌||◌, Option, none, some, List, [], ◌∷◌, ◌++◌, Text, txt,
  text_eq, ◌is◌, contains, every, if◌then◌else◌,
}
use drtm_tests.QemuVm.Settings.{default_banks}
use drtm_tests.Matrix.{same_texts}

-- VENDOR, PSP, BANKS, and what `trenchboot` says of the image.
pub record Surroundings : Type 0 where
  pub vendor : Text
  pub psp : Option Text
  pub banks : List Text
  pub upstream : Bool
  pub legacy_bootable : Bool

pub record Entry : Type 0 where
  pub title : Text
  pub os : Text
  pub launch : Bool
  pub firmware : Text
  pub broken : Option Text
  pub intel_broken : Option Text
  pub amd_only : Bool
  pub parameter : Option Text
  pub prelude : List Text
  pub devices : List Text

-- `Entry` with the defaults of its fields
abbrev pub plain : Text → Text → Bool → Entry
plain title os launch = record {
  title = title;
  os = os;
  launch = launch;
  firmware = txt "dasharo";
  broken = none;
  intel_broken = none;
  amd_only = false;
  parameter = none;
  prelude = [];
  devices = [];
}

abbrev pub linux_title : Text
linux_title = txt "Boot Linux with TrenchBoot"

abbrev pub no_intel_iommu : Option Text
no_intel_iommu = some (txt "no CONFIG_INTEL_IOMMU: the VT-d PMRs stay on and block the disk")

abbrev pub legacy_launch : Entry
legacy_launch = record (plain linux_title (txt "linux") true) {
  firmware = txt "seabios";
  intel_broken = no_intel_iommu;
}

abbrev pub is_absent : Option Text → Bool
is_absent none = true
is_absent (some value) = false

abbrev pub efi_debug_launch : Option Text → Entry
efi_debug_launch psp = record (plain (txt "Boot Xen with TrenchBoot (EFI)") (txt "xen") true) {
  amd_only = true;
  broken =
      if is_absent psp
      then some (txt "GRUB's debug print after exit_boot_services goes to the EFI console")
      else none;
  prelude = txt "set debug=slaunch" ∷ [];
  devices = if is_absent psp then txt "-device" ∷ txt "amd-psp,device-id=0x1537" ∷ [] else [];
}

-- `ENTRIES`, by the names of their fixtures
unfoldable pub entries : Option Text → Dict Text Entry
entries psp =
    (txt "xen_efi_launch", plain (txt "Boot Xen with TrenchBoot (EFI)") (txt "xen") true)
    ∷ (txt "xen_efi", plain (txt "Boot Xen normally (EFI)") (txt "xen") false)
    ∷ (
      txt "xen_mb2_launch",
      record (plain (txt "Boot Xen with TrenchBoot (MB2)") (txt "xen") true) {
        firmware = txt "seabios";
      },
    )
    ∷ (
      txt "linux_launch",
      record (plain linux_title (txt "linux") true) {
        broken = some (txt "panics in check_timer: SKL entered startup_32, GIF never set");
        intel_broken = some (txt "the decompressor wipes boot_params the EFI stub placed there");
      },
    )
    ∷ (txt "linux_legacy_launch", legacy_launch)
    ∷ (txt "linux_alt_launch", record legacy_launch { parameter = some (txt "drtmtest=alt") })
    ∷ (txt "xen_efi_debug_launch", efi_debug_launch psp)
    ∷ (txt "linux", plain (txt "Boot Linux normally") (txt "linux") false)
    ∷ (
      txt "xen_mb2",
      record (plain (txt "Boot Xen normally (MB2)") (txt "xen") false) { firmware = txt "seabios" },
    )
    ∷ []

abbrev pub skl : Surroundings → Bool
skl host = host.vendor is txt "amd" && host.upstream

unfoldable pub other_banks : Surroundings → Bool
unfolding same_texts default_banks
other_banks host = skl host && not (same_texts host.banks default_banks)

unfoldable pub more_banks : Surroundings → Bool
unfolding default_banks
more_banks host = skl host && not (every (λ bank. contains default_banks bank) host.banks)

unfoldable pub typed : Entry → Bool
typed entry = not (is_absent entry.parameter) || (elim entry.prelude [ [] ↦ false | _ ∷ _ ↦ true ])

abbrev pub is_linux_launch : Entry → Bool
is_linux_launch entry = entry.launch && entry.os is txt "linux"

abbrev pub psp_is : Text → Option Text → Bool
psp_is mode none = false
psp_is mode (some psp) = psp is mode

unfoldable pub broken_reason : Surroundings → Entry → Option Text
unfolding other_banks
broken_reason host entry =
    if entry.firmware is txt "seabios" && not host.legacy_bootable
    then some (txt "the image has no legacy boot code, its wic carries the EFI boot alone")
    else if host.vendor is txt "intel"
    then (if host.upstream then entry.intel_broken else none)
    else if psp_is (txt "classic") host.psp && is_linux_launch entry
    then some (txt "classic SKL: the kernel's extend fails at a locked locality, it panics")
    else if not (is_absent entry.broken) && host.upstream
    then entry.broken
    else if other_banks host && is_linux_launch entry
    then some (txt "the upstream SKL logs SHA-1 and SHA-256 whatever the TPM has")
    else none
