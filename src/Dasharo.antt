-- ===== src/Dasharo.antt =====
-- drtmtest/dasharo.py: the firmware after one boot, kept beside its download. The boot is an argument,
-- with what it leaves in the cache directory and the exception that ended it.
pub mod Runs
pub mod Threads
mod Tests
use drtm_tests.Prelude.Dict.{Dict, lookup, has, insert, erase}
use drtm_tests.Prelude.{
  Bool, Option, none, some, List, ◌++◌, Text, Bytes, txt, text_eq, if◌then◌else◌, Error, Result, ok,
  err, os_error,
}
use drtm_tests.Assets.{Asset, Cache, with_suffix}

unfoldable pub firmware : Asset
firmware = record {
  url =
      txt "https://github.com/Dasharo/coreboot/releases/download/"
      ++ txt "qemu_q35_v0.2.1/qemu_q35_all_menus.rom";
  sha256 = txt "c6be232bc9884888b4b9dbe0fa85aa2a48042bdda456e3608c3f1d93e519d95d";
}

unfoldable pub boot_prompt : Text
boot_prompt = txt "ENTER to boot directly"

-- `boot(scratch)`
abbrev pub WarmBoot : Type 0
WarmBoot = Text → Cache → Cache × Option Error

-- `path`, the name in the cache directory
abbrev pub warm_of : Asset → Text
warm_of asset = asset.sha256 ++ txt ".warm"

-- `scratch.replace(path)`, which raises if the boot wrote nothing
unfoldable pub replace : Text → Text → Cache → Cache × Result Text
replace scratch path cache = elim (lookup scratch cache) [
  | none ↦ (cache, err os_error)
  | some content ↦ (insert path content (erase scratch cache), ok path)
]

-- `warmed_firmware` behind the boot
abbrev pub keep_warm : Text → Text → Cache × Option Error → Cache × Result Text
keep_warm scratch path (cache, some e) = (cache, err e)
keep_warm scratch path (cache, none) = replace scratch path cache

-- `warmed_firmware`, of the firmware that is pinned, by the thread that holds the lock
unfoldable pub warmed_firmware : Asset → WarmBoot → Cache → Cache × Result Text
unfolding replace
warmed_firmware asset boot cache =
    let path = warm_of asset in
    let scratch = with_suffix path (txt ".warming") in
    if has path cache then (cache, ok path) else keep_warm scratch path (boot scratch cache)
