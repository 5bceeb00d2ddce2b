-- ===== src/Trenchboot.antt =====
-- drtmtest/trenchboot.py: the pinned releases, and the image under test. Paths are texts; what the
-- file system says of them is the record `Disk`.

pub mod Unpack
mod Tests
use drtm_tests.Prelude.Dict.{Dict, lookup, has, insert, keys}
use drtm_tests.Prelude.{
  Bool, true, false, not, Option, none, some, List, [], ◌∷◌, ◌++◌, Text, Bytes, txt, text_eq,
  if◌then◌else◌, Error, Result, ok, err, ◌>>=◌, or_raise, runtime_error, os_error, take,
  contains_text,
}
use drtm_tests.QemuVm.Settings.{Env, env_get}
use drtm_tests.Assets.{Asset, Cache, Web, with_suffix, rename, fetch}

pub record Release : Type 0 where
  pub asset : Asset
  pub upstream : Bool

-- `_IMAGE_URL.format(owner=owner, tag=tag)`
unfoldable pub image_url : Text → Text → Text
image_url owner tag =
    txt "https://github.com/"
    ++ (owner
        ++ (txt "/meta-trenchboot/releases/download/"
            ++ (tag ++ txt "/tb-full-image-genericx86-64.rootfs.wic.gz")))

unfoldable pub default_release : Text
default_release = txt "amd-drtm-test-image-5"

unfoldable pub test_image : Release
test_image = record {
  asset = record {
    url = image_url (txt "iwanicki92") (txt "amd-drtm-test-image-5");
    sha256 = txt "69d146ca262f2fbf3532de5fcdaa8af3e5828afb90b8911e0e52c24fa2111424";
  };
  upstream = false;
}

unfoldable pub v0_5_2 : Release
v0_5_2 = record {
  asset = record {
    url = image_url (txt "zarhus") (txt "v0.5.2");
    sha256 = txt "702276d64f8aa9633a6aef1c88767716311d733a1dcbede2ed9e4d7a1cb380ca";
  };
  upstream = true;
}

unfoldable pub v0_5_3_rc1 : Release
v0_5_3_rc1 = record {
  asset = record {
    url = image_url (txt "zarhus") (txt "v0.5.3-rc1");
    sha256 = txt "3ae50150714d1591aefb961ce88515ca9b3a07bea2e0f3c9fcb7fa37e129ff0e";
  };
  upstream = true;
}

unfoldable pub releases : Dict Text Release
releases =
    (txt "amd-drtm-test-image-5", test_image)
    ∷ (txt "v0.5.2", v0_5_2)
    ∷ (txt "v0.5.3-rc1", v0_5_3_rc1)
    ∷ []

-- `Path(...).expanduser().resolve()` and `is_file`
pub record Disk : Type 0 where
  pub resolve : Text → Text
  pub is_file : Text → Bool

-- `if not value`, of a text
unfoldable pub is_set : Text → Bool
is_set [] = false
is_set (c ∷ s) = true

unfoldable pub local_image : Disk → Env → Result (Option Text)
unfolding env_get is_set
local_image disk env =
    let value = env_get env (txt "DRTM_TB_IMAGE") [] in
    if not (is_set value)
    then ok none
    else if is_set (env_get env (txt "DRTM_TB_RELEASE") [])
    then err runtime_error
    else if not (disk.is_file (disk.resolve value))
    then err runtime_error
    else ok (some (disk.resolve value))

unfoldable pub release : Disk → Env → Result (Option Text)
unfolding local_image env_get default_release
release disk env = do
  local ← local_image disk env
  ok (elim local [
    | some path ↦ none
    | none ↦ some (env_get env (txt "DRTM_TB_RELEASE") default_release)
  ])

-- `image`, on the tag that `release` returns
unfoldable pub pinned : Option Text → Result Release
pinned none = err runtime_error
pinned (some tag) = or_raise runtime_error (lookup tag releases)

unfoldable pub image : Disk → Env → Result Release
unfolding pinned
image disk env = do tag ← release disk env; pinned tag

unfoldable pub upstream : Disk → Env → Result Bool
upstream disk env = do
  tag ← release disk env
  elim tag [ none ↦ ok false | some _ ↦ image disk env >>= λ release. ok release.upstream ]

-- `legacy_bootable`, of the image's bytes
unfoldable pub legacy_bootable : Bytes → Bool
unfolding contains_text
legacy_bootable raw = contains_text (take 446 raw) (txt "GRUB")

-- Where the raw disk is: a path of the user's, or a file of the cache directory.
pub data RawDisk : Type 0 where
  local cached : Text → RawDisk

-- `unpacked_image` behind the fetch. `gunzip` gives what it decompressed and the exception that
-- ended it, if one did; the bytes up to there are in `tmp`.
unfoldable pub unpack_to : Text → Text → Cache → Bytes × Option Error → Cache × Result RawDisk
unfolding rename
unpack_to tmp path cache (content, some e) = (insert tmp content cache, err e)
unpack_to tmp path cache (content, none) =
    (rename tmp path (insert tmp content cache), ok (cached path))

unfoldable pub unpack :
    (Bytes → Bytes × Option Error) → Text → Cache × Result Text → Cache × Result RawDisk
unfolding unpack_to
unpack gunzip path (cache, err e) = (cache, err e)
unpack gunzip path (cache, ok download) = elim (lookup download cache) [
  | none ↦ (cache, err os_error)
  | some raw ↦ unpack_to (with_suffix path (txt ".tmp")) path cache (gunzip raw)
]

-- `unpacked_image` of a pinned release
unfoldable pub unpacked :
    Web → (Bytes → Bytes × Option Error) → Cache → Result Release → Cache × Result RawDisk
unfolding unpack
unpacked web gunzip cache (err e) = (cache, err e)
unpacked web gunzip cache (ok release) =
    let path = release.asset.sha256 ++ txt ".wic" in
    if has path cache
    then (cache, ok (cached path))
    else unpack gunzip path (fetch web release.asset cache)

unfoldable pub unpacked_image :
    Web → (Bytes → Bytes × Option Error) → Disk → Env → Cache → Cache × Result RawDisk
unfolding unpacked
unpacked_image web gunzip disk env cache = elim (local_image disk env) [
  | err e ↦ (cache, err e)
  | ok (some path) ↦ (cache, ok (local path))
  | ok none ↦ unpacked web gunzip cache (image disk env)
]

-- `description`, with how a file's modification time prints
unfoldable pub description : Disk → (Text → Text) → Env → Result Text
unfolding local_image release
description disk modified env = do
  path ← local_image disk env
  tag ← release disk env
  ok (elim path [
    | some file ↦ file ++ (txt " (modified " ++ (modified file ++ txt ")"))
    | none ↦ elim tag [ none ↦ txt "None" | some t ↦ t ]
  ])
