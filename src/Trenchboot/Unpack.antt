-- ===== src/Trenchboot/Unpack.antt =====
-- What the cache directory holds of an image and of its raw disk.
use mathlib.Core.Path.{subst}
use drtm_tests.Prelude.Dict.{
  lookup, has, insert, erase, lookup-insert, has-insert, has_of_lookup, has-lookup, has-some,
}
use drtm_tests.Prelude.{
  ◌≡◌, refl, sym, ap, ◌∙◌, Bool, true, false, Option, none, some, ◌++◌, Text, Bytes, txt, text_eq,
  ◌is◌, arith, if◌then◌else◌, Error, Result, ok, err, os_error,
}
use drtm_tests.Assets.{Asset, Cache, Web, has_dot, with_suffix, fetch}
use drtm_tests.Assets.Names.{wic_apart}
use drtm_tests.Assets.Fetch.{IsTrusted, Outcome, rename-insert, lookup-fetch, fetch-Outcome}
use drtm_tests.Trenchboot.{RawDisk, local, cached, unpack_to, unpack, unpacked}

abbrev pub wic : Asset → Text
wic asset = asset.sha256 ++ txt ".wic"

-- A raw disk that gzip made, without an error, of bytes with the pinned hash
abbrev pub IsGenuine : Web → (Bytes → Bytes × Option Error) → Asset → Bytes → Type 0
IsGenuine web gunzip asset content =
    (raw : Bytes) × (web.sha256_of raw ≡ asset.sha256) × (gunzip raw ≡ (content, none))

-- The raw disk of an asset, if it is there, is genuine.
abbrev pub IsUnpacked : Web → (Bytes → Bytes × Option Error) → Asset → Cache → Type 0
IsUnpacked web gunzip asset cache =
    (content : Bytes) → lookup (wic asset) cache ≡ some content → IsGenuine web gunzip asset content

-- What an unpacking leaves: on success it names the raw disk's file, which is there and genuine, and on
-- an exception that file is not there.
abbrev pub Unpacks : Web → (Bytes → Bytes × Option Error) → Asset → Cache × Result RawDisk → Type 0
Unpacks web gunzip asset (cache, ok (local path)) = ⊥
Unpacks web gunzip asset (cache, ok (cached name)) =
    (name ≡ wic asset)
    × ((content : Bytes) × (lookup name cache ≡ some content) × IsGenuine web gunzip asset content)
Unpacks web gunzip asset (cache, err e) = has (wic asset) cache ≡ false

module _ (web : Web) (gunzip : Bytes → Bytes × Option Error) (asset : Asset) (tmp : Text)
    (apart : (wic asset is tmp) ≡ false) where
  unpack_to-Unpacks :
      (cache : Cache) (raw : Bytes) (made : Bytes × Option Error)
      → has (wic asset) cache ≡ false
      → web.sha256_of raw ≡ asset.sha256
      → gunzip raw ≡ made
      → Unpacks web gunzip asset (unpack_to tmp (wic asset) cache made)
  unfolding unpack_to
  unpack_to-Unpacks cache raw (content, some e) absent hash made =
      ground (arith, has-insert (wic asset) tmp content cache, apart, absent)
  unpack_to-Unpacks cache raw (content, none) absent hash made = (
    refl,
    (
      content,
      ap (lookup (wic asset)) (rename-insert tmp (wic asset) content cache)
          ∙ ground (
            arith,
            lookup-insert (wic asset) (wic asset) content (erase tmp (insert tmp content cache)),
          ),
      (raw, hash, made),
    ),
  )

module _ (web : Web) (gunzip : Bytes → Bytes × Option Error) (asset : Asset)
    (dotless : has_dot asset.sha256 ≡ false) where
  -- A fetch leaves the raw disk's file alone.
  still_absent :
      (cache : Cache)
      → has (wic asset) cache ≡ false
      → has (wic asset) (fetch web asset cache).0 ≡ false
  still_absent cache absent =
      let (not_own, not_tmp, _) = wic_apart asset.sha256 dotless in
      has_of_lookup (wic asset) (fetch web asset cache).0 (
        lookup-fetch web asset cache (wic asset) not_tmp not_own
        ∙ has-lookup (wic asset) cache absent)

  unpack-Unpacks :
      (r : Cache × Result Text)
      → Outcome web asset r
      → has (wic asset) r.0 ≡ false
      → Unpacks web gunzip asset (unpack gunzip (wic asset) r)
  unfolding unpack
  unpack-Unpacks (cache, err e) o absent = absent
  unpack-Unpacks (cache, ok name) (named, (raw, found, hash)) absent =
      let (_, _, not_tmp) = wic_apart asset.sha256 dotless in
      subst
        (λ o. Unpacks web gunzip asset (elim o [
          | none ↦ (cache, err os_error)
          | some raw ↦
              unpack_to (with_suffix (wic asset) (txt ".tmp")) (wic asset) cache (gunzip raw)
        ]))
        (sym found)
        (unpack_to-Unpacks web gunzip asset (with_suffix (wic asset) (txt ".tmp")) not_tmp cache raw
          (gunzip raw) absent hash refl)

  -- The raw disk of a pinned release, over a cache whose download and raw disk are genuine if they are
  -- there: either its file is named, is there, and is what gzip made of bytes with the pinned hash,
  -- or an exception is raised and the file is not there. The digest has no dot in it; the download
  -- and gzip may end in any way.
  pub unpacked-Unpacks :
      (cache : Cache) (upstream : Bool)
      → IsTrusted web asset cache
      → IsUnpacked web gunzip asset cache
      → Unpacks web gunzip asset
          (unpacked web gunzip cache (ok (record { asset = asset; upstream = upstream })))
  unfolding unpacked
  unpacked-Unpacks cache upstream trusted genuine = cases (has (wic asset) cache) refl
    where
      cases :
          (there : Bool)
          → has (wic asset) cache ≡ there
          → Unpacks web gunzip asset (
              if there
              then (cache, ok (cached (wic asset)))
              else unpack gunzip (wic asset) (fetch web asset cache))
      cases true e =
          let (content, found) = has-some (wic asset) cache e in
          (refl, (content, found, genuine content found))
      cases false e =
          unpack-Unpacks (fetch web asset cache) (fetch-Outcome web asset cache dotless trusted)
            (still_absent cache e)
