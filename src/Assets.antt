-- ===== src/Assets.antt =====
-- drtmtest/assets.py: downloads kept in a cache directory under their SHA-256. The directory is a
-- dict of its files; the network and `hashlib` are the record `Web`.
pub mod Names
pub mod Fetch
mod Tests
use drtm_tests.Prelude.Dict.{Dict, lookup, has, insert, erase}
use drtm_tests.Prelude.{
  ◌==◌, Bool, true, false, not, ◌&&◌, Option, none, some, List, [], ◌∷◌, ◌++◌, Text, Bytes, txt,
  text_eq, ◌is◌, if◌then◌else◌, Error, Result, ok, err, runtime_error, some_of,
}

pub record Asset : Type 0 where
  pub url : Text
  pub sha256 : Text

abbrev pub Cache : Type 0
Cache = Dict Text Bytes

-- How a download ends: with the whole file written, with a part of it and an exception, or before
-- the file is opened.
pub data Download : Type 0 where
  complete : Bytes → Download
  cut_short : Bytes → Error → Download
  refused : Error → Download

-- `urlretrieve`, by URL, and the hexadecimal SHA-256 of a file's bytes.
pub record Web : Type 0 where
  pub download : Text → Download
  pub sha256_of : Bytes → Text

unfoldable pub has_dot : Text → Bool
has_dot s = some_of (λ c. c == b'.') s

-- A file's name without its last suffix, of names that neither begin nor end with a dot.
unfoldable pub stem : Text → Text
stem [] = []
stem (c ∷ s) = let rest = stem s in if (c == b'.') && not (has_dot s) then [] else c ∷ rest

-- `path.with_suffix(suffix)`, on the name
unfoldable pub with_suffix : Text → Text → Text
with_suffix name suffix = stem name ++ suffix

-- `tmp.rename(path)`
unfoldable pub rename : Text → Text → Cache → Cache
rename tmp path cache = elim (lookup tmp cache) [
  | none ↦ cache
  | some content ↦ insert path content (erase tmp cache)
]

-- `Asset.path`, the name in the directory
abbrev pub path : Asset → Text
path asset = asset.sha256

-- `fetch` behind the download, which went to the file `tmp`.
unfoldable pub keep : Web → Asset → Text → Cache → Download → Cache × Result Text
unfolding rename
keep web asset tmp cache (refused e) = (cache, err e)
keep web asset tmp cache (cut_short content e) = (insert tmp content cache, err e)
keep web asset tmp cache (complete content) =
    let written = insert tmp content cache in
    if not (web.sha256_of content is asset.sha256)
    then (erase tmp written, err runtime_error)
    else (rename tmp (path asset) written, ok (path asset))

unfoldable pub fetch : Web → Asset → Cache → Cache × Result Text
unfolding keep
fetch web asset cache =
    if has (path asset) cache
    then (cache, ok (path asset))
    else keep web asset (with_suffix (path asset) (txt ".tmp")) cache (web.download asset.url)
