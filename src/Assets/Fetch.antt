-- ===== src/Assets/Fetch.antt =====
-- What the cache holds before and after a fetch.
use drtm_tests.Prelude.Dict.{
  lookup, has, insert, erase, lookup-insert, lookup-erase, lookup-has, has-some, has-insert,
  has-erase,
}
use drtm_tests.Prelude.{
  ◌≡◌, refl, ◌∙◌, sym, ap, Bool, true, false, not, none, some, Text, Bytes, txt, text_eq, ◌is◌,
  arith, if◌then◌else◌, Result, ok, err, runtime_error,
}
use drtm_tests.Assets.{
  Asset, Cache, Web, Download, complete, cut_short, refused, has_dot, with_suffix, rename, path,
  keep, fetch,
}
use drtm_tests.Assets.Names.{dotless_apart, has_dot-with_suffix}

-- The file of an asset, if it is there, is the one that was pinned.
abbrev pub IsTrusted : Web → Asset → Cache → Type 0
IsTrusted web asset cache =
    (content : Bytes)
    → lookup asset.sha256 cache ≡ some content
    → web.sha256_of content ≡ asset.sha256

-- What a fetch leaves: on success it names the asset's file, which is there and hashes to the pinned
-- digest, and on an exception the file is not there.
abbrev pub Outcome : Web → Asset → Cache × Result Text → Type 0
Outcome web asset (cache, ok name) =
    (name ≡ asset.sha256)
    × ((content : Bytes) × (lookup name cache ≡ some content)
        × (web.sha256_of content ≡ asset.sha256))
Outcome web asset (cache, err e) = has asset.sha256 cache ≡ false

pub rename-insert :
    (tmp name : Text) (content : Bytes) (cache : Cache)
    → rename tmp name (insert tmp content cache)
      ≡ insert name content (erase tmp (insert tmp content cache))
unfolding rename
rename-insert tmp name content cache =
    ap
      (λ o. elim o [
        | none ↦ insert tmp content cache
        | some c ↦ insert name c (erase tmp (insert tmp content cache))
      ])
      found
  where
    found : lookup tmp (insert tmp content cache) ≡ some content
    found = ground (arith, lookup-insert tmp tmp content cache)

-- What a name that is neither the asset's nor the temporary one reads in the end.
module _ (web : Web) (asset : Asset) (tmp : Text) (cache : Cache) where
  lookup-keep :
      (k : Text) (d : Download)
      → (k is tmp) ≡ false
      → (k is asset.sha256) ≡ false
      → lookup k (keep web asset tmp cache d).0 ≡ lookup k cache
  unfolding keep
  lookup-keep k (refused e) h a = refl
  lookup-keep k (cut_short content e) h a = ground (arith, lookup-insert k tmp content cache)
  lookup-keep k (complete content) h a = ground (
    arith,
    rename-insert tmp asset.sha256 content cache,
    lookup-insert k asset.sha256 content (erase tmp (insert tmp content cache)),
    lookup-erase k tmp (insert tmp content cache),
    lookup-insert k tmp content cache,
  )

  keep-Outcome :
      (d : Download)
      → (asset.sha256 is tmp) ≡ false
      → has asset.sha256 cache ≡ false
      → Outcome web asset (keep web asset tmp cache d)
  unfolding keep
  keep-Outcome (refused e) h absent = absent
  keep-Outcome (cut_short content e) h absent =
      ground (arith, has-insert asset.sha256 tmp content cache)
  keep-Outcome (complete content) h absent = checked (web.sha256_of content is asset.sha256) refl
    where
      checked :
          (same : Bool)
          → (web.sha256_of content is asset.sha256) ≡ same
          → Outcome web asset (
              if not same
              then (erase tmp (insert tmp content cache), err runtime_error)
              else (rename tmp (path asset) (insert tmp content cache), ok (path asset)))
      checked true e = (
        refl,
        (
          content,
          ground (
            arith,
            rename-insert tmp asset.sha256 content cache,
            lookup-insert asset.sha256 asset.sha256 content (erase tmp (insert tmp content cache)),
          ),
          ground arith,
        ),
      )
      checked false e = ground (
        arith,
        has-erase asset.sha256 tmp (insert tmp content cache),
        has-insert asset.sha256 tmp content cache,
      )

abbrev pub dot_tmp : Text
dot_tmp = txt ".tmp"

has_dot-tmp : has_dot dot_tmp ≡ true
unfolding has_dot txt
has_dot-tmp = refl

tmp_apart :
    (name : Text) (asset : Asset)
    → has_dot name ≡ false
    → (name is with_suffix asset.sha256 (txt ".tmp")) ≡ false
tmp_apart name asset h =
    dotless_apart name (with_suffix asset.sha256 (txt ".tmp")) h
      (has_dot-with_suffix asset.sha256 (txt ".tmp") has_dot-tmp)

pub lookup-fetch :
    (web : Web) (asset : Asset) (cache : Cache) (k : Text)
    → (k is with_suffix asset.sha256 (txt ".tmp")) ≡ false
    → (k is asset.sha256) ≡ false
    → lookup k (fetch web asset cache).0 ≡ lookup k cache
unfolding fetch
lookup-fetch web asset cache k h a = ground (
  arith,
  lookup-keep web asset (with_suffix asset.sha256 (txt ".tmp")) cache k (web.download asset.url) h
      a,
)

-- What an outcome says of the asset's own file.
Outcome-IsTrusted :
    (web : Web) (asset : Asset) (r : Cache × Result Text)
    → Outcome web asset r
    → IsTrusted web asset r.0
Outcome-IsTrusted web asset (cache, ok name) (named, (content, found, hash)) c f = ground arith
Outcome-IsTrusted web asset (cache, err e) absent c f =
    ground (arith, lookup-has asset.sha256 {v = c} cache f)

-- A fetch of a trusted cache ends in one of two ways: it returns the asset's name, whose file is
-- there and has the pinned hash, or it raises and the asset's file is not there, so the next fetch
-- downloads it again. The digest has no dot in it; the download may end in any way.
pub fetch-Outcome :
    (web : Web) (asset : Asset) (cache : Cache)
    → has_dot asset.sha256 ≡ false
    → IsTrusted web asset cache
    → Outcome web asset (fetch web asset cache)
unfolding fetch
fetch-Outcome web asset cache h trusted = cases (has asset.sha256 cache) refl
  where
    tmp : Text
    tmp = with_suffix (path asset) (txt ".tmp")

    cases :
        (there : Bool)
        → has asset.sha256 cache ≡ there
        → Outcome web asset (
            if there
            then (cache, ok (path asset))
            else keep web asset tmp cache (web.download asset.url))
    cases true e =
        let (content, found) = has-some asset.sha256 cache e in
        (refl, (content, found, trusted content found))
    cases false e =
        keep-Outcome web asset tmp cache (web.download asset.url) (tmp_apart asset.sha256 asset h) e

-- A fetch keeps a cache trusted, however the download ends: if the files under its own digest and
-- under another one hash to these, where they are there, the file under the other one, which may be
-- the same, hashes to it afterwards too, if it is there. The digests have no dot in them.
pub fetch-IsTrusted :
    (web : Web) (asset other : Asset) (cache : Cache)
    → has_dot asset.sha256 ≡ false
    → has_dot other.sha256 ≡ false
    → IsTrusted web asset cache
    → IsTrusted web other cache
    → IsTrusted web other (fetch web asset cache).0
fetch-IsTrusted web asset other cache h k own trusted content found =
    same (other.sha256 is asset.sha256) refl
  where
    after : Cache × Result Text
    after = fetch web asset cache

    kept : (other.sha256 is asset.sha256) ≡ false → lookup other.sha256 cache ≡ some content
    kept apart =
        sym (lookup-fetch web asset cache other.sha256 (tmp_apart other.sha256 asset k) apart)
        ∙ found

    same : (b : Bool) → (other.sha256 is asset.sha256) ≡ b → web.sha256_of content ≡ other.sha256
    same true e =
        let at_own : lookup asset.sha256 after.0 ≡ some content = ground arith in
        ground (
          arith,
          Outcome-IsTrusted web asset after (fetch-Outcome web asset cache h own) content at_own,
        )
    same false e = trusted content (kept e)
