-- ===== src/Bundle/Packed.antt =====
-- A bundle that `pack` made, fetched and unpacked by `binary`.
use drtm_tests.Prelude.Dict.{lookup, has, insert, erase, lookup-insert, lookup-erase}
use drtm_tests.Prelude.{
  ◌≡◌, refl, sym, ap, ◌∙◌, true, false, Option, none, some, [], ◌∷◌, Text, Bytes, txt, text_eq,
  ◌is◌, arith, ok,
}
use drtm_tests.Assets.{Asset, Cache, Web, complete, has_dot, with_suffix, rename, keep, fetch}
use drtm_tests.Assets.Fetch.{rename-insert}
use drtm_tests.Prelude.Dict.{Dict}
use drtm_tests.Bundle.{
  Tree, Source, Build, Store, Extraction, whole, carries_both, root_of, extract, open_archive,
  binary, packed_tree, pack, archive_name, binary_path, data_path,
}
use drtm_tests.Bundle.Unpacked.{binary_absent, root_apart, tmp_of, rename_tree_free}

carries_both-packed_tree :
    (qemu : Bytes) (share : Dict Text Source) → carries_both (packed_tree qemu share) ≡ true
unfolding carries_both packed_tree has lookup binary_path data_path txt text_eq
carries_both-packed_tree qemu share = refl

fetch_complete :
    (web : Web) (asset : Asset) (cache : Cache) (content : Bytes)
    → has asset.sha256 cache ≡ false
    → web.download asset.url ≡ complete content
    → web.sha256_of content ≡ asset.sha256
    → ((fetch web asset cache).1 ≡ ok asset.sha256)
      × (lookup asset.sha256 (fetch web asset cache).0 ≡ some content)
unfolding fetch keep
fetch_complete web asset cache content absent downloaded hash =
    let kept : fetch web asset cache
        ≡ (rename tmp asset.sha256 (insert tmp content cache), ok asset.sha256) =
      ground arith in
    (
      ap (λ r. r.1) kept,
      ap (λ r. lookup asset.sha256 r.0) kept
          ∙ ap (lookup asset.sha256) (rename-insert tmp asset.sha256 content cache)
          ∙ ground (
            arith,
            lookup-insert asset.sha256 asset.sha256 content (erase tmp (insert tmp content cache)),
          ),
    )
  where
    tmp : Text
    tmp = with_suffix asset.sha256 (txt ".tmp")

extract_whole :
    (tmp root : Text) (store : Store) (tree : Tree)
    → (root is tmp) ≡ false
    → lookup root store.trees ≡ none
    → carries_both tree ≡ true
    → ((extract tmp root store (whole tree)).1 ≡ ok root)
      × (lookup root (extract tmp root store (whole tree)).0.trees ≡ some tree)
unfolding extract
extract_whole tmp root store tree apart absent both =
    let renamed : extract tmp root store (whole tree)
        ≡ (record after { trees = insert root tree (erase tmp after.trees) }, ok root) =
      ground (arith, rename_tree_free tmp root tree after free) in
    (
      ap (λ r. r.1) renamed,
      ap (λ r. lookup root r.0.trees) renamed
          ∙ ground (arith, lookup-insert root root tree (erase tmp after.trees)),
    )
  where
    after : Store
    after = record store { trees = insert tmp tree (erase tmp store.trees) }

    free : lookup root after.trees ≡ none
    free = ground (
      arith,
      lookup-insert root tmp tree (erase tmp store.trees),
      lookup-erase root tmp store.trees,
    )

opened :
    (untar : Bytes → Extraction) (tmp root : Text) (store : Store) (archive : Text)
    (content : Bytes)
    → lookup archive store.files ≡ some content
    → open_archive untar tmp root store (ok archive) ≡ extract tmp root store (untar content)
unfolding open_archive
opened untar tmp root store archive content found = ground arith

-- `pack` of a build with a binary that can be stripped and with one `share/qemu` tree, under a tag,
-- returns an archive of the tree with the stripped binary and the copied data, the tag's archive name, and
-- the archive's digest. Once that digest is pinned, and the archive is what the download gives, `binary`
-- over a cache that has neither the archive nor its tree returns the bundle, and the tree that `pack`
-- laid out is there. `tarfile` gives back the tree that it packed, and the digest has no dot in it.
pub binary-pack :
    (web : Web) (strip : Bytes → Option Bytes) (tar : Tree → Bytes) (untar : Bytes → Extraction)
    (build : Build) (tag : Text) (qemu stripped : Bytes) (share : Dict Text Source) (asset : Asset)
    (store : Store)
    → build.qemu ≡ some qemu
    → strip qemu ≡ some stripped
    → build.shares ≡ share ∷ []
    → untar (tar (packed_tree stripped share)) ≡ whole (packed_tree stripped share)
    → asset.sha256 ≡ web.sha256_of (tar (packed_tree stripped share))
    → has_dot asset.sha256 ≡ false
    → web.download asset.url ≡ complete (tar (packed_tree stripped share))
    → has asset.sha256 store.files ≡ false
    → lookup (root_of asset) store.trees ≡ none
    → (pack strip tar web.sha256_of build (some tag)
        ≡ ok (archive_name tag, tar (packed_tree stripped share), asset.sha256))
      × ((binary web untar asset store).1 ≡ ok (root_of asset))
      × (lookup (root_of asset) (binary web untar asset store).0.trees
          ≡ some (packed_tree stripped share))
unfolding pack
binary-pack web strip tar untar build tag qemu stripped share asset store has_qemu strips one
      extracts pinned dotless downloaded new absent =
    (
      ground arith,
      ap (λ r. r.1) bundled ∙ (extract_whole tmp root fetched tree apart absent both).0,
      ap (λ r. lookup root r.0.trees) bundled
          ∙ (extract_whole tmp root fetched tree apart absent both).1,
    )
  where
    tree : Tree
    tree = packed_tree stripped share

    root : Text
    root = root_of asset

    tmp : Text
    tmp = tmp_of asset

    apart : (root is tmp) ≡ false
    apart = root_apart asset dotless

    both : carries_both tree ≡ true
    both = carries_both-packed_tree stripped share

    fetched : Store
    fetched = record store { files = (fetch web asset store.files).0 }

    bundled : binary web untar asset store ≡ extract tmp root fetched (whole tree)
    bundled =
        let (named, found) =
          fetch_complete web asset store.files (tar tree) new downloaded (sym pinned) in
        binary_absent web untar asset store absent
        ∙ ap (open_archive untar tmp root fetched) named
        ∙ opened untar tmp root fetched asset.sha256 (tar tree) found
        ∙ ap (extract tmp root fetched) extracts
