-- ===== src/Bundle/Unpacked.antt =====
-- What the cache directory holds of QEMU's bundle before and after `binary`.
use mathlib.Core.Path.{subst}
use drtm_tests.Prelude.Dict.{
  lookup, has, insert, erase, lookup-insert, lookup-erase, has-insert, has-erase, has_of_lookup,
}
use drtm_tests.Prelude.{
  ◌≡◌, refl, sym, Bool, true, false, not, none, some, ◌++◌, [], ◌∷◌, Text, Bytes, txt, text_eq,
  ◌is◌, arith, if◌then◌else◌, inl, inr, Option-cases, Result, ok, err, os_error, runtime_error,
}
use drtm_tests.Assets.{Asset, Web, has_dot, with_suffix, fetch}
use drtm_tests.Assets.Names.{dotless_apart, has_dot-with_suffix}
use drtm_tests.Assets.Fetch.{IsTrusted, Outcome, fetch-Outcome}
use drtm_tests.Bundle.{
  Tree, Store, Extraction, whole, partial, unreadable, carries_both, binary_exists, root_of,
  rename_tree, extract, open_archive, binary,
}

-- A tree that was extracted whole from an archive with the pinned hash, and carries QEMU's binary and
-- its data directory.
abbrev pub IsGenuine : Web → (Bytes → Extraction) → Asset → Tree → Type 0
IsGenuine web untar asset tree =
    (raw : Bytes) × (web.sha256_of raw ≡ asset.sha256)
    × (untar raw ≡ whole tree)
    × (carries_both tree ≡ true)

-- The bundle's tree, if it is there, is genuine.
abbrev pub IsUnpacked : Web → (Bytes → Extraction) → Asset → Store → Type 0
IsUnpacked web untar asset store =
    (tree : Tree) → lookup (root_of asset) store.trees ≡ some tree → IsGenuine web untar asset tree

-- What a call leaves: on success it names the bundle's tree, which is there and genuine, and every later
-- call returns the same and changes nothing, whatever the network and `tarfile` do then; on an
-- exception the tree is not there.
abbrev pub Provides : Web → (Bytes → Extraction) → Asset → Store × Result Text → Type 0
Provides web untar asset (store, ok name) =
    (name ≡ root_of asset)
    × ((tree : Tree) × (lookup name store.trees ≡ some tree) × IsGenuine web untar asset tree)
    × ((later : Web) (extraction : Bytes → Extraction)
        → binary later extraction asset store ≡ (store, ok name))
Provides web untar asset (store, err e) = has (root_of asset) store.trees ≡ false

has_dot-append_dotless :
    (a b : Text) → has_dot a ≡ false → has_dot b ≡ false → has_dot (a ++ b) ≡ false
unfolding has_dot
has_dot-append_dotless [] b h k = k
has_dot-append_dotless (c ∷ a) b h k = ground (arith, has_dot-append_dotless a b)

root_dotless : (asset : Asset) → has_dot asset.sha256 ≡ false → has_dot (root_of asset) ≡ false
unfolding has_dot txt
root_dotless asset h = has_dot-append_dotless asset.sha256 (txt "-qemu") h refl

abbrev pub tmp_of : Asset → Text
tmp_of asset = with_suffix (root_of asset) (txt ".tmp")

dot_tmp : has_dot (txt ".tmp") ≡ true
unfolding has_dot txt
dot_tmp = refl

pub root_apart :
    (asset : Asset) → has_dot asset.sha256 ≡ false → (root_of asset is tmp_of asset) ≡ false
root_apart asset h =
    dotless_apart (root_of asset) (tmp_of asset) (root_dotless asset h)
      (has_dot-with_suffix (root_of asset) (txt ".tmp") dot_tmp)

exists_of_genuine :
    (web : Web) (untar : Bytes → Extraction) (asset : Asset) (store : Store) (tree : Tree)
    → lookup (root_of asset) store.trees ≡ some tree
    → IsGenuine web untar asset tree
    → binary_exists (root_of asset) store.trees ≡ true
unfolding carries_both
exists_of_genuine web untar asset store tree found (raw, hash, made, both) = ground arith

binary_again :
    (web : Web) (untar : Bytes → Extraction) (asset : Asset) (store : Store)
    → binary_exists (root_of asset) store.trees ≡ true
    → binary web untar asset store ≡ (store, ok (root_of asset))
unfolding binary
binary_again web untar asset store there = ground arith

pub rename_tree_free :
    (tmp root : Text) (tree : Tree) (store : Store)
    → lookup root store.trees ≡ none
    → rename_tree tmp root tree store
      ≡ (record store { trees = insert root tree (erase tmp store.trees) }, ok root)
unfolding rename_tree
rename_tree_free tmp root tree store free = ground arith

-- A call that finds no tree under the bundle's name
pub binary_absent :
    (web : Web) (untar : Bytes → Extraction) (asset : Asset) (store : Store)
    → lookup (root_of asset) store.trees ≡ none
    → binary web untar asset store
      ≡ open_archive untar
          (tmp_of asset)
          (root_of asset)
          (record store { files = (fetch web asset store.files).0 })
          (fetch web asset store.files).1
unfolding binary
binary_absent web untar asset store absent = ground arith

module _ (web : Web) (untar : Bytes → Extraction) (asset : Asset) where
  ok-Provides :
      (store : Store) (tree : Tree)
      → lookup (root_of asset) store.trees ≡ some tree
      → IsGenuine web untar asset tree
      → Provides web untar asset (store, ok (root_of asset))
  ok-Provides store tree found genuine = (
    refl,
    (tree, found, genuine),
    λ later extraction.
        binary_again later extraction asset store
          (exists_of_genuine web untar asset store tree found genuine),
  )

  module _ (apart : (root_of asset is tmp_of asset) ≡ false) (store : Store)
      (absent : lookup (root_of asset) store.trees ≡ none) where
    still_absent :
        (tree : Tree)
        → has (root_of asset) (insert (tmp_of asset) tree (erase (tmp_of asset) store.trees))
          ≡ false
    still_absent tree = ground (
      arith,
      has-insert (root_of asset) (tmp_of asset) tree (erase (tmp_of asset) store.trees),
      has-erase (root_of asset) (tmp_of asset) store.trees,
      has_of_lookup (root_of asset) store.trees absent,
    )

    erased_absent : has (root_of asset) (erase (tmp_of asset) store.trees) ≡ false
    erased_absent = ground (
      arith,
      has-erase (root_of asset) (tmp_of asset) store.trees,
      has_of_lookup (root_of asset) store.trees absent,
    )

    extract-Provides :
        (raw : Bytes) (made : Extraction)
        → web.sha256_of raw ≡ asset.sha256
        → untar raw ≡ made
        → Provides web untar asset (extract (tmp_of asset) (root_of asset) store made)
    unfolding extract
    extract-Provides raw (unreadable e) hash made = erased_absent
    extract-Provides raw (partial tree e) hash made = still_absent tree
    extract-Provides raw (whole tree) hash made = checked (carries_both tree) refl
      where
        after : Store
        after = record store {
          trees = insert (tmp_of asset) tree (erase (tmp_of asset) store.trees);
        }

        root_free : lookup (root_of asset) after.trees ≡ none
        root_free = ground (
          arith,
          lookup-insert (root_of asset) (tmp_of asset) tree (erase (tmp_of asset) store.trees),
          lookup-erase (root_of asset) (tmp_of asset) store.trees,
        )

        renamed : Store
        renamed = record after {
          trees = insert (root_of asset) tree (erase (tmp_of asset) after.trees);
        }

        checked :
            (both : Bool)
            → carries_both tree ≡ both
            → Provides web untar asset (
                if not both
                then (after, err runtime_error)
                else rename_tree (tmp_of asset) (root_of asset) tree after)
        checked false e = still_absent tree
        checked true e =
            subst (Provides web untar asset)
              (sym (rename_tree_free (tmp_of asset) (root_of asset) tree after root_free))
              (ok-Provides renamed tree
                (ground (
                  arith,
                  lookup-insert (root_of asset) (root_of asset) tree
                      (erase (tmp_of asset) after.trees),
                ))
                (raw, hash, made, e))

    open_archive-Provides :
        (archive : Result Text)
        → Outcome web asset (store.files, archive)
        → Provides web untar asset (open_archive untar (tmp_of asset) (root_of asset) store archive)
    unfolding open_archive
    open_archive-Provides (err e) o = has_of_lookup (root_of asset) store.trees absent
    open_archive-Provides (ok name) (named, (raw, found, hash)) =
        subst
          (λ o. Provides web untar asset (elim o [
            | none ↦ (record store { trees = erase (tmp_of asset) store.trees }, err os_error)
            | some content ↦ extract (tmp_of asset) (root_of asset) store (untar content)
          ]))
          (sym found) (extract-Provides raw (untar raw) hash refl)

  -- `binary` over a cache whose download and whose unpacked bundle are genuine if they are there ends in
  -- one of two ways. Either it names the bundle's tree, which is there, was extracted whole from an
  -- archive with the pinned hash, and carries QEMU's binary and its data directory; every later call
  -- then returns the same and changes nothing, whatever the network and `tarfile` do. Or it raises
  -- and the tree is not there. The digest has no dot in it; the download and the extraction may end
  -- in any way.
  pub binary-Provides :
      (store : Store)
      → has_dot asset.sha256 ≡ false
      → IsTrusted web asset store.files
      → IsUnpacked web untar asset store
      → Provides web untar asset (binary web untar asset store)
  binary-Provides store dotless trusted genuine =
      elim (Option-cases (lookup (root_of asset) store.trees)) [
        | inl absent ↦
            subst (Provides web untar asset) (sym (binary_absent web untar asset store absent)) (
              open_archive-Provides (root_apart asset dotless)
                (record store { files = (fetch web asset store.files).0 }) absent
                (fetch web asset store.files).1
                (fetch-Outcome web asset store.files dotless trusted))
        | inr (tree, found) ↦
            let there = exists_of_genuine web untar asset store tree found (genuine tree found) in
            subst (Provides web untar asset) (sym (binary_again web untar asset store there))
              (ok-Provides store tree found (genuine tree found))
      ]
