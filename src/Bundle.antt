-- ===== src/Bundle.antt =====
-- drtmtest/bundle.py: QEMU as a tarball that is pinned like the images. The cache directory holds files
-- and directory trees; `tarfile`, `strip` and the run of `qemu --version` are arguments. A tree is a
-- dict from its paths to what is there.
pub mod Unpacked
pub mod Packed
mod Tests
use drtm_tests.Prelude.Dict.{Dict, lookup, has, insert, erase}
use drtm_tests.Prelude.{
  ℕ, ◌==◌, Bool, true, false, not, ◌&&◌, ◌||◌, Option, none, some, List, [], ◌∷◌, ◌++◌, Text, Bytes,
  txt, text_eq, ◌is◌, if◌then◌else◌, Error, Result, ok, err, ◌>>=◌, runtime_error, os_error,
  index_error, called_process_error, is_space, contains,
}
use drtm_tests.Assets.{Asset, Cache, Web, with_suffix, fetch}

unfoldable pub tag : Text
tag = txt "drtm-11.1.50-2"

-- `_NAME.format(tag=tag)`
unfoldable pub archive_name : Text → Text
archive_name tag = txt "qemu-" ++ (tag ++ txt "-ubuntu-24.04.tar.gz")

unfoldable pub bundle : Asset
unfolding archive_name
bundle = record {
  url =
      txt "https://github.com/iwanicki92/qemu/releases/download/"
      ++ (tag ++ (b'/' ∷ archive_name tag));
  sha256 = txt "b1330c24b9917d005476aeb305bfda5127f5691a881f9e7d84878771a0b3390d";
}

unfoldable pub binary_path : Text
binary_path = txt "qemu/bin/qemu-system-x86_64"

unfoldable pub data_path : Text
data_path = txt "qemu/share/qemu"

pub data Node : Type 0 where
  file : Bytes → Node
  directory : Node

abbrev pub Tree : Type 0
Tree = Dict Text Node

-- The cache directory: its files, and the trees of its directories.
pub record Store : Type 0 where
  pub files : Cache
  pub trees : Dict Text Tree

-- How `tarfile.open` and `extractall` end: with the whole tree, with a part of it and an exception,
-- or before the directory is made.
pub data Extraction : Type 0 where
  whole : Tree → Extraction
  partial : Tree → Error → Extraction
  unreadable : Error → Extraction

-- `.is_dir()` of a path in a tree
abbrev pub is_dir : Option Node → Bool
is_dir none = false
is_dir (some (file content)) = false
is_dir (some directory) = true

unfoldable pub carries_both : Tree → Bool
carries_both tree = has binary_path tree && is_dir (lookup data_path tree)

-- `(cache_dir / name / BINARY).exists()`
abbrev pub binary_exists : Text → Dict Text Tree → Bool
binary_exists name trees = elim (lookup name trees) [
  | none ↦ false
  | some tree ↦ has binary_path tree
]

-- `root`, the name in the cache directory
abbrev pub root_of : Asset → Text
root_of asset = asset.sha256 ++ txt "-qemu"

abbrev is_vacant : Option Tree → Bool
is_vacant none = true
is_vacant (some []) = true
is_vacant (some (_ ∷ _)) = false

-- `tmp.rename(root)`, which does not replace a directory with something in it.
unfoldable pub rename_tree : Text → Text → Tree → Store → Store × Result Text
rename_tree tmp root tree store =
    if is_vacant (lookup root store.trees)
    then (record store { trees = insert root tree (erase tmp store.trees) }, ok root)
    else (store, err os_error)

-- `binary` behind the download, with what `extractall` left in `tmp`
unfoldable pub extract : Text → Text → Store → Extraction → Store × Result Text
unfolding rename_tree carries_both
extract tmp root store (unreadable e) = (record store { trees = erase tmp store.trees }, err e)
extract tmp root store (partial tree e) =
    (record store { trees = insert tmp tree (erase tmp store.trees) }, err e)
extract tmp root store (whole tree) =
    let extracted : Store = record store { trees = insert tmp tree (erase tmp store.trees) } in
    if not (carries_both tree)
    then (extracted, err runtime_error)
    else rename_tree tmp root tree extracted

unfoldable pub open_archive :
    (Bytes → Extraction) → Text → Text → Store → Result Text → Store × Result Text
unfolding extract
open_archive untar tmp root store (err e) = (store, err e)
open_archive untar tmp root store (ok archive) = elim (lookup archive store.files) [
  | none ↦ (record store { trees = erase tmp store.trees }, err os_error)
  | some content ↦ extract tmp root store (untar content)
]

-- `binary`, of the asset that is pinned: the name of the tree whose `BINARY` it returns.
unfoldable pub binary : Web → (Bytes → Extraction) → Asset → Store → Store × Result Text
unfolding open_archive
binary web untar asset store =
    let root = root_of asset in
    let (files, archive) = fetch web asset store.files in
    if binary_exists root store.trees
    then (store, ok root)
    else open_archive untar (with_suffix root (txt ".tmp")) root (record store { files = files })
        archive

-- `is_bundled`, of a path, with `resolve`
abbrev pub is_bundled : (Text → Text) → Text → Asset → Text → Bool
is_bundled resolve cache_dir asset qemu =
    resolve qemu is resolve (cache_dir ++ (b'/' ∷ (root_of asset ++ (b'/' ∷ binary_path))))

-- `out.split()`: the word that is being read, and the words behind it
unfoldable pub split_words : Text → Text → List Text
split_words [] [] = []
split_words (c ∷ word) [] = (c ∷ word) ∷ []
split_words word (c ∷ s) =
    let closed = split_words [] s in
    let longer = split_words (word ++ (c ∷ [])) s in
    if is_space c then (elim word [ [] ↦ closed | d ∷ w ↦ (d ∷ w) ∷ closed ]) else longer

abbrev pub first_of : List Text → Result Text
first_of [] = err index_error
first_of (w ∷ ws) = ok w

-- `words[words.index("version") + 1]`
unfoldable pub behind_version : List Text → Result Text
behind_version [] = err runtime_error
behind_version (w ∷ ws) =
    let rest = behind_version ws in if w is txt "version" then first_of ws else rest

-- `_version`, on the exit code and the output of `qemu --version`
unfoldable pub version_of : ℕ → Text → Result Text
unfolding split_words behind_version
version_of code stdout =
    if not (code == 0) then err runtime_error else behind_version (split_words [] stdout)

-- What stands in the build's data directory; a link is what it leads to, or dangles.
pub data Source : Type 0 where
  there : Node → Source
  dangling : Source

-- The build directory: QEMU's binary, the `share/qemu` trees under `qemu-bundle`, and what
-- `qemu --version` does.
pub record Build : Type 0 where
  pub qemu : Option Bytes
  pub shares : List (Dict Text Source)
  pub version_code : ℕ
  pub version_stdout : Text

-- `copytree`, under the data directory's path
unfoldable pub copy_tree : Dict Text Source → Tree
copy_tree [] = []
copy_tree ((path, there node) ∷ sources) = (data_path ++ (b'/' ∷ path), node) ∷ copy_tree sources
copy_tree ((path, dangling) ∷ sources) = copy_tree sources

-- The tree that `pack` lays out, with `tar.add`'s name for it in front
unfoldable pub packed_tree : Bytes → Dict Text Source → Tree
unfolding copy_tree
packed_tree qemu share =
    (txt "qemu", directory)
    ∷ (txt "qemu/bin", directory)
    ∷ (binary_path, file qemu)
    ∷ (txt "qemu/share", directory)
    ∷ (data_path, directory)
    ∷ copy_tree share

-- `pack`, with `strip`, which fails on what it cannot strip, and `tarfile`: the archive's name, its
-- content and its digest.
unfoldable pub pack :
    (Bytes → Option Bytes)
    → (Tree → Bytes)
    → (Bytes → Text)
    → Build
    → Option Text
    → Result (Text × Bytes × Text)
unfolding packed_tree version_of archive_name
pack strip tar sha256_of build tag = elim build.qemu [
  | none ↦ err runtime_error
  | some qemu ↦ elim build.shares [
    | [] ↦ err runtime_error
    | share ∷ [] ↦ do
      name ← elim tag [
        | some t ↦ ok t
        | none ↦ do
          v ← version_of build.version_code build.version_stdout
          ok (txt "drtm-" ++ (v ++ txt "-1"))
      ]
      stripped ← elim (strip qemu) [ none ↦ err called_process_error | some b ↦ ok b ]
      let archive = tar (packed_tree stripped share)
      ok (archive_name name, archive, sha256_of archive)
    | share ∷ other ∷ shares ↦ err runtime_error
  ]
]
