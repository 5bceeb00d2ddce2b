-- ===== src/Bundle/Tests.antt =====
-- A small build that is packed and unpacked; its digest is hexadecimal itself.
use drtm_tests.Prelude.Dict.{Dict, lookup, has}
use drtm_tests.Prelude.Hex.{hex_bytes}
use drtm_tests.Prelude.{
  ◌≡◌, refl, Option, none, some, [], ◌∷◌, Bytes, Text, txt, text_eq, ok, err, runtime_error,
  index_error,
}
use drtm_tests.Assets.{Asset, Web, complete, has_dot}
use drtm_tests.Bundle.{
  Tree, file, Store, Extraction, whole, partial, Build, Source, there, dangling, packed_tree,
  copy_tree, pack, binary, root_of, archive_name, data_path, version_of,
}
use drtm_tests.Bundle.Unpacked.{Provides, binary-Provides}
use drtm_tests.Bundle.Packed.{binary-pack}

abbrev share : Dict Text Source
share = (txt "bios.bin", there (file (7 ∷ []))) ∷ (txt "lost.rom", dangling) ∷ []

abbrev build : Build
build = record {
  qemu = some (1 ∷ 2 ∷ []);
  shares = share ∷ [];
  version_code = 0;
  version_stdout = txt "QEMU emulator version 11.1.1 (x)";
}

abbrev strip : Bytes → Option Bytes
strip [] = none
strip (_ ∷ b) = some b

abbrev tar : Tree → Bytes
tar tree = 1 ∷ 2 ∷ []

abbrev untar : Bytes → Extraction
untar [] = partial [] runtime_error
untar (_ ∷ _) = whole (packed_tree (2 ∷ []) share)

abbrev web : Web
web = record { download = λ url. complete (1 ∷ 2 ∷ []); sha256_of = hex_bytes }

abbrev asset : Asset
asset = record { url = txt "u"; sha256 = b'0' ∷ b'1' ∷ b'0' ∷ b'2' ∷ [] }

abbrev empty_store : Store
empty_store = record { files = []; trees = [] }

kept_out : copy_tree share ≡ (txt "qemu/share/qemu/bios.bin", file (7 ∷ [])) ∷ []
unfolding copy_tree data_path txt
kept_out = refl

version : version_of 0 (txt "QEMU emulator version 11.1.1 (x)") ≡ ok (txt "11.1.1")
unfolding version_of txt text_eq
version = refl

no_version : version_of 0 (txt "QEMU") ≡ err runtime_error
unfolding version_of txt text_eq
no_version = refl

cut_version : version_of 0 (txt "QEMU version") ≡ err index_error
unfolding version_of txt text_eq
cut_version = refl

two_trees :
    pack strip tar hex_bytes (record build { shares = share ∷ [] ∷ [] }) none ≡ err runtime_error
unfolding pack
two_trees = refl

binary-Provides_example : Provides web untar asset (binary web untar asset empty_store)
unfolding has_dot lookup
binary-Provides_example =
    binary-Provides web untar asset empty_store refl (λ content found. cc) (λ tree found. cc)

binary-pack_example :
    (pack strip tar hex_bytes build (some (txt "t"))
      ≡ ok (archive_name (txt "t"), 1 ∷ 2 ∷ [], asset.sha256))
    × ((binary web untar asset empty_store).1 ≡ ok (root_of asset))
    × (lookup (root_of asset) (binary web untar asset empty_store).0.trees
        ≡ some (packed_tree (2 ∷ []) share))
unfolding has_dot lookup has hex_bytes
binary-pack_example =
    binary-pack web strip tar untar build (txt "t") (1 ∷ 2 ∷ []) (2 ∷ []) share asset empty_store
      refl refl refl refl refl refl refl refl refl
