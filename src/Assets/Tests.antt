-- ===== src/Assets/Tests.antt =====
-- Two small assets, with hexadecimal itself in the place of the hash.
use drtm_tests.Prelude.Dict.{lookup, has, insert, erase}
use drtm_tests.Prelude.Hex.{hex_bytes}
use drtm_tests.Prelude.{
  ◌≡◌, refl, [], ◌∷◌, txt, text_eq, timeout_error, ok, err, runtime_error, ◌is◌, if◌then◌else◌,
}
use drtm_tests.Assets.{Asset, Web, complete, cut_short, has_dot, fetch, with_suffix, stem, rename}
use drtm_tests.Assets.Fetch.{IsTrusted, Outcome, fetch-Outcome, fetch-IsTrusted}

abbrev web : Web
web = record {
  download =
      λ url. if url is txt "bad" then cut_short (9 ∷ []) timeout_error else complete (1 ∷ 2 ∷ []);
  sha256_of = hex_bytes;
}

abbrev disk : Asset
disk = record { url = txt "disk"; sha256 = b'0' ∷ b'1' ∷ b'0' ∷ b'2' ∷ [] }

abbrev broken : Asset
broken = record { url = txt "bad"; sha256 = b'f' ∷ b'f' ∷ [] }

abbrev other : Asset
other = record { url = txt "other"; sha256 = b'0' ∷ b'3' ∷ [] }

fetched : fetch web disk [] ≡ ((disk.sha256, 1 ∷ 2 ∷ []) ∷ [], ok disk.sha256)
unfolding fetch with_suffix stem has_dot rename lookup has insert erase text_eq txt hex_bytes
fetched = refl

mismatch : fetch web other [] ≡ ([], err runtime_error)
unfolding fetch with_suffix stem has_dot rename lookup has insert erase text_eq txt hex_bytes
mismatch = refl

interrupted : fetch web broken [] ≡ ((txt "ff.tmp", 9 ∷ []) ∷ [], err timeout_error)
unfolding fetch with_suffix stem has_dot rename lookup has insert erase text_eq txt hex_bytes
interrupted = refl

nothing-IsTrusted : (asset : Asset) → IsTrusted web asset []
unfolding lookup
nothing-IsTrusted asset content found = cc

fetch-Outcome_example : Outcome web disk (fetch web disk [])
unfolding has_dot
fetch-Outcome_example = fetch-Outcome web disk [] refl (nothing-IsTrusted disk)

fetch-IsTrusted_example : IsTrusted web other (fetch web broken []).0
unfolding has_dot
fetch-IsTrusted_example =
    fetch-IsTrusted web broken other [] refl refl (nothing-IsTrusted broken)
      (nothing-IsTrusted other)
