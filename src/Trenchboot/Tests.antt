-- ===== src/Trenchboot/Tests.antt =====
-- The image under test for a few environments.
use drtm_tests.Prelude.Dict.{lookup}
use drtm_tests.Prelude.{
  ◌≡◌, refl, true, none, some, Option, [], ◌∷◌, Bytes, txt, text_eq, Error, ok, err, runtime_error,
}
use drtm_tests.Prelude.Hex.{hex_bytes}
use drtm_tests.Assets.{Asset, Web, complete, has_dot}
use drtm_tests.Trenchboot.Unpack.{Unpacks, unpacked-Unpacks}
use drtm_tests.Trenchboot.{Disk, unpacked, release, releases, upstream, image, v0_5_2}

abbrev disk : Disk
disk = record { resolve = λ path. path; is_file = λ path. true }

released : release disk [] ≡ ok (some (txt "amd-drtm-test-image-5"))
unfolding release lookup text_eq txt
released = refl

upstream_release : upstream disk ((txt "DRTM_TB_RELEASE", txt "v0.5.2") ∷ []) ≡ ok true
unfolding upstream image release releases v0_5_2 lookup text_eq txt
upstream_release = refl

both_set :
    release disk ((txt "DRTM_TB_RELEASE", txt "v0.5.2") ∷ (txt "DRTM_TB_IMAGE", txt "x") ∷ [])
    ≡ err runtime_error
unfolding release lookup text_eq txt
both_set = refl

-- The hash is hexadecimal itself, and gzip changes nothing.
abbrev web : Web
web = record { download = λ url. complete (1 ∷ 2 ∷ []); sha256_of = hex_bytes }

abbrev asset : Asset
asset = record { url = txt "u"; sha256 = b'0' ∷ b'1' ∷ b'0' ∷ b'2' ∷ [] }

abbrev gunzip : Bytes → Bytes × Option Error
gunzip raw = (raw, none)

unpacked-Unpacks_example :
    Unpacks web gunzip asset
      (unpacked web gunzip [] (ok (record { asset = asset; upstream = true })))
unfolding has_dot lookup
unpacked-Unpacks_example =
    unpacked-Unpacks web gunzip asset refl [] true (λ content found. cc) (λ content found. cc)
