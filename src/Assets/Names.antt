-- ===== src/Assets/Names.antt =====
-- The names of the cache's files, with and without a dot in them.
use drtm_tests.Prelude.{
  ◌≡◌, refl, ◌∙◌, ap, true, false, [], ◌∷◌, ◌++◌, Text, txt, text_eq, ◌is◌, arith,
}
use drtm_tests.Assets.{has_dot, stem, with_suffix}

stem_dotless : (name : Text) → has_dot name ≡ false → stem name ≡ name
unfolding stem has_dot
stem_dotless [] h = refl
stem_dotless (c ∷ name) h = ground (arith, stem_dotless name)

has_dot-append : (name suffix : Text) → has_dot suffix ≡ true → has_dot (name ++ suffix) ≡ true
unfolding has_dot
has_dot-append [] suffix h = h
has_dot-append (c ∷ name) suffix h = ground (arith, has_dot-append name suffix h)

pub has_dot-with_suffix :
    (name suffix : Text) → has_dot suffix ≡ true → has_dot (with_suffix name suffix) ≡ true
unfolding with_suffix
has_dot-with_suffix name suffix h = has_dot-append (stem name) suffix h

pub with_suffix_dotless :
    (name suffix : Text) → has_dot name ≡ false → with_suffix name suffix ≡ name ++ suffix
unfolding with_suffix
with_suffix_dotless name suffix h = ap (λ s. s ++ suffix) (stem_dotless name h)

pub dotless_apart :
    (name other : Text) → has_dot name ≡ false → has_dot other ≡ true → (name is other) ≡ false
dotless_apart name other h k = ground arith

pub append_apart : (name a b : Text) → (a is b) ≡ false → ((name ++ a) is (name ++ b)) ≡ false
append_apart [] a b h = h
append_apart (c ∷ name) a b h = ground (arith, append_apart name a b h)

wic_tmp : (txt ".wic" is txt ".tmp") ≡ false
unfolding txt text_eq
wic_tmp = refl

wic_dot : has_dot (txt ".wic") ≡ true
unfolding txt has_dot
wic_dot = refl

stem_wic : (name : Text) → has_dot name ≡ false → stem (name ++ txt ".wic") ≡ name
unfolding stem has_dot txt
stem_wic [] h = refl
stem_wic (c ∷ name) h = ground (arith, stem_wic name)

dot_apart :
    (name other : Text) → has_dot name ≡ false → has_dot other ≡ true → (other is name) ≡ false
dot_apart name other h k = ground arith

-- An unpacked image's name is none of the others that a fetch and its unpacking use.
pub wic_apart :
    (name : Text)
    → has_dot name ≡ false
    → (((name ++ txt ".wic") is name) ≡ false)
      × (((name ++ txt ".wic") is with_suffix name (txt ".tmp")) ≡ false)
      × (((name ++ txt ".wic") is with_suffix (name ++ txt ".wic") (txt ".tmp")) ≡ false)
unfolding with_suffix
wic_apart name h = (
  dot_apart name (name ++ txt ".wic") h (has_dot-append name (txt ".wic") wic_dot),
  ap (λ t. (name ++ txt ".wic") is t) (with_suffix_dotless name (txt ".tmp") h)
      ∙ append_apart name (txt ".wic") (txt ".tmp") wic_tmp,
  ap (λ t. (name ++ txt ".wic") is (t ++ txt ".tmp")) (stem_wic name h)
      ∙ append_apart name (txt ".wic") (txt ".tmp") wic_tmp,
)
