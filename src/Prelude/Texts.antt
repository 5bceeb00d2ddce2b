-- ===== src/Prelude/Texts.antt =====
-- Texts as lists of code points, bytes as lists of numbers, and the methods of Python's `str` and
-- `bytes` that the program calls. `strip` and `lower` know the ASCII characters.
use Prim.Native.Nat.{ℕ, zero, suc, ◌+◌, ◌-◌, ◌/◌, ◌%◌}
use Prim.Native.Char.{code}
use Prim.Native.String.{String}
use mathlib.Core.Path.{◌≡◌, refl}
use native.Mathlib.Omega.{arith}
use mathlib.Core.Bool.{Bool, true, false, ◌&&◌, ◌||◌}
use mathlib.Core.List.{List, [], ◌∷◌, ◌++◌, map, reverse}
use native.Mathlib.Decide.{ℕ_discrete}
use drtm_tests.Prelude.Tests.{ltb, leb, ◌==◌, if◌then◌else◌, Eq}

abbrev pub Text : Type 0
Text = List ℕ

abbrev pub Bytes : Type 0
Bytes = List ℕ

-- A literal. It is shut, so that proofs carry its name and not its characters.
unfoldable pub txt : String → Text
txt String.[] = []
txt (String.◌∷◌ c s) = code c ∷ txt s

Text_discrete : Discrete Text
Text_discrete = hlevel ℕ_discrete

instance unfoldable pub text_eq : Eq Text
unfolding Text_discrete ℕ_discrete
text_eq = record { dec = Text_discrete }

abbrev pub is_space : ℕ → Bool
is_space c = c == b' ' || (leb 9 c && leb c 13) || (leb 28 c && leb c 31)

abbrev pub is_digit : ℕ → Bool
is_digit c = leb b'0' c && leb c b'9'

lstrip : Text → Text
lstrip [] = []
lstrip (c ∷ s) = if is_space c then lstrip s else c ∷ s

-- `s.strip()`
unfoldable pub strip : Text → Text
unfolding lstrip
strip s = reverse (lstrip (reverse (lstrip s)))

lower_char : ℕ → ℕ
lower_char c = if leb b'A' c && leb c b'Z' then c + 32 else c

-- `s.lower()`
unfoldable pub lower : Text → Text
unfolding lower_char
lower = map lower_char

split_from : ℕ → Text → Text → List Text
split_from sep word [] = word ∷ []
split_from sep word (c ∷ s) =
    let next = split_from sep [] s in
    let more = split_from sep (word ++ (c ∷ [])) s in if c == sep then word ∷ next else more

-- `s.split(sep)` for a separator of one character
unfoldable pub split_on : ℕ → Text → List Text
unfolding split_from
split_on sep = split_from sep []

-- `sep.join(words)`
unfoldable pub join : Text → List Text → Text
join sep [] = []
join sep (w ∷ []) = w
join sep (w ∷ v ∷ words) = w ++ (sep ++ join sep (v ∷ words))

-- `s.startswith(prefix)`
unfoldable pub starts_with : Text → Text → Bool
starts_with s [] = true
starts_with [] (p ∷ prefix) = false
starts_with (c ∷ s) (p ∷ prefix) = c == p && starts_with s prefix

pub starts_with-nil : (s : Text) → starts_with s [] ≡ true
unfolding starts_with
starts_with-nil [] = refl
starts_with-nil (c ∷ s) = refl

-- `needle in s`
unfoldable pub contains_text : Text → Text → Bool
unfolding starts_with
contains_text [] needle = starts_with [] needle
contains_text (c ∷ s) needle = starts_with (c ∷ s) needle || contains_text s needle

abbrev is_break : ℕ → Bool
is_break c =
    (leb 10 c && leb c 13) || (leb 28 c && leb c 30) || c == 0x85 || c == 0x2028 || c == 0x2029

-- The flag says that the last character was a carriage return, whose newline belongs to it.
lines_from : Bool → Text → Text → List Text
lines_from cr [] [] = []
lines_from cr (c ∷ line) [] = (c ∷ line) ∷ []
lines_from cr line (c ∷ s) =
    let skipped = lines_from false line s in
    let ended = lines_from (c == 13) [] s in
    let longer = lines_from false (line ++ (c ∷ [])) s in
    if cr && c == 10 then skipped else if is_break c then line ∷ ended else longer

-- `s.splitlines()`
unfoldable pub split_lines : Text → List Text
unfolding lines_from
split_lines = lines_from false []

abbrev pub digit : ℕ → ℕ
digit d = if ltb d 10 then b'0' + d else b'a' + (d - 10)

-- The digits of a number in a base, the first one in front; as many rounds as the number suffice.
digits_onto : ℕ → ℕ → ℕ → Text → Text
digits_onto base zero n rest = rest
digits_onto base (suc fuel) n rest =
    let more = digits_onto base fuel (n / base) (digit (n % base) ∷ rest) in
    if ltb n base then digit n ∷ rest else more

-- `str(n)`
unfoldable pub show : ℕ → Text
unfolding digits_onto
show n = digits_onto 10 (suc n) n []

-- `hex(n)`
unfoldable pub hex : ℕ → Text
unfolding digits_onto
hex n = b'0' ∷ b'x' ∷ digits_onto 16 (suc n) n []

pub starts_with-append : (prefix s : Text) → starts_with (prefix ++ s) prefix ≡ true
unfolding starts_with
starts_with-append [] s = starts_with-nil s
starts_with-append (c ∷ prefix) s = ground (arith, starts_with-append prefix s)
