-- ===== src/Prelude/Hex.antt =====
-- `bytes.hex()` and `bytes.fromhex()`, which skips white space between two bytes.
use Prim.Native.Nat.{ℕ, ◌+◌, ◌-◌, ◌*◌, ◌/◌, ◌%◌, ◌<◌}
use mathlib.Core.Path.{◌≡◌, refl}
use mathlib.Core.Bool.{Bool, false, ◌&&◌}
use mathlib.Core.List.{[], ◌∷◌}
use mathlib.Core.Option.{Option, none, some}
use native.Mathlib.Omega.{arith}
use drtm_tests.Prelude.Tests.{leb, ◌==◌, if◌then◌else◌}
use drtm_tests.Prelude.Texts.{Text, Bytes, digit}

unfoldable pub hex_bytes : Bytes → Text
hex_bytes [] = []
hex_bytes (b ∷ bs) = digit (b / 16) ∷ digit (b % 16) ∷ hex_bytes bs

unfoldable pub hex_value : ℕ → Option ℕ
hex_value c =
    if leb b'0' c && leb c b'9'
    then some (c - b'0')
    else if leb b'a' c && leb c b'f'
    then some (c - b'a' + 10)
    else if leb b'A' c && leb c b'F'
    then some (c - b'A' + 10)
    else none

-- White space as `bytes.fromhex` knows it: the ASCII kind.
abbrev pub is_gap : ℕ → Bool
is_gap c = leb 9 c && leb c 13

unfoldable pub two_digits : Option ℕ → Option ℕ → Option Bytes → Option Bytes
two_digits (some high) (some low) (some rest) = some ((high * 16 + low) ∷ rest)
two_digits _ _ _ = none

unfoldable pub from_hex : Text → Option Bytes
unfolding two_digits hex_value
from_hex [] = some []
from_hex (c ∷ []) = if c == b' ' then some [] else if is_gap c then some [] else none
from_hex (c ∷ d ∷ s) =
    let skipped = from_hex (d ∷ s) in
    let pair = two_digits (hex_value c) (hex_value d) (from_hex s) in
    if c == b' ' then skipped else if is_gap c then skipped else pair

hex_value-digit : (d : ℕ) → d < 16 → hex_value (digit d) ≡ some d
unfolding hex_value
hex_value-digit d h = ground arith

digit_gap : (d : ℕ) → (digit d == b' ') ≡ false
digit_gap d = ground arith

digit-is_gap : (d : ℕ) → is_gap (digit d) ≡ false
digit-is_gap d = ground arith

abbrev pub AreBytes : Bytes → Type 0
AreBytes [] = Unit {0}
AreBytes (b ∷ bs) = (b < 256) × AreBytes bs

-- What `hex` prints, `fromhex` reads back.
pub from_hex-hex_bytes : (bs : Bytes) → AreBytes bs → from_hex (hex_bytes bs) ≡ some bs
unfolding hex_bytes from_hex
from_hex-hex_bytes [] h = refl
from_hex-hex_bytes (b ∷ bs) (lt, h) = ground (
  arith,
  from_hex-hex_bytes bs h,
  hex_value-digit (b / 16) (omega arith),
  hex_value-digit (b % 16) (omega arith),
  digit_gap (b / 16),
  digit-is_gap (b / 16),
)
