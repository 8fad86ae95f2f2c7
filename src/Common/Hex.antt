-- ===== src/Common/Hex.antt =====
-- Package encoding/hex of Go over bytes, which are numbers below 256.
use Prim.Native.Char.{Char, char, code}
use Prim.Native.Nat.{ℕ, ◌+◌, ◌-◌, ◌*◌, ◌/◌, ◌%◌, ◌<◌}
use Prim.Native.String.{String, [], ◌∷◌}
use mathlib.Core.List.{List, [] as nil, ◌∷◌ as cons}
use mathlib.Core.Path.{◌≡◌, refl, ap}
use mathlib.Core.Bool.{◌&&◌}
use mathlib.Core.Option.{Option, none, some}
use native.Mathlib.Omega.{arith}
use fp.Common.Tests.{leb, ltb, if◌then◌else◌}
use fp.Common.Lists.{All}
use fp.Common.Decimal.{small-IsScalar}

-- The digit of a number below 16.
abbrev pub hex_digit : ℕ → Char
hex_digit d =
    if ltb (d % 16) 10
    then char (48 + d % 16) (small-IsScalar (48 + d % 16) (omega arith))
    else char (87 + d % 16) (small-IsScalar (87 + d % 16) (omega arith))

-- `hex.EncodeToString`
unfoldable pub encode_hex : List ℕ → String
encode_hex nil = []
encode_hex (cons b bs) = hex_digit (b / 16) ∷ (hex_digit (b % 16) ∷ encode_hex bs)

abbrev pub from_hex : Char → Option ℕ
from_hex c =
    if leb 48 (code c) && leb (code c) 57
    then some (code c - 48)
    else if leb 97 (code c) && leb (code c) 102
    then some (code c - 87)
    else if leb 65 (code c) && leb (code c) 70
    then some (code c - 55)
    else none

abbrev pub with_byte : Option ℕ → Option ℕ → Option (List ℕ) → Option (List ℕ)
with_byte (some a) (some b) (some bs) = some (cons (16 * a + b) bs)
with_byte (some a) (some b) none = none
with_byte (some a) none bs = none
with_byte none b bs = none

-- `hex.DecodeString`; an error is `none`.
unfoldable pub decode_hex : String → Option (List ℕ)
decode_hex [] = some nil
decode_hex (c ∷ []) = none
decode_hex (c ∷ (d ∷ s)) = with_byte (from_hex c) (from_hex d) (decode_hex s)

from_hex-hex_digit : (d : ℕ) → d < 16 → from_hex (hex_digit d) ≡ some d
from_hex-hex_digit d h = ground arith

byte_whole : (b : ℕ) → 16 * (b / 16) + b % 16 ≡ b
byte_whole b = omega arith

-- Bytes are read back from their text.
pub decode_hex-encode_hex :
    (bs : List ℕ) → All (λ b. b < 256) bs → decode_hex (encode_hex bs) ≡ some bs
unfolding decode_hex encode_hex
decode_hex-encode_hex nil h = refl
decode_hex-encode_hex (cons b bs) (k, h) =
    rw
      (
        from_hex-hex_digit (b / 16) (omega (arith, k)),
        from_hex-hex_digit (b % 16) (omega arith),
        decode_hex-encode_hex bs h,
      )
      (ap (λ a. some (cons a bs)) (byte_whole b))
