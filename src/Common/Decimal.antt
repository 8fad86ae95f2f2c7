-- ===== src/Common/Decimal.antt =====
-- Package strconv of Go for decimal integers of 64 bits: FormatInt and ParseInt with base 10.
use Prim.Native.Char.{Char, char, code, IsScalar}
use Prim.Native.Nat.{ℕ, zero, suc, ◌+◌, ◌-◌, ◌*◌, ◌/◌, ◌%◌, ◌<◌}
use Prim.Native.String.{String, [], ◌∷◌}
use mathlib.Core.Path.{◌≡◌, refl, ap, ◌∙◌, sym}
use mathlib.Core.Logic.{◌⊎◌, inl, inr}
use mathlib.Core.Bool.{Bool, true, false, ◌&&◌}
use mathlib.Core.Option.{Option, none, some}
use native.Mathlib.Omega.{arith}
use fp.Common.Tests.{leb, ltb, nat_eq, if◌then◌else◌}
use fp.Common.Int.{ℤ, pos, negsuc}

pub small-IsScalar : (n : ℕ) → n < 55296 → IsScalar n
small-IsScalar n h = ground arith

-- The digit of a number below 10.
abbrev pub digit : ℕ → Char
digit d = char (48 + d % 10) (small-IsScalar (48 + d % 10) (omega arith))

-- The digits of a number before `out`: a round for each digit, of which a number of 64 bits has at
-- most 20.
unfoldable pub format_digits : ℕ → ℕ → String → String
format_digits zero n out = out
format_digits (suc rounds) n out = elim (nat_eq (n / 10) 0) [
  | true ↦ digit (n % 10) ∷ out
  | false ↦ format_digits rounds (n / 10) (digit (n % 10) ∷ out)
]

-- `strconv.FormatInt(n, 10)`
unfoldable pub format_int : ℤ → String
format_int (pos n) = format_digits 20 n []
format_int (negsuc n) = "-" ∷ format_digits 20 (suc n) []

abbrev is_digit : Char → Bool
is_digit c = leb 48 (code c) && leb (code c) 57

unfoldable pub scan_digits : String → ℕ → Option ℕ
scan_digits [] n = some n
scan_digits (c ∷ s) n = if is_digit c then scan_digits s (10 * n + (code c - 48)) else none

unfoldable pub parse_digits : String → Option ℕ
parse_digits [] = none
parse_digits (c ∷ s) = scan_digits (c ∷ s) 0

abbrev pub two_63 : ℕ
two_63 = 9223372036854775808

abbrev signed : Bool → ℕ → Option ℤ
signed false n = if ltb n two_63 then some (pos n) else none
signed true zero = some (pos 0)
signed true (suc n) = if ltb n two_63 then some (negsuc n) else none

abbrev with_sign : Bool → Option ℕ → Option ℤ
with_sign negative none = none
with_sign negative (some n) = signed negative n

-- `strconv.ParseInt(s, 10, 64)`; an error is `none`.
unfoldable pub parse_int : String → Option ℤ
parse_int [] = none
parse_int (c ∷ s) =
    if nat_eq (code c) 45
    then with_sign true (parse_digits s)
    else if nat_eq (code c) 43
    then with_sign false (parse_digits s)
    else with_sign false (parse_digits (c ∷ s))

-- An integer of 64 bits.
abbrev pub IsInt64 : ℤ → Type 0
IsInt64 (pos n) = n < two_63
IsInt64 (negsuc n) = n < two_63

tens : ℕ → ℕ
tens zero = 1
tens (suc k) = 10 * tens k

scan-cons : (n : ℕ) (out : String) → scan_digits (digit (n % 10) ∷ out) (n / 10) ≡ scan_digits out n
unfolding scan_digits
scan-cons n out = ground (arith, ap (scan_digits out))

format_last :
    (k n : ℕ) (out : String) → n / 10 ≡ 0 → format_digits (suc k) n out ≡ digit (n % 10) ∷ out
unfolding format_digits
format_last k n out h = ground arith

format_more :
    (k n : ℕ) (out : String)
    → 0 < n / 10
    → format_digits (suc k) n out ≡ format_digits k (n / 10) (digit (n % 10) ∷ out)
unfolding format_digits
format_more k n out h = ground arith

zero_or_more : (m : ℕ) → (m ≡ 0) ⊎ (0 < m)
zero_or_more zero = inl refl
zero_or_more (suc m) = inr (omega arith)

scan-last :
    (k n : ℕ) (out : String)
    → n / 10 ≡ 0
    → scan_digits (format_digits (suc k) n out) 0 ≡ scan_digits out n
scan-last k n out e =
    ap (λ s. scan_digits s 0) (format_last k n out e)
    ∙ ap (λ m. scan_digits (digit (n % 10) ∷ out) m) (sym e)
    ∙ scan-cons n out

-- Reading the digits of `n` and then `out` is reading `out` after `n`.
scan-format :
    (k n : ℕ) (out : String)
    → n < tens (suc k)
    → scan_digits (format_digits (suc k) n out) 0 ≡ scan_digits out n
unfolding tens
scan-format zero n out h = scan-last zero n out (omega (arith, h))
scan-format (suc k) n out h = elim (zero_or_more (n / 10)) [
  | inl e ↦ scan-last (suc k) n out e
  | inr more ↦
      ap (λ s. scan_digits s 0) (format_more (suc k) n out more)
      ∙ scan-format k (n / 10) (digit (n % 10) ∷ out) (omega (arith, h))
      ∙ scan-cons n out
]

-- A text that starts with a digit.
abbrev IsNumeral : String → Type 0
IsNumeral t = (c : Char) × (s : String) × (is_digit c ≡ true) × (t ≡ c ∷ s)

digit-is_digit : (n : ℕ) → is_digit (digit n) ≡ true
digit-is_digit n = ground arith

IsNumeral-round :
    (b : Bool) (n : ℕ) (out more : String)
    → IsNumeral more
    → IsNumeral (elim b as (λ _. String) [ true ↦ digit (n % 10) ∷ out | false ↦ more ])
IsNumeral-round true n out more h = (digit (n % 10), out, digit-is_digit (n % 10), refl)
IsNumeral-round false n out more h = h

format_digits-IsNumeral : (k n : ℕ) (out : String) → IsNumeral (format_digits (suc k) n out)
unfolding format_digits
format_digits-IsNumeral zero n out =
    IsNumeral-round (nat_eq (n / 10) 0) n out (digit (n % 10) ∷ out)
      (digit (n % 10), out, digit-is_digit (n % 10), refl)
format_digits-IsNumeral (suc k) n out =
    IsNumeral-round (nat_eq (n / 10) 0) n out
      (format_digits (suc k) (n / 10) (digit (n % 10) ∷ out))
      (format_digits-IsNumeral k (n / 10) (digit (n % 10) ∷ out))

parse_digits-numeral : (t : String) → IsNumeral t → parse_digits t ≡ scan_digits t 0
unfolding parse_digits
parse_digits-numeral t (c, s, d, e) = ap parse_digits e ∙ ap (λ s. scan_digits s 0) (sym e)

parse-format : (n : ℕ) → n < tens 20 → parse_digits (format_digits 20 n []) ≡ some n
unfolding scan_digits
parse-format n h =
    parse_digits-numeral (format_digits 20 n []) (format_digits-IsNumeral 19 n [])
    ∙ scan-format 19 n [] h

parse_int-numeral : (t : String) → IsNumeral t → parse_int t ≡ with_sign false (parse_digits t)
unfolding parse_int
parse_int-numeral t (c, s, d, e) =
    ap parse_int e ∙ unsigned ∙ ap (λ t. with_sign false (parse_digits t)) (sym e)
  where
    unsigned : parse_int (c ∷ s) ≡ with_sign false (parse_digits (c ∷ s))
    unsigned = ground (arith, d)

few_digits : (n : ℕ) → n < 10000000000000000000 → n < tens 20
unfolding tens
few_digits n h = omega (arith, h)

-- Every integer of 64 bits is read back from its decimal text.
pub parse_int-format_int : (n : ℤ) → IsInt64 n → parse_int (format_int n) ≡ some n
unfolding parse_int format_int
parse_int-format_int (pos n) h =
    parse_int-numeral (format_digits 20 n []) (format_digits-IsNumeral 19 n [])
    ∙ ap (with_sign false) (parse-format n (few_digits n (omega (arith, h))))
    ∙ ground (arith, h)
parse_int-format_int (negsuc n) h =
    ap (with_sign true) (parse-format (suc n) (few_digits (suc n) (omega (arith, h))))
    ∙ ground (arith, h)
