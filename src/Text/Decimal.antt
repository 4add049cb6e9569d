-- ===== src/Text/Decimal.antt =====
-- `fmt.Sprintf("%d", n)` and `strconv.ParseInt(s, 10, 64)`.
use authlib.Prelude.{
  ℕ, zero, suc, ◌+◌, ◌-◌, ◌*◌, ◌/◌, ◌%◌, ◌^◌, ◌≤◌, ◌<◌, true, false, ◌&&◌, ◌≡◌, ◌≢◌, refl, Option,
  none, some, [], ◌∷◌, arith, ltb, leb, ◌==◌, if◌then◌else◌, All,
}
use authlib.Prelude.Int.{ℤ, pos, negsuc, neg}
use authlib.Text.Bytes.{Str}

-- The digits of `n` before `out`; fuel above `n` is enough, since `n / 10 < n`.
digits : ℕ → ℕ → Str → Str
digits zero n out = out
digits (suc f) n out = elim (ltb n 10) [
  | true ↦ (b'0' + n) ∷ out
  | false ↦ digits f (n / 10) ((b'0' + n % 10) ∷ out)
]

unfoldable pub format_nat : ℕ → Str
unfolding digits
format_nat n = digits (suc n) n []

-- `%d` of an `int64`.
unfoldable pub format_int : ℤ → Str
unfolding format_nat
format_int (pos n) = format_nat n
format_int (negsuc n) = b'-' ∷ format_nat (suc n)

abbrev pub IsDigit : ℕ → Type 0
IsDigit c = (b'0' ≤ c) × (c ≤ b'9')

-- The loop of `strconv.ParseUint` in base 10, with no bound on the value.
scan : Str → ℕ → Option ℕ
scan [] n = some n
scan (c ∷ s) n = if leb b'0' c && leb c b'9' then scan s (n * 10 + (c - b'0')) else none

parse_nat : Str → Option ℕ
unfolding scan
parse_nat [] = none
parse_nat (c ∷ s) = scan (c ∷ s) 0

-- The range test of `strconv.ParseInt` for values with no minus sign, and with one.
in_range : Option ℕ → Option ℤ
in_range none = none
in_range (some n) = if ltb n (2 ^ 63) then some (pos n) else none

neg_in_range : Option ℕ → Option ℤ
unfolding neg
neg_in_range none = none
neg_in_range (some n) = if leb n (2 ^ 63) then some (neg n) else none

-- `strconv.ParseInt(s, 10, 64)`: `none` where it returns an error.
unfoldable pub parse_int : Str → Option ℤ
unfolding parse_nat in_range neg_in_range
parse_int [] = none
parse_int (c ∷ s) =
    if c == b'+'
    then in_range (parse_nat s)
    else if c == b'-'
    then neg_in_range (parse_nat s)
    else in_range (parse_nat (c ∷ s))

digits-ne-nil : (f n : ℕ) (out : Str) → n < f → digits f n out ≢ []
unfolding digits
digits-ne-nil zero n out h = absurd (omega arith)
digits-ne-nil (suc f) n out h = ground (arith, digits-ne-nil f (n / 10) ((b'0' + n % 10) ∷ out))

digits-IsDigit : (f n : ℕ) (out : Str) → All IsDigit out → All IsDigit (digits f n out)
unfolding digits
digits-IsDigit zero n out h = h
digits-IsDigit (suc f) n out h = ground (arith, digits-IsDigit f (n / 10) ((b'0' + n % 10) ∷ out))

scan-digits : (f n : ℕ) (out : Str) → n < f → scan (digits f n out) 0 ≡ scan out n
unfolding scan digits
scan-digits zero n out h = absurd (omega arith)
scan-digits (suc f) n out h = ground (arith, scan-digits f (n / 10) ((b'0' + n % 10) ∷ out))

parse_int_digits :
    (s : Str) (n : ℕ)
    → s ≢ []
    → All IsDigit s
    → scan s 0 ≡ some n
    → n < 2 ^ 63
    → parse_int s ≡ some (pos n)
unfolding parse_int
parse_int_digits [] n ne d e h = absurd (ne refl)
parse_int_digits (c ∷ s) n ne d e h = ground arith

-- A print is digits.
pub format_nat-IsDigit : (n : ℕ) → All IsDigit (format_nat n)
unfolding format_nat
format_nat-IsDigit n = digits-IsDigit (suc n) n [] tt

-- Every `int64` that is not negative is read back from its print.
pub parse_int-format_int : (n : ℕ) → n < 2 ^ 63 → parse_int (format_int (pos n)) ≡ some (pos n)
unfolding format_int
parse_int-format_int n h =
    parse_int_digits (format_nat n) n
      (unfold format_nat in digits-ne-nil (suc n) n [] (omega arith)) (format_nat-IsDigit n)
      (unfold format_nat scan in scan-digits (suc n) n [] (omega arith)) h

scan_format : (n : ℕ) → scan (format_nat n) 0 ≡ some n
unfolding scan format_nat
scan_format n = scan-digits (suc n) n [] (omega arith)

-- Two numbers with one print are equal.
pub format_nat_injective : (m n : ℕ) → format_nat m ≡ format_nat n → m ≡ n
format_nat_injective m n e = cc (scan_format m, scan_format n)
