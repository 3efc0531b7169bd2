-- ===== src/Prelude/Format.antt =====
-- `strconv.FormatInt` in base 10, and `strconv.Atoi` of what it prints.
use Prim.Native.Char.{Char, code}
use Prim.Native.String.{String, char_at}
use Prim.Native.Nat.{ℕ, zero, suc, ◌+◌, ◌*◌, ◌/◌, ◌%◌, ◌^◌, ◌≤◌, ◌<◌}
use mathlib.Core.Path.{◌≡◌, refl, ap, ◌∙◌}
use mathlib.Core.Logic.{◌≢◌}
use mathlib.Core.Bool.{true, false}
use mathlib.Core.Option.{some}
use native.Mathlib.Omega.{arith}
use notification_system.Prelude.Tests.{◌==◌}
use notification_system.Prelude.Int.{ℤ, pos, negsuc}
use notification_system.Prelude.Decimal.{digits_value, digits, negated, atoi}

unfoldable pub digit_char : ℕ → Char
digit_char d = char_at "0123456789" d

-- The digits of a number, before a text; a number is enough fuel for itself.
unfoldable pub print_digits : ℕ → ℕ → String → String
print_digits zero n out = out
print_digits (suc fuel) n out = elim (n == 0) [
  | true ↦ out
  | false ↦ print_digits fuel (n / 10) (String.◌∷◌ (digit_char (n % 10)) out)
]

unfoldable pub format_nat : ℕ → String
unfolding print_digits
format_nat zero = "0"
format_nat (suc n) = print_digits (suc n) (suc n) ""

-- `strconv.FormatInt(i, 10)`
unfoldable pub format_int : ℤ → String
unfolding format_nat
format_int (pos n) = format_nat n
format_int (negsuc n) = String.◌∷◌ "-" (format_nat (suc n))

pub code-digit_char : (d : ℕ) → d < 10 → code (digit_char d) ≡ b'0' + d
unfolding digit_char
code-digit_char zero h = refl
code-digit_char (suc zero) h = refl
code-digit_char (suc (suc zero)) h = refl
code-digit_char (suc (suc (suc zero))) h = refl
code-digit_char (suc (suc (suc (suc zero)))) h = refl
code-digit_char (suc (suc (suc (suc (suc zero))))) h = refl
code-digit_char (suc (suc (suc (suc (suc (suc zero)))))) h = refl
code-digit_char (suc (suc (suc (suc (suc (suc (suc zero))))))) h = refl
code-digit_char (suc (suc (suc (suc (suc (suc (suc (suc zero)))))))) h = refl
code-digit_char (suc (suc (suc (suc (suc (suc (suc (suc (suc zero))))))))) h = refl
code-digit_char (suc (suc (suc (suc (suc (suc (suc (suc (suc (suc n)))))))))) h =
    absurd (omega arith)

digits_value-digit :
    (acc d : ℕ) (s : String)
    → d < 10
    → digits_value acc (String.◌∷◌ (digit_char d) s) ≡ digits_value (acc * 10 + d) s
unfolding digits_value
digits_value-digit acc d s h = ground (arith, code-digit_char d h)

digits_value-print :
    (fuel n : ℕ) (out : String)
    → n ≤ fuel
    → digits_value 0 (print_digits fuel n out) ≡ digits_value n out
unfolding print_digits
digits_value-print zero n out h = ground arith
digits_value-print (suc fuel) n out h = ground (
  arith,
  digits_value-digit (n / 10) (n % 10) out (omega arith),
  digits_value-print fuel (n / 10) (String.◌∷◌ (digit_char (n % 10)) out) (omega arith),
)

-- A text whose first character is a digit, before which `Atoi` expects no sign.
atoi-digits_value :
    (s : String) (n : ℕ)
    → s ≢ String.[]
    → digits_value 0 s ≡ some n
    → n < 2 ^ 63
    → atoi s ≡ some (pos n)
unfolding atoi digits_value
atoi-digits_value String.[] n nonempty h small = absurd (nonempty refl)
atoi-digits_value (String.◌∷◌ c s) n nonempty h small = ground arith

digits-digits_value : (s : String) → s ≢ String.[] → digits s ≡ digits_value 0 s
digits-digits_value String.[] h = absurd (h refl)
digits-digits_value (String.◌∷◌ c s) h = refl

print_digits-nonempty :
    (fuel n : ℕ) (out : String) → out ≢ String.[] → print_digits fuel n out ≢ String.[]
unfolding print_digits
print_digits-nonempty zero n out h = h
print_digits-nonempty (suc fuel) n out h =
    ground
      (arith, print_digits-nonempty fuel (n / 10) (String.◌∷◌ (digit_char (n % 10)) out) (λ q. cc))

format_nat-nonempty : (n : ℕ) → format_nat n ≢ String.[]
unfolding format_nat print_digits
format_nat-nonempty zero = λ q. cc
format_nat-nonempty (suc n) = ground (
  arith,
  print_digits-nonempty n (suc n / 10) (String.◌∷◌ (digit_char (suc n % 10)) "") (λ q. cc),
)

pub digits_value-format : (n : ℕ) → digits_value 0 (format_nat n) ≡ some n
unfolding format_nat digits_value
digits_value-format zero = refl
digits_value-format (suc n) = digits_value-print (suc n) (suc n) "" (omega arith)

atoi-minus : (s : String) → atoi (String.◌∷◌ "-" s) ≡ negated (digits s)
unfolding atoi
atoi-minus s = refl

negated_fits : (n : ℕ) → n < 2 ^ 63 → negated (some (suc n)) ≡ some (negsuc n)
negated_fits n h = ground arith

-- A number that 64 bits hold.
abbrev pub Fits64 : ℤ → Type 0
Fits64 (pos n) = n < 2 ^ 63
Fits64 (negsuc n) = n < 2 ^ 63

-- Every 64-bit integer is read back from its decimal print.
pub atoi-format_int : (i : ℤ) → Fits64 i → atoi (format_int i) ≡ some i
unfolding format_int atoi
atoi-format_int (pos n) h =
    atoi-digits_value (format_nat n) n (format_nat-nonempty n) (digits_value-format n) h
atoi-format_int (negsuc n) h =
    atoi-minus (format_nat (suc n))
    ∙ ap negated (
        digits-digits_value (format_nat (suc n)) (format_nat-nonempty (suc n))
        ∙ digits_value-format (suc n))
    ∙ negated_fits n h
