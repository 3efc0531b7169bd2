-- ===== src/Http/Paging.antt =====
-- What a client reads back from the tokens of a listing.
use Prim.Native.Char.{code}
use Prim.Native.String.{◌++◌ as ◌+++◌}
use Prim.Native.String.append as text_append
use Prim.Native.Nat.{◌^◌, ◌%◌, ◌<◌, ◌/◌}
use notification_system.Prelude.{
  Bool-cases, inl, inr, ℕ, zero, suc, ℤ, pos, negsuc, ◌+◌, ◌≤◌, String, some, false, ◌==◌, atoi,
  format_int, format_nat, print_digits, digit_char, Fits64, atoi-format_int, wrap64, ◌≡◌, refl, ap,
  ◌∙◌, arith, code-digit_char,
}
use notification_system.Domain.Models.{Uuid, Time}
use notification_system.Http.Cursor.{
  Codecs, unix_epoch, unix_nano, from_unix_nano, encode_cursor, split_bar, read_parts,
  decode_cursor,
}

-- A text with no `|`.
abbrev NoBar : String → Type 0
NoBar String.[] = Unit
NoBar (String.◌∷◌ c s) = ((code c == b'|') ≡ false) × NoBar s

split_bar-append : (s t : String) → NoBar s → split_bar (s +++ String.◌∷◌ "|" t) ≡ some (s, t)
unfolding split_bar
split_bar-append String.[] t h = rw (text_append.nil (String.◌∷◌ "|" t)) refl
split_bar-append (String.◌∷◌ c s) t h =
    rw (text_append.cons c s (String.◌∷◌ "|" t)) (rw (split_bar-append s t h.1) (rw h.0 refl))

digit_char-bar : (d : ℕ) → d < 10 → (code (digit_char d) == b'|') ≡ false
digit_char-bar d h = ground (arith, code-digit_char d h)

print_digits-NoBar : (fuel n : ℕ) (out : String) → NoBar out → NoBar (print_digits fuel n out)
unfolding print_digits
print_digits-NoBar zero n out h = h
print_digits-NoBar (suc fuel) n out h = elim (Bool-cases (n == 0)) [
  | inl e ↦ rw (e, print_digits) h
  | inr e ↦
      rw (e, print_digits)
        (print_digits-NoBar fuel (n / 10) (String.◌∷◌ (digit_char (n % 10)) out)
          (digit_char-bar (n % 10) (omega arith), h))
]

format_nat-NoBar : (n : ℕ) → NoBar (format_nat n)
unfolding format_nat
format_nat-NoBar zero = (refl, tt)
format_nat-NoBar (suc n) = print_digits-NoBar (suc n) (suc n) "" tt

format_int-NoBar : (i : ℤ) → NoBar (format_int i)
unfolding format_int
format_int-NoBar (pos n) = format_nat-NoBar n
format_int-NoBar (negsuc n) = (refl, format_nat-NoBar (suc n))

-- The instants whose distance from the epoch fits in 64 bits: the years 1678 to 2261, roughly.
abbrev pub Representable : Time → Type 0
Representable t = (unix_epoch ≤ t + 2 ^ 63) × (t < unix_epoch + 2 ^ 63)

unix_nano_fits : (t : Time) → Representable t → Fits64 (unix_nano t)
unfolding unix_nano wrap64
unix_nano_fits t h = ground arith

from_unix_nano-unix_nano : (t : Time) → Representable t → from_unix_nano (unix_nano t) ≡ t
unfolding unix_nano wrap64 from_unix_nano
from_unix_nano-unix_nano t h = ground arith

-- The documented behaviour of the two packages: each reads back what it writes, and no text decodes to
-- no text.
pub record ReadsBack (c : Codecs) : Type 0 where
  pub base64 : (s : String) → c.decode_base64 (c.encode_base64 s) ≡ some s
  pub nothing : c.decode_base64 "" ≡ some ""
  pub uuid : (id : Uuid) → c.parse_uuid (c.format_uuid id) ≡ some id

decode_cursor_split :
    (c : Codecs) (token raw : String) (parts : String × String)
    → c.decode_base64 token ≡ some raw
    → split_bar raw ≡ some parts
    → decode_cursor c token ≡ read_parts c parts
unfolding decode_cursor
decode_cursor_split c token raw parts h k = ground arith

read_parts_fit :
    (c : Codecs) (nanos : String) (ts : ℤ) (id : Uuid) (text : String)
    → atoi nanos ≡ some ts
    → c.parse_uuid text ≡ some id
    → read_parts c (nanos, text) ≡ some (id, from_unix_nano ts)
unfolding read_parts
read_parts_fit c nanos ts id text h k = ground arith

-- A token of a row gives back the row's id and instant, if base64 and the UUIDs read back what they
-- write and the instant is one that 64 bits of nanoseconds can hold.
pub decode_cursor-encode :
    (c : Codecs) (id : Uuid) (at : Time)
    → ReadsBack c
    → Representable at
    → decode_cursor c (encode_cursor c id (some at)) ≡ some (id, at)
unfolding encode_cursor
decode_cursor-encode c id at back fits =
    let nanos = format_int (unix_nano at) in
    let digits = atoi-format_int (unix_nano at) (unix_nano_fits at fits) in
    decode_cursor_split c _ _ (nanos, c.format_uuid id) (back.base64 _)
      (split_bar-append nanos (c.format_uuid id) (format_int-NoBar (unix_nano at)))
    ∙ read_parts_fit c nanos (unix_nano at) id (c.format_uuid id) digits (back.uuid id)
    ∙ ap (λ t. some (id, t)) (from_unix_nano-unix_nano at fits)
