-- ===== src/Http/Cursor.antt =====
-- cursor.go: the token of a listing's next page. `encoding/base64` and `google/uuid` are parameters.
use Prim.Native.Char.{Char, code}
use Prim.Native.String.{◌++◌ as ◌+++◌}
use Prim.Native.Nat.{◌-◌}
use notification_system.Prelude.{
  ℤ, pos, negsuc, String, Option, none, some, ◌==◌, if◌then◌else◌, atoi, format_int, wrap64,
  add_duration, leb,
}
use notification_system.Domain.Models.{Uuid, Time}

-- What the cursor uses of the two packages.
pub record Codecs : Type 0 where
  pub encode_base64 : String → String
  pub decode_base64 : String → Option String
  pub format_uuid : Uuid → String
  pub parse_uuid : String → Option Uuid

-- The Unix epoch, from Go's zero time.
abbrev pub unix_epoch : Time
unix_epoch = 62135596800000000000

-- `Time.UnixNano`
unfoldable pub unix_nano : Time → ℤ
unix_nano t =
    wrap64 (if leb unix_epoch t then pos (t - unix_epoch) else negsuc (unix_epoch - t - 1))

-- `time.Unix(0, ts)`
unfoldable pub from_unix_nano : ℤ → Time
from_unix_nano ts = add_duration unix_epoch ts

-- The nanoseconds of a cursor; without an instant they are 0.
abbrev pub cursor_nanos : Option Time → ℤ
cursor_nanos none = pos 0
cursor_nanos (some t) = unix_nano t

-- `encodeCursor`
unfoldable pub encode_cursor : Codecs → Uuid → Option Time → String
encode_cursor c id at =
    c.encode_base64 (format_int (cursor_nanos at) +++ String.◌∷◌ "|" (c.format_uuid id))

abbrev pub before : Char → Option (String × String) → Option (String × String)
before c none = none
before c (some parts) = some (String.◌∷◌ c parts.0, parts.1)

-- `strings.SplitN(s, "|", 2)`, where it gives two parts.
unfoldable pub split_bar : String → Option (String × String)
split_bar String.[] = none
split_bar (String.◌∷◌ c s) =
    let rest = before c (split_bar s) in if code c == b'|' then some (String.[], s) else rest

-- The instant and the id of a token's two parts.
unfoldable pub read_parts : Codecs → String × String → Option (Uuid × Time)
read_parts c parts = elim (atoi parts.0) [
  | none ↦ none
  | some ts ↦ elim (c.parse_uuid parts.1) [ none ↦ none | some id ↦ some (id, from_unix_nano ts) ]
]

-- `decodeCursor`; its errors are told apart by no caller.
unfoldable pub decode_cursor : Codecs → String → Option (Uuid × Time)
unfolding split_bar read_parts
decode_cursor c token = elim (c.decode_base64 token) [
  | none ↦ none
  | some raw ↦ elim (split_bar raw) [ none ↦ none | some parts ↦ read_parts c parts ]
]
