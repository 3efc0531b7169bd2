-- ===== src/Template/Placeholder.antt =====
-- The regular expression of a placeholder and `RenderContent`. Go's `\s` is [\t\n\f\r ].
use Prim.Native.Char.{Char, code}
use Prim.Native.String.{◌++◌, count}
use notification_system.Prelude.{
  ℕ, zero, suc, String, Bool, ◌&&◌, ◌||◌, Option, none, some, List, ◌==◌, leb, if◌then◌else◌,
  lookup,
}

-- `\s`
abbrev pub is_blank_char : ℕ → Bool
is_blank_char c = (c == 9) || (c == 10) || (c == 12) || (c == 13) || (c == 32)

-- `[a-zA-Z0-9_]`
abbrev pub is_word_char : ℕ → Bool
is_word_char c =
    (leb b'a' c && leb c b'z')
    || (leb b'A' c && leb c b'Z')
    || (leb b'0' c && leb c b'9')
    || (c == b'_')

-- Where the matcher stands within a placeholder.
pub data Place : Type 0 where
  opening before name after closing : Place

-- What a match found: the key, the text that it covers, and the text behind it.
pub record Match : Type 0 where
  pub key : String
  pub covered : String
  pub rest : String

abbrev snoc : String → Char → String
snoc s c = s ++ String.◌∷◌ c String.[]

-- The match that goes on at a place, with the key and the text covered so far. The classes of blanks
-- and of word characters are disjoint, so the greedy match needs no backtracking.
unfoldable pub match_from : Place → String → String → String → Option Match
match_from place key covered String.[] = none
match_from opening key covered (String.◌∷◌ c s) =
    let next = match_from before key (snoc covered c) s in if code c == b'{' then next else none
match_from before key covered (String.◌∷◌ c s) =
    let skip = match_from before key (snoc covered c) s in
    let start = match_from name (snoc key c) (snoc covered c) s in
    if is_blank_char (code c) then skip else if is_word_char (code c) then start else none
match_from name key covered (String.◌∷◌ c s) =
    let more = match_from name (snoc key c) (snoc covered c) s in
    let pad = match_from after key (snoc covered c) s in
    let close = match_from closing key (snoc covered c) s in
    if is_word_char (code c)
    then more
    else if is_blank_char (code c)
    then pad
    else if code c == b'}'
    then close
    else none
match_from after key covered (String.◌∷◌ c s) =
    let pad = match_from after key (snoc covered c) s in
    let close = match_from closing key (snoc covered c) s in
    if is_blank_char (code c) then pad else if code c == b'}' then close else none
match_from closing key covered (String.◌∷◌ c s) =
    if code c == b'}' then some (record { key = key; covered = snoc covered c; rest = s }) else none

-- A placeholder at the start of a text.
unfoldable pub placeholder : String → Option Match
unfolding match_from
placeholder String.[] = none
placeholder (String.◌∷◌ c s) =
    let next = match_from opening String.[] (String.◌∷◌ c String.[]) s in
    if code c == b'{' then next else none

-- The replacement of a match: the value of its key, or the match itself.
unfoldable pub replacement : List (String × String) → Match → String
replacement variables m = elim (lookup m.key variables) [ some value ↦ value | none ↦ m.covered ]

-- `ReplaceAllStringFunc`, from the left; the fuel bounds the characters still to read.
unfoldable pub render_from : ℕ → List (String × String) → String → String
unfolding placeholder replacement
render_from zero variables s = s
render_from (suc fuel) variables String.[] = String.[]
render_from (suc fuel) variables (String.◌∷◌ c s) = elim (placeholder (String.◌∷◌ c s)) [
  | some m ↦ replacement variables m ++ render_from fuel variables m.rest
  | none ↦ String.◌∷◌ c (render_from fuel variables s)
]

-- `RenderContent`
unfoldable pub render_content : String → List (String × String) → String
unfolding render_from
render_content content variables = render_from (count content) variables content
