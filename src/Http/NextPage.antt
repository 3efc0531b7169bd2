-- ===== src/Http/NextPage.antt =====
-- The query of the page that follows: the parameters of the one before, with the token in `cursor`.
use text.Mathlib.TextEquality.{eq_iff}
use notification_system.Prelude.{
  String, Option, none, some, false, if◌then◌else◌, same_text, ◌≡◌, sym, ◌∙◌, arith, Bool-cases,
  inl, inr,
}
use notification_system.Domain.Errors.{ok}
use notification_system.Domain.Models.{Uuid, Time}
use notification_system.Domain.Query.{ListFilter, normalize}
use notification_system.Http.Cursor.{Codecs, encode_cursor, decode_cursor, split_bar}
use notification_system.Http.Filter.{Query, optional, read_cursor, parse_list_filter}
use notification_system.Http.Paging.{ReadsBack, Representable, decode_cursor-encode}

-- The query with another token.
abbrev pub with_cursor : String → Query → Query
with_cursor token q name = if same_text name "cursor" then token else q name

empty_token :
    (c : Codecs) (token : String)
    → c.decode_base64 "" ≡ some ""
    → token ≡ ""
    → decode_cursor c token ≡ none
unfolding decode_cursor split_bar
empty_token c token h e = rw e (ground arith)

-- A token that decodes is not empty.
token_given :
    (c : Codecs) (token : String) (key : Uuid × Time)
    → c.decode_base64 "" ≡ some ""
    → decode_cursor c token ≡ some key
    → same_text token "" ≡ false
token_given c token key h d = elim (Bool-cases (same_text token "")) [
  | inl e ↦ absurd (none-ne-some (sym (empty_token c token h ((eq_iff token "").0 e)) ∙ d))
  | inr e ↦ e
]
  where
    none-ne-some : {k : Uuid × Time} → none ≡ some k → ⊥
    none-ne-some e = cc

optional-token :
    (c : Codecs) (token : String) (key : Uuid × Time)
    → same_text token "" ≡ false
    → decode_cursor c token ≡ some key
    → optional (read_cursor c) token ≡ ok (some key)
unfolding optional
optional-token c token key given d = ground arith

-- The token of a row, given as the cursor beside the parameters of a query that was accepted, is
-- accepted, and the filter is the one of that query with the row's id and instant as its keyset: that
-- of the page that follows. The packages are to read back what they write, and the instant is to fit.
pub parse_list_filter-next :
    (c : Codecs) (parse : String → Option Time) (q : Query) (f : ListFilter) (id : Uuid) (at : Time)
    → ReadsBack c
    → Representable at
    → parse_list_filter c parse q ≡ ok f
    → parse_list_filter c parse (with_cursor (encode_cursor c id (some at)) q)
      ≡ ok (record f { cursor = some id; cursor_at = some at })
unfolding parse_list_filter normalize
parse_list_filter-next c parse q f id at back fits h =
    let token = encode_cursor c id (some at) in
    let d = decode_cursor-encode c id at back fits in
    ground (arith, optional-token c token (id, at) (token_given c token (id, at) back.nothing d) d)
