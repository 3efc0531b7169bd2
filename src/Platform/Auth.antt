-- ===== src/Platform/Auth.antt =====
-- internal/platform/auth/auth.go. The JWT library is a parameter: what it says of a token.
use Prim.Native.String.{len}
use notification_system.Domain.Models.{Time}
use notification_system.Prelude.{
  ℤ, add_duration, ℕ, String, ltb, same_text, is_blank, trim_space, if◌then◌else◌, Option, none,
  some,
}

pub data AuthError : Type 0 where
  empty_secret secret_too_short invalid_token missing_user_id : AuthError

pub data AuthResult : Type 0 where
  authenticated : String → AuthResult
  rejected : AuthError → AuthResult

abbrev pub min_secret_len : ℕ
min_secret_len = 32

-- `ValidateSecret`; the length is in bytes.
unfoldable pub validate_secret : String → Option AuthError
validate_secret secret =
    if same_text secret ""
    then some empty_secret
    else if ltb (len secret) min_secret_len
    then some secret_too_short
    else none

-- The claim of a token whose signature and times are valid, and none for another.
abbrev pub Verifier : Type 0
Verifier = String → String → Option String

-- The user of the claims: the claim as it stands, unless it is blank.
abbrev pub user_of : Option String → AuthResult
user_of none = rejected invalid_token
user_of (some user) = if is_blank user then rejected missing_user_id else authenticated user

-- `ParseToken`
unfoldable pub parse_token : Verifier → String → String → AuthResult
unfolding validate_secret
parse_token verify secret token = elim (validate_secret secret) [
  | some e ↦ rejected e
  | none ↦
      if same_text (trim_space token) ""
      then rejected invalid_token
      else user_of (verify secret (trim_space token))
]

-- What a token claims; the times are the library's to round to seconds.
pub record Claims : Type 0 where
  pub user_id : String
  pub subject : String
  pub issued_at : Time
  pub expires_at : Time

-- The signed text of some claims under a secret, if the library can sign them.
abbrev pub Signer : Type 0
Signer = String → Claims → Option String

pub data SignResult : Type 0 where
  signed : String → SignResult
  unsigned : Option AuthError → SignResult

abbrev pub new_claims : String → Time → ℤ → Claims
new_claims user now ttl = record {
  user_id = user;
  subject = user;
  issued_at = now;
  expires_at = add_duration now ttl;
}

abbrev signature : Option String → SignResult
signature none = unsigned none
signature (some token) = signed token

-- `SignToken`, at an instant; `unsigned none` is an error of the library.
unfoldable pub sign_token : Signer → Time → String → String → ℤ → SignResult
unfolding validate_secret
sign_token sign now secret user ttl = elim (validate_secret secret) [
  | some e ↦ unsigned (some e)
  | none ↦
      if same_text (trim_space user) ""
      then unsigned (some missing_user_id)
      else signature (sign secret (new_claims (trim_space user) now ttl))
]
