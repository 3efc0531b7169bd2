-- ===== src/Platform/Tokens.antt =====
-- Signed tokens and what they are parsed to.
use notification_system.Domain.Models.{Time}
use notification_system.Prelude.{
  ℤ, ◌+◌, ◌≤◌, String, false, none, some, ◌≡◌, same_text, is_blank, trim_space, add_duration,
  is_blank-trim_space, is_blank-same_text, arith,
}
use notification_system.Platform.Auth.{
  Signer, Verifier, Claims, signed, sign_token, authenticated, parse_token, validate_secret,
  new_claims,
}

-- The JWT library reads back what it has signed: the text of a token is neither empty nor has space
-- around it, and until a second before it expires its claim is read with the same secret.
abbrev pub ReadsTokens : Signer → Verifier → Time → Type 0
ReadsTokens sign verify later =
    (secret : String) (c : Claims) (token : String)
    → sign secret c ≡ some token
    → later + 1000000000 ≤ c.expires_at
    → (verify secret token ≡ some c.user_id)
      × (trim_space token ≡ token)
      × (same_text token "" ≡ false)

-- What a signed token shows of its signing.
signed_facts :
    (sign : Signer) (now : Time) (secret user token : String) (ttl : ℤ)
    → sign_token sign now secret user ttl ≡ signed token
    → (validate_secret secret ≡ none)
      × (same_text (trim_space user) "" ≡ false)
      × (sign secret (new_claims (trim_space user) now ttl) ≡ some token)
unfolding sign_token
signed_facts sign now secret user token ttl e = ground (arith, e)

-- A name of which something is left without the space around it.
trimmed-not_blank :
    (user : String) → same_text (trim_space user) "" ≡ false → is_blank (trim_space user) ≡ false
trimmed-not_blank user e = rw (is_blank-trim_space user, is_blank-same_text user, e)

parsed :
    (verify : Verifier) (secret token user : String)
    → validate_secret secret ≡ none
    → (verify secret token ≡ some user) × (trim_space token ≡ token) × (same_text token "" ≡ false)
    → is_blank user ≡ false
    → parse_token verify secret token ≡ authenticated user
unfolding parse_token
parsed verify secret token user v reads b = ground (arith, v, reads.1, reads.2, reads.0, b)

-- A token that is signed for a user, before it expires, authenticates that user under the same
-- secret, without the space around the name.
pub parse_token-sign_token :
    (sign : Signer) (verify : Verifier) (now later : Time) (secret user token : String) (ttl : ℤ)
    → ReadsTokens sign verify later
    → later + 1000000000 ≤ add_duration now ttl
    → sign_token sign now secret user ttl ≡ signed token
    → parse_token verify secret token ≡ authenticated (trim_space user)
parse_token-sign_token sign verify now later secret user token ttl law time e =
    let facts = signed_facts sign now secret user token ttl e in
    parsed verify secret token (trim_space user) facts.0
      (law secret (new_claims (trim_space user) now ttl) token facts.2 time)
      (trimmed-not_blank user facts.1)
