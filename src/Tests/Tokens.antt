-- ===== src/Tests/Tokens.antt =====
-- The theorem on signed tokens, at a signer that knows one user.
use text.Mathlib.TextEquality.{eq_iff}
use notification_system.Prelude.{
  String, false, none, some, ◌≡◌, refl, sym, subst, ap, inl, inr, pos, arith, same_text, trim_space,
  if◌then◌else◌, Bool-cases,
}
use notification_system.Platform.{
  Signer, Verifier, Claims, sign_token, authenticated, parse_token, validate_secret,
}
use notification_system.Platform.Tokens.{ReadsTokens, parse_token-sign_token}

abbrev signs_ada : Signer
signs_ada secret c = if same_text c.user_id "ada" then some "t" else none

abbrev reads_ada : Verifier
reads_ada secret token = some "ada"

the_token :
    (token : String) (c : Claims)
    → signs_ada "" c ≡ some token
    → (c.user_id ≡ "ada") × ("t" ≡ token)
the_token token c e = elim (Bool-cases (same_text c.user_id "ada")) [
  | inl p ↦ ((eq_iff c.user_id "ada").0 p, ground (arith, e, p))
  | inr p ↦ ground (arith, e, p)
]

reads_back : ReadsTokens signs_ada reads_ada 5
unfolding trim_space
reads_back secret c token e time =
    let known = the_token token c e in
    let tidy = subst (λ t. (trim_space t ≡ t) × (same_text t "" ≡ false)) known.1 (refl, refl) in
    (ap some (sym known.0), tidy.0, tidy.1)

parse_token-sign_token_example :
    parse_token reads_ada "0123456789abcdef0123456789abcdef" "t"
    ≡ authenticated (trim_space " ada ")
unfolding sign_token validate_secret trim_space
parse_token-sign_token_example =
    parse_token-sign_token signs_ada reads_ada 3 5 "0123456789abcdef0123456789abcdef" " ada " "t"
      (pos 2000000000) reads_back (omega arith) refl
