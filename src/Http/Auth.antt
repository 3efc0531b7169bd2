-- ===== src/Http/Auth.antt =====
-- auth_middleware.go: which requests reach a handler, and for which user.
use Prim.Native.String.{len, slice}
use text.Mathlib.Text.{starts_with}
use notification_system.Prelude.{String, Bool, same_text, trim_space, if◌then◌else◌}
use notification_system.Http.Errors.{Response, error_response}
use notification_system.Platform.{AuthResult, authenticated, rejected, Verifier, parse_token}

-- `requiresAuth`
unfoldable pub requires_auth : String → Bool
requires_auth path = starts_with path "/api/v1/"

-- `bearerToken`
unfoldable pub bearer_token : String → String
bearer_token header =
    if starts_with header "Bearer "
    then trim_space (slice header (len "Bearer ") (len header))
    else ""

-- What the middleware does with a request: it goes on, with the user in its context or with none, or
-- it is answered at once.
pub data Admission : Type 0 where
  anonymous : Admission
  as_user : String → Admission
  denied : Response → Admission

abbrev pub unauthorized : String → Response
unauthorized message = error_response 401 "unauthorized" "" message

abbrev pub admit : AuthResult → Admission
admit (authenticated user) = as_user user
admit (rejected e) = denied (unauthorized "invalid or expired token")

-- `authMiddleware`
unfoldable pub authenticate : Verifier → String → String → String → Admission
unfolding requires_auth bearer_token
authenticate verify secret path header =
    if requires_auth path
    then (if same_text (bearer_token header) ""
        then denied (unauthorized "missing or invalid Authorization header")
        else admit (parse_token verify secret (bearer_token header)))
    else anonymous
