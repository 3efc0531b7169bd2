-- ===== src/Http/Middleware.antt =====
-- middleware.go, and the chain of `NewRouter` in router.go. The routing table stands behind the chain as
-- one handler. A response writer keeps the first status that is written, as net/http does.
use notification_system.Prelude.{
  ℕ, String, Option, none, some, List, [], ◌∷◌, ◌++◌, same_text, if◌then◌else◌,
}
use notification_system.Http.Auth.{authenticate, anonymous, as_user, denied}
use notification_system.Http.Errors.{Body, Response, error_response}
use notification_system.Platform.{Verifier}

-- What a handler knows of a request; the last two stand in its context.
pub record Incoming : Type 0 where
  pub method : String
  pub path : String
  pub correlation_header : String  -- "" where the header is absent
  pub authorization : String
  pub correlation : String
  pub user : String

-- An entry of the access log.
pub record AccessLog : Type 0 where
  pub method : String
  pub path : String
  pub status : ℕ
  pub user : String
  pub correlation : String

-- The response writer: what goes to the client, the field of `statusRecorder`, and the access log.
pub record Writer : Type 0 where
  pub correlation : Option String
  pub status : Option ℕ
  pub bodies : List Body
  pub recorded : ℕ
  pub logs : List AccessLog

abbrev pub untouched : Writer
untouched = record { correlation = none; status = none; bodies = []; recorded = 0; logs = [] }

pub data Ending : Type 0 where
  returned panicked : Ending

abbrev pub Handler : Type 0
Handler = Incoming → Writer → Ending × Writer

abbrev first_status : Option ℕ → ℕ → Option ℕ
first_status (some code) later = some code
first_status none code = some code

-- `writeJSON`, but for the content type; behind `loggingMiddleware` the writer is a
-- `statusRecorder`, which notes the status too.
unfoldable pub write_json : Response → Writer → Writer
write_json r w = record w {
  status = first_status w.status r.status;
  bodies = w.bodies ++ r.body ∷ [];
  recorded = r.status;
}

abbrev pub correlation_of : String → Incoming → String
correlation_of fresh i = if same_text i.correlation_header "" then fresh else i.correlation_header

-- `correlationMiddleware`; `fresh` is the UUID that it may draw.
unfoldable pub correlation_middleware : String → Handler → Handler
correlation_middleware fresh next i w =
    let id = correlation_of fresh i in
    next (record i { correlation = id }) (record w { correlation = some id })

-- `authMiddleware`, as a handler
unfoldable pub auth_middleware : Verifier → String → Handler → Handler
auth_middleware verify secret next i w = elim (authenticate verify secret i.path i.authorization) [
  | anonymous ↦ next i w
  | as_user u ↦ next (record i { user = u }) w
  | denied r ↦ (returned, write_json r w)
]

abbrev pub logged : Incoming → Writer → Writer
logged i w = record w {
  logs =
      w.logs
      ++ (record {
        method = i.method;
        path = i.path;
        status = w.recorded;
        user = i.user;
        correlation = i.correlation;
      })
        ∷ [];
}

abbrev pub after_next : Incoming → Ending × Writer → Ending × Writer
after_next i (returned, w) = (returned, logged i w)
after_next i (panicked, w) = (panicked, w)

-- `loggingMiddleware`: a panic passes by the log.
unfoldable pub logging_middleware : Handler → Handler
logging_middleware next i w = after_next i (next i (record w { recorded = 200 }))

abbrev pub panic_response : Response
panic_response = error_response 500 "internal_error" "" "an unexpected error occurred"

unfoldable pub recovered : Ending × Writer → Ending × Writer
unfolding write_json
recovered (returned, w) = (returned, w)
recovered (panicked, w) = (returned, write_json panic_response w)

-- `recoverMiddleware`
unfoldable pub recover_middleware : Handler → Handler
recover_middleware next i w = recovered (next i w)

-- `chain`: the first middleware is the outermost.
unfoldable pub chain : Handler → List (Handler → Handler) → Handler
chain h [] = h
chain h (m ∷ ms) = m (chain h ms)

-- `NewRouter`: the routes behind the middlewares.
unfoldable pub serve : Verifier → String → String → Handler → Handler
unfolding chain recover_middleware correlation_middleware auth_middleware logging_middleware
serve verify secret fresh routes = chain routes (
    recover_middleware
    ∷ correlation_middleware fresh
    ∷ auth_middleware verify secret
    ∷ logging_middleware
    ∷ [])
