-- ===== src/Tests/Edges.antt =====
-- The theorems on the provider, the configuration and the HTTP API, at sample inputs.
use notification_system.Prelude.{
  ℕ, if◌then◌else◌, ◌&&◌, is_blank, inl, inr, arith, ◌≤◌, ◌<◌, ◌≡◌, ◌≢◌, refl, ◌↔◌, true, Option,
  none, some, String,
}
use notification_system.Domain.Models.{Time}
use notification_system.Http.{
  authenticate, Incoming, untouched, Handler, returned, panicked, serve, correlation_of,
  requires_auth,
}
use notification_system.Http.Guarded.{Answered, serve-Answered, AgreeOnFit, serve-guarded}
use notification_system.Platform.{Verifier}
use notification_system.Provider.{
  ResponseBody, Verdict, turned_down, response, classify, is_excluded,
}
use notification_system.Provider.Verdicts.{is_accepted, error_of, classify_verdict}
use notification_system.Domain.Models.{ProviderRequest}
use notification_system.Domain.Enums.{Channel}

abbrev no_fields : String → ResponseBody
no_fields s = record { message_id = ""; status = ""; timestamp = "" }

abbrev no_time : String → Option Time
no_time s = none

classify_verdict_example :
    let reply = classify no_fields no_time no_time 1000 (response 429 "7" "busy") in
    ((is_accepted reply ≡ true) ↔ ((200 ≤ 429) × (429 < 300)))
    × ((is_excluded (error_of reply) ≡ true) ↔ ((400 ≤ 429) × (429 < 500) × ◌≢◌ {A = ℕ} 429 429))
classify_verdict_example = classify_verdict no_fields no_time no_time 1000 429 "7" "busy"

abbrev all_open : Channel → Verdict
all_open c = turned_down "open"

abbrev text_message : ProviderRequest
text_message = record { delivery_id = 2; to = "+90"; channel = "sms"; content = "shipped" }

abbrev says_ada : Verifier
says_ada secret token = some "ada"

-- Routes that panic on every request.
abbrev broken_routes : Handler
broken_routes i w = (panicked, w)

abbrev knock : Incoming
knock = record {
  method = "GET";
  path = "/api/v1/notifications";
  correlation_header = "c-1";
  authorization = "Bearer t";
  correlation = "";
  user = "";
}

serve-Answered_example :
    let answer =
      serve says_ada "0123456789abcdef0123456789abcdef" "c-2" broken_routes knock untouched in
    (answer.0 ≡ returned)
    × (answer.1.correlation ≡ some (correlation_of "c-2" knock))
    × Answered broken_routes "c-2" knock
        (authenticate says_ada "0123456789abcdef0123456789abcdef" "/api/v1/notifications"
          "Bearer t")
        answer.1
serve-Answered_example =
    serve-Answered says_ada "0123456789abcdef0123456789abcdef" "c-2" broken_routes knock
      (λ i w. refl)

-- Routes that panic, but only on a request without a user.
abbrev picky_routes : Handler
picky_routes i w = if requires_auth i.path && is_blank i.user then (panicked, w) else (returned, w)

abbrev easy_routes : Handler
easy_routes i w = (returned, w)

picky_on_fit : AgreeOnFit picky_routes easy_routes
picky_on_fit i w (inl e) = ground (arith, e)
picky_on_fit i w (inr e) = ground (arith, e)

serve-guarded_example :
    serve says_ada "0123456789abcdef0123456789abcdef" "c-2" picky_routes knock untouched
    ≡ serve says_ada "0123456789abcdef0123456789abcdef" "c-2" easy_routes knock untouched
serve-guarded_example =
    serve-guarded says_ada "0123456789abcdef0123456789abcdef" "c-2" picky_routes easy_routes knock
      untouched picky_on_fit
