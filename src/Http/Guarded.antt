-- ===== src/Http/Guarded.antt =====
-- What the chain of middlewares promises to clients and to the handlers behind it.
use notification_system.Prelude.{
  ℕ, true, none, Option, [], ◌∷◌, ◌++◌, is_some, String, false, some, ◌≡◌, refl, ap, ◌∙◌, ◌⊎◌, inl,
  inr, is_blank,
}
use notification_system.Http.Answers.{Admitted, authenticate-Admitted}
use notification_system.Http.Auth.{
  Admission, anonymous, as_user, denied, authenticate, requires_auth,
}
use notification_system.Http.Errors.{Response, error_body}
use notification_system.Http.Middleware.{
  AccessLog, Incoming, Writer, untouched, Ending, returned, panicked, Handler, write_json,
  correlation_of, correlation_middleware, auth_middleware, logging_middleware, recover_middleware,
  recovered, chain, serve, after_next,
}
use notification_system.Platform.{Verifier}

-- The handlers leave the correlation header alone.
abbrev pub KeepsHeader : Handler → Type 0
KeepsHeader h = (i : Incoming) (w : Writer) → (h i w).1.correlation ≡ w.correlation

write_json-correlation : (r : Response) (w : Writer) → (write_json r w).correlation ≡ w.correlation
unfolding write_json
write_json-correlation r w = refl

after_next-correlation :
    (i : Incoming) (x : Ending × Writer) → (after_next i x).1.correlation ≡ x.1.correlation
after_next-correlation i (returned, w) = refl
after_next-correlation i (panicked, w) = refl

logging-KeepsHeader : (h : Handler) → KeepsHeader h → KeepsHeader (logging_middleware h)
unfolding logging_middleware
logging-KeepsHeader h k i w = after_next-correlation i _ ∙ k i _

auth-KeepsHeader :
    (verify : Verifier) (secret : String) (h : Handler)
    → KeepsHeader h
    → KeepsHeader (auth_middleware verify secret h)
unfolding auth_middleware
auth-KeepsHeader verify secret h k i w =
    elim (authenticate verify secret i.path i.authorization)
      as (λ a.
        (elim a as (λ _. Ending × Writer) [
          | anonymous ↦ h i w
          | as_user u ↦ h (record i { user = u }) w
          | denied r ↦ (returned, write_json r w)
        ]).1.correlation
        ≡ w.correlation) [
          | anonymous ↦ k i w
          | as_user u ↦ k (record i { user = u }) w
          | denied r ↦ write_json-correlation r w
        ]

recovered-correlation : (x : Ending × Writer) → (recovered x).1.correlation ≡ x.1.correlation
unfolding recovered write_json
recovered-correlation (returned, w) = refl
recovered-correlation (panicked, w) = refl

-- The entry of the access log.
abbrev log_of : Incoming → Writer → AccessLog
log_of i w = record {
  method = i.method;
  path = i.path;
  status = w.recorded;
  user = i.user;
  correlation = i.correlation;
}

-- The request as it reaches the handlers: with its correlation id, and the user of its token.
abbrev pub identified : String → Incoming → String → Incoming
identified fresh i user = record i { correlation = correlation_of fresh i; user = user }

abbrev pub ready : String → Incoming → Writer
ready fresh i = record untouched { correlation = some (correlation_of fresh i); recorded = 200 }

-- What a client is sent once the handlers have run: what they have written and one entry in the
-- access log; or, where they panic, a 500 that hides the reason, unless they have sent a status
-- already, and no entry.
abbrev pub Sent : Incoming → Ending × Writer → Writer → Type 0
Sent j (returned, w) out =
    (out.status ≡ w.status) × (out.bodies ≡ w.bodies) × (out.logs ≡ w.logs ++ log_of j w ∷ [])
Sent j (panicked, w) out =
    ((out.status ≡ w.status) ⊎ ((w.status ≡ none) × (out.status ≡ some 500)))
    × (is_some out.status ≡ true)
    × (out.bodies ≡ w.bodies ++ error_body "internal_error" "" "an unexpected error occurred" ∷ [])
    × (out.logs ≡ w.logs)

-- What a client is sent under a decision of the authentication.
abbrev pub Answered : Handler → String → Incoming → Admission → Writer → Type 0
Answered routes fresh i anonymous out =
    Sent (identified fresh i i.user) (routes (identified fresh i i.user) (ready fresh i)) out
Answered routes fresh i (as_user u) out =
    Sent (identified fresh i u) (routes (identified fresh i u) (ready fresh i)) out
Answered routes fresh i (denied r) out =
    (out.status ≡ some 401) × (out.bodies ≡ r.body ∷ []) × (out.logs ≡ [])

recovered_returns : (x : Ending × Writer) → (recovered x).0 ≡ returned
unfolding recovered
recovered_returns (returned, w) = refl
recovered_returns (panicked, w) = refl

recovered-Sent : (j : Incoming) (x : Ending × Writer) → Sent j x (recovered (after_next j x)).1
unfolding recovered write_json
recovered-Sent j (returned, w) = (refl, refl, refl)
recovered-Sent j (panicked, w) = first w.status refl
  where
    first : (o : Option ℕ) → w.status ≡ o → Sent j (panicked, w) (recovered (panicked, w)).1
    first none e = rw e (inr (refl, refl), refl, refl, refl)
    first (some c) e = rw e (inl refl, refl, refl, refl)

auth-Answered :
    (verify : Verifier) (secret fresh : String) (routes : Handler) (i : Incoming)
    → let a = authenticate verify secret i.path i.authorization in
      Answered routes fresh i a
        (recovered (
          auth_middleware verify secret
            (logging_middleware routes)
            (record i { correlation = correlation_of fresh i })
            (record untouched { correlation = some (correlation_of fresh i) }))).1
unfolding auth_middleware logging_middleware recovered write_json
auth-Answered verify secret fresh routes i =
    branch (authenticate verify secret i.path i.authorization)
      (authenticate-Admitted verify secret i.path i.authorization)
  where
    j : Incoming
    j = record i { correlation = correlation_of fresh i }

    w : Writer
    w = record untouched { correlation = some (correlation_of fresh i) }

    run : Admission → Ending × Writer
    run a = elim a [
      | anonymous ↦ logging_middleware routes j w
      | as_user u ↦ logging_middleware routes (record j { user = u }) w
      | denied r ↦ (returned, write_json r w)
    ]

    branch :
        (a : Admission) → Admitted secret i.path a → Answered routes fresh i a (recovered (run a)).1
    branch anonymous p =
        recovered-Sent (identified fresh i i.user)
          (routes (identified fresh i i.user) (ready fresh i))
    branch (as_user u) p =
        recovered-Sent (identified fresh i u) (routes (identified fresh i u) (ready fresh i))
    branch (denied r) p = (ap some p.1, refl, refl)

-- Where the handlers leave the correlation header alone, every request is answered, also where they
-- panic, and with a correlation id: the one of the request, or a fresh one where it has none. A
-- request that the authentication turns down gets its 401, and no handler sees it. Any other gets
-- what the handlers write for it, with its user and its correlation id, and one entry in the access
-- log; where they panic there is no entry, and if they have sent no status yet, it gets a 500 whose
-- text hides the reason.
pub serve-Answered :
    (verify : Verifier) (secret fresh : String) (routes : Handler) (i : Incoming)
    → KeepsHeader routes
    → let answer = serve verify secret fresh routes i untouched in
      (answer.0 ≡ returned)
      × (answer.1.correlation ≡ some (correlation_of fresh i))
      × Answered routes fresh i (authenticate verify secret i.path i.authorization) answer.1
unfolding serve chain recover_middleware correlation_middleware
serve-Answered verify secret fresh routes i k = (
  recovered_returns _,
  recovered-correlation _
      ∙ auth-KeepsHeader verify secret (logging_middleware routes) (logging-KeepsHeader routes k) _
          _,
  auth-Answered verify secret fresh routes i,
)

-- A request that a handler may see: it needs no user, or it has one who is not blank.
abbrev pub Fit : Incoming → Type 0
Fit i = (requires_auth i.path ≡ false) ⊎ (is_blank i.user ≡ false)

abbrev pub AgreeOnFit : Handler → Handler → Type 0
AgreeOnFit g h = (i : Incoming) (w : Writer) → Fit i → g i w ≡ h i w

logging-AgreeOnFit :
    (g h : Handler) → AgreeOnFit g h → AgreeOnFit (logging_middleware g) (logging_middleware h)
unfolding logging_middleware
logging-AgreeOnFit g h agree i w fit = ap (after_next i) (agree i _ fit)

auth-agree :
    (verify : Verifier) (secret : String) (g h : Handler) (i : Incoming) (w : Writer)
    → AgreeOnFit g h
    → auth_middleware verify secret g i w ≡ auth_middleware verify secret h i w
unfolding auth_middleware
auth-agree verify secret g h i w agree =
    branch (authenticate verify secret i.path i.authorization)
      (authenticate-Admitted verify secret i.path i.authorization)
  where
    run : Handler → Admission → Ending × Writer
    run f a = elim a [
      | anonymous ↦ f i w
      | as_user u ↦ f (record i { user = u }) w
      | denied r ↦ (returned, write_json r w)
    ]

    branch : (a : Admission) → Admitted secret i.path a → run g a ≡ run h a
    branch anonymous p = agree i w (inl p)
    branch (as_user u) p = agree (record i { user = u }) w (inr p.1)
    branch (denied r) p = refl

-- No handler sees a request under `/api/v1/` without a user: the answer to a request depends on what
-- the handlers do only with requests that need no user or have one who is not blank.
pub serve-guarded :
    (verify : Verifier) (secret fresh : String) (g h : Handler) (i : Incoming) (w : Writer)
    → AgreeOnFit g h
    → serve verify secret fresh g i w ≡ serve verify secret fresh h i w
unfolding serve chain recover_middleware correlation_middleware
serve-guarded verify secret fresh g h i w agree = ap recovered (
    auth-agree verify secret (logging_middleware g) (logging_middleware h) _ _
      (logging-AgreeOnFit g h agree))
