-- ===== src/Provider/Verdicts.antt =====
-- What the answers of the provider, in webhook.go and breaker.go, make of a delivery.
use notification_system.Prelude.{
  ℕ, ◌≤◌, ◌<◌, ◌≡◌, ◌≢◌, ◌⊎◌, Bool, true, false, Option, none, some, String, arith, any, same_text,
  ◌↔◌,
}
use notification_system.Domain.Enums.{Channel, all_channels}
use notification_system.Domain.Models.{Time, ProviderError, ProviderRequest}
use notification_system.Provider.Webhook.{
  ProviderReply, accepted, refused, response, ResponseBody, classify,
}
use notification_system.Provider.Breaker.{Verdict, run, turned_down, is_excluded, breaker_send}

-- The error of a reply, if it wraps one.
abbrev pub error_of : ProviderReply → Option ProviderError
error_of (accepted r) = none
error_of (refused m e) = e

abbrev pub is_accepted : ProviderReply → Bool
is_accepted (accepted r) = true
is_accepted (refused m e) = false

-- A status of 200 to 299 accepts, and no other does; a status of 400 to 499 but 429 is a permanent
-- error, which the breaker does not count, and no other is.
pub classify_verdict :
    (decode : String → ResponseBody) (parse_rfc3339 parse_time : String → Option Time) (now : Time)
    (code : ℕ) (header body : String)
    → let reply = classify decode parse_rfc3339 parse_time now (response code header body) in
      ((is_accepted reply ≡ true) ↔ ((200 ≤ code) × (code < 300)))
      × ((is_excluded (error_of reply) ≡ true) ↔ ((400 ≤ code) × (code < 500) × (code ≢ 429)))
unfolding classify is_excluded
classify_verdict decode parse_rfc3339 parse_time now code header body = ground arith

abbrev pub breaker_opened : Option ProviderError → Bool
breaker_opened none = false
breaker_opened (some e) = e.breaker_open

abbrev pub lets_through : Verdict → Bool
lets_through run = true
lets_through (turned_down m) = false

-- A valid channel's request reaches the provider exactly if the channel's breaker lets it through;
-- one that is turned down fails with an error that says so and that can be retried.
pub breaker_send_cases :
    (verdict : Channel → Verdict) (inner : ProviderRequest → ProviderReply) (req : ProviderRequest)
    → any (λ c. same_text c req.channel) all_channels ≡ true
    → let (called, reply) = breaker_send verdict inner req in
      (called ≡ lets_through (verdict req.channel))
      × (((called ≡ true) × (reply ≡ inner req))
          ⊎ ((called ≡ false)
              × (is_accepted reply ≡ false)
              × (breaker_opened (error_of reply) ≡ true)
              × (is_excluded (error_of reply) ≡ false)))
unfolding breaker_send is_excluded
breaker_send_cases verdict inner req valid = ground arith
