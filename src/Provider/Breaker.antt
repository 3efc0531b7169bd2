-- ===== src/Provider/Breaker.antt =====
-- breaker.go: one circuit breaker for each channel.
use notification_system.Prelude.{
  ℕ, String, Bool, true, false, Option, none, some, ltb, any, same_text, if◌then◌else◌,
}
use notification_system.Domain.Enums.{Channel, all_channels}
use notification_system.Domain.Models.{ProviderRequest, ProviderError}
use notification_system.Provider.Webhook.{ProviderReply, refused}

-- What gobreaker decides on a call: to run it, or to turn it down with an error.
pub data Verdict : Type 0 where
  run : Verdict
  turned_down : String → Verdict

-- `IsExcluded`
unfoldable pub is_excluded : Option ProviderError → Bool
is_excluded none = false
is_excluded (some e) = e.permanent

-- `ReadyToTrip`, with the comparison of the failure ratio as a parameter.
unfoldable pub ready_to_trip : (ℕ → ℕ → Bool) → ℕ → ℕ → ℕ → Bool
ready_to_trip ratio_reached min_requests requests failures =
    if ltb requests min_requests then false else ratio_reached failures requests

abbrev pub breaker_error : String → ProviderError
breaker_error message = record {
  permanent = false;
  status_code = 0;
  retry_after = none;
  breaker_open = true;
  message = message;
}

-- `Breaker.Send`: whether the provider was called, and the reply.
unfoldable pub breaker_send :
    (Channel → Verdict) → (ProviderRequest → ProviderReply) → ProviderRequest → Bool × ProviderReply
breaker_send verdict inner req =
    if any (λ c. same_text c req.channel) all_channels
    then elim (verdict req.channel) [
      | run ↦ (true, inner req)
      | turned_down message ↦ (false, refused message (some (breaker_error message)))
    ]
    else (true, inner req)
