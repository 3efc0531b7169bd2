-- ===== src/Retry/Bounds.antt =====
-- The bounds of the retry policy: how often a delivery is tried, and when it is tried next.
use notification_system.Prelude.{
  ℕ, suc, ◌+◌, ◌≤◌, ◌<◌, ℤ, ◌≡◌, refl, ◌⊎◌, true, false, Option, none, some, List, [], ◌∷◌, All,
  arith, length, neg_part, get_elem?, add_duration,
}
use notification_system.Domain.Enums.{DeliveryStatus}
use notification_system.Domain.Models.{Time, ProviderError}
use notification_system.Retry.Defs.{
  Floats, Policy, retry_after_of, is_permanent, or_else, entry, apply_jitter, backoff_index,
  backoff_for, evaluate_failure,
}

module _ (fl : Floats) where
  abbrev pub NonNegative : ℤ → Type 0
  NonNegative d = neg_part d ≡ 0

  -- A failure counts one attempt, and ends the delivery exactly if it is permanent or was the last
  -- attempt allowed. Otherwise the delivery is retried, after the provider's positive Retry-After
  -- if there is one and after the backoff of this attempt if not.
  pub evaluate_failure_cases :
      (p : Policy fl) (draw : fl.Float) (now : Time) (current : ℕ) (perr : Option ProviderError)
      → let o = evaluate_failure fl p draw now current perr in
        (o.attempt_count ≡ current + 1)
        × (((o.status ≡ DeliveryStatus.failed)
              × (o.next_retry_at ≡ none)
              × ((is_permanent perr ≡ true) ⊎ (p.max_attempts ≤ current + 1)))
            ⊎ ((o.status ≡ DeliveryStatus.retrying)
                × (is_permanent perr ≡ false)
                × (current + 1 < p.max_attempts)
                × (o.next_retry_at
                    ≡ some (
                        add_duration now
                          (or_else (retry_after_of perr) (backoff_for fl p draw (current + 1)))))))
  unfolding evaluate_failure
  evaluate_failure_cases p draw now current perr = ground arith

  apply_jitter_nonneg :
      (p : Policy fl) (draw : fl.Float) (d : ℤ)
      → NonNegative d
      → NonNegative (apply_jitter fl p draw d)
  unfolding apply_jitter
  apply_jitter_nonneg p draw d h = ground arith

  entry_nonneg : (ds : List ℤ) (i : ℕ) → All NonNegative ds → NonNegative (entry (get_elem? ds i))
  entry_nonneg [] i h = refl
  entry_nonneg (d ∷ ds) ℕ.zero h = h.0
  entry_nonneg (d ∷ ds) (suc i) h = entry_nonneg ds i h.1

  backoff_nonneg :
      (p : Policy fl) (draw : fl.Float) (attempt : ℕ)
      → All NonNegative p.backoff
      → NonNegative (backoff_for fl p draw attempt)
  unfolding backoff_for
  backoff_nonneg p draw attempt h = ground (
    arith,
    apply_jitter_nonneg p draw _
        (entry_nonneg p.backoff (backoff_index (length p.backoff) attempt) h),
  )

  -- Whatever the jitter draws, a retry never lies in the past, if no entry of the schedule does.
  pub next_retry-ge-now :
      (p : Policy fl) (draw : fl.Float) (now : Time) (current : ℕ) (perr : Option ProviderError)
      {t : Time}
      → All NonNegative p.backoff
      → (evaluate_failure fl p draw now current perr).next_retry_at ≡ some t
      → now ≤ t
  unfolding evaluate_failure
  next_retry-ge-now p draw now current perr h e =
      ground (arith, backoff_nonneg p draw (current + 1) h)
