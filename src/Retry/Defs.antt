-- ===== src/Retry/Defs.antt =====
-- `Policy`, `EvaluateFailure`, `backoffFor` and `applyJitter`.
use notification_system.Prelude.{
  ℕ, ◌+◌, ◌-◌, ◌*◌, ℤ, pos, Bool, false, Option, none, some, List, [], ◌∷◌, leb, ltb_ℤ, length,
  get_elem?, if◌then◌else◌, add_duration,
}
use notification_system.Domain.Enums.{DeliveryStatus}
use notification_system.Domain.Models.{Time, ProviderError}

-- Go's `float64` with the operations of `applyJitter`; a conversion to a duration truncates.
pub record Floats : Type 1 where
  pub Float : Type 0
  pub one : Float
  pub two : Float
  pub le_zero : Float → Bool
  pub of_duration : ℤ → Float
  pub to_duration : Float → ℤ
  pub add : Float → Float → Float
  pub sub : Float → Float → Float
  pub mul : Float → Float → Float

-- `next_retry_at` is set where the delivery is to be tried again.
pub record Outcome : Type 0 where
  pub status : DeliveryStatus
  pub attempt_count : ℕ
  pub next_retry_at : Option Time

abbrev pub minute : ℤ
minute = pos (60 * 1000000000)

-- `*perr.RetryAfter > 0`, if there is one.
abbrev pub retry_after_of : Option ProviderError → Option ℤ
retry_after_of none = none
retry_after_of (some e) = elim e.retry_after [
  | none ↦ none
  | some d ↦ if ltb_ℤ (pos 0) d then some d else none
]

abbrev pub is_permanent : Option ProviderError → Bool
is_permanent none = false
is_permanent (some e) = e.permanent

abbrev pub entry : Option ℤ → ℤ
entry none = pos 0
entry (some d) = d

-- The index of the schedule that an attempt uses: past the end, the last.
unfoldable pub backoff_index : ℕ → ℕ → ℕ
backoff_index len attempt = if leb len (attempt - 1) then len - 1 else attempt - 1

-- A duration that is given, or else another.
abbrev pub or_else : Option ℤ → ℤ → ℤ
or_else none d = d
or_else (some r) d = r

module _ (fl : Floats) where
  open fl use {Float, one, two, le_zero, of_duration, to_duration, add, sub, mul}

  pub record Policy : Type 0 where
    pub max_attempts : ℕ
    pub backoff : List ℤ
    pub jitter_ratio : Float

  -- `draw` is `rng.Float64()`.
  unfoldable pub apply_jitter : Policy → Float → ℤ → ℤ
  apply_jitter p draw d =
      if le_zero p.jitter_ratio
      then d
      else let delta = mul (of_duration d) p.jitter_ratio in
        let offset = mul (sub (mul draw two) one) delta in
        let jittered = to_duration (add (of_duration d) offset) in
        if ltb_ℤ jittered (pos 0) then pos 0 else jittered

  unfoldable pub backoff_for : Policy → Float → ℕ → ℤ
  unfolding apply_jitter backoff_index
  backoff_for p draw attempt = elim p.backoff [
    | [] ↦ minute
    | b ∷ bs ↦
        apply_jitter p draw (entry (get_elem? p.backoff (backoff_index (length p.backoff) attempt)))
  ]

  unfoldable pub evaluate_failure : Policy → Float → Time → ℕ → Option ProviderError → Outcome
  evaluate_failure p draw now current_attempts perr =
      let attempts = current_attempts + 1 in
      let failed : Outcome = record {
        status = DeliveryStatus.failed;
        attempt_count = attempts;
        next_retry_at = none;
      } in
      if is_permanent perr
      then failed
      else if leb p.max_attempts attempts
      then failed
      else let wait : ℤ = or_else (retry_after_of perr) (backoff_for p draw attempts) in
        record {
          status = DeliveryStatus.retrying;
          attempt_count = attempts;
          next_retry_at = some (add_duration now wait);
        }
