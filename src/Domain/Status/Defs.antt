-- ===== src/Domain/Status/Defs.antt =====
-- `AggregateRequestStatus`: one pass that stops at the first delivery still in progress.
use notification_system.Prelude.{
  ℕ, ◌+◌, List, [], ◌∷◌, Option, none, some, ltb, length, if◌then◌else◌, ◌==◌, ◌&&◌,
}
use notification_system.Domain.Enums.{RequestStatus, DeliveryStatus, is_terminal}

pub record Tally : Type 0 where
  pub sent : ℕ
  pub failed : ℕ
  pub cancelled : ℕ

-- The `switch` on a status.
unfoldable pub tally_one : DeliveryStatus → Tally → Tally
tally_one DeliveryStatus.sent t = record t { sent = t.sent + 1 }
tally_one DeliveryStatus.failed t = record t { failed = t.failed + 1 }
tally_one DeliveryStatus.cancelled t = record t { cancelled = t.cancelled + 1 }
tally_one _ t = t

-- The loop; `none` is its early return.
unfoldable pub tally : List DeliveryStatus → Tally → Option Tally
unfolding tally_one is_terminal
tally [] t = some t
tally (s ∷ ss) t = let rest = tally ss (tally_one s t) in if is_terminal s then rest else none

unfoldable pub decide : ℕ → Tally → RequestStatus
decide total t =
    if t.sent == total
    then RequestStatus.sent
    else if t.cancelled == total
    then RequestStatus.cancelled
    else if t.sent == 0 && ltb 0 t.failed
    then RequestStatus.failed
    else RequestStatus.partial

unfoldable pub aggregate_request_status : List DeliveryStatus → RequestStatus
unfolding tally decide
aggregate_request_status [] = RequestStatus.pending
aggregate_request_status (d ∷ ds) =
    elim (tally (d ∷ ds) (record { sent = 0; failed = 0; cancelled = 0 })) [
      | none ↦ RequestStatus.pending
      | some t ↦ decide (length (d ∷ ds)) t
    ]
