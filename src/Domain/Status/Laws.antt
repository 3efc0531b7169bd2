-- ===== src/Domain/Status/Laws.antt =====
-- What the aggregated status says of the deliveries.
use notification_system.Prelude.{
  ◌+◌, ◌<◌, ◌≡◌, refl, ◌⊎◌, inl, inr, Bool, true, false, List, [], ◌∷◌, none, some, arith,
  count-le-length, subst, ◌↔◌, length, count,
}
use notification_system.Domain.Enums.{RequestStatus, DeliveryStatus, is_terminal}
use notification_system.Domain.Status.Defs.{Tally, tally_one, tally, aggregate_request_status}

abbrev pub is_sent : DeliveryStatus → Bool
is_sent DeliveryStatus.sent = true
is_sent _ = false

abbrev pub is_failed : DeliveryStatus → Bool
is_failed DeliveryStatus.failed = true
is_failed _ = false

abbrev pub is_cancelled : DeliveryStatus → Bool
is_cancelled DeliveryStatus.cancelled = true
is_cancelled _ = false

-- What one pass over the statuses finds, from any starting tally.
TallyOf : List DeliveryStatus → Tally → Type 0
TallyOf ss t =
    ((count is_terminal ss < length ss) × (tally ss t ≡ none))
    ⊎ ((count is_terminal ss ≡ length ss)
        × (count is_sent ss + count is_failed ss + count is_cancelled ss ≡ length ss)
        × (tally ss t
            ≡ some (record {
              sent = t.sent + count is_sent ss;
              failed = t.failed + count is_failed ss;
              cancelled = t.cancelled + count is_cancelled ss;
            })))

count_tally : (ss : List DeliveryStatus) (t : Tally) → TallyOf ss t
unfolding TallyOf tally
count_tally [] t = inr (refl, refl, ground arith)
count_tally (DeliveryStatus.sent ∷ ss) t =
    ground (arith, count_tally ss (tally_one DeliveryStatus.sent t))
count_tally (DeliveryStatus.failed ∷ ss) t =
    ground (arith, count_tally ss (tally_one DeliveryStatus.failed t))
count_tally (DeliveryStatus.cancelled ∷ ss) t =
    ground (arith, count_tally ss (tally_one DeliveryStatus.cancelled t))
count_tally (_ ∷ ss) t = inl (omega (arith, count-le-length is_terminal ss), refl)

-- The documented rules, by counting.
abbrev pub Rules : List DeliveryStatus → RequestStatus → Type 0
Rules ds RequestStatus.pending = (length ds ≡ 0) ⊎ (count is_terminal ds < length ds)
Rules ds RequestStatus.sent = (0 < length ds) × (count is_sent ds ≡ length ds)
Rules ds RequestStatus.cancelled = (0 < length ds) × (count is_cancelled ds ≡ length ds)
Rules ds RequestStatus.failed =
    (count is_terminal ds ≡ length ds) × (count is_sent ds ≡ 0) × (0 < count is_failed ds)
Rules ds RequestStatus.partial =
    (count is_terminal ds ≡ length ds) × (0 < count is_sent ds) × (count is_sent ds < length ds)

pub aggregate-Rules : (ds : List DeliveryStatus) → Rules ds (aggregate_request_status ds)
unfolding aggregate_request_status TallyOf
aggregate-Rules [] = inl refl
aggregate-Rules (d ∷ ds) =
    ground (arith, count_tally (d ∷ ds) (record { sent = 0; failed = 0; cancelled = 0 }))

-- Every terminal delivery is of one of three kinds.
pub count_kinds :
    (ds : List DeliveryStatus)
    → (count is_sent ds + count is_failed ds + count is_cancelled ds ≡ count is_terminal ds)
unfolding is_terminal
count_kinds [] = refl
count_kinds (DeliveryStatus.sent ∷ ds) = omega (arith, count_kinds ds)
count_kinds (DeliveryStatus.failed ∷ ds) = omega (arith, count_kinds ds)
count_kinds (DeliveryStatus.cancelled ∷ ds) = omega (arith, count_kinds ds)
count_kinds (_ ∷ ds) = omega (arith, count_kinds ds)

Rules-unique : (ds : List DeliveryStatus) (r r' : RequestStatus) → Rules ds r → Rules ds r' → r ≡ r'
Rules-unique ds RequestStatus.pending r' h h' =
    ground (arith, count_kinds ds, count-le-length is_terminal ds)
Rules-unique ds _ r' h h' = ground (arith, count_kinds ds, count-le-length is_terminal ds)

-- The status of a request is the one that the rules name: `pending` while there is no delivery or
-- one is not terminal; once all are terminal, `sent` or `cancelled` if all are so, `failed` if none
-- is sent and some failed, and `partial` if some and not all are sent. The rules leave no other
-- case and never name two.
pub aggregate-Rules_iff :
    (ds : List DeliveryStatus) (r : RequestStatus) → (aggregate_request_status ds ≡ r) ↔ Rules ds r
aggregate-Rules_iff ds r =
    (λ e. subst (Rules ds) e (aggregate-Rules ds), Rules-unique ds _ r (aggregate-Rules ds))
