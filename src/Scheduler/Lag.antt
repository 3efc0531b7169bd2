-- ===== src/Scheduler/Lag.antt =====
-- The lag that the scheduler reports, of the deliveries that are overdue.
use mathlib.Core.List.{head?}
use notification_system.Prelude.{
  ℕ, ◌+◌, ◌-◌, ◌≤◌, ◌≡◌, ◌≢◌, refl, subst, ◌⊎◌, inl, inr, none, some, List, [], ◌∷◌, All, arith,
  ltb, if◌then◌else◌,
}
use notification_system.Domain.Models.{Time}
use notification_system.Store.Due.{due_instants, lag_rows, earliest, oldest_due_lag}
use notification_system.Store.Outcome.{Outcome, Faulty, statement_rule, or_fail_rule, bind_rule}
use notification_system.Store.Session.{Session}

earliest-le : (t : Time) (ts : List Time) → (earliest t ts ≤ t) × All (λ u. earliest t ts ≤ u) ts
earliest-le t [] = (omega arith, tt)
earliest-le t (u ∷ us) =
    let rest = earliest-le (if ltb u t then u else t) us in
    (ground (arith, rest.0), (ground (arith, rest.0), rest.1))

covers-All :
    (now t : Time) (ts : List Time) → All (λ u. t ≤ u) ts → All (λ u. now ≤ u + (now - t)) ts
covers-All now t [] h = tt
covers-All now t (u ∷ us) h = (omega (arith, h.0), covers-All now t us h.1)

lag_covers :
    (now : Time) (due : List Time) (lag : ℕ)
    → head? (lag_rows now due) ≡ some lag
    → (due ≢ []) × All (λ i. now ≤ i + lag) due
lag_covers now [] lag h = cc
lag_covers now (t ∷ ts) lag h = (
  (λ e. cc),
  subst (λ n. All (λ i. now ≤ i + n) (t ∷ ts)) (ground (arith, h))
      (covers-All now (earliest t ts) (t ∷ ts) (earliest-le t ts)),
)

lag_idle : (now : Time) (due : List Time) → head? (lag_rows now due) ≡ none → due ≡ []
lag_idle now [] h = refl
lag_idle now (t ∷ ts) h = cc

-- The lag of the deliveries that wait to be promoted or swept: none of them has waited longer. Where
-- none is overdue there is no lag of zero but an error, as there is when the statement fails.
pub oldest_due_lag_ends :
    (s : Session)
    → let due = due_instants s.now s.db.deliveries in
      Outcome
        (λ lag t. (due ≢ []) × All (λ i. s.now ≤ i + lag) due)
        (λ e t. (due ≡ []) ⊎ Faulty s)
        (oldest_due_lag s)
unfolding oldest_due_lag
oldest_due_lag_ends s = bind_rule _ _ s (
    statement_rule _ _ _ s (λ f. inr (s.tick, f))
      (or_fail_rule _ _ _ (λ lag found. lag_covers s.now _ lag found)
        (λ missing. inl (lag_idle s.now _ missing))))
