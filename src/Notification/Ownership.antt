-- ===== src/Notification/Ownership.antt =====
-- `Get` and `Cancel`, of notification/service.go, and the users who own the rows.
use notification_system.Prelude.{
  ◌≡◌, refl, sym, subst, ◌∙◌, arith, count, select, List, Bool, ◌&&◌, ◌⊎◌, inl, inr, true, false,
  some, find, same_text, String, ◌==◌, ◌+◌,
}
use notification_system.Domain.Errors.{not_found, Result}
use notification_system.Domain.Models.{Uuid, Request, Delivery}
use notification_system.Notification.Service.{owned_by, get, cancel}
use notification_system.Store.Requests.{get_request_by_id}
use notification_system.Store.Deliveries.{get_deliveries_by_request}
use notification_system.Store.Outcome.{
  Outcome, Faulty, if_rule, statement_rule, or_fail_rule, bind_rule, done, failed,
}
use notification_system.Store.Tables.{
  order_by, order_by-count, order_by-Ascending, count-select, Ascending,
}
use notification_system.Store.Session.{Session, Action, pure, raise, ◌>>=◌}

-- The request as the replica shows it, which is not the user's, or not there.
abbrev pub NotOwned : String → Uuid → Session → Type 0
NotOwned user id s =
    (r : Request)
    → find (λ q. q.id == id) s.replica.requests ≡ some r
    → same_text r.user_id user ≡ false

-- No value is returned, nothing changes, and the answer is that there is no such row, unless a
-- statement fails.
abbrev pub Refused : {A : Type 0} → Session → Result A × Session → Type 0
Refused s x =
    Outcome (λ _ _. ⊥) (λ e t. (t.db ≡ s.db) × (t.events ≡ s.events) × ((e ≡ not_found) ⊎ Faulty s))
      x

owned_by-Refused :
    {A B : Type 0} (owner user : String) (a : A) (f : A → Action B) (s t : Session)
    → same_text owner user ≡ false
    → t.db ≡ s.db
    → t.events ≡ s.events
    → Refused s ((owned_by owner user a >>= f) t)
unfolding ◌>>=◌
owned_by-Refused owner user a f s t h d v = rw h (failed (d, v, inl refl))

-- The lookup of a row by id, then of its owner.
lookup-Refused :
    {B : Type 0} (user : String) (id : Uuid) (s : Session) (f : Request → Action B)
    → NotOwned user id s
    → ((r : Request) (t : Session)
        → same_text r.user_id user ≡ false
        → t.db ≡ s.db
        → t.events ≡ s.events
        → Refused s (f r t))
    → Refused s ((get_request_by_id id >>= f) s)
unfolding get_request_by_id
lookup-Refused user id s f h next = bind_rule _ _ s (
    bind_rule _ _ s (
      statement_rule _ _ _ s (λ faulty. (refl, refl, inr (s.tick, faulty)))
        (or_fail_rule _ _ _ (λ r found. next r _ (h r found) refl refl)
          (λ missing. (refl, refl, inl refl)))))

-- Reading a notification that is not the user's finds nothing.
pub get-NotOwned :
    (user : String) (id : Uuid) (s : Session) → NotOwned user id s → Refused s (get user id s)
unfolding get
get-NotOwned user id s h =
    lookup-Refused user id s _ h (λ r t. owned_by-Refused r.user_id user r _ s t)

-- Cancelling a notification that is not the user's cancels nothing: the answer is that it does not
-- exist, and no table changes.
pub cancel-NotOwned :
    (user : String) (id : Uuid) (s : Session) → NotOwned user id s → Refused s (cancel user id s)
unfolding cancel
cancel-NotOwned user id s h =
    lookup-Refused user id s _ h (λ r t. owned_by-Refused r.user_id user r _ s t)

-- The deliveries of a request among the rows: each as often as it is there, the oldest first.
abbrev pub DeliveriesOf : Uuid → List Delivery → List Delivery → Type 0
DeliveriesOf id rows ds =
    ((q : Delivery → Bool) → count q ds ≡ count (λ d. (d.request_id == id) && q d) rows)
    × Ascending (λ d. d.created_at) ds

sorted_deliveries :
    (id : Uuid) (rows : List Delivery)
    → DeliveriesOf id rows (order_by (λ d. d.created_at) (select (λ d. d.request_id == id) rows))
sorted_deliveries id rows = (
  λ q.
      order_by-count q (λ d. d.created_at) (select (λ d. d.request_id == id) rows)
      ∙ count-select q (λ d. d.request_id == id) rows,
  order_by-Ascending (λ d. d.created_at) (select (λ d. d.request_id == id) rows),
)

some-injective : {a b : Request} → some a ≡ some b → a ≡ b
some-injective e = cc

-- What is read of a notification is the user's own request, as the replica shows it, and exactly the
-- deliveries of that request that the replica shows, the oldest first; nothing changes. Otherwise
-- there is no such request of the user's on the replica, and the answer says so, or a statement
-- fails.
pub get-owned :
    (user : String) (id : Uuid) (s : Session)
    → Outcome
        (λ v t.
          (same_text v.request.user_id user ≡ true)
          × (find (λ q. q.id == id) s.replica.requests ≡ some v.request)
          × DeliveriesOf id s.replica.deliveries v.deliveries
          × (t.db ≡ s.db))
        (λ e t. ((e ≡ not_found) × NotOwned user id s) ⊎ Faulty s)
        (get user id s)
unfolding get get_request_by_id get_deliveries_by_request
get-owned user id s = bind_rule _ _ s (
    bind_rule _ _ s (
      statement_rule _ _ _ s (λ f. inr (s.tick, f))
        (or_fail_rule _ _ _
          (λ r found. bind_rule (owned_by r.user_id user r) _ _ (
            if_rule (same_text r.user_id user) (pure r) (raise not_found) _
              (λ mine. done (
                bind_rule _ _ _ (
                  statement_rule _ _ _ _ (λ f. inr (s.tick + 1, f))
                    (done (mine, found, sorted_deliveries id s.replica.deliveries, refl)))))
              (λ foreign. failed (inl (refl, only r found foreign)))))
          (λ missing. inl (refl, λ r found. absurd (ground (arith, missing, found)))))))
  where
    only :
        (r : Request)
        → find (λ q. q.id == id) s.replica.requests ≡ some r
        → same_text r.user_id user ≡ false
        → NotOwned user id s
    only r found foreign q also =
        let same : r ≡ q = some-injective (sym found ∙ also) in
        subst (λ x. same_text x.user_id user ≡ false) same foreign
