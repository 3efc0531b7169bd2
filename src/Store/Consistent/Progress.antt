-- ===== src/Store/Consistent/Progress.antt =====
-- Deliveries that change while they are in progress, and the invariant of the tables.
use notification_system.Prelude.{
  ◌≡◌, refl, ap, ◌⊎◌, inl, inr, Bool, false, List, [], ◌∷◌, count, length, update, All, arith,
  count-le-length, ◌<◌, ◌∙◌, sym, ◌≢◌, ℕ_discrete,
}
use notification_system.Domain.Enums.{RequestStatus, is_terminal}
use notification_system.Domain.Models.{Uuid, Request, Delivery}
use notification_system.Domain.Status.{aggregate_request_status, aggregate-Rules_iff}
use notification_system.Store.Session.{Db}
use notification_system.Store.Tables.{statuses_of}
use notification_system.Store.Consistent.Defs.{Agrees, Consistent}
use notification_system.Store.Consistent.Refresh.{AgreesBut}

-- A change of the delivery that keeps it in progress, and of its request.
abbrev pub InProgress : (Delivery → Bool) → (Delivery → Delivery) → Delivery → Type 0
InProgress p f d =
    (p d ≡ false)
    ⊎ ((is_terminal d.status ≡ false)
        × (is_terminal (f d).status ≡ false)
        × ((f d).request_id ≡ d.request_id))

module _ (p : Delivery → Bool) (f : Delivery → Delivery) (rid : Uuid) where
  statuses_progress :
      (ds : List Delivery)
      → All (InProgress p f) ds
      → (statuses_of rid (update p f ds) ≡ statuses_of rid ds)
        ⊎ ((count is_terminal (statuses_of rid ds) < length (statuses_of rid ds))
            × (count is_terminal (statuses_of rid (update p f ds))
                < length (statuses_of rid (update p f ds))))
  statuses_progress [] h = inl refl
  statuses_progress (d ∷ ds) h = ground (
    arith,
    statuses_progress ds h.1,
    count-le-length is_terminal (statuses_of rid ds),
    count-le-length is_terminal (statuses_of rid (update p f ds)),
  )

  aggregate_progress :
      (ds : List Delivery)
      → All (InProgress p f) ds
      → aggregate_request_status (statuses_of rid (update p f ds))
        ≡ aggregate_request_status (statuses_of rid ds)
  aggregate_progress ds h = elim (statuses_progress ds h) [
    | inl same ↦ ap aggregate_request_status same
    | inr (before, after) ↦
        (aggregate-Rules_iff _ RequestStatus.pending).1 (inr after)
        ∙ sym ((aggregate-Rules_iff _ RequestStatus.pending).1 (inr before))
  ]

Agrees-progress :
    (p : Delivery → Bool) (f : Delivery → Delivery) (ds : List Delivery) (rs : List Request)
    → All (InProgress p f) ds
    → All (Agrees ds) rs
    → All (Agrees (update p f ds)) rs
Agrees-progress p f ds [] h a = tt
Agrees-progress p f ds (r ∷ rs) h a =
    (a.0 ∙ sym (aggregate_progress p f r.id ds h), Agrees-progress p f ds rs h a.1)

-- The tables with the deliveries that pass a test rewritten.
abbrev pub rewritten : (Delivery → Bool) → (Delivery → Delivery) → Db → Db
rewritten p f db = record db { deliveries = update p f db.deliveries }

pub progress-Consistent :
    (p : Delivery → Bool) (f : Delivery → Delivery) (db : Db)
    → All (InProgress p f) db.deliveries
    → Consistent db
    → Consistent (rewritten p f db)
progress-Consistent p f db h c = record {
  distinct = c.distinct;
  agrees = Agrees-progress p f db.deliveries db.requests h c.agrees;
  counted = c.counted;
}

InProgress-All :
    (p : Delivery → Bool) (f : Delivery → Delivery) (ds : List Delivery)
    → ((d : Delivery) → InProgress p f d)
    → All (InProgress p f) ds
InProgress-All p f [] h = tt
InProgress-All p f (d ∷ ds) h = (h d, InProgress-All p f ds h)

-- So for a test that only deliveries in progress pass.
pub progress_all-Consistent :
    (p : Delivery → Bool) (f : Delivery → Delivery) (db : Db)
    → ((d : Delivery) → InProgress p f d)
    → Consistent db
    → Consistent (rewritten p f db)
progress_all-Consistent p f db h c =
    progress-Consistent p f db (InProgress-All p f db.deliveries h) c

-- A change of deliveries of one request only.
abbrev pub Within : Uuid → (Delivery → Bool) → (Delivery → Delivery) → Delivery → Type 0
Within rid p f d = (p d ≡ false) ⊎ ((d.request_id ≡ rid) × ((f d).request_id ≡ rid))

statuses_elsewhere :
    (rid q : Uuid) (p : Delivery → Bool) (f : Delivery → Delivery) (ds : List Delivery)
    → q ≢ rid
    → All (Within rid p f) ds
    → statuses_of q (update p f ds) ≡ statuses_of q ds
statuses_elsewhere rid q p f [] ne h = refl
statuses_elsewhere rid q p f (d ∷ ds) ne h = ground (arith, statuses_elsewhere rid q p f ds ne h.1)

pub agrees_but :
    (rid : Uuid) (p : Delivery → Bool) (f : Delivery → Delivery) (ds : List Delivery)
    (rs : List Request)
    → All (Within rid p f) ds
    → All (Agrees ds) rs
    → All (AgreesBut rid (update p f ds)) rs
agrees_but rid p f ds [] h a = tt
agrees_but rid p f ds (r ∷ rs) h a = (
  elim (ℕ_discrete r.id rid) [
    | yes same ↦ inl same
    | no other_id ↦
        inr
          (a.0 ∙ sym (ap aggregate_request_status (statuses_elsewhere rid r.id p f ds other_id h)))
  ],
  agrees_but rid p f ds rs h a.1,
)
