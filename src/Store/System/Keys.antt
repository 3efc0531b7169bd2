-- ===== src/Store/System/Keys.antt =====
-- What follows for the deliveries from their primary key.
use notification_system.Prelude.{
  Bool, true, false, some, List, [], ◌∷◌, any, find, map, select, All, ◌≡◌, refl, ◌⊎◌, inl, inr,
  arith, Bool-cases, All-mono, All-take, ℕ,
}
use notification_system.Domain.Enums.{is_terminal}
use notification_system.Domain.Models.{Uuid, Time, Delivery}
use notification_system.Store.Consistent.{Unfinished, Owned, Open}
use notification_system.Store.Due.{pick_scheduled, pick_retries, due_scheduled, due_retry}
use notification_system.Store.Tables.{has_key, order_by-All}
use notification_system.Store.System.Defs.{delivery_key, same_delivery, Once}

keyed_elsewhere :
    (id : Uuid) (created : Time) (rid : Uuid) (ds : List Delivery)
    → any (same_delivery id created) (map delivery_key ds) ≡ false
    → All (Owned id created rid) ds
keyed_elsewhere id created rid [] h = tt
keyed_elsewhere id created rid (d ∷ ds) h =
    (ground arith, keyed_elsewhere id created rid ds (ground arith))

-- All that has the key of a row belongs to the row's request.
pub find-Owned :
    (id : Uuid) (created : Time) (ds : List Delivery) (q : Delivery)
    → Once (map delivery_key ds)
    → find (has_key id created) ds ≡ some q
    → All (Owned id created q.request_id) ds
find-Owned id created [] q once found = tt
find-Owned id created (d ∷ ds) q once found = elim (Bool-cases (has_key id created d)) [
  | inl same ↦ (inr (ground arith), keyed_elsewhere id created q.request_id ds (ground arith))
  | inr other ↦ (inl other, find-Owned id created ds q once.1 (ground arith))
]

Unfinished-elsewhere :
    (id : Uuid) (created : Time) (ds : List Delivery)
    → any (same_delivery id created) (map delivery_key ds) ≡ false
    → All (Unfinished id created) ds
Unfinished-elsewhere id created [] h = tt
Unfinished-elsewhere id created (d ∷ ds) h =
    (ground arith, Unfinished-elsewhere id created ds (ground arith))

-- A row that is not in a terminal state is the only one with its key.
pub find-Unfinished :
    (id : Uuid) (created : Time) (ds : List Delivery) (q : Delivery)
    → Once (map delivery_key ds)
    → find (has_key id created) ds ≡ some q
    → is_terminal q.status ≡ false
    → All (Unfinished id created) ds
find-Unfinished id created [] q once found going = tt
find-Unfinished id created (d ∷ ds) q once found going = elim (Bool-cases (has_key id created d)) [
  | inl same ↦ (inr (ground arith), Unfinished-elsewhere id created ds (ground arith))
  | inr other ↦ (inl other, find-Unfinished id created ds q once.1 (ground arith) going)
]

-- A row that is in a terminal state, or else the only one with its key.
abbrev Single : List Delivery → Delivery → Type 0
Single ds e = (is_terminal e.status ≡ true) ⊎ All (Unfinished e.id e.created_at) ds

Single-more :
    (d : Delivery) (ds es : List Delivery)
    → any (same_delivery d.id d.created_at) (map delivery_key es) ≡ false
    → All (Single ds) es
    → All (Single (d ∷ ds)) es
Single-more d ds [] h k = tt
Single-more d ds (e ∷ es) h k = (
  elim k.0 [ inl over ↦ inl over | inr going ↦ inr (inl (ground arith), going) ],
  Single-more d ds es (ground arith) k.1,
)

Single-Once : (ds : List Delivery) → Once (map delivery_key ds) → All (Single ds) ds
Single-Once [] once = tt
Single-Once (d ∷ ds) once = (
  elim (Bool-cases (is_terminal d.status)) [
    | inl over ↦ inl over
    | inr going ↦ inr (inr going, Unfinished-elsewhere d.id d.created_at ds once.0)
  ],
  Single-more d ds ds once.0 (Single-Once ds once.1),
)

abbrev Alone : List Delivery → Delivery → Type 0
Alone ds e = All (Unfinished e.id e.created_at) ds

select-Alone :
    (test : Delivery → Bool) (ds es : List Delivery)
    → ((e : Delivery) → test e ≡ true → is_terminal e.status ≡ false)
    → All (Single ds) es
    → All (Alone ds) (select test es)
select-Alone test ds [] going h = tt
select-Alone test ds (e ∷ es) going h = elim (Bool-cases (test e)) [
  | inl chosen ↦ rw chosen (
    elim h.0 [ inl over ↦ absurd (clash over (going e chosen)) | inr alone ↦ alone ],
    select-Alone test ds es going h.1,
  )
  | inr passed ↦ rw passed (select-Alone test ds es going h.1)
]
  where
    clash : {b : Bool} → b ≡ true → b ≡ false → ⊥
    clash p q = cc

Open-one :
    (d : Delivery) (picked : List Delivery)
    → All (λ e. Unfinished e.id e.created_at d) picked
    → Open picked d
Open-one d [] h = inl refl
Open-one d (e ∷ es) h = ground (arith, Open-one d es h.1)

Open-Alone : (ds picked : List Delivery) → All (Alone ds) picked → All (Open picked) ds
Open-Alone [] picked h = tt
Open-Alone (d ∷ ds) picked h = (
  Open-one d picked (All-mono picked (λ e k. k.0) h),
  Open-Alone ds picked (All-mono picked (λ e k. k.1) h),
)

pub pick_scheduled-Open :
    (now : Time) (limit : ℕ) (ds : List Delivery)
    → Once (map delivery_key ds)
    → All (Open (pick_scheduled now limit ds)) ds
unfolding is_terminal
pick_scheduled-Open now limit ds once = Open-Alone ds _ (
    All-take (Alone ds) limit _ (
      order_by-All (Alone ds) _ _
        (select-Alone (due_scheduled now) ds ds (λ e h. ground arith) (Single-Once ds once))))

pub pick_retries-Open :
    (now : Time) (limit : ℕ) (ds : List Delivery)
    → Once (map delivery_key ds)
    → All (Open (pick_retries now limit ds)) ds
unfolding is_terminal
pick_retries-Open now limit ds once = Open-Alone ds _ (
    All-take (Alone ds) limit _ (
      order_by-All (Alone ds) _ _
        (select-Alone (due_retry now) ds ds (λ e h. ground arith) (Single-Once ds once))))
