-- ===== src/Store/System/Filling.antt =====
-- The tables while the requests of a new batch are being inserted: its counters are still 0.
use notification_system.Prelude.{
  ℕ, ◌+◌, Bool, true, false, Option, none, some, List, [], ◌∷◌, ◌++◌, ◌==◌, any, count, map, update,
  All, All-mono, All-append_one, ◌≡◌, refl, sym, ◌∙◌, subst, arith, count-append, points_to, ◌⊎◌,
  inl, inr, Bool-cases,
}
use notification_system.Domain.Models.{Uuid, Time, Batch, Request, Delivery, OutboxRecord}
use notification_system.Store.Batches.{
  Column, pending_count, sent_count, failed_count, cancelled_count, bucket_column,
}
use notification_system.Store.Consistent.{Counted, counts_in, members}
use notification_system.Store.Deliveries.{delivery_taken}
use notification_system.Store.Insertion.{add_outbox, add_delivery, add_request}
use notification_system.Store.Promotion.{append_key}
use notification_system.Store.Requests.{insertion, inserted, batch_taken, new_batch, set_counts}
use notification_system.Store.Session.{Db}
use notification_system.Store.System.Defs.{Inv, id_in, reference_in, Filed, map-update}
use notification_system.Store.System.Added.{New, Base, Base-Inv, Base-added, any-ids, id_in-append}
use notification_system.Store.System.Created.{Counted-other}

-- A row of the new batch, whose counters come last, or one of another, whose counters are right.
abbrev pub Filled : Uuid → List Request → Batch → Type 0
Filled b rs c =
    ((c.id ≡ b) × (c.sent_count ≡ 0) × (c.failed_count ≡ 0) × (c.cancelled_count ≡ 0))
    ⊎ (((c.id == b) ≡ false) × Counted rs c)

pub record Filling (b : Uuid) (n : ℕ) (db : Db) : Type 0 where
  pub base : Base db.requests db.deliveries db.batches
  pub rows : All (Filled b db.requests) db.batches
  pub total : count (λ r. points_to r.batch_id b) db.requests ≡ n
  pub pending : members b pending_count db.requests ≡ n
  pub sent : members b sent_count db.requests ≡ 0
  pub failed : members b failed_count db.requests ≡ 0
  pub cancelled : members b cancelled_count db.requests ≡ 0

Filled-more :
    (b : Uuid) (r : Request) (rs : List Request) (c : Batch)
    → r.batch_id ≡ some b
    → Filled b rs c
    → Filled b (rs ++ r ∷ []) c
Filled-more b r rs c e (inl new) = inl new
Filled-more b r rs c e (inr (other, h)) = inr (other, Counted-other c r rs (ground arith) h)

-- One more request of the batch.
pub Filling-added :
    (b : Uuid) (n : ℕ) (r : Request) (d : Delivery) (db : Db)
    → New r d
    → r.batch_id ≡ some b
    → insertion r db ≡ inserted
    → delivery_taken d db ≡ false
    → Filling b n db
    → Filling b (n + 1) (add_delivery d (add_request r db))
unfolding bucket_column
Filling-added b n r d db new mine free untaken h = record {
  base = Base-added r d db new free untaken h.base;
  rows = All-mono db.batches (λ c k. Filled-more b r db.requests c mine k) h.rows;
  total =
      ground
        (arith, count-append (λ q. points_to q.batch_id b) db.requests (r ∷ []), h.total, new.0);
  pending =
      ground
        (arith, count-append (counts_in b pending_count) db.requests (r ∷ []), h.pending, new.0);
  sent = ground (arith, count-append (counts_in b sent_count) db.requests (r ∷ []), h.sent, new.0);
  failed =
      ground (arith, count-append (counts_in b failed_count) db.requests (r ∷ []), h.failed, new.0);
  cancelled =
      ground (
        arith,
        count-append (counts_in b cancelled_count) db.requests (r ∷ []),
        h.cancelled,
        new.0,
      );
}

pub Filling-outbox :
    (b : Uuid) (n : ℕ) (o : Option OutboxRecord) (now : Time) (db : Db)
    → Filling b n db
    → Filling b n (add_outbox o now db)
Filling-outbox b n none now db h = h
Filling-outbox b n (some o) now db h = record {
  base = h.base;
  rows = h.rows;
  total = h.total;
  pending = h.pending;
  sent = h.sent;
  failed = h.failed;
  cancelled = h.cancelled;
}

not_there :
    (o : Option Uuid) (ids : List Uuid) (b : Uuid)
    → id_in ids b ≡ false
    → reference_in ids o ≡ true
    → points_to o b ≡ false
not_there none ids b h f = refl
not_there (some id) ids b h f = elim (Bool-cases (id == b)) [
  | inl same ↦
      let e : id ≡ b = ground arith in absurd (clash (subst (λ k. id_in ids k ≡ true) e f) h)
  | inr other ↦ other
]
  where
    clash : {x : Bool} → x ≡ true → x ≡ false → ⊥
    clash p q = cc

-- No request is in a batch that does not exist.
count_none :
    (b : Uuid) (ids : List Uuid) (p : Request → Bool) (rs : List Request)
    → ((r : Request) → points_to r.batch_id b ≡ false → p r ≡ false)
    → id_in ids b ≡ false
    → Filed ids (map (λ (r : Request). r.batch_id) rs)
    → count p rs ≡ 0
count_none b ids p [] outside h f = refl
count_none b ids p (r ∷ rs) outside h f =
    rw (outside r (not_there r.batch_id ids b h f.0)) (count_none b ids p rs outside h f.1)

rows_of_others :
    (b : Uuid) (rs : List Request) (bs : List Batch)
    → any (λ c. c.id == b) bs ≡ false
    → All (Counted rs) bs
    → All (Filled b rs) bs
rows_of_others b rs [] h k = tt
rows_of_others b rs (c ∷ bs) h k =
    (inr (ground arith, k.0), rows_of_others b rs bs (ground arith) k.1)

reference_in-append :
    (ids : List Uuid) (i : Uuid) (o : Option Uuid)
    → reference_in ids o ≡ true
    → reference_in (ids ++ i ∷ []) o ≡ true
reference_in-append ids i none h = refl
reference_in-append ids i (some id) h = id_in-append ids i id h

id_untaken :
    (b : Batch) (db : Db) → batch_taken b db ≡ false → any (λ c. c.id == b.id) db.batches ≡ false
id_untaken b db h = ground arith

-- The row of the batch is there, and no request yet.
pub Filling-start :
    (b : Batch) (db : Db)
    → batch_taken b db ≡ false
    → Inv db
    → Filling b.id 0 (record db { batches = db.batches ++ new_batch b ∷ [] })
Filling-start b db free h =
    let absent = id_untaken b db free in
    let ids = map (λ (c : Batch). c.id) db.batches in
    let gone = sym (any-ids b.id db.batches) ∙ absent in
    let none_of =
      λ (p : Request → Bool)
          (outside : (r : Request) → points_to r.batch_id b.id ≡ false → p r ≡ false).
        count_none b.id ids p db.requests outside gone h.linked.filed in
    record {
      base = record {
        distinct = h.consistent.distinct;
        agrees = h.consistent.agrees;
        keys = h.keys;
        once = h.linked.once;
        placed = h.linked.placed;
        filed =
            subst (λ k. Filed k (map (λ (r : Request). r.batch_id) db.requests))
              (sym (append_key (λ (c : Batch). c.id) db.batches (new_batch b)))
              (All-mono (map (λ (r : Request). r.batch_id) db.requests)
                (reference_in-append ids b.id) h.linked.filed);
      };
      rows =
          All-append_one _ db.batches (new_batch b)
            (rows_of_others b.id db.requests db.batches absent h.consistent.counted)
            (inl (refl, refl, refl, refl));
      total = none_of (λ r. points_to r.batch_id b.id) (λ r k. k);
      pending = none_of (counts_in b.id pending_count) (λ r k. ground arith);
      sent = none_of (counts_in b.id sent_count) (λ r k. ground arith);
      failed = none_of (counts_in b.id failed_count) (λ r k. ground arith);
      cancelled = none_of (counts_in b.id cancelled_count) (λ r k. ground arith);
    }

own_row : (b : Uuid) (c : Batch) → c.id ≡ b → (c.id == b) ≡ true
own_row b c e = ground arith

Counted-own :
    (b : Uuid) (n : ℕ) (db : Db)
    → Filling b n db
    → (c : Batch) → (c.id ≡ b) × (c.sent_count ≡ 0) × (c.failed_count ≡ 0) × (c.cancelled_count ≡ 0)
    → Counted db.requests (record c { total_count = n; pending_count = n })
Counted-own b n db h c own =
    let at = λ (col : Column) (k : ℕ) (e : members b col db.requests ≡ k).
      subst (λ i. k ≡ members i col db.requests) (sym own.0) (sym e) in
    record {
      total =
          subst (λ i. n ≡ count (λ r. points_to r.batch_id i) db.requests) (sym own.0)
            (sym h.total);
      pending = at pending_count n h.pending;
      sent = own.1 ∙ at sent_count 0 h.sent;
      failed = own.2 ∙ at failed_count 0 h.failed;
      cancelled = own.3 ∙ at cancelled_count 0 h.cancelled;
    }

Counted-Filled :
    (b : Uuid) (n : ℕ) (db : Db)
    → Filling b n db
    → (bs : List Batch) → All (Filled b db.requests) bs
    → All
        (Counted db.requests)
        (update (λ c. c.id == b) (λ c. record c { total_count = n; pending_count = n }) bs)
Counted-Filled b n db h [] k = tt
Counted-Filled b n db h (c ∷ bs) k = (
  elim k.0 [
    | inl own ↦ rw (own_row b c own.0) (Counted-own b n db h c own)
    | inr (other, counted) ↦ rw other counted
  ],
  Counted-Filled b n db h bs k.1,
)

-- The counters of the batch are set.
pub Filling-ends : (b : Uuid) (n : ℕ) (db : Db) → Filling b n db → Inv (set_counts b n db)
Filling-ends b n db h =
    let f = λ (c : Batch). record c { total_count = n; pending_count = n } in
    Base-Inv _
      (record {
        distinct = h.base.distinct;
        agrees = h.base.agrees;
        keys = h.base.keys;
        once = h.base.once;
        placed = h.base.placed;
        filed =
            subst (λ k. Filed k (map (λ (r : Request). r.batch_id) db.requests))
              (map-update (λ (c : Batch). c.id) (λ c. c.id == b) f db.batches (λ c. refl))
              h.base.filed;
      })
      (Counted-Filled b n db h db.batches h.rows)
