-- ===== src/Store/System/Defs.antt =====
-- How the rows of the tables hang together, and the invariant of the tables.
use notification_system.Prelude.{
  Bool, true, false, ◌&&◌, Option, none, some, List, [], ◌∷◌, ◌==◌, any, map, update, All, ◌≡◌,
  refl, subst, arith,
}
use notification_system.Domain.Models.{Uuid, Time, Delivery}
use notification_system.Store.Consistent.{Consistent}
use notification_system.Store.Insertion.{KeysDistinct}
use notification_system.Store.Session.{Db}

-- The primary key of a delivery, and the request that it belongs to.
abbrev pub delivery_key : Delivery → Uuid × Time × Uuid
delivery_key d = (d.id, d.created_at, d.request_id)

abbrev pub same_delivery : Uuid → Time → Uuid × Time × Uuid → Bool
same_delivery id created k = k.0 == id && k.1 == created

-- No two deliveries share their primary key.
abbrev pub Once : List (Uuid × Time × Uuid) → Type 0
Once [] = Unit
Once (k ∷ ks) = (any (same_delivery k.0 k.1) ks ≡ false) × Once ks

abbrev pub id_in : List Uuid → Uuid → Bool
id_in ids id = any (λ i. i == id) ids

-- The request of every delivery exists.
abbrev pub Placed : List Uuid → List (Uuid × Time × Uuid) → Type 0
Placed ids keys = All (λ k. id_in ids k.2 ≡ true) keys

abbrev pub reference_in : List Uuid → Option Uuid → Bool
reference_in ids none = true
reference_in ids (some id) = id_in ids id

-- The batch of every request that has one exists.
abbrev pub Filed : List Uuid → List (Option Uuid) → Type 0
Filed ids refs = All (λ o. reference_in ids o ≡ true) refs

abbrev pub delivery_keys : Db → List (Uuid × Time × Uuid)
delivery_keys db = map delivery_key db.deliveries

abbrev pub request_ids : Db → List Uuid
request_ids db = map (λ r. r.id) db.requests

abbrev pub batch_refs : Db → List (Option Uuid)
batch_refs db = map (λ r. r.batch_id) db.requests

abbrev pub batch_ids : Db → List Uuid
batch_ids db = map (λ b. b.id) db.batches

pub record Linked (db : Db) : Type 0 where
  pub once : Once (delivery_keys db)
  pub placed : Placed (request_ids db) (delivery_keys db)
  pub filed : Filed (batch_ids db) (batch_refs db)

pub record Inv (db : Db) : Type 0 where
  pub consistent : Consistent db
  pub keys : KeysDistinct db.requests
  pub linked : Linked db

-- The rows have the same keys and references.
pub record SameShape (a b : Db) : Type 0 where
  pub deliveries : delivery_keys a ≡ delivery_keys b
  pub requests : request_ids a ≡ request_ids b
  pub refs : batch_refs a ≡ batch_refs b
  pub batches : batch_ids a ≡ batch_ids b

pub SameShape-Linked : (a b : Db) → SameShape a b → Linked a → Linked b
SameShape-Linked a b e h = record {
  once = subst Once e.deliveries h.once;
  placed =
      subst (λ ids. Placed ids (delivery_keys b)) e.requests
        (subst (Placed (request_ids a)) e.deliveries h.placed);
  filed =
      subst (λ ids. Filed ids (batch_refs b)) e.batches
        (subst (Filed (batch_ids a)) e.refs h.filed);
}

-- An update that leaves a column alone.
pub map-update :
    {A B : Type 0} (key : A → B) (p : A → Bool) (f : A → A) (xs : List A)
    → ((x : A) → key (f x) ≡ key x)
    → map key xs ≡ map key (update p f xs)
map-update key p f [] h = refl
map-update key p f (x ∷ xs) h = ground (arith, h x, map-update key p f xs h)
