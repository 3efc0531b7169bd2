-- ===== src/Store/Tables.antt =====
-- What the statements read of the tables.
use notification_system.Prelude.{
  ℕ, String, Bool, false, ◌&&◌, List, [], ◌∷◌, Option, none, some, ◌==◌, leb, same_text,
  if◌then◌else◌, All, Bool-cases, inl, inr, ◌≤◌, ◌≡◌, refl, arith, All-mono, count, select,
}
use notification_system.Domain.Enums.{DeliveryStatus}
use notification_system.Domain.Models.{Uuid, Time, Delivery}

-- `WHERE id = $1 AND created_at = $2`
abbrev pub has_key : Uuid → Time → Delivery → Bool
has_key id created d = d.id == id && d.created_at == created

-- An optional instant that is set and not later than `now`.
abbrev pub is_due : Option Time → Time → Bool
is_due none now = false
is_due (some t) now = leb t now

abbrev pub key_is : Option String → String → Bool
key_is none k = false
key_is (some j) k = same_text j k

-- `ORDER BY`, as a stable insertion sort.
abbrev insert_by : {A : Type 0} → (A → ℕ) → A → List A → List A
insert_by key a [] = a ∷ []
insert_by key a (b ∷ bs) = if leb (key a) (key b) then a ∷ b ∷ bs else b ∷ insert_by key a bs

unfoldable pub order_by : {A : Type 0} → (A → ℕ) → List A → List A
order_by key [] = []
order_by key (a ∷ rest) = insert_by key a (order_by key rest)

-- The statuses of a request's deliveries.
abbrev pub statuses_of : Uuid → List Delivery → List DeliveryStatus
statuses_of rid [] = []
statuses_of rid (d ∷ ds) =
    let rest = statuses_of rid ds in if d.request_id == rid then d.status ∷ rest else rest

insert_by-All :
    {A : Type 0} (P : A → Type 0) (key : A → ℕ) (a : A) (bs : List A)
    → P a
    → All P bs
    → All P (insert_by key a bs)
insert_by-All P key a [] h k = (h, tt)
insert_by-All P key a (b ∷ bs) h k = elim (Bool-cases (leb (key a) (key b))) [
  | inl first ↦ rw first (h, k)
  | inr later ↦ rw later (k.0, insert_by-All P key a bs h k.1)
]

-- Sorting keeps what holds of every entry.
pub order_by-All :
    {A : Type 0} (P : A → Type 0) (key : A → ℕ) (entries : List A)
    → All P entries
    → All P (order_by key entries)
unfolding order_by
order_by-All P key [] h = tt
order_by-All P key (a ∷ rest) h =
    insert_by-All P key a (order_by key rest) h.0 (order_by-All P key rest h.1)

-- In ascending order of a key.
abbrev pub Ascending : {A : Type 0} → (A → ℕ) → List A → Type 0
Ascending key [] = Unit
Ascending key (a ∷ rest) = All (λ b. key a ≤ key b) rest × Ascending key rest

insert_by-Ascending :
    {A : Type 0} (key : A → ℕ) (a : A) (bs : List A)
    → Ascending key bs
    → Ascending key (insert_by key a bs)
insert_by-Ascending key a [] h = (tt, tt)
insert_by-Ascending key a (b ∷ bs) h = elim (Bool-cases (leb (key a) (key b))) [
  | inl first ↦
      let le : key a ≤ key b = ground (arith, first) in
      rw first ((le, All-mono bs (λ c k. omega (arith, le, k)) h.0), h)
  | inr later ↦ rw later (
    insert_by-All (λ c. key b ≤ key c) key a bs (ground (arith, later)) h.0,
    insert_by-Ascending key a bs h.1,
  )
]

pub order_by-Ascending :
    {A : Type 0} (key : A → ℕ) (entries : List A) → Ascending key (order_by key entries)
unfolding order_by
order_by-Ascending key [] = tt
order_by-Ascending key (a ∷ rest) =
    insert_by-Ascending key a (order_by key rest) (order_by-Ascending key rest)

insert_by-count :
    {A : Type 0} (q : A → Bool) (key : A → ℕ) (a : A) (bs : List A)
    → count q (insert_by key a bs) ≡ count q (a ∷ bs)
insert_by-count q key a [] = refl
insert_by-count q key a (b ∷ bs) = ground (arith, insert_by-count q key a bs)

-- Sorting keeps every entry as often as it is there.
pub order_by-count :
    {A : Type 0} (q : A → Bool) (key : A → ℕ) (entries : List A)
    → count q (order_by key entries) ≡ count q entries
unfolding order_by
order_by-count q key [] = refl
order_by-count q key (a ∷ rest) =
    ground (arith, insert_by-count q key a (order_by key rest), order_by-count q key rest)

pub count-select :
    {A : Type 0} (q p : A → Bool) (entries : List A)
    → count q (select p entries) ≡ count (λ a. p a && q a) entries
count-select q p [] = refl
count-select q p (a ∷ rest) = ground (arith, count-select q p rest)
