-- ===== src/Store/Listing/Order.antt =====
-- `ORDER BY created_at DESC, id DESC` and the keyset condition `(created_at, id) < ($1, $2)`.
use notification_system.Prelude.{
  Bool, true, false, ◌&&◌, ◌||◌, List, [], ◌∷◌, ltb, ◌==◌, if◌then◌else◌, All, Bool-cases, inl, inr,
  ◌≡◌, arith, any,
}
use notification_system.Domain.Models.{Uuid, Time, Request}
use notification_system.Store.Consistent.{Distinct}

-- `(created_at, id) < ($1, $2)`
abbrev pub older_than : Time → Uuid → Request → Bool
older_than at id r = ltb r.created_at at || (r.created_at == at && ltb r.id id)

-- The first request comes before the second.
abbrev pub newer : Request → Request → Bool
newer r q = older_than r.created_at r.id q

unfoldable pub insert_newest : Request → List Request → List Request
insert_newest r [] = r ∷ []
insert_newest r (q ∷ qs) =
    let rest = insert_newest r qs in if newer r q then r ∷ q ∷ qs else q ∷ rest

-- The rows, the newest first.
unfoldable pub newest_first : List Request → List Request
unfolding insert_newest
newest_first [] = []
newest_first (r ∷ rs) = insert_newest r (newest_first rs)

-- Each row is strictly newer than all that follow it.
abbrev pub Descending : List Request → Type 0
Descending [] = Unit
Descending (r ∷ rs) = All (λ q. newer r q ≡ true) rs × Descending rs

insert_newest-All :
    (P : Request → Type 0) (r : Request) (qs : List Request)
    → P r
    → All P qs
    → All P (insert_newest r qs)
unfolding insert_newest
insert_newest-All P r [] h k = (h, tt)
insert_newest-All P r (q ∷ qs) h k = elim (Bool-cases (newer r q)) [
  | inl first ↦ rw first (h, k)
  | inr later ↦ rw later (k.0, insert_newest-All P r qs h k.1)
]

newest_first-All : (P : Request → Type 0) (rs : List Request) → All P rs → All P (newest_first rs)
unfolding newest_first
newest_first-All P [] h = tt
newest_first-All P (r ∷ rs) h =
    insert_newest-All P r (newest_first rs) h.0 (newest_first-All P rs h.1)

pub newer_trans : (a b c : Request) → newer a b ≡ true → newer b c ≡ true → newer a c ≡ true
newer_trans a b c h k = ground arith

newer_total : (a b : Request) → (a.id == b.id) ≡ false → newer a b ≡ false → newer b a ≡ true
newer_total a b h k = ground arith

newer-All :
    (r q : Request) (qs : List Request)
    → newer r q ≡ true
    → All (λ x. newer q x ≡ true) qs
    → All (λ x. newer r x ≡ true) qs
newer-All r q [] h k = tt
newer-All r q (x ∷ xs) h k = (newer_trans r q x h k.0, newer-All r q xs h k.1)

insert_newest-Descending :
    (r : Request) (qs : List Request)
    → All (λ q. (r.id == q.id) ≡ false) qs
    → Descending qs
    → Descending (insert_newest r qs)
unfolding insert_newest
insert_newest-Descending r [] apart d = (tt, tt)
insert_newest-Descending r (q ∷ qs) apart d = elim (Bool-cases (newer r q)) [
  | inl first ↦ rw first ((first, newer-All r q qs first d.0), d)
  | inr later ↦ rw later (
    insert_newest-All (λ x. newer q x ≡ true) r qs (newer_total r q apart.0 later) d.0,
    insert_newest-Descending r qs apart.1 d.1,
  )
]

apart_of_distinct :
    (r : Request) (rs : List Request)
    → any (λ q. q.id == r.id) rs ≡ false
    → All (λ q. (r.id == q.id) ≡ false) rs
apart_of_distinct r [] h = tt
apart_of_distinct r (q ∷ qs) h = ground (arith, apart_of_distinct r qs)

-- Rows with distinct ids are put in a strict order.
pub newest_first-Descending : (rs : List Request) → Distinct rs → Descending (newest_first rs)
unfolding newest_first
newest_first-Descending [] d = tt
newest_first-Descending (r ∷ rs) d =
    insert_newest-Descending r (newest_first rs)
      (newest_first-All (λ q. (r.id == q.id) ≡ false) rs (apart_of_distinct r rs d.0))
      (newest_first-Descending rs d.1)
