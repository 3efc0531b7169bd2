-- ===== src/Store/Listing/Pages.antt =====
-- The rows behind a cursor, and the two kinds of page.
use notification_system.Prelude.{
  ℕ, zero, suc, ◌-◌, ◌≤◌, ◌<◌, Bool, true, false, List, [], ◌∷◌, ◌++◌, Option, none, some, select,
  take, length, get_elem?, All, Bool-cases, inl, inr, ◌≡◌, subst, refl, ap, arith,
}
use notification_system.Domain.Models.{Uuid, Time, Request}
use notification_system.Domain.Query.{ListFilter}
use notification_system.Store.Listing.Order.{newer, Descending}
use notification_system.Store.Listing.Query.{passes, behind, matches, summary, summaries, page_of}

abbrev pub drop : {A : Type 0} → ℕ → List A → List A
drop zero xs = xs
drop (suc n) [] = []
drop (suc n) (x ∷ xs) = drop n xs

pub take-drop : {A : Type 0} (n : ℕ) (xs : List A) → take n xs ++ drop n xs ≡ xs
take-drop zero xs = refl
take-drop (suc n) [] = refl
take-drop (suc n) (x ∷ xs) = ap (λ l. x ∷ l) (take-drop n xs)

pub summaries-drop : (n : ℕ) (rs : List Request) → summaries (drop n rs) ≡ drop n (summaries rs)
summaries-drop zero rs = refl
summaries-drop (suc n) [] = refl
summaries-drop (suc n) (r ∷ rs) = summaries-drop n rs

pub length-drop : {A : Type 0} (n : ℕ) (xs : List A) → length (drop n xs) ≡ length xs - n
length-drop zero xs = omega arith
length-drop (suc n) [] = omega arith
length-drop (suc n) (x ∷ xs) = omega (arith, length-drop n xs)

-- The rows behind the cursor of one that the list holds are those that follow it.
select_none :
    (p : Request → Bool) (rs : List Request) → All (λ r. p r ≡ false) rs → select p rs ≡ []
select_none p [] h = refl
select_none p (r ∷ rs) h = ground (arith, select_none p rs)

select_whole :
    (p : Request → Bool) (rs : List Request) → All (λ r. p r ≡ true) rs → select p rs ≡ rs
select_whole p [] h = refl
select_whole p (r ∷ rs) h = ground (arith, select_whole p rs)

pub select-Descending :
    (p : Request → Bool) (rs : List Request) → Descending rs → Descending (select p rs)
select-Descending p [] d = tt
select-Descending p (r ∷ rs) d = elim (Bool-cases (p r)) [
  | inl e ↦ rw e (select_newer p r rs d.0, select-Descending p rs d.1)
  | inr e ↦ rw e (select-Descending p rs d.1)
]
  where
    select_newer :
        (p : Request → Bool) (r : Request) (rs : List Request)
        → All (λ q. newer r q ≡ true) rs
        → All (λ q. newer r q ≡ true) (select p rs)
    select_newer p r [] h = tt
    select_newer p r (q ∷ qs) h = ground (arith, select_newer p r qs)

pub some-injective : {r q : Request} → some r ≡ some q → r ≡ q
some-injective e = cc

pub All-get_elem? :
    (P : Request → Type 0) (n : ℕ) (rs : List Request) (last : Request)
    → All P rs
    → get_elem? rs n ≡ some last
    → P last
All-get_elem? P n [] last h e = cc
All-get_elem? P zero (r ∷ rs) last h e = subst P (some-injective e) h.0
All-get_elem? P (suc n) (r ∷ rs) last h e = All-get_elem? P n rs last h.1 e

newer_irreflexive : (r : Request) → newer r r ≡ false
newer_irreflexive r = ground arith

newer_asymmetric : (r q : Request) → newer r q ≡ true → newer q r ≡ false
newer_asymmetric r q h = ground arith

pub behind_trans :
    (id : Option Uuid) (at : Option Time) (last r : Request)
    → behind id at last ≡ true
    → newer last r ≡ true
    → behind id at r ≡ true
behind_trans none at last r h k = refl
behind_trans (some id) none last r h k = refl
behind_trans (some id) (some at) last r h k = ground arith

-- In a strict order, what is behind the entry at a place is what stands after it.
pub select_behind :
    (n : ℕ) (rs : List Request) (last : Request)
    → Descending rs
    → get_elem? rs n ≡ some last
    → select (newer last) rs ≡ drop (suc n) rs
select_behind n [] last d h = cc
select_behind zero (r ∷ rs) last d h =
    subst (λ l. select (newer l) (r ∷ rs) ≡ rs) (some-injective h)
      (rw (newer_irreflexive r) (select_whole (newer r) rs d.0))
select_behind (suc n) (r ∷ rs) last d h =
    rw (newer_asymmetric r last (All-get_elem? (λ q. newer r q ≡ true) n rs last d.0 h))
      (select_behind n rs last d.1 h)

-- The rows that the next page's filter lets through, from those of this page's.
pub select_following :
    (f : ListFilter) (last : Request) (rs : List Request)
    → behind f.cursor f.cursor_at last ≡ true
    → select (matches (record f { cursor = some last.id; cursor_at = some last.created_at })) rs
      ≡ select (newer last) (select (matches f) rs)
unfolding matches passes
select_following f last [] h = refl
select_following f last (r ∷ rs) h =
    ground (arith, behind_trans f.cursor f.cursor_at last r, select_following f last rs)

take-take-suc : {A : Type 0} (n : ℕ) (xs : List A) → take n (take (suc n) xs) ≡ take n xs
take-take-suc zero xs = refl
take-take-suc (suc n) [] = refl
take-take-suc (suc n) (x ∷ xs) = ap (λ l. x ∷ l) (take-take-suc n xs)

take_long : {A : Type 0} (n : ℕ) (xs : List A) → length xs ≤ n → take n xs ≡ xs
take_long zero [] h = refl
take_long zero (x ∷ xs) h = absurd (omega arith)
take_long (suc n) [] h = refl
take_long (suc n) (x ∷ xs) h = ap (λ l. x ∷ l) (take_long n xs (omega arith))

length-take-suc :
    {A : Type 0} (n : ℕ) (xs : List A) → n < length xs → length (take (suc n) xs) ≡ suc n
length-take-suc n [] h = absurd (omega arith)
length-take-suc zero (x ∷ xs) h = refl
length-take-suc (suc n) (x ∷ xs) h = omega (arith, length-take-suc n xs (omega arith))

-- The row that gives the cursor, once the listing goes on behind a page of `suc n` rows.
pub get_elem?-summaries :
    (n : ℕ) (rs : List Request)
    → suc n < length (summaries rs)
    → (m : Request) × (get_elem? rs n ≡ some m)
      × (get_elem? (take (suc (suc n)) (summaries rs)) n ≡ some (summary m))
get_elem?-summaries n [] h = absurd (omega arith)
get_elem?-summaries zero (r ∷ rs) h = (r, refl, refl)
get_elem?-summaries (suc n) (r ∷ rs) h = get_elem?-summaries n rs (omega arith)

-- The page that ends a listing, and the page that does not.
pub page_of_short :
    (n : ℕ) (xs : List Request)
    → length xs ≤ n
    → page_of n (take (suc n) xs) ≡ record { items = xs; next_cursor = none; next_at = none }
unfolding page_of
page_of_short n xs h = rw (take_long (suc n) xs (omega arith)) (ground arith)

pub page_of_long :
    (n : ℕ) (xs : List Request) (m : Request)
    → suc n < length xs
    → get_elem? (take (suc (suc n)) xs) n ≡ some (summary m)
    → page_of (suc n) (take (suc (suc n)) xs)
      ≡ record { items = take (suc n) xs; next_cursor = some m.id; next_at = some m.created_at }
unfolding page_of
page_of_long n xs m h e = ground (arith, length-take-suc (suc n) xs h, take-take-suc (suc n) xs)
