-- ===== src/Store/Listing/Owned.antt =====
-- What a page of a listing shows.
use notification_system.Prelude.{
  ℕ, ◌+◌, ◌≤◌, true, List, [], ◌∷◌, Option, none, some, ◌≡◌, refl, ◌-◌, same_text, take, length,
  pos_part, All, arith, select, select-All, length-take_le, All-take, get_elem?,
}
use notification_system.Domain.Models.{Request}
use notification_system.Domain.Query.{ListFilter, normalize, normalize_bounds}
use notification_system.Store.Session.{Session}
use notification_system.Store.Outcome.{Outcome, Faulty, statement_rule}
use notification_system.Store.Listing.Order.{newest_first}
use notification_system.Store.Listing.Query.{
  passes, matches, summaries, listing, page_after, page_of, page, list_requests,
}

-- A row of the user's, without its content.
abbrev pub Shown : ListFilter → Request → Type 0
Shown f r = (same_text r.user_id f.user_id ≡ true) × (r.rendered_content ≡ "")

Shown-summaries :
    (f : ListFilter) (rs : List Request)
    → All (λ r. matches f r ≡ true) rs
    → All (Shown f) (summaries rs)
unfolding matches passes
Shown-summaries f [] h = tt
Shown-summaries f (r ∷ rs) h = ground (arith, Shown-summaries f rs)

listing-Shown : (f : ListFilter) (rows : List Request) → All (Shown f) (listing f rows)
unfolding listing
listing-Shown f rows =
    Shown-summaries f (select (matches f) (newest_first rows))
      (select-All (matches f) (newest_first rows))

page_after-items : (o : Option Request) (rs : List Request) → (page_after o rs).items ≡ rs
page_after-items none rs = refl
page_after-items (some r) rs = refl

page_of-Shown :
    (f : ListFilter) (limit : ℕ) (rs : List Request)
    → All (Shown f) rs
    → All (Shown f) (page_of limit rs).items × (length (page_of limit rs).items ≤ limit)
unfolding page_of
page_of-Shown f limit rs h = ground (
  arith,
  All-take (Shown f) limit rs h,
  length-take_le limit rs,
  page_after-items (get_elem? rs (limit - 1)) (take limit rs),
)

-- A listing changes no table, and fails only with the database. Its page has at most as many rows as
-- the limit, never more than 200, and every row is the user's and comes without its content.
pub list_requests-Shown :
    (f : ListFilter) (s : Session)
    → Outcome
        (λ p t.
          (t.db ≡ s.db)
          × All (Shown f) p.items
          × (length p.items ≤ pos_part (normalize f).limit)
          × (length p.items ≤ 200))
        (λ e t. (t.db ≡ s.db) × Faulty s)
        (list_requests f s)
unfolding list_requests page normalize
list_requests-Shown f s =
    let limit = pos_part (normalize f).limit in
    let rows = take (limit + 1) (listing (normalize f) s.replica.requests) in
    let shown = page_of-Shown (normalize f) limit rows (
      All-take (Shown (normalize f)) (limit + 1) (listing (normalize f) s.replica.requests)
        (listing-Shown (normalize f) s.replica.requests)) in
    statement_rule "list requests" _ _ s (λ e. (refl, (s.tick, e)))
      (refl, shown.0, shown.1, omega (arith, normalize_bounds f))
