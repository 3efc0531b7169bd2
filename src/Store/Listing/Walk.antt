-- ===== src/Store/Listing/Walk.antt =====
-- A listing read page by page, each page asked for with the cursor of the one before.
use notification_system.Prelude.{
  ℕ, zero, suc, ◌+◌, ◌≤◌, ◌<◌, true, List, [], ◌++◌, Option, none, some, ltb, select, take, length,
  get_elem?, pos_part, Bool-cases, inl, inr, ◌≡◌, subst, refl, ap, sym, ◌∙◌, arith, select-All,
}
use notification_system.Domain.Models.{Uuid, Request}
use notification_system.Domain.Query.{ListFilter, Page, normalize, normalize_bounds}
use notification_system.Store.Consistent.{Distinct}
use notification_system.Store.Listing.Order.{newest_first, Descending, newest_first-Descending}
use notification_system.Store.Listing.Query.{
  passes, behind, matches, summary, summaries, listing, page_of, page,
}
use notification_system.Store.Listing.Pages.{
  drop, take-drop, summaries-drop, length-drop, select-Descending, select_behind, select_following,
  All-get_elem?, get_elem?-summaries, page_of_short, page_of_long,
}

-- The filter of the page that follows.
abbrev pub following : ListFilter → Page → ListFilter
following f p = record f { cursor = p.next_cursor; cursor_at = p.next_at }

abbrev joined : Option Uuid → List Request → List Request → List Request
joined none items rest = items
joined (some id) items rest = items ++ rest

-- A client that reads page after page; the fuel bounds the number of pages.
unfoldable pub walk : ℕ → ListFilter → List Request → List Request
unfolding page normalize
walk zero f rows = []
walk (suc fuel) f rows =
    let p = page (normalize f) rows in
    let rest = walk fuel (following f p) rows in joined p.next_cursor p.items rest

-- The rows that pass a filter, in order and whole.
abbrev chosen : ListFilter → List Request → List Request
chosen f rows = select (matches f) (newest_first rows)

listing-normalize :
    (f : ListFilter) (rows : List Request) → listing (normalize f) rows ≡ listing f rows
unfolding listing matches passes normalize
listing-normalize f rows = refl

listing-chosen : (f : ListFilter) (rows : List Request) → listing f rows ≡ summaries (chosen f rows)
unfolding listing
listing-chosen f rows = refl

matches-behind :
    (f : ListFilter) (r : Request) → matches f r ≡ true → behind f.cursor f.cursor_at r ≡ true
unfolding matches
matches-behind f r h = ground arith

-- The listing of the page that follows is what this page leaves.
listing-following :
    (f : ListFilter) (rows : List Request) (n : ℕ) (m : Request)
    → Distinct rows
    → get_elem? (chosen f rows) n ≡ some m
    → listing (record f { cursor = some m.id; cursor_at = some m.created_at }) rows
      ≡ drop (suc n) (listing f rows)
listing-following f rows n m d at =
    let reached : behind f.cursor f.cursor_at m ≡ true = matches-behind f m (
      All-get_elem? (λ r. matches f r ≡ true) n (chosen f rows) m
        (select-All (matches f) (newest_first rows)) at) in
    let strict : Descending (chosen f rows) =
      select-Descending (matches f) (newest_first rows) (newest_first-Descending rows d) in
    listing-chosen _ rows
    ∙ ap summaries (
        select_following f m (newest_first rows) reached
        ∙ select_behind n (chosen f rows) m strict at)
    ∙ summaries-drop (suc n) (chosen f rows)
    ∙ ap (drop (suc n)) (sym (listing-chosen f rows))

-- What the page of a filter is.
data Paged (f : ListFilter) (rows : List Request) : Page → Type 0 where
  last_page :
      {p : Page}
      → p ≡ record { items = listing f rows; next_cursor = none; next_at = none }
      → Paged f rows p
  next_page :
      {p : Page} (n : ℕ) (m : Request)
      → suc n < length (listing f rows)
      → get_elem? (chosen f rows) n ≡ some m
      → p ≡ record {
        items = take (suc n) (listing f rows);
        next_cursor = some m.id;
        next_at = some m.created_at;
      }
      → Paged f rows p

page_at :
    (f : ListFilter) (rows : List Request) (n : ℕ)
    → pos_part (normalize f).limit ≡ suc n
    → page (normalize f) rows ≡ page_of (suc n) (take (suc (suc n)) (listing f rows))
unfolding page
page_at f rows n e =
    let two : suc n + 1 ≡ suc (suc n) = omega arith in
    rw (listing-normalize f rows, e) (ap (λ k. page_of (suc n) (take k (listing f rows))) two)

page-Paged_at :
    (f : ListFilter) (rows : List Request) (n : ℕ)
    → pos_part (normalize f).limit ≡ suc n
    → Paged f rows (page (normalize f) rows)
page-Paged_at f rows n e = elim (Bool-cases (ltb (suc n) (length (listing f rows)))) [
  | inl more ↦
      let found =
        get_elem?-summaries n (chosen f rows)
          (subst (λ l. suc n < length l) (listing-chosen f rows) (ground arith)) in
      next_page n found.0 (ground arith) found.1 (
        page_at f rows n e
        ∙ page_of_long n (listing f rows) found.0 (ground arith) (
            subst (λ l. get_elem? (take (suc (suc n)) l) n ≡ some (summary found.0))
              (sym (listing-chosen f rows)) found.2))
  | inr end ↦ last_page (page_at f rows n e ∙ page_of_short (suc n) (listing f rows) (ground arith))
]

positive : (k : ℕ) → 1 ≤ k → (n : ℕ) × (k ≡ suc n)
positive zero h = absurd (omega arith)
positive (suc n) h = (n, refl)

page-Paged : (f : ListFilter) (rows : List Request) → Paged f rows (page (normalize f) rows)
page-Paged f rows =
    let n = positive (pos_part (normalize f).limit) (normalize_bounds f).1 in
    page-Paged_at f rows n.0 n.1

walk_step :
    (fuel : ℕ) (f : ListFilter) (rows : List Request) {p : Page}
    → Distinct rows
    → length (listing f rows) < suc fuel
    → ((g : ListFilter) → length (listing g rows) < fuel → walk fuel g rows ≡ listing g rows)
    → Paged f rows p
    → joined p.next_cursor p.items (walk fuel (following f p) rows) ≡ listing f rows
walk_step fuel f rows d h later (last_page e) = rw e refl
walk_step fuel f rows d h later (next_page n m long at e) =
    let rest = listing-following f rows n m d at in
    rw
      (
        e,
        later _ (
            subst (λ l. length l < fuel) (sym rest)
              (omega (arith, length-drop (suc n) (listing f rows)))),
      )
      (rw rest (take-drop (suc n) (listing f rows)))

-- Where no two requests share an id, a client that reads page after page from any filter gets
-- exactly the listing: every row that matches, once, the newest first. As many pages as there are
-- rows to list, and one more, are enough.
pub walk-listing :
    (fuel : ℕ) (f : ListFilter) (rows : List Request)
    → Distinct rows
    → length (listing f rows) < fuel
    → walk fuel f rows ≡ listing f rows
unfolding walk
walk-listing zero f rows d h = absurd (omega arith)
walk-listing (suc fuel) f rows d h =
    walk_step fuel f rows d h (λ g k. walk-listing fuel g rows d k) (page-Paged f rows)
