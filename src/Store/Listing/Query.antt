-- ===== src/Store/Listing/Query.antt =====
-- `ListRequests`: the filter, the query on the replica, and the page.
use notification_system.Prelude.{
  ℕ, ◌+◌, ◌-◌, Bool, true, ◌&&◌, List, [], ◌∷◌, Option, none, some, ltb, leb, if◌then◌else◌,
  same_text, select, take, length, get_elem?, pos_part,
}
use notification_system.Domain.Enums.{status_text}
use notification_system.Domain.Models.{Uuid, Time, Request}
use notification_system.Domain.Query.{ListFilter, normalize, Page}
use notification_system.Store.Session.{Action, query}
use notification_system.Store.Listing.Order.{older_than, newest_first}

-- A condition that is added only where the filter has a value for it.
abbrev pub if_given : {A : Type 0} → (A → Bool) → Option A → Bool
if_given test none = true
if_given test (some a) = test a

-- The conditions of the filter but for the keyset's.
unfoldable pub passes : ListFilter → Request → Bool
passes f r =
    same_text r.user_id f.user_id
    && if_given (λ st. same_text (status_text r.status) st) f.status
    && if_given (λ ch. same_text r.channel ch) f.channel
    && if_given (λ t. leb t r.created_at) f.from_time
    && if_given (λ t. leb r.created_at t) f.to_time

-- The keyset's condition is added only where both of its parts are set.
abbrev pub behind : Option Uuid → Option Time → Request → Bool
behind (some id) (some at) r = older_than at id r
behind (some id) none r = true
behind none at r = true

-- The WHERE clause.
unfoldable pub matches : ListFilter → Request → Bool
unfolding passes
matches f r = passes f r && behind f.cursor f.cursor_at r

-- A row of a listing is read without its content.
abbrev pub summary : Request → Request
summary r = record r { rendered_content = "" }

abbrev pub summaries : List Request → List Request
summaries [] = []
summaries (r ∷ rs) = summary r ∷ summaries rs

-- All that a filter lets through, in order.
unfoldable pub listing : ListFilter → List Request → List Request
unfolding matches newest_first
listing f rows = summaries (select (matches f) (newest_first rows))

-- `items[limit-1]` gives the cursor of the next page.
abbrev pub page_after : Option Request → List Request → Page
page_after none items = record { items = items; next_cursor = none; next_at = none }
page_after (some last) items = record {
  items = items;
  next_cursor = some last.id;
  next_at = some last.created_at;
}

-- The page made of the rows, of which there may be one too many.
unfoldable pub page_of : ℕ → List Request → Page
page_of limit items =
    if ltb limit (length items)
    then page_after (get_elem? items (limit - 1)) (take limit items)
    else page_after none items

-- The page of the rows of a table.
unfoldable pub page : ListFilter → List Request → Page
unfolding listing page_of
page f rows = page_of (pos_part f.limit) (take (pos_part f.limit + 1) (listing f rows))

-- `ListRequests`
unfoldable pub list_requests : ListFilter → Action Page
unfolding page
list_requests f = query "list requests" (λ s. page (normalize f) s.replica.requests)
