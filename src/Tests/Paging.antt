-- ===== src/Tests/Paging.antt =====
-- The theorems on a listing and its cursor, at sample inputs.
use notification_system.Prelude.{
  ◌≤◌, ◌≡◌, refl, arith, String, Option, none, some, List, [], ◌∷◌, pos, pos_part, length, All,
  format_nat, digits_value, digits_value-format, same_text, if◌then◌else◌,
}
use notification_system.Domain.Enums.{channel_valid}
use notification_system.Domain.Errors.{ok}
use notification_system.Domain.Models.{Time, Request}
use notification_system.Domain.Query.{ListFilter, normalize}
use notification_system.Http.{Codecs, encode_cursor, decode_cursor, Query, parse_list_filter}
use notification_system.Http.NextPage.{with_cursor, parse_list_filter-next}
use notification_system.Http.Paging.{ReadsBack, decode_cursor-encode}
use notification_system.Store.Listing.{listing}
use notification_system.Store.Listing.Owned.{Shown, list_requests-Shown}
use notification_system.Store.Listing.Walk.{walk, walk-listing}
use notification_system.Store.Listing.{list_requests}
use notification_system.Store.Outcome.{Outcome, Faulty}
use notification_system.Tests.Samples.{order_update, shop}

abbrev by_ada : ListFilter
by_ada = record {
  user_id = "ada";
  status = none;
  channel = some "sms";
  from_time = none;
  to_time = some 500;
  limit = pos 1;
  cursor = none;
  cursor_at = none;
}

-- Three requests, two of them of the same instant, asked for one by one.
abbrev three_orders : List Request
three_orders =
    order_update
    ∷ record order_update { id = 4; created_at = 200 }
    ∷ record order_update { id = 5; created_at = 100 }
    ∷ []

walk-listing_example : walk 4 by_ada three_orders ≡ listing by_ada three_orders
unfolding listing
walk-listing_example = walk-listing 4 by_ada three_orders (refl, (refl, (refl, tt))) (omega arith)

-- Packages that write a text as it stands and a UUID in decimals.
abbrev plain : Codecs
plain = record {
  encode_base64 = λ s. s;
  decode_base64 = λ s. some s;
  format_uuid = format_nat;
  parse_uuid = digits_value 0;
}

plain-ReadsBack : ReadsBack plain
plain-ReadsBack = record { base64 = λ s. refl; nothing = refl; uuid = digits_value-format }

abbrev some_day : Time
some_day = 63900000000000000000

decode_cursor-encode_example :
    decode_cursor plain (encode_cursor plain 17 (some some_day)) ≡ some (17, some_day)
decode_cursor-encode_example =
    decode_cursor-encode plain 17 some_day plain-ReadsBack (omega arith, omega arith)

abbrev no_times : String → Option Time
no_times s = none

abbrev sms_only : Query
sms_only name = if same_text name "channel" then "sms" else ""

abbrev sms_filter : ListFilter
sms_filter = record {
  user_id = "";
  status = none;
  channel = some "sms";
  from_time = none;
  to_time = none;
  limit = pos 50;
  cursor = none;
  cursor_at = none;
}

sms_only_parsed : parse_list_filter plain no_times sms_only ≡ ok sms_filter
unfolding parse_list_filter normalize channel_valid
sms_only_parsed = refl

parse_list_filter-next_example :
    parse_list_filter plain no_times (with_cursor (encode_cursor plain 17 (some some_day)) sms_only)
    ≡ ok (record sms_filter { cursor = some 17; cursor_at = some some_day })
parse_list_filter-next_example =
    parse_list_filter-next plain no_times sms_only sms_filter 17 some_day plain-ReadsBack
      (omega arith, omega arith) sms_only_parsed

list_requests-Shown_example :
    Outcome
      (λ p t.
        (t.db ≡ shop.db)
        × All (Shown by_ada) p.items
        × (length p.items ≤ pos_part (normalize by_ada).limit)
        × (length p.items ≤ 200))
      (λ e t. (t.db ≡ shop.db) × Faulty shop)
      (list_requests by_ada shop)
list_requests-Shown_example = list_requests-Shown by_ada shop
