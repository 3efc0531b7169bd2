-- ===== src/Domain/Query.antt =====
-- internal/domain/query.go: the filter of a listing, and its page.
use notification_system.Prelude.{
  ◌≤◌, ℤ, pos, String, Option, List, leb_ℤ, ltb_ℤ, if◌then◌else◌, arith, ◌≡◌, pos_part, neg_part,
}
use notification_system.Domain.Enums.{Channel}
use notification_system.Domain.Models.{Uuid, Time, Request}

-- The status is what the client sent, so any text.
pub record ListFilter : Type 0 where
  pub user_id : String
  pub status : Option String
  pub channel : Option Channel
  pub from_time : Option Time
  pub to_time : Option Time
  pub limit : ℤ
  pub cursor : Option Uuid
  pub cursor_at : Option Time

abbrev pub default_limit : ℤ
default_limit = pos 50

abbrev pub max_limit : ℤ
max_limit = pos 200

-- `ListFilter.Normalize`
unfoldable pub normalize : ListFilter → ListFilter
normalize f =
    let positive = if leb_ℤ f.limit (pos 0) then default_limit else f.limit in
    record f { limit = if ltb_ℤ max_limit positive then max_limit else positive }

pub record Page : Type 0 where
  pub items : List Request
  pub next_cursor : Option Uuid
  pub next_at : Option Time

-- The limit that a listing works with is between 1 and 200, whatever was asked for.
pub normalize_bounds :
    (f : ListFilter)
    → (neg_part (normalize f).limit ≡ 0)
      × (1 ≤ pos_part (normalize f).limit)
      × (pos_part (normalize f).limit ≤ 200)
unfolding normalize
normalize_bounds f = ground arith
