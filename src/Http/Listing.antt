-- ===== src/Http/Listing.antt =====
-- handlers.go: `listNotifications`.
use notification_system.Prelude.{String, Option, none, some, List, [], ◌∷◌}
use notification_system.Domain.Errors.{Error}
use notification_system.Domain.Models.{Uuid, Time, Request}
use notification_system.Domain.Query.{Page}
use notification_system.Http.Cursor.{Codecs, encode_cursor}
use notification_system.Http.Errors.{Response, list_body}
use notification_system.Http.Filter.{Query, parse_list_filter}
use notification_system.Http.Handlers.{with_user, given, answer}
use notification_system.Http.Responses.{
  NotificationResponse, to_notification_summary_response, ListResponse,
}
use notification_system.Notification.{list}
use notification_system.Store.Session.{Action}

abbrev pub summary_responses : List Request → List NotificationResponse
summary_responses [] = []
summary_responses (r ∷ rs) = to_notification_summary_response r ∷ summary_responses rs

abbrev pub next_token : Codecs → Option Uuid → Option Time → Option String
next_token c none at = none
next_token c (some id) at = some (encode_cursor c id at)

unfoldable pub list_response : Codecs → Page → ListResponse
list_response c p = record {
  items = summary_responses p.items;
  next_cursor = next_token c p.next_cursor p.next_at;
}

-- `listNotifications`
unfoldable pub list_notifications :
    (Error → String) → Codecs → (String → Option Time) → String → Query → Action Response
unfolding list_response
list_notifications text c parse user q = with_user user (
    given text (parse_list_filter c parse q) (λ f.
      answer text (λ p. record { status = 200; body = list_body (list_response c p) })
        (list (record f { user_id = user }))))
