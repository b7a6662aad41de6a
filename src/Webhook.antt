-- ===== src/Webhook.antt =====
-- internal/services/webhook/service.go and internal/models/webhook.go: the webhooks of a repository.
pub mod Address
pub mod Ranges
pub mod Payload
pub mod Discord
pub mod Delivery
pub mod Retry
pub mod Attempts
pub mod Retries
pub mod History
pub mod Unstored
pub mod Safety
pub mod Truncation
use gitwise.Prelude.{
  ℕ, String, Bool, true, false, not, ◌&&◌, ◌||◌, Option, none, some, List, [], ◌∷◌, ◌++◌, ltb, leb,
  ◌==◌, if◌then◌else◌, str_eq, find, any, keep, update_where, take, ℤ, pos, negsuc,
}
use gitwise.Text.{trim_space}
use gitwise.Action.{
  Action, ok, err, Faults, pure, raise, gets, or_raise, modify, raise_if, ◌>>=◌, ◌>>◌,
}
use gitwise.Db.{Db, WebhookRow, DeliveryRow}
use gitwise.Db.Order.{order_by}
use gitwise.Field.{or_old}
use gitwise.Webhook.Address.{Ip, Url, UrlError, validate_url}

pub data Error : Type 0 where
  not_found : Error
  refused_url : UrlError → Error
  invalid_event_type : String → Error
  internal : Error

pub record CreateWebhookRequest : Type 0 where
  pub url : String
  pub secret : String
  pub events : List String
  pub active : Option Bool

pub record UpdateWebhookRequest : Type 0 where
  pub url : Option String
  pub secret : Option String
  pub events : Option (List String)
  pub active : Option Bool

abbrev pub valid_event_types : List String
valid_event_types =
    "push" ∷ "ping" ∷ "issue.opened" ∷ "issue.closed" ∷ "pr.opened" ∷ "pr.merged" ∷ "pr.closed"
    ∷ "review.submitted" ∷ "comment.created" ∷ []

-- `validateEventTypes`: the first event that is no event type
unfoldable pub validate_event_types : List String → Option String
validate_event_types [] = none
validate_event_types (e ∷ es) =
    let rest = validate_event_types es in if any (str_eq e) valid_event_types then rest else some e

abbrev pub raise_event : Option String → Action Db Error (Unit {0})
raise_event none = pure tt
raise_event (some e) = raise (invalid_event_type e)

abbrev pub raise_url : Option UrlError → Action Db Error (Unit {0})
raise_url none = pure tt
raise_url (some e) = raise (refused_url e)

abbrev pub is_webhook : ℕ → ℕ → WebhookRow → Bool
is_webhook repo_id id w = w.id == id && w.repo_id == repo_id

-- the fields of an update that are there are checked
abbrev pub check_events : Option (List String) → Option String
check_events none = none
check_events (some es) = validate_event_types es

-- `url.Parse`, `net.ParseIP`
module _ (parse : String → Option Url) (parse_ip : String → Option Ip) where
  unfoldable pub create : Faults → ℕ → ℕ → ℕ → CreateWebhookRequest → Action Db Error WebhookRow
  create fails id now repo_id req = do
    let raw = trim_space req.url
    raise_url (validate_url parse parse_ip raw)
    raise_event (validate_event_types req.events)
    let w : WebhookRow = record {
      id = id;
      repo_id = repo_id;
      url = raw;
      secret = req.secret;
      events = req.events;
      active = or_old req.active true;
      created_at = now;
      updated_at = now;
    }
    taken ← gets (λ db. any (λ v. v.id == id) db.webhooks)
    raise_if (fails 0 || taken) internal
    modify (λ db. record db { webhooks = db.webhooks ++ w ∷ [] })
    pure w

  abbrev pub check_url : Option String → Option UrlError
  check_url none = none
  check_url (some u) = validate_url parse parse_ip (trim_space u)

  abbrev pub trimmed_or : Option String → String → String
  trimmed_or none old = old
  trimmed_or (some u) old = trim_space u

  -- the SET clauses
  abbrev pub assign : ℕ → UpdateWebhookRequest → WebhookRow → WebhookRow
  assign now req w = record w {
    updated_at = now;
    url = trimmed_or req.url w.url;
    secret = or_old req.secret w.secret;
    events = or_old req.events w.events;
    active = or_old req.active w.active;
  }

  unfoldable pub update : Faults → ℕ → ℕ → ℕ → UpdateWebhookRequest → Action Db Error WebhookRow
  update fails now repo_id id req = do
    raise_url (check_url req.url)
    raise_event (check_events req.events)
    raise_if (fails 0) internal
    found ← gets (λ db. find (is_webhook repo_id id) db.webhooks)
    w ← or_raise found not_found
    modify λ db. record db {
      webhooks = update_where (is_webhook repo_id id) (assign now req) db.webhooks;
    }
    pure (assign now req w)

unfoldable pub list : Faults → ℕ → Action Db Error (List WebhookRow)
list fails repo_id = do
  raise_if (fails 0) internal
  gets λ db.
      order_by (λ a b. leb b.created_at a.created_at) (keep (λ w. w.repo_id == repo_id) db.webhooks)

-- `Get`
unfoldable pub get_webhook : Faults → ℕ → ℕ → Action Db Error WebhookRow
get_webhook fails repo_id id = do
  raise_if (fails 0) internal
  found ← gets (λ db. find (is_webhook repo_id id) db.webhooks)
  or_raise found not_found

-- the deliveries go with their webhook (`ON DELETE CASCADE`)
unfoldable pub delete : Faults → ℕ → ℕ → Action Db Error (Unit {0})
delete fails repo_id id = do
  raise_if (fails 0) internal
  affected ← gets (λ db. any (is_webhook repo_id id) db.webhooks)
  raise_if (not affected) not_found
  modify λ db. record db {
    webhooks = keep (λ w. not (is_webhook repo_id id w)) db.webhooks;
    webhook_deliveries = keep (λ d. not (d.webhook_id == id)) db.webhook_deliveries;
  }

abbrev pub page_size : ℤ → ℕ
page_size (negsuc n) = 25
page_size (pos n) = if n == 0 || ltb 100 n then 25 else n

-- of the row the answer has the columns of `models.WebhookDelivery`
unfoldable pub list_deliveries : Faults → ℕ → ℤ → Action Db Error (List DeliveryRow)
list_deliveries fails webhook_id limit = do
  raise_if (fails 0) internal
  gets λ db. take (page_size limit) (
      order_by (λ a b. leb b.delivered_at a.delivered_at)
        (keep (λ d. d.webhook_id == webhook_id) db.webhook_deliveries))
