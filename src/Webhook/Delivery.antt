-- ===== src/Webhook/Delivery.antt =====
-- `Dispatch`, `deliver` and `DeliverOne` of internal/services/webhook/service.go: what
-- is sent to the webhooks, and what is written down of it. The goroutines of one call work on rows of
-- their own; the model runs them one after the other.
use Prim.Native.String
use gitwise.Prelude.{
  ℕ, suc, ◌+◌, String, Bool, false, not, ◌&&◌, Option, none, some, List, [], ◌∷◌, ◌++◌, ltb, leb,
  ◌==◌, if◌then◌else◌, str_eq, any, keep, length,
}
use gitwise.Text.{byte_len}
use gitwise.Action.{Result, ok, err, Faults}
use gitwise.Db.{Db, WebhookRow, DeliveryRow, Headers}
use gitwise.Webhook.Payload.{Json, obj, Fields, truncate_payload}
use gitwise.Webhook.Discord.{is_discord_webhook, build_discord_payload, join}

-- the libraries: JSON, HMAC with SHA-256 in hexadecimal digits, the text of a UUID and of a time,
-- whether a request can be built for a URL, and a JSON text as a column of type JSONB gives it back
pub record Net : Type 0 where
  pub marshal : Json → Option String
  pub unmarshal : String → Option Fields
  pub hmac_hex : String → String → String
  pub uuid_text : ℕ → String
  pub rfc3339 : ℕ → String
  pub can_request : String → Bool
  pub jsonb : String → String

pub record Request : Type 0 where
  pub id : ℕ
  pub url : String
  pub body : String
  pub headers : List (String × List String)

-- `body` is the first 64 KiB, none if PostgreSQL does not store them as a text: they are no UTF-8, or
-- have a zero byte
pub record Response : Type 0 where
  pub status : ℕ
  pub body : Option String
  pub headers : List (String × List String)

-- What `client.Do` gives for the n-th request: an error with its text, or the answer.
abbrev pub Answers : Type 0
Answers = ℕ → Result String Response

-- the database, the requests that were sent, and the next UUID: `uuid.New` gives none twice
pub record Post : Type 0 where
  pub db : Db
  pub sent : List Request
  pub next : ℕ

-- in nanoseconds
abbrev pub retry_delays : List ℕ
retry_delays = 60_000_000_000 ∷ 300_000_000_000 ∷ 1_800_000_000_000 ∷ []

abbrev pub max_attempts : ℕ
max_attempts = 3

unfoldable pub flatten_headers : List (String × List String) → Headers
flatten_headers [] = []
flatten_headers ((k, v) ∷ h) = (k, join ", " v) ∷ flatten_headers h

abbrev pub signature : Net → String → String → List (String × List String)
signature n secret payload =
    if str_eq secret ""
    then []
    else ("X-Hub-Signature-256", String.◌++◌ "sha256=" (n.hmac_hex secret payload) ∷ []) ∷ []

-- The body that is sent, none if it cannot be made.
abbrev pub body_of : Net → ℕ → String → String → String → Option String
body_of n now url event payload =
    if is_discord_webhook url
    then build_discord_payload n.unmarshal n.marshal (n.rfc3339 now) event payload
    else some payload

abbrev pub request_of : Net → ℕ → String → String → String → String → String → Request
request_of n id url secret event payload body = record {
  id = id;
  url = url;
  body = body;
  headers =
      ("Content-Type", "application/json" ∷ [])
      ∷ ("X-Gitwise-Event", event ∷ [])
      ∷ ("X-Gitwise-Delivery", n.uuid_text id ∷ [])
      ∷ ("User-Agent", "Gitwise-Hookshot" ∷ [])
      ∷ signature n secret payload;
}

-- the request, none if an error comes before it is sent
unfoldable pub prepare : Net → ℕ → ℕ → String → String → String → String → Option Request
prepare n now id url secret event payload = elim (body_of n now url event payload) [
  | none ↦ none
  | some body ↦
      if n.can_request url then some (request_of n id url secret event payload body) else none
]

abbrev pub is_success : ℕ → Bool
is_success status = leb 200 status && ltb status 300

-- what the answer says
abbrev pub answered_ok : Result String Response → Bool
answered_ok (err e) = false
answered_ok (ok r) = is_success r.status

abbrev pub status_of : Result String Response → Option ℕ
status_of (err e) = none
status_of (ok r) = some r.status

abbrev pub text_of : Result String Response → Option String
text_of (err e) = some e
text_of (ok r) = r.body

abbrev headers_of : Result String Response → Option Headers
headers_of (err e) = none
headers_of (ok r) = some (flatten_headers r.headers)

abbrev pub first_delay : Option ℕ
first_delay = elim retry_delays [ [] ↦ none | d ∷ ds ↦ some d ]

-- the first retry
abbrev pub first_retry : Bool → ℕ → Option ℕ
first_retry success now =
    if not success && ltb 1 max_attempts
    then elim first_delay [ none ↦ none | some d ↦ some (now + d) ]
    else none

abbrev pub row_of :
    Net → ℕ → ℕ → ℕ → String → String → Request → Result String Response → String → DeliveryRow
row_of n id now webhook_id event payload r a body = record {
  id = id;
  webhook_id = webhook_id;
  event_type = event;
  payload = n.jsonb payload;
  request_headers = flatten_headers r.headers;
  response_status = status_of a;
  response_body = body;
  response_headers = headers_of a;
  success = answered_ok a;
  attempts = 1;
  next_retry = first_retry (answered_ok a) now;
  delivered_at = now;
}

-- the INSERT; an error of it is only logged
abbrev pub insert : Bool → Option String → (String → DeliveryRow) → Db → Db
insert failed none row db = db
insert failed (some body) row db =
    if failed then db else record db { webhook_deliveries = db.webhook_deliveries ++ row body ∷ [] }

-- `deliver`; `failed` says whether the INSERT fails in the driver
unfoldable pub deliver : Net → Answers → Bool → ℕ → WebhookRow → String → String → Post → ℕ × Post
unfolding prepare flatten_headers
deliver n answers failed now w event payload s =
    let id = s.next in
    elim (prepare n now id w.url w.secret event payload) [
      | none ↦ (id, record s { next = suc id })
      | some r ↦
          let a = answers (length s.sent) in
          (
            id,
            record {
              db = insert failed (text_of a) (row_of n id now w.id event payload r a) s.db;
              sent = s.sent ++ r ∷ [];
              next = suc id;
            },
          )
    ]

-- `DeliverOne`
unfoldable pub deliver_one :
    Net → Answers → Bool → ℕ → WebhookRow → String → String → Post → ℕ × Post
unfolding deliver
deliver_one n answers failed now w event payload s = deliver n answers failed now w event payload s

unfoldable pub deliver_all :
    Net → Answers → Faults → ℕ → List WebhookRow → String → String → Post → Post
unfolding deliver
deliver_all n answers fails now [] event payload s = s
deliver_all n answers fails now (w ∷ ws) event payload s =
    deliver_all n answers (λ k. fails (suc k)) now ws event payload
      (deliver n answers (fails 0) now w event payload s).1

-- `active = TRUE AND $2 = ANY(events)`
abbrev pub subscribes : ℕ → String → WebhookRow → Bool
subscribes repo_id event w = w.repo_id == repo_id && w.active && any (str_eq event) w.events

abbrev pub max_payload_bytes : ℕ
max_payload_bytes = 262_144

abbrev pub shortened : Net → Fields → String → String
shortened n payload b =
    if ltb max_payload_bytes (byte_len b) then truncate_payload n.marshal payload else b

-- `Dispatch`; its errors are only logged
unfoldable pub dispatch : Net → Answers → Faults → ℕ → ℕ → String → Fields → Post → Post
unfolding deliver_all
dispatch n answers fails now repo_id event payload s =
    if fails 0 then s else elim (n.marshal (obj payload)) [
      | none ↦ s
      | some b ↦
          deliver_all n answers (λ k. fails (suc k)) now
            (keep (subscribes repo_id event) s.db.webhooks) event (shortened n payload b) s
    ]
