-- ===== src/Webhook/Retry.antt =====
-- `RetryPending` and `retryDelivery` of internal/services/webhook/service.go: failed deliveries are sent
-- again.
use gitwise.Prelude.{
  ℕ, zero, suc, ◌+◌, ◌-◌, String, Bool, true, false, not, ◌&&◌, Option, none, some, List, [], ◌∷◌,
  ◌++◌, ltb, ◌==◌, if◌then◌else◌, find, length, update_where,
}
use gitwise.Action.{Result, Faults}
use gitwise.Db.{Db, WebhookRow, DeliveryRow}
use gitwise.Webhook.Delivery.{
  Net, Response, Answers, Post, retry_delays, max_attempts, prepare, answered_ok, status_of,
  text_of,
}

-- a row of the query of `RetryPending`
pub record Pending : Type 0 where
  pub delivery : DeliveryRow
  pub url : String
  pub secret : String

-- `next_retry < now() AND success = FALSE AND attempts < $1`
abbrev pub is_before : ℕ → Option ℕ → Bool
is_before now none = false
is_before now (some t) = ltb t now

abbrev pub is_due : ℕ → DeliveryRow → Bool
is_due now d = is_before now d.next_retry && not d.success && ltb d.attempts max_attempts

-- the webhook that the row is joined with: it is active
abbrev pub joins : DeliveryRow → WebhookRow → Bool
joins d w = w.id == d.webhook_id && w.active

unfoldable pub pending : ℕ → List WebhookRow → List DeliveryRow → List Pending
pending now ws [] = []
pending now ws (d ∷ ds) =
    let rest = pending now ws ds in
    elim (find (joins d) ws) [
      | none ↦ rest
      | some w ↦
          if is_due now d
          then record { delivery = d; url = w.url; secret = w.secret } ∷ rest
          else rest
    ]

-- the delay at an index that is not past the end
abbrev pub delay_at : ℕ → List ℕ → ℕ
delay_at i [] = 0
delay_at i (d ∷ []) = d
delay_at i (d ∷ e ∷ ds) = elim i [ zero ↦ d | suc j ↦ delay_at j (e ∷ ds) ]

abbrev pub next_retry : Bool → ℕ → ℕ → Option ℕ
next_retry success attempts now =
    if not success && ltb attempts max_attempts
    then some (now + delay_at (attempts - 1) retry_delays)
    else none

abbrev pub retried : ℕ → ℕ → Result String Response → String → DeliveryRow → DeliveryRow
retried attempts now a body d = record d {
  response_status = status_of a;
  response_body = body;
  success = answered_ok a;
  attempts = attempts;
  next_retry = next_retry (answered_ok a) attempts now;
}

-- the UPDATE; an error of it is only logged
abbrev pub rewrite : Bool → ℕ → ℕ → ℕ → Result String Response → Option String → Db → Db
rewrite failed id attempts now a none db = db
rewrite failed id attempts now a (some body) db = if failed then db else record db {
  webhook_deliveries =
      update_where (λ d. d.id == id) (retried attempts now a body) db.webhook_deliveries;
}

-- `retryDelivery`
unfoldable pub retry_delivery : Net → Answers → Bool → ℕ → Pending → Post → Post
unfolding prepare
retry_delivery n answers failed now p s =
    let d = p.delivery in
    elim (prepare n now d.id p.url p.secret d.event_type d.payload) [
      | none ↦ s
      | some r ↦
          let a = answers (length s.sent) in
          record s {
            db = rewrite failed d.id (d.attempts + 1) now a (text_of a) s.db;
            sent = s.sent ++ r ∷ [];
          }
    ]

unfoldable pub retry_all : Net → Answers → Faults → ℕ → List Pending → Post → Post
unfolding retry_delivery
retry_all n answers fails now [] s = s
retry_all n answers fails now (p ∷ ps) s =
    retry_all n answers (λ k. fails (suc k)) now ps (retry_delivery n answers (fails 0) now p s)

-- `RetryPending`; it says false where the query fails
unfoldable pub retry_pending : Net → Answers → Faults → ℕ → Post → Bool × Post
unfolding pending retry_all
retry_pending n answers fails now s = if fails 0 then (false, s) else (
  true,
  retry_all n answers (λ k. fails (suc k)) now (pending now s.db.webhooks s.db.webhook_deliveries)
      s,
)
