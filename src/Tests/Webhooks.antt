-- ===== src/Tests/Webhooks.antt =====
-- Webhooks and their deliveries: a receiver that fails, one whose answers cannot be stored, and payloads.
use mathlib.Core.List.{Memᴰ}
use gitwise.Prelude.{
  ℕ, ◌+◌, ◌*◌, ◌≤◌, String, true, false, Option, none, some, List, [], ◌∷◌, ◌≡◌, refl, map, All,
}
use gitwise.Action.{ok, no_faults}
use gitwise.Db.{Db, WebhookRow, DeliveryRow}
use gitwise.Webhook.Address.{Url, Ip}
use gitwise.Webhook.Payload.{text, obj, Fields, end, field, truncate_payload, get, bool}
use gitwise.Webhook.Truncation.{IsShort, truncate_payload-IsShort}
use gitwise.Webhook.Delivery.{
  Net, Answers, Post, prepare, deliver, deliver_all, dispatch, flatten_headers,
}
use gitwise.Webhook.Retry.{pending, retry_all, retry_delivery, retry_pending}
use gitwise.Webhook.Discord.{is_discord_webhook}
use gitwise.Webhook.Attempts.{count_sent, IsKept}
use gitwise.Webhook.History.{Call, dispatches, retries, run, nothing_sent, run-IsKept}
use gitwise.Webhook.Unstored.{IsSendable, run-unstored}
use gitwise.Webhook.Safety.{Edit, creates, deletes, IsValid, apply_all, apply_all-AreValid}
use gitwise.Tests.Sample.{sample}

-- every payload is the text "{}"
abbrev net : Net
net = record {
  marshal = λ j. some "{}";
  unmarshal = λ s. some end;
  hmac_hex = λ secret payload. "ab";
  uuid_text = λ id. "u";
  rfc3339 = λ t. "t";
  can_request = λ url. true;
  jsonb = λ s. s;
}

abbrev hook : WebhookRow
hook = record {
  id = 60;
  repo_id = 20;
  url = "https://x";
  secret = "k";
  events = "push" ∷ [];
  active = true;
  created_at = 0;
  updated_at = 0;
}

abbrev hooked : Db
hooked = record sample { webhooks = hook ∷ [] }

abbrev always_500 : Answers
always_500 k = ok (record { status = 500; body = some "no"; headers = [] })

abbrev minute : ℕ
minute = 60_000_000_000

abbrev calls : List Call
calls =
    dispatches no_faults 5 20 "push" end
    ∷ retries no_faults (2 * minute)
    ∷ retries no_faults (9 * minute)
    ∷ retries no_faults (90 * minute)
    ∷ []

sent_three_times : count_sent 0 (run net always_500 (nothing_sent hooked) calls).sent ≡ 3
unfolding run dispatch deliver_all deliver prepare truncate_payload retry_pending pending retry_all
    retry_delivery is_discord_webhook flatten_headers count_sent
sent_three_times = refl

run-IsKept_example : IsKept (run net always_500 (nothing_sent hooked) calls)
run-IsKept_example =
    run-IsKept net always_500 hooked calls (λ k. refl)
      (tt, (λ k. refl, (λ k. refl, (λ k. refl, tt))))

-- an answer that is no UTF-8
abbrev garbled : Answers
garbled k = ok (record { status = 500; body = none; headers = [] })

abbrev due : DeliveryRow
due = record {
  id = 0;
  webhook_id = 60;
  event_type = "push";
  payload = "{}";
  request_headers = [];
  response_status = none;
  response_body = "";
  response_headers = none;
  success = false;
  attempts = 1;
  next_retry = some 7;
  delivered_at = 5;
}

abbrev waiting : Post
waiting = record { db = record hooked { webhook_deliveries = due ∷ [] }; sent = []; next = 1 }

due-IsSendable : IsSendable net due hook
unfolding prepare is_discord_webhook
due-IsSendable t = refl

run-unstored_example :
    ((run net garbled waiting (map (retries no_faults) (8 ∷ 9 ∷ 10 ∷ 11 ∷ []))).db ≡ waiting.db)
    × (count_sent 0 waiting.sent + 4
        ≤ count_sent 0
            (run net garbled waiting (map (retries no_faults) (8 ∷ 9 ∷ 10 ∷ 11 ∷ []))).sent)
run-unstored_example =
    run-unstored net garbled (λ k. refl) (8 ∷ 9 ∷ 10 ∷ 11 ∷ []) due hook waiting (Memᴰ.head refl)
      refl due-IsSendable (refl, (refl, (refl, (refl, tt))))

-- each text is a URL of its host, and no host an address
abbrev parse : String → Option Url
parse s = some (record { scheme = "https"; host = s; hostname = s })

abbrev parse_ip : String → Option Ip
parse_ip s = none

abbrev edits : List Edit
edits =
    creates no_faults 61 5 20
      (record { url = "https://y"; secret = ""; events = "push" ∷ []; active = none })
    ∷ deletes no_faults 20 60
    ∷ []

hook-IsValid : IsValid parse parse_ip hook
hook-IsValid = (
  (record { scheme = "https"; host = "https://x"; hostname = "https://x" }, refl, refl, refl, refl),
  (refl, tt),
)

apply_all-AreValid_example :
    All (IsValid parse parse_ip) (apply_all parse parse_ip edits hooked).webhooks
apply_all-AreValid_example = apply_all-AreValid parse parse_ip edits hooked (hook-IsValid, tt)

abbrev payload : Fields
payload = field "title" (text "t") end

truncate_payload-IsShort_example :
    (m : Fields) × (net.marshal (obj m) ≡ some (truncate_payload net.marshal payload))
    × IsShort 1_044 m
    × (get "truncated" m ≡ some (bool true))
truncate_payload-IsShort_example =
    truncate_payload-IsShort net.marshal payload (truncate_payload net.marshal payload) (λ m. refl)
      refl
