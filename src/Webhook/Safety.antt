-- ===== src/Webhook/Safety.antt =====
-- What the stored webhooks are, over every history of changes.
use gitwise.Prelude.{
  ℕ, String, true, false, not, ◌||◌, Option, none, some, List, [], ◌∷◌, ◌≡◌, sym, subst, inl, inr,
  arith, ◌==◌, str_eq, find, any, update_where, All, All-append, All-keep, All-update_where,
  Option-cases, Bool-cases,
}
use gitwise.Text.{trim_space}
use gitwise.Action.{Faults}
use gitwise.Db.{Db, WebhookRow}
use gitwise.Field.{or_old}
use gitwise.Webhook.Address.{Ip, Url, is_private_literal, validate_url}
use gitwise.Webhook.{
  CreateWebhookRequest, UpdateWebhookRequest, valid_event_types, validate_event_types, check_events,
  check_url, trimmed_or, assign, is_webhook, create, update, delete,
}

-- a change of the webhooks through the service
pub data Edit : Type 0 where
  creates : Faults → ℕ → ℕ → ℕ → CreateWebhookRequest → Edit
  updates : Faults → ℕ → ℕ → ℕ → UpdateWebhookRequest → Edit
  deletes : Faults → ℕ → ℕ → Edit

abbrev pub IsEvent : String → Type 0
IsEvent e = any (str_eq e) valid_event_types ≡ true

validate_event_types-All : (es : List String) → validate_event_types es ≡ none → All IsEvent es
unfolding validate_event_types
validate_event_types-All [] h = tt
validate_event_types-All (e ∷ es) h = elim (Bool-cases (any (str_eq e) valid_event_types)) [
  | inl here ↦ (here, validate_event_types-All es (rw here at h))
  | inr no_event ↦ absurd (let e : some e ≡ none = rw no_event at h in cc)
]

module _ (parse : String → Option Url) (parse_ip : String → Option Ip) where
  -- an HTTP or HTTPS URL with a host that is no private address
  abbrev pub IsPublicUrl : String → Type 0
  IsPublicUrl raw =
      (u : Url) × (parse raw ≡ some u)
      × ((str_eq u.scheme "http" || str_eq u.scheme "https") ≡ true)
      × (str_eq u.host "" ≡ false)
      × (is_private_literal (parse_ip u.hostname) ≡ false)

  abbrev pub IsValid : WebhookRow → Type 0
  IsValid w = IsPublicUrl w.url × All IsEvent w.events

  validate_url-IsPublicUrl :
      (raw : String) → validate_url parse parse_ip raw ≡ none → IsPublicUrl raw
  unfolding validate_url
  validate_url-IsPublicUrl raw h = elim (Option-cases (parse raw)) [
    | inl e ↦ absurd (ground arith)
    | inr (u, e) ↦ (u, e, ground arith, ground arith, ground arith)
  ]

  abbrev pub apply : Edit → Db → Db
  apply (creates fails id now repo_id req) db =
      (create parse parse_ip fails id now repo_id req db).1
  apply (updates fails now repo_id id req) db =
      (update parse parse_ip fails now repo_id id req db).1
  apply (deletes fails repo_id id) db = (delete fails repo_id id db).1

  pub apply_all : List Edit → Db → Db
  apply_all [] db = db
  apply_all (e ∷ es) db = apply_all es (apply e db)

  create-AreValid :
      (fails : Faults) (id now repo_id : ℕ) (req : CreateWebhookRequest) (db : Db)
      → All IsValid db.webhooks
      → All IsValid (create parse parse_ip fails id now repo_id req db).1.webhooks
  unfolding create
  create-AreValid fails id now repo_id req db k =
      elim (Option-cases (validate_url parse parse_ip (trim_space req.url))) [
        | inr (x, e) ↦ rw (e, create) k
        | inl e ↦ elim (Option-cases (validate_event_types req.events)) [
          | inr (x, f) ↦ rw (e, f, create) k
          | inl f ↦
              elim (Bool-cases (fails 0 || any (λ (v : WebhookRow). v.id == id) db.webhooks)) [
                | inl g ↦ rw (e, f, g, create) k
                | inr g ↦
                    rw (e, f, g, create)
                      (All-append IsValid db.webhooks _ k (
                        (
                          validate_url-IsPublicUrl (trim_space req.url) e,
                          validate_event_types-All req.events f,
                        ),
                        tt,
                      ))
              ]
        ]
      ]

  assign-IsValid :
      (now : ℕ) (req : UpdateWebhookRequest) (w : WebhookRow)
      → check_url parse parse_ip req.url ≡ none
      → check_events req.events ≡ none
      → IsValid w
      → IsValid (assign parse parse_ip now req w)
  assign-IsValid now req w e f k = (url_valid req.url e, events_valid req.events f)
    where
      url_valid :
          (o : Option String)
          → check_url parse parse_ip o ≡ none
          → IsPublicUrl (trimmed_or parse parse_ip o w.url)
      url_valid none h = k.0
      url_valid (some u) h = validate_url-IsPublicUrl (trim_space u) h

      events_valid :
          (o : Option (List String)) → check_events o ≡ none → All IsEvent (or_old o w.events)
      events_valid none h = k.1
      events_valid (some es) h = validate_event_types-All es h

  update-AreValid :
      (fails : Faults) (now repo_id id : ℕ) (req : UpdateWebhookRequest) (db : Db)
      → All IsValid db.webhooks
      → All IsValid (update parse parse_ip fails now repo_id id req db).1.webhooks
  unfolding update
  update-AreValid fails now repo_id id req db k =
      elim (Option-cases (check_url parse parse_ip req.url)) [
        | inr (x, e) ↦ rw (e, update) k
        | inl e ↦ elim (Option-cases (check_events req.events)) [
          | inr (x, f) ↦ rw (e, f, update) k
          | inl f ↦ elim (Bool-cases (fails 0)) [
            | inl g ↦ rw (e, f, g, update) k
            | inr g ↦ elim (Option-cases (find (is_webhook repo_id id) db.webhooks)) [
              | inl h ↦
                  let q : (update parse parse_ip fails now repo_id id req db).1 ≡ db =
                    ground arith in
                  subst (λ (d : Db). All IsValid d.webhooks) (sym q) k
              | inr (w, h) ↦
                  let q : (update parse parse_ip fails now repo_id id req db).1.webhooks
                      ≡ update_where (is_webhook repo_id id) (assign parse parse_ip now req)
                          db.webhooks =
                    ground arith in
                  subst (All IsValid) (sym q) (
                    All-update_where IsValid (is_webhook repo_id id) (assign parse parse_ip now req)
                      db.webhooks (λ v b. assign-IsValid now req v e f) k)
            ]
          ]
        ]
      ]

  delete-AreValid :
      (fails : Faults) (repo_id id : ℕ) (db : Db)
      → All IsValid db.webhooks
      → All IsValid (delete fails repo_id id db).1.webhooks
  unfolding delete
  delete-AreValid fails repo_id id db k =
      ground (arith, All-keep IsValid (λ w. not (is_webhook repo_id id w)) db.webhooks k)

  apply-AreValid :
      (e : Edit) (db : Db) → All IsValid db.webhooks → All IsValid (apply e db).webhooks
  apply-AreValid (creates fails id now repo_id req) db k =
      create-AreValid fails id now repo_id req db k
  apply-AreValid (updates fails now repo_id id req) db k =
      update-AreValid fails now repo_id id req db k
  apply-AreValid (deletes fails repo_id id) db k = delete-AreValid fails repo_id id db k

  -- After any sequence of `Create`, `Update` and `Delete` on webhooks that are valid, all webhooks are
  -- valid, whether the calls succeed or fail: the URL is one that Go parses, of HTTP or HTTPS, with a
  -- host that is not a private address written out, and the events are of the known types.
  pub apply_all-AreValid :
      (es : List Edit) (db : Db) → All IsValid db.webhooks → All IsValid (apply_all es db).webhooks
  unfolding apply_all
  apply_all-AreValid [] db k = k
  apply_all-AreValid (e ∷ es) db k = apply_all-AreValid es (apply e db) (apply-AreValid e db k)
