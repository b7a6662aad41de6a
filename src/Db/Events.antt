-- ===== src/Db/Events.antt =====
-- The rows of the tables of webhooks, SSH keys, notifications and agent tasks (migrations/001, 002, 006
-- and 014).
use gitwise.Prelude.{ℕ, String, Bool, Option, List}

pub record WebhookRow : Type 0 where
  pub id : ℕ
  pub repo_id : ℕ
  pub url : String
  pub secret : String
  pub events : List String
  pub active : Bool
  pub created_at : ℕ
  pub updated_at : ℕ

-- the headers of a request or an answer, flattened
abbrev pub Headers : Type 0
Headers = List (String × String)

pub record DeliveryRow : Type 0 where
  pub id : ℕ
  pub webhook_id : ℕ
  pub event_type : String
  pub payload : String
  pub request_headers : Headers
  pub response_status : Option ℕ
  pub response_body : String
  pub response_headers : Option Headers
  pub success : Bool
  pub attempts : ℕ
  pub next_retry : Option ℕ
  pub delivered_at : ℕ

pub record SshKeyRow : Type 0 where
  pub id : ℕ
  pub user_id : ℕ
  pub name : String
  pub fingerprint : String
  pub public_key : String
  pub created_at : ℕ

pub record NotificationRow : Type 0 where
  pub id : ℕ
  pub user_id : ℕ
  pub kind : String
  pub title : String
  pub body : String
  pub link : String
  pub is_read : Bool
  pub created_at : ℕ

pub record PreferencesRow : Type 0 where
  pub user_id : ℕ
  pub pr_review : Bool
  pub pr_merged : Bool
  pub pr_comment : Bool
  pub issue_comment : Bool
  pub mention : Bool
  pub updated_at : ℕ

pub record WatcherRow : Type 0 where
  pub user_id : ℕ
  pub repo_id : ℕ
