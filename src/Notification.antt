-- ===== src/Notification.antt =====
-- internal/services/notification/service.go: the notifications of the users, which of them a user
-- wants, and who watches a repository.
pub mod Wanted
pub mod Watching
use gitwise.Prelude.{
  ℕ, zero, suc, ℤ, pos, negsuc, String, Bool, true, false, not, ◌&&◌, ◌||◌, Option, none, some,
  List, [], ◌∷◌, ◌++◌, ltb, leb, ◌==◌, if◌then◌else◌, str_eq, find, any, keep, update_where, take,
  length, map,
}
use gitwise.Action.{
  Action, Result, ok, err, Faults, pure, raise, gets, or_raise, modify, raise_if, ◌>>=◌, ◌>>◌,
}
use gitwise.Db.{Db, NotificationRow, PreferencesRow, WatcherRow}
use gitwise.Db.Order.{order_by}
use gitwise.Field.{or_old}
use gitwise.Hub.{Hub, send_to_user}

-- `panicked` is the panic of a call of the hub
pub data Error : Type 0 where
  not_found notification_skipped internal panicked : Error

-- the defaults of a user who has no row
abbrev pub default_preferences : ℕ → PreferencesRow
default_preferences user = record {
  user_id = user;
  pr_review = true;
  pr_merged = true;
  pr_comment = true;
  issue_comment = true;
  mention = true;
  updated_at = 0;
}

abbrev pub is_of : ℕ → PreferencesRow → Bool
is_of user p = p.user_id == user

abbrev pub or_default : ℕ → Option PreferencesRow → PreferencesRow
or_default user none = default_preferences user
or_default user (some p) = p

unfoldable pub get_preferences : Faults → ℕ → Action Db Error PreferencesRow
get_preferences fails user = do
  raise_if (fails 0) internal
  gets (λ db. or_default user (find (is_of user) db.notification_preferences))

abbrev pub type_enabled : String → PreferencesRow → Bool
type_enabled kind p =
    if str_eq kind "pr_review"
    then p.pr_review
    else if str_eq kind "pr_merged"
    then p.pr_merged
    else if str_eq kind "pr_comment"
    then p.pr_comment
    else if str_eq kind "issue_comment"
    then p.issue_comment
    else if str_eq kind "mention"
    then p.mention
    else true

unfoldable pub is_type_enabled : Faults → ℕ → String → Action Db Error Bool
unfolding get_preferences
is_type_enabled fails user kind = do
  prefs ← get_preferences fails user
  pure (type_enabled kind prefs)

pub record UpdatePreferencesRequest : Type 0 where
  pub pr_review : Option Bool
  pub pr_merged : Option Bool
  pub pr_comment : Option Bool
  pub issue_comment : Option Bool
  pub mention : Option Bool

-- `COALESCE` of each column with the row's, or with the default's
abbrev pub merge : ℕ → UpdatePreferencesRequest → PreferencesRow → PreferencesRow
merge now req p = record p {
  pr_review = or_old req.pr_review p.pr_review;
  pr_merged = or_old req.pr_merged p.pr_merged;
  pr_comment = or_old req.pr_comment p.pr_comment;
  issue_comment = or_old req.issue_comment p.issue_comment;
  mention = or_old req.mention p.mention;
  updated_at = now;
}

-- the upsert
abbrev pub put_preferences : ℕ → ℕ → UpdatePreferencesRequest → Option PreferencesRow → Db → Db
put_preferences now user req none db = record db {
  notification_preferences =
      db.notification_preferences ++ merge now req (default_preferences user) ∷ [];
}
put_preferences now user req (some p) db = record db {
  notification_preferences = update_where (is_of user) (merge now req) db.notification_preferences;
}

unfoldable pub update_preferences :
    Faults → ℕ → ℕ → UpdatePreferencesRequest → Action Db Error PreferencesRow
update_preferences fails now user req = do
  raise_if (fails 0) internal
  found ← gets (λ db. find (is_of user) db.notification_preferences)
  modify (put_preferences now user req found)
  pure (merge now req (or_default user found))

abbrev pub watches : ℕ → ℕ → WatcherRow → Bool
watches user repo w = w.user_id == user && w.repo_id == repo

-- `ON CONFLICT DO NOTHING`
unfoldable pub watch_repo : Faults → ℕ → ℕ → Action Db Error (Unit {0})
watch_repo fails user repo = do
  raise_if (fails 0) internal
  modify λ db. record db {
    repo_watchers =
        if any (watches user repo) db.repo_watchers
        then db.repo_watchers
        else db.repo_watchers ++ record { user_id = user; repo_id = repo } ∷ [];
  }

unfoldable pub unwatch_repo : Faults → ℕ → ℕ → Action Db Error (Unit {0})
unwatch_repo fails user repo = do
  raise_if (fails 0) internal
  modify λ db. record db { repo_watchers = keep (λ w. not (watches user repo w)) db.repo_watchers }

unfoldable pub is_watching : Faults → ℕ → ℕ → Action Db Error Bool
is_watching fails user repo = do
  raise_if (fails 0) internal
  gets (λ db. any (watches user repo) db.repo_watchers)

unfoldable pub list_repo_watchers : Faults → ℕ → Action Db Error (List ℕ)
list_repo_watchers fails repo = do
  raise_if (fails 0) internal
  gets (λ db. map (λ (w : WatcherRow). w.user_id) (keep (λ w. w.repo_id == repo) db.repo_watchers))

unfoldable pub watcher_count : Faults → ℕ → Action Db Error ℕ
watcher_count fails repo = do
  raise_if (fails 0) internal
  gets (λ db. length (keep (λ w. w.repo_id == repo) db.repo_watchers))

-- the column of the preferences that a type asks for; none is the literal TRUE
abbrev pub notif_type_to_column : String → Option (PreferencesRow → Bool)
notif_type_to_column kind =
    if str_eq kind "pr_review"
    then some (λ p. p.pr_review)
    else if str_eq kind "pr_merged"
    then some (λ p. p.pr_merged)
    else if str_eq kind "pr_comment"
    then some (λ p. p.pr_comment)
    else if str_eq kind "issue_comment"
    then some (λ p. p.issue_comment)
    else if str_eq kind "mention"
    then some (λ p. p.mention)
    else none

abbrev pub column_at : Option (PreferencesRow → Bool) → PreferencesRow → Bool
column_at none p = true
column_at (some f) p = f p

-- `COALESCE((SELECT enabled FROM pref), TRUE)`
abbrev pub allowed : Option (PreferencesRow → Bool) → Option PreferencesRow → Bool
allowed column none = true
allowed column (some p) = column_at column p

-- the database, and the hub if there is one
pub record Desk : Type 0 where
  pub db : Db
  pub hub : Option Hub

abbrev pub notify : (NotificationRow → String) → NotificationRow → Action Desk Error NotificationRow
notify message n d = elim d.hub [
  | none ↦ (ok n, d)
  | some h ↦ elim (send_to_user n.user_id (message n) h) [
    | none ↦ (err panicked, d)
    | some h' ↦ (ok n, record d { hub = some h' })
  ]
]

-- `message` is the JSON text that goes to the hub; the foreign key of the user is part of `fails`
unfoldable pub create :
    (NotificationRow → String)
    → Faults
    → ℕ
    → ℕ
    → ℕ
    → String
    → String
    → String
    → String
    → Action Desk Error NotificationRow
create message fails id now user kind title body link = do
  let n : NotificationRow = record {
    id = id;
    user_id = user;
    kind = kind;
    title = title;
    body = body;
    link = link;
    is_read = false;
    created_at = now;
  }
  let column = notif_type_to_column kind
  raise_if (fails 0) internal
  enabled ← gets (λ d. allowed column (find (is_of user) d.db.notification_preferences))
  raise_if (not enabled) notification_skipped
  modify (λ d. record d { db = record d.db { notifications = d.db.notifications ++ n ∷ [] } })
  notify message n

abbrev pub page_size : ℤ → ℕ
page_size (negsuc n) = 30
page_size (pos n) = if n == 0 || ltb 100 n then 30 else n

unfoldable pub list_for_user : Faults → ℕ → Bool → ℤ → Action Db Error (List NotificationRow)
list_for_user fails user unread_only limit = do
  raise_if (fails 0) internal
  gets λ db. take (page_size limit) (
      order_by (λ a b. leb b.created_at a.created_at)
        (keep (λ n. n.user_id == user && (not unread_only || not n.is_read)) db.notifications))

abbrev pub is_own : ℕ → ℕ → NotificationRow → Bool
is_own id user n = n.id == id && n.user_id == user

abbrev pub as_read : NotificationRow → NotificationRow
as_read n = record n { is_read = true }

-- where no row was written, a second statement asks whether another user has it; both ways the error
-- is the same
abbrev pub not_own : Faults → Action Db Error (Unit {0})
not_own fails = raise_if (fails 1) internal >> raise not_found

unfoldable pub mark_read : Faults → ℕ → ℕ → Action Db Error (Unit {0})
mark_read fails id user = do
  raise_if (fails 0) internal
  affected ← gets (λ db. any (is_own id user) db.notifications)
  modify
      (λ db. record db { notifications = update_where (is_own id user) as_read db.notifications })
  if affected then pure tt else not_own fails

unfoldable pub mark_all_read : Faults → ℕ → Action Db Error (Unit {0})
mark_all_read fails user = do
  raise_if (fails 0) internal
  modify λ db. record db {
    notifications = update_where (λ n. n.user_id == user && not n.is_read) as_read db.notifications;
  }

unfoldable pub get_by_id : Faults → ℕ → ℕ → Action Db Error NotificationRow
get_by_id fails id user = do
  raise_if (fails 0) internal
  found ← gets (λ db. find (is_own id user) db.notifications)
  or_raise found not_found
