-- ===== src/Notification/Wanted.antt =====
-- Which notifications are made.
use gitwise.Prelude.{
  ℕ, String, Bool, true, false, Option, none, some, List, [], ◌∷◌, ◌++◌, ◌≡◌, refl, ap, sym, subst,
  ◌∙◌, ◌⊎◌, inl, inr, arith, ◌==◌, str_eq, find, update_where, if◌then◌else◌, Bool-cases,
}
use gitwise.Action.{Result, ok, err, no_faults}
use gitwise.Db.{Db, NotificationRow, PreferencesRow}
use gitwise.Field.{or_old}
use gitwise.Hub.{Hub, send_to_user}
use gitwise.Hub.Safety.{IsSafe}
use gitwise.Hub.Runs.{sends, step-IsSafe}
use gitwise.Notification.{
  Error, Desk, notification_skipped, UpdatePreferencesRequest, is_of, or_default,
  default_preferences, merge, put_preferences, type_enabled, notif_type_to_column, allowed,
  get_preferences, is_type_enabled, update_preferences, create,
}

-- there is no hub, or it is one that does not panic
abbrev pub HasSafe : Option Hub → Type 0
HasSafe none = Unit
HasSafe (some h) = IsSafe h

-- what becomes of the hub, if there is one: the text has been sent to the user, without a panic
abbrev pub Sent : ℕ → String → Option Hub → Option Hub → Type 0
Sent user text none after = after ≡ none
Sent user text (some h) after =
    (h' : Hub) × (send_to_user user text h ≡ some h') × (after ≡ some h') × IsSafe h'

abbrev pub note : ℕ → ℕ → ℕ → String → String → String → String → NotificationRow
note id now user kind title body link = record {
  id = id;
  user_id = user;
  kind = kind;
  title = title;
  body = body;
  link = link;
  is_read = false;
  created_at = now;
}

-- the two ways to ask for the preference of a type agree
allowed-type_enabled :
    (user : ℕ) (kind : String) (o : Option PreferencesRow)
    → allowed (notif_type_to_column kind) o ≡ type_enabled kind (or_default user o)
allowed-type_enabled user kind none = ground arith
allowed-type_enabled user kind (some p) = ground arith

module _ (message : NotificationRow → String) (id now user : ℕ)
    (kind title body link : String) where
  -- the notification is made and sent, without a panic
  abbrev pub IsStored : Desk → Type 0
  IsStored d =
      (d' : Desk) × (create message no_faults id now user kind title body link d
        ≡ (ok (note id now user kind title body link), d'))
      × (d'.db ≡ record d.db {
        notifications = d.db.notifications ++ note id now user kind title body link ∷ [];
      })
      × Sent user (message (note id now user kind title body link)) d.hub d'.hub

  -- the answer is yes and the notification is there, or it is no and nothing was done
  abbrev pub IsMade : Desk → Type 0
  IsMade d =
      ((is_type_enabled no_faults user kind d.db).0 ≡ ok true) × IsStored d
      ⊎ ((is_type_enabled no_faults user kind d.db).0 ≡ ok false)
        × (create message no_faults id now user kind title body link d
            ≡ (err notification_skipped, d))

  stored :
      (d : Desk) (hub : Option Hub)
      → d.hub ≡ hub
      → HasSafe hub
      → allowed (notif_type_to_column kind) (find (is_of user) d.db.notification_preferences) ≡ true
      → IsStored d
  unfolding create
  stored d none e safe a =
      let n = note id now user kind title body link in
      let d' : Desk = record {
        db = record d.db { notifications = d.db.notifications ++ n ∷ [] };
        hub = none;
      } in
      (d', ground arith, refl, rw e refl)
  stored d (some h) e safe a =
      let n = note id now user kind title body link in
      let (h', f, safe') = step-IsSafe h (sends user (message n)) safe in
      let d' : Desk = record {
        db = record d.db { notifications = d.db.notifications ++ n ∷ [] };
        hub = some h';
      } in
      (d', ground arith, refl, rw e (h', f, refl, safe'))

  -- `Create` makes a notification exactly if `IsTypeEnabled` says that its user wants the type: then the
  -- row is stored, and if there is a hub, it is left as `SendToUser` leaves it, called with this user and
  -- the text of the notification, which does not panic, and it is as safe as before. Else the answer is that it
  -- was skipped, and nothing was written or sent. This is without failures of the driver.
  pub create-is_type_enabled : (d : Desk) → HasSafe d.hub → IsMade d
  unfolding create is_type_enabled get_preferences
  create-is_type_enabled d safe =
      let found = find (is_of user) d.db.notification_preferences in
      let same = allowed-type_enabled user kind found in
      elim (Bool-cases (allowed (notif_type_to_column kind) found)) [
        | inl e ↦ inl (ap ok (sym same ∙ e), stored d d.hub refl safe e)
        | inr e ↦ inr (
          ap ok (sym same ∙ e),
          let q : create message no_faults id now user kind title body link d
                  ≡ (err notification_skipped, d) =
                ground arith in
              q,
        )
      ]

-- the field of an update that is about a type
abbrev pub chosen : String → UpdatePreferencesRequest → Option Bool
chosen kind req =
    if str_eq kind "pr_review"
    then req.pr_review
    else if str_eq kind "pr_merged"
    then req.pr_merged
    else if str_eq kind "pr_comment"
    then req.pr_comment
    else if str_eq kind "issue_comment"
    then req.issue_comment
    else if str_eq kind "mention"
    then req.mention
    else none

find-update :
    (now user other : ℕ) (req : UpdatePreferencesRequest) (ps : List PreferencesRow)
    → find (is_of other) (update_where (is_of user) (merge now req) ps) ≡ (
        if other == user
        then elim (find (is_of user) ps) [ none ↦ none | some p ↦ some (merge now req p) ]
        else find (is_of other) ps)
find-update now user other req [] = ground arith
find-update now user other req (p ∷ ps) = ground (arith, find-update now user other req ps)

find-add :
    (user other : ℕ) (new : PreferencesRow) (ps : List PreferencesRow)
    → new.user_id ≡ user
    → find (is_of user) ps ≡ none
    → find (is_of other) (ps ++ new ∷ [])
      ≡ (if other == user then some new else find (is_of other) ps)
find-add user other new [] e f = ground arith
find-add user other new (p ∷ ps) e f = ground (arith, find-add user other new ps e)

type_enabled-merge :
    (kind : String) (now : ℕ) (req : UpdatePreferencesRequest) (p : PreferencesRow)
    → type_enabled kind (merge now req p) ≡ or_old (chosen kind req) (type_enabled kind p)
type_enabled-merge kind now req p = ground arith

find-put_preferences :
    (now user other : ℕ) (req : UpdatePreferencesRequest) (db : Db) (o : Option PreferencesRow)
    → find (is_of user) db.notification_preferences ≡ o
    → or_default other
        (find (is_of other) (put_preferences now user req o db).notification_preferences)
      ≡ (if other == user
          then merge now req (or_default user o)
          else or_default other (find (is_of other) db.notification_preferences))
find-put_preferences now user other req db none e = ground (
  arith,
  find-add user other (merge now req (default_preferences user)) db.notification_preferences refl e,
)
find-put_preferences now user other req db (some p) e =
    ground (arith, find-update now user other req db.notification_preferences)

-- the answer of `IsTypeEnabled`, if no statement fails
abbrev preferred : ℕ → String → Db → Result Error Bool
preferred user kind db =
    ok (type_enabled kind (or_default user (find (is_of user) db.notification_preferences)))

-- After `UpdatePreferences`, `IsTypeEnabled` gives for its user what the request says of the type, and
-- what it gave before where the request says nothing of it or the type is unknown; for every other user
-- it gives what it gave before. This is without failures of the driver.
pub update_preferences-is_type_enabled :
    (now user other : ℕ) (kind : String) (req : UpdatePreferencesRequest) (db : Db) (before : Bool)
    → (is_type_enabled no_faults other kind db).0 ≡ ok before
    → (is_type_enabled no_faults other kind (update_preferences no_faults now user req db).1).0
      ≡ ok (if other == user then or_old (chosen kind req) before else before)
unfolding is_type_enabled get_preferences update_preferences
update_preferences-is_type_enabled now user other kind req db before h =
    let o = find (is_of user) db.notification_preferences in
    ap (λ (p : PreferencesRow). ok (type_enabled kind p))
      (find-put_preferences now user other req db o refl)
    ∙ elim (Bool-cases (other == user)) [
      | inl e ↦
          let same : other ≡ user = ground arith in
          let held = subst (λ (n : ℕ). preferred n kind db ≡ ok before) same h in
          let was : type_enabled kind (or_default user o) ≡ before = cc in
          rw e (
            ap ok (
              type_enabled-merge kind now req (or_default user o)
              ∙ ap (or_old (chosen kind req)) was))
      | inr e ↦ rw e h
    ]
