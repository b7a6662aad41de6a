-- ===== src/Tests/Notes.antt =====
-- Notifications and watchers at the sample.
use gitwise.Prelude.{◌==◌, true, false, none, some, List, [], ◌∷◌, ◌≡◌, refl, if◌then◌else◌}
use gitwise.Action.{ok, no_faults}
use gitwise.Field.{or_old}
use gitwise.Hub.{new_hub}
use gitwise.Notification.{
  Desk, UpdatePreferencesRequest, get_preferences, is_type_enabled, update_preferences, watch_repo,
  unwatch_repo, is_watching, list_repo_watchers, watcher_count,
}
use gitwise.Notification.Wanted.{
  IsMade, chosen, create-is_type_enabled, update_preferences-is_type_enabled,
}
use gitwise.Notification.Watching.{
  Edit, watch, unwatch, watched, occurrences, apply_all, apply_all-watched,
}
use gitwise.Tests.Sample.{sample}

abbrev no_mentions : UpdatePreferencesRequest
no_mentions = record {
  pr_review = none;
  pr_merged = none;
  pr_comment = none;
  issue_comment = none;
  mention = some false;
}

mentions_wanted : (is_type_enabled no_faults 1 "mention" sample).0 ≡ ok true
unfolding is_type_enabled get_preferences
mentions_wanted = refl

abbrev desk : Desk
desk = record { db = (update_preferences no_faults 5 1 no_mentions sample).1; hub = some new_hub }

create-is_type_enabled_example : IsMade (λ n. "m") 97 6 1 "mention" "t" "b" "l" desk
create-is_type_enabled_example =
    create-is_type_enabled (λ n. "m") 97 6 1 "mention" "t" "b" "l" desk
      (record { live = tt; given = tt })

update_preferences-is_type_enabled_example :
    (is_type_enabled no_faults 1 "mention"
      (update_preferences no_faults 5 1 no_mentions sample).1).0
    ≡ ok (if ◌==◌ 1 1 then or_old (chosen "mention" no_mentions) true else true)
update_preferences-is_type_enabled_example =
    update_preferences-is_type_enabled 5 1 1 "mention" no_mentions sample true mentions_wanted

-- the last edit first
abbrev edits : List Edit
edits =
    watch no_faults 1 20 ∷ unwatch no_faults 2 20 ∷ watch no_faults 1 20 ∷ watch no_faults 2 20 ∷ []

one_watches : (list_repo_watchers no_faults 20 (apply_all edits sample)).0 ≡ ok (1 ∷ [])
unfolding apply_all watch_repo unwatch_repo list_repo_watchers
one_watches = refl

apply_all-watched_example :
    ((is_watching no_faults 1 20 (apply_all edits sample)).0 ≡ ok (watched edits 1 20))
    × (occurrences 1 (1 ∷ []) ≡ (if watched edits 1 20 then 1 else 0))
    × ((watcher_count no_faults 20 (apply_all edits sample)).0 ≡ ok 1)
apply_all-watched_example = apply_all-watched edits 1 20 sample (1 ∷ []) refl one_watches
