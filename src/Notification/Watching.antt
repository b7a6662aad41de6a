-- ===== src/Notification/Watching.antt =====
-- The watchers of a repository are a set.
use gitwise.Prelude.{
  ℕ, suc, Bool, true, false, not, ◌&&◌, List, [], ◌∷◌, ◌++◌, ◌≡◌, refl, ap, sym, ◌∙◌, inl, inr,
  arith, ◌==◌, any, keep, length, map, if◌then◌else◌, Bool-cases,
}
use gitwise.Action.{Faults, ok, no_faults}
use gitwise.Db.{Db, WatcherRow}
use gitwise.Notification.{
  watches, watch_repo, unwatch_repo, is_watching, list_repo_watchers, watcher_count,
}

pub data Edit : Type 0 where
  watch unwatch : Faults → ℕ → ℕ → Edit

abbrev pub apply : Edit → Db → Db
apply (watch fails user repo) db = (watch_repo fails user repo db).1
apply (unwatch fails user repo) db = (unwatch_repo fails user repo db).1

-- the last edit first
unfoldable pub apply_all : List Edit → Db → Db
apply_all [] db = db
apply_all (e ∷ es) db = apply e (apply_all es db)

-- What the edits, the last one first, make of nobody watching: the last one on a user and a repository
-- that did not fail counts.
pub watched : List Edit → ℕ → ℕ → Bool
watched [] user repo = false
watched (watch fails u r ∷ es) user repo =
    let before = watched es user repo in
    if not (fails 0) && (u == user && r == repo) then true else before
watched (unwatch fails u r ∷ es) user repo =
    let before = watched es user repo in
    if not (fails 0) && (u == user && r == repo) then false else before

-- how often a number is in a list
pub occurrences : ℕ → List ℕ → ℕ
occurrences n [] = 0
occurrences n (m ∷ ms) = let rest = occurrences n ms in if m == n then suc rest else rest

-- how many rows there are of a user and a repository
rows_of : ℕ → ℕ → List WatcherRow → ℕ
rows_of user repo [] = 0
rows_of user repo (w ∷ ws) =
    let rest = rows_of user repo ws in if watches user repo w then suc rest else rest

rows_of-append :
    (user repo u r : ℕ) (ws : List WatcherRow)
    → rows_of user repo (ws ++ record { user_id = u; repo_id = r } ∷ [])
      ≡ (if u == user && r == repo then suc (rows_of user repo ws) else rows_of user repo ws)
unfolding rows_of
rows_of-append user repo u r [] = ground arith
rows_of-append user repo u r (w ∷ ws) = ground (arith, rows_of-append user repo u r ws)

rows_of-keep :
    (user repo u r : ℕ) (ws : List WatcherRow)
    → rows_of user repo (keep (λ w. not (watches u r w)) ws)
      ≡ (if u == user && r == repo then 0 else rows_of user repo ws)
unfolding rows_of
rows_of-keep user repo u r [] = ground arith
rows_of-keep user repo u r (w ∷ ws) = ground (arith, rows_of-keep user repo u r ws)

any-watches :
    (user repo : ℕ) (ws : List WatcherRow)
    → any (watches user repo) ws ≡ not (rows_of user repo ws == 0)
unfolding rows_of
any-watches user repo [] = refl
any-watches user repo (w ∷ ws) = ground (arith, any-watches user repo ws)

occurrences-keep :
    (user repo : ℕ) (ws : List WatcherRow)
    → occurrences user (map (λ (w : WatcherRow). w.user_id) (keep (λ w. w.repo_id == repo) ws))
      ≡ rows_of user repo ws
unfolding rows_of occurrences
occurrences-keep user repo [] = refl
occurrences-keep user repo (w ∷ ws) = ground (arith, occurrences-keep user repo ws)

length-map : (ws : List WatcherRow) → length (map (λ (w : WatcherRow). w.user_id) ws) ≡ length ws
length-map [] = refl
length-map (w ∷ ws) = ap suc (length-map ws)

abbrev one_if : Bool → ℕ
one_if b = if b then 1 else 0

rows_of-watched :
    (es : List Edit) (user repo : ℕ) (db : Db)
    → db.repo_watchers ≡ []
    → rows_of user repo (apply_all es db).repo_watchers ≡ one_if (watched es user repo)
unfolding apply_all watched watch_repo unwatch_repo rows_of
rows_of-watched [] user repo db h = ap (rows_of user repo) h
rows_of-watched (watch fails u r ∷ es) user repo db h =
    let ws = (apply_all es db).repo_watchers in
    let ih = rows_of-watched es user repo db h in
    elim (Bool-cases (u == user && r == repo)) [
      | inl e ↦
          let a : u ≡ user = ground arith in
          let b : r ≡ repo = ground arith in
          let own : any (watches u r) ws ≡ not (rows_of user repo ws == 0) =
            ap (λ (x : ℕ). any (watches x r) ws) a
            ∙ ap (λ (x : ℕ). any (watches user x) ws) b
            ∙ any-watches user repo ws in
          ground (arith, rows_of-append user repo u r ws)
      | inr e ↦ ground (arith, rows_of-append user repo u r ws)
    ]
rows_of-watched (unwatch fails u r ∷ es) user repo db h = ground (
  arith,
  rows_of-keep user repo u r (apply_all es db).repo_watchers,
  rows_of-watched es user repo db h,
)

-- After any sequence of `WatchRepo` and `UnwatchRepo` on an empty table, of which any may fail, a user
-- watches a repository if the last of them on the two that did not fail was to watch it: `IsWatching`
-- says so, `ListRepoWatchers` lists the user once, and else not at all, and `WatcherCount` is the length
-- of this list. This is if no statement of the three questions fails.
pub apply_all-watched :
    (es : List Edit) (user repo : ℕ) (db : Db) (listed : List ℕ)
    → db.repo_watchers ≡ []
    → (list_repo_watchers no_faults repo (apply_all es db)).0 ≡ ok listed
    → ((is_watching no_faults user repo (apply_all es db)).0 ≡ ok (watched es user repo))
      × (occurrences user listed ≡ (if watched es user repo then 1 else 0))
      × ((watcher_count no_faults repo (apply_all es db)).0 ≡ ok (length listed))
unfolding is_watching list_repo_watchers watcher_count
apply_all-watched es user repo db listed h e =
    let ws = (apply_all es db).repo_watchers in
    let n = rows_of-watched es user repo db h in
    let all = map (λ (w : WatcherRow). w.user_id) (keep (λ w. w.repo_id == repo) ws) in
    let same : all ≡ listed = cc in
    (
      ap ok (
          any-watches user repo ws
          ∙ (let q : not (rows_of user repo ws == 0) ≡ watched es user repo = ground arith in q)),
      ap (occurrences user) (sym same) ∙ (occurrences-keep user repo ws ∙ n),
      ap ok (sym (length-map (keep (λ w. w.repo_id == repo) ws)) ∙ ap length same),
    )
