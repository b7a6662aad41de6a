-- ===== src/Team/Permissions.antt =====
-- The rows of teams under `Create`, `Update` and `Delete`: their permissions, and a team that was made.
use gitwise.Prelude.{
  ℕ, String, true, false, not, Option, none, some, List, [], ◌∷◌, ◌++◌, ◌≡◌, ◌⊎◌, inl, inr, refl,
  sym, subst, ◌∙◌, str_eq_refl, arith, ◌==◌, find, any, keep, update_where, Option-cases,
  find-append, All-append, All-keep, All-update_where,
}
use gitwise.Text.{trim_space}
use gitwise.Action.{Faults, no_faults, ok, err}
use gitwise.Db.{Db, TeamRow}
use gitwise.Team.{
  OrgTeam, CreateTeamRequest, is_valid_permission, default_permission, is_named, clashes, selected,
  find_team, not_found, get, create, delete,
}
use gitwise.Team.Update.{UpdateTeamRequest, trimmed, bad_permission, assign, update}
use gitwise.Team.Access.{HasValidPermissions}

-- the row that `create` adds
abbrev pub made : ℕ → ℕ → ℕ → CreateTeamRequest → TeamRow
made id now org req = record {
  id = id;
  org_id = org;
  name = trim_space req.name;
  description = req.description;
  permission = default_permission (trim_space req.permission);
  created_at = now;
  updated_at = now;
}

module _ (fails : Faults) (id now org : ℕ) (req : CreateTeamRequest) (db : Db) where
  create_cases :
      ((create fails id now org req db).1 ≡ db)
      ⊎ (((create fails id now org req db).1
            ≡ record db { org_teams = db.org_teams ++ made id now org req ∷ [] })
          × (is_valid_permission (made id now org req).permission ≡ true))
  unfolding create
  create_cases = ground arith

  create-HasValidPermissions :
      HasValidPermissions db.org_teams
      → HasValidPermissions (create fails id now org req db).1.org_teams
  create-HasValidPermissions v = elim create_cases [
    | inl e ↦ rw e v
    | inr (e, p) ↦ rw e (All-append _ db.org_teams (made id now org req ∷ []) v (p, tt))
  ]

assign_valid :
    (now : ℕ) (n d p : Option String) (t : TeamRow)
    → bad_permission p ≡ false
    → is_valid_permission t.permission ≡ true
    → is_valid_permission (assign now n d p t).permission ≡ true
assign_valid now n d none t h v = v
assign_valid now n d (some q) t h v = ground arith

module _ (fails : Faults) (now org : ℕ) (name : String) (req : UpdateTeamRequest) (db : Db) where
  update_cases :
      ((update fails now org name req db).1.org_teams ≡ db.org_teams)
      ⊎ ((id : ℕ) × ((update fails now org name req db).1.org_teams
            ≡ update_where
                (λ r. r.id == id)
                (assign now (trimmed req.name) req.description (trimmed req.permission))
                db.org_teams)
          × (bad_permission (trimmed req.permission) ≡ false))
  unfolding update get
  update_cases = elim (Option-cases (find_team org name db)) [
    | inl e ↦ inl (ground arith)
    | inr (t, e) ↦
        let either : ((update fails now org name req db).1.org_teams ≡ db.org_teams)
            ⊎ (((update fails now org name req db).1.org_teams
                  ≡ update_where (λ r. r.id == t.id)
                      (assign now (trimmed req.name) req.description (trimmed req.permission))
                      db.org_teams)
                × (bad_permission (trimmed req.permission) ≡ false)) =
          ground arith in
        elim either [ inl k ↦ inl k | inr k ↦ inr (t.id, k.0, k.1) ]
  ]

  update-HasValidPermissions :
      HasValidPermissions db.org_teams
      → HasValidPermissions (update fails now org name req db).1.org_teams
  update-HasValidPermissions v = elim update_cases [
    | inl e ↦ subst HasValidPermissions (sym e) v
    | inr (id, e, h) ↦ subst HasValidPermissions (sym e) (
        All-update_where (λ (r : TeamRow). is_valid_permission r.permission ≡ true)
          (λ r. r.id == id) (assign now (trimmed req.name) req.description (trimmed req.permission))
          db.org_teams
          (λ r _ w.
            assign_valid now (trimmed req.name) req.description (trimmed req.permission) r h w)
          v)
  ]

module _ (fails : Faults) (org : ℕ) (name : String) (db : Db) where
  delete_cases :
      ((delete fails org name db).1.org_teams ≡ db.org_teams)
      ⊎ ((delete fails org name db).1.org_teams
          ≡ keep (λ r. not (is_named org name r)) db.org_teams)
  unfolding delete
  delete_cases = ground arith

  delete-HasValidPermissions :
      HasValidPermissions db.org_teams → HasValidPermissions (delete fails org name db).1.org_teams
  delete-HasValidPermissions v = elim delete_cases [
    | inl e ↦ subst HasValidPermissions (sym e) v
    | inr e ↦ subst HasValidPermissions (sym e) (
        All-keep (λ (r : TeamRow). is_valid_permission r.permission ≡ true)
          (λ r. not (is_named org name r)) db.org_teams v)
  ]

-- a call that writes to `org_teams`
pub data Call : Type 0 where
  creates : Faults → ℕ → ℕ → ℕ → CreateTeamRequest → Call
  updates : Faults → ℕ → ℕ → String → UpdateTeamRequest → Call
  deletes : Faults → ℕ → String → Call

-- the database after a call, whatever it returns
abbrev pub step : Db → Call → Db
step db (creates fails id now org req) = (create fails id now org req db).1
step db (updates fails now org name req) = (update fails now org name req db).1
step db (deletes fails org name) = (delete fails org name db).1

pub run : Db → List Call → Db
run db [] = db
run db (c ∷ cs) = run (step db c) cs

step-HasValidPermissions :
    (db : Db) (c : Call)
    → HasValidPermissions db.org_teams
    → HasValidPermissions (step db c).org_teams
step-HasValidPermissions db (creates fails id now org req) v =
    create-HasValidPermissions fails id now org req db v
step-HasValidPermissions db (updates fails now org name req) v =
    update-HasValidPermissions fails now org name req db v
step-HasValidPermissions db (deletes fails org name) v =
    delete-HasValidPermissions fails org name db v

-- If all teams have one of the four permissions, then so they have after any calls of `Create`,
-- `Update` and `Delete`, failing ones included: what `GetUserRepoPermission` reads is never another.
run-HasValidPermissions :
    (db : Db) (cs : List Call)
    → HasValidPermissions db.org_teams
    → HasValidPermissions (run db cs).org_teams
unfolding run
run-HasValidPermissions db [] v = v
run-HasValidPermissions db (c ∷ cs) v =
    run-HasValidPermissions (step db c) cs (step-HasValidPermissions db c v)

unclashed :
    (new : TeamRow) (ts : List TeamRow)
    → any (clashes new) ts ≡ false
    → find (is_named new.org_id new.name) ts ≡ none
unclashed new [] h = refl
unclashed new (t ∷ ts) h = ground (arith, unclashed new ts)

get_found :
    (org : ℕ) (name : String) (db : Db) (t : TeamRow)
    → find (is_named org name) db.org_teams ≡ some t
    → get no_faults org name db ≡ (ok (selected db t), db)
unfolding get
get_found org name db t e = rw e refl

create_ok :
    (fails : Faults) (id now org : ℕ) (req : CreateTeamRequest) (db : Db) (team : OrgTeam)
    → (create fails id now org req db).0 ≡ ok team
    → (any (clashes (made id now org req)) db.org_teams ≡ false)
      × ((create fails id now org req db).1
          ≡ record db { org_teams = db.org_teams ++ made id now org req ∷ [] })
unfolding create
create_ok fails id now org req db team h = (ground arith, ground arith)

-- Before a `Create` that succeeds, `Get` with the trimmed name is "not found"; after it, it finds
-- the team, with the identifier, the name, the description and the permission that were given.
create-get :
    (fails : Faults) (id now org : ℕ) (req : CreateTeamRequest) (db : Db) (team : OrgTeam)
    → (create fails id now org req db).0 ≡ ok team
    → let db' = (create fails id now org req db).1 in
      (get no_faults org (trim_space req.name) db ≡ (err not_found, db))
      × (get no_faults org (trim_space req.name) db'
          ≡ (ok (selected db' (made id now org req)), db'))
unfolding get
create-get fails id now org req db team h =
    let (free, stored) = create_ok fails id now org req db team h in
    let none_before : find (is_named org (trim_space req.name)) db.org_teams ≡ none =
      unclashed (made id now org req) db.org_teams free in
    let here : find (is_named org (trim_space req.name)) (made id now org req ∷ [])
        ≡ some (made id now org req) =
      ground (arith, str_eq_refl (trim_space req.name)) in
    let after_it : find (is_named org (trim_space req.name))
          (create fails id now org req db).1.org_teams
        ≡ some (made id now org req) =
      rw stored (
        find-append (is_named org (trim_space req.name)) db.org_teams (made id now org req ∷ [])
          none_before
        ∙ here) in
    (
      rw none_before refl,
      get_found org (trim_space req.name) (create fails id now org req db).1 (made id now org req)
          after_it,
    )
