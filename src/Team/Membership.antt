-- ===== src/Team/Membership.antt =====
-- What adding and removing a member or a repository does to the links of a team.
use gitwise.Prelude.{
  ℕ, String, true, not, ◌&&◌, ◌||◌, some, List, [], ◌∷◌, ◌++◌, ◌≡◌, arith, ◌==◌, Bool-cases,
  Option-cases, inl, inr,
}
use gitwise.Action.{Faults, ok}
use gitwise.Db.{Db, UserRow, TeamLink, linked}
use gitwise.Team.{OrgTeam, find_team}
use gitwise.Team.Links.{insert_link, delete_link, find_org_user, add_member}

module _ (team target t u : ℕ) where
  linked-append :
      (links : List TeamLink)
      → linked t u (links ++ record { team_id = team; target_id = target } ∷ [])
        ≡ (linked t u links || (team == t && target == u))
  linked-append [] = ground arith
  linked-append (l ∷ links) = ground (arith, linked-append links)

  pub linked-delete_link :
      (links : List TeamLink)
      → linked t u (delete_link team target links)
        ≡ (not (team == t && target == u) && linked t u links)
  linked-delete_link [] = ground arith
  linked-delete_link (l ∷ links) = ground (arith, linked-delete_link links)

linked-insert_old :
    (team target t u : ℕ) (links : List TeamLink)
    → linked team target links ≡ true
    → (team == t && target == u) ≡ true
    → linked t u links ≡ true
linked-insert_old team target t u [] h e = cc
linked-insert_old team target t u (l ∷ links) h e =
    ground (arith, linked-insert_old team target t u links)

pub linked-insert_link :
    (team target t u : ℕ) (links : List TeamLink)
    → linked t u (insert_link team target links) ≡ (linked t u links || (team == t && target == u))
linked-insert_link team target t u links = elim (Bool-cases (linked team target links)) [
  | inl old ↦ ground (arith, linked-insert_old team target t u links old)
  | inr new ↦ ground (arith, linked-append team target t u links)
]

-- A call that adds a member found the team, and the user among the members of the organization;
-- afterwards that user is in that team, and every other membership of a team is as it was.
add_member-linked :
    (fails : Faults) (org : ℕ) (name username : String) (db : Db)
    → (add_member fails org name username db).0 ≡ ok tt
    → (team : OrgTeam) × (user : UserRow) × (find_team org name db ≡ some team)
      × (find_org_user org username db ≡ some user)
      × ((t u : ℕ)
          → linked t u (add_member fails org name username db).1.org_team_members
            ≡ (linked t u db.org_team_members || (team.id == t && user.id == u)))
unfolding add_member
add_member-linked fails org name username db h = elim (Option-cases (find_team org name db)) [
  | inl e ↦ absurd (ground arith)
  | inr (team, e) ↦ elim (Option-cases (find_org_user org username db)) [
    | inl e' ↦ absurd (ground arith)
    | inr (user, e') ↦
        let after : (add_member fails org name username db).1.org_team_members
            ≡ insert_link team.id user.id db.org_team_members =
          ground arith in
        (
          team,
          user,
          e,
          e',
          λ t u. rw after (linked-insert_link team.id user.id t u db.org_team_members),
        )
  ]
]
