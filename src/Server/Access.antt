-- ===== src/Server/Access.antt =====
-- Whom the access checks let through, and which pushes the pre-receive check stops.
use gitwise.Prelude.{
  String, Bool, true, false, some, [], ◌∷◌, ◌≡◌, ◌≢◌, refl, sym, subst, ◌⊎◌, inl, inr, arith,
  str_eq_iff, find, any, Option-cases, Bool-cases,
}
use gitwise.Action.{Faults, after, Result, ok, err}
use gitwise.Db.{Db, UserRow, RepoRow, CollaboratorRow, is_membership}
use gitwise.Git.{validate_path}
use gitwise.Team.Permission.{get_user_repo_permission}
use gitwise.Protection.Check.{IsVerdict, check-IsVerdict}
use gitwise.Server.{
  Folding, get_by_username, get_by_owner_and_name, find_repo, is_collaborator, can_write,
  repo_allows, user_allows, team_allows, check_ssh_access, check_http_read_access,
  check_branch_protection,
}

-- the right to write to a repository: a role as a collaborator, or what the teams grant
abbrev pub MayWrite : Faults → UserRow → RepoRow → Db → Type 0
MayWrite fails u r db =
    ((c : CollaboratorRow) × (find (is_collaborator r.id u.id) db.repo_collaborators ≡ some c)
      × (can_write c.role ≡ true))
    ⊎ ((p : String) × ((get_user_repo_permission fails u.id r.id db).0 ≡ ok p)
        × (can_write p ≡ true))

by_team :
    {E : Type 0} (m r : Result E String)
    → m ≡ r
    → team_allows "git-receive-pack" r ≡ true
    → (p : String) × (m ≡ ok p) × (can_write p ≡ true)
by_team m (err e) s h = cc
by_team m (ok p) s h = (p, s, ground arith)

module _ (fold : Folding) (fails : Faults) (username owner name : String) (db : Db) where
  repo_allows-MayWrite :
      (u : UserRow) (r : RepoRow)
      → repo_allows (after 3 fails) u "git-receive-pack" db (some r) ≡ true
      → MayWrite (after 4 fails) u r db
  repo_allows-MayWrite u r h =
      let m = (get_user_repo_permission (after 4 fails) u.id r.id db).0 in
      elim (Option-cases (find (is_collaborator r.id u.id) db.repo_collaborators)) [
        | inl e ↦ inr (by_team m m refl (ground arith))
        | inr (c, e) ↦ elim (Bool-cases (can_write c.role)) [
          | inl w ↦ inl (c, e, w)
          | inr w ↦ inr (by_team m m refl (ground arith))
        ]
      ]

  abbrev pub Through : Type 0
  Through =
      (u : UserRow) × (r : RepoRow) × (get_by_username fold fails username db ≡ some u)
      × (get_by_owner_and_name fold (after 1 fails) owner name (some u.id) db ≡ some r)
      × MayWrite (after 4 fails) u r db

  user_through :
      user_allows fold
          (after 1 fails)
          owner
          name
          "git-receive-pack"
          db
          (get_by_username fold fails username db)
        ≡ true
      → Through
  user_through h = elim (Option-cases (get_by_username fold fails username db)) [
    | inl e ↦ absurd (ground arith)
    | inr (u, e) ↦
        elim (Option-cases (get_by_owner_and_name fold (after 1 fails) owner name (some u.id) db)) [
          | inl f ↦ absurd (ground arith)
          | inr (r, f) ↦ (u, r, e, f, repo_allows-MayWrite u r (ground arith))
        ]
  ]

  -- A push over SSH that `checkSSHAccess` lets through has an owner and a name that are safe parts of
  -- a path, and is by the owner or by a user who may write to a repository found under that name.
  pub check_ssh_access-MayWrite :
      check_ssh_access fold fails username owner name "git-receive-pack" db ≡ true
      → (validate_path (owner ∷ name ∷ []) ≡ true)
        × ((fold.equal_fold username owner ≡ true) ⊎ Through)
  unfolding check_ssh_access
  check_ssh_access-MayWrite h =
      let safe : validate_path (owner ∷ name ∷ []) ≡ true = ground arith in
      elim (Bool-cases (fold.equal_fold username owner)) [
        | inl e ↦ (safe, inl e)
        | inr e ↦ (safe, inr (user_through (ground arith)))
      ]

  -- A private repository is closed over SSH to a user who neither owns it nor belongs to the
  -- organization that does, even to one with a role among its collaborators or in a team that has it.
  check_ssh_access_ignores_collaborators :
      (u : UserRow) (r : RepoRow) (service : String)
      → fold.equal_fold username owner ≡ false
      → get_by_username fold fails username db ≡ some u
      → find_repo fold.lower (fold.to_lower owner) name db ≡ some r
      → r.visibility ≡ "private"
      → u.id ≢ r.owner_id
      → any (is_membership r.owner_id u.id) db.org_members ≡ false
      → check_ssh_access fold fails username owner name service db ≡ false
  unfolding check_ssh_access get_by_owner_and_name
  check_ssh_access_ignores_collaborators u r service f e g v n m =
      ground (arith, str_eq_iff r.visibility "private")

  -- Over HTTP a request without a user reads only a public repository that is found under the owner
  -- and the name; and it reads it when both are safe parts of a path and the statement does not fail.
  check_http_read_access_anonymous :
      (check_http_read_access fold fails "" owner name db ≡ true
        → (r : RepoRow) × (find_repo fold.lower (fold.to_lower owner) name db ≡ some r)
          × (r.visibility ≡ "public"))
      × ((r : RepoRow)
          → validate_path (owner ∷ name ∷ []) ≡ true
          → fails 1 ≡ false
          → find_repo fold.lower (fold.to_lower owner) name db ≡ some r
          → r.visibility ≡ "public"
          → check_http_read_access fold fails "" owner name db ≡ true)
  unfolding check_http_read_access get_by_owner_and_name
  check_http_read_access_anonymous = (
    λ h. elim (Option-cases (find_repo fold.lower (fold.to_lower owner) name db)) [
      | inl e ↦ absurd (ground arith)
      | inr (r, e) ↦ (r, e, ground (arith, str_eq_iff r.visibility "public"))
    ],
    λ r safe f e v. ground (
      arith,
      str_eq_iff r.visibility "public",
      str_eq_iff r.visibility "private",
      str_eq_iff "public" "private",
    ),
  )

  -- What a named user may read over SSH without being its owner by name, the user may read over HTTP.
  check_http_read_access_covers_ssh :
      username ≢ ""
      → fold.equal_fold username owner ≡ false
      → check_ssh_access fold fails username owner name "git-upload-pack" db ≡ true
      → check_http_read_access fold fails username owner name db ≡ true
  unfolding check_ssh_access check_http_read_access
  check_http_read_access_covers_ssh n f h =
      elim (Option-cases (get_by_username fold fails username db)) [
        | inl e ↦ absurd (ground arith)
        | inr (u, e) ↦
            elim (Option-cases
              (get_by_owner_and_name fold (after 1 fails) owner name (some u.id) db)) [
                | inl k ↦ absurd (ground arith)
                | inr (r, k) ↦ ground (arith, str_eq_iff username "")
              ]
      ]

-- Unless a statement fails, the pre-receive check of a repository that it finds stops a push exactly
-- when a rule of the repository matches the branch, and it names such a rule.
pub check_branch_protection-IsVerdict :
    (fold : Folding) (collate : String → String → Bool) (fails : Faults)
    (owner name branch : String) (db : Db) (r : RepoRow)
    → fails 0 ≡ false
    → fails 1 ≡ false
    → find_repo fold.lower (fold.lower owner) name db ≡ some r
    → IsVerdict db r.id branch (check_branch_protection fold collate fails owner name branch db)
unfolding check_branch_protection
check_branch_protection-IsVerdict fold collate fails owner name branch db r f g e =
    let (o, ran, v) = check-IsVerdict collate db r.id branch (after 1 fails) g in
    subst (λ x. IsVerdict db r.id branch x) (sym (ground arith)) v
