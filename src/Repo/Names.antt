-- ===== src/Repo/Names.antt =====
-- What a new repository leaves behind: its row, and its directory.
use gitwise.Prelude.{
  ℕ, String, true, false, some, [], ◌∷◌, ◌++◌, ◌≡◌, inl, inr, arith, str_eq, find, any, any_of_find,
  All, All-find, Option-cases,
}
use gitwise.Text.Names.{repo_name_re}
use gitwise.Action.{Result-cases, err, Faults, no_faults}
use gitwise.Db.{UserRow, OrgRow, RepoRow}
use gitwise.Auth.Totp.{has_id}
use gitwise.Git.{validate_path, validate_branch_name, has_dots}
use gitwise.Server.{Folding}
use gitwise.Repo.{
  has_name, CreateRepoRequest, Files, World, Error, panicked, or_else, bad_description, clashes,
  create,
}

dots_refused :
    (owner name : String) → has_dots name ≡ true → validate_path (owner ∷ name ∷ []) ≡ false
unfolding validate_path
dots_refused owner name h = ground arith

-- what `Create` writes for a user
abbrev pub row : ℕ → ℕ → UserRow → CreateRepoRequest → RepoRow
row id now u req = record {
  id = id;
  owner_id = u.id;
  owner_type = "user";
  name = req.name;
  description = req.description;
  visibility = or_else req.visibility "public";
  default_branch = or_else req.default_branch "main";
  topics = req.topics;
  created_at = now;
  updated_at = now;
}

module _ (fold : Folding) (f : Files) where
  -- If a repository name matches the service's pattern but has two dots in a row, then `Create` for a
  -- user, where nothing else speaks against it, panics, and the repository stays in the database
  -- without a directory: the disk is as before.
  pub create_dots-panicked :
      (id now : ℕ) (u : UserRow) (req : CreateRepoRequest) (w : World f)
      → repo_name_re req.name ≡ true
      → has_dots req.name ≡ true
      → bad_description req.description ≡ false
      → validate_branch_name (or_else req.default_branch "main") ≡ true
      → str_eq req.org_name "" ≡ true
      → find (has_id u.id) w.db.users ≡ some u
      → any (clashes (row id now u req)) w.db.repositories ≡ false
      → ((create fold f no_faults id now u.id req w).0 ≡ err panicked)
        × ((create fold f no_faults id now u.id req w).1.db.repositories
            ≡ w.db.repositories ++ row id now u req ∷ [])
        × ((create fold f no_faults id now u.id req w).1.disk ≡ w.disk)
  unfolding create
  create_dots-panicked id now u req w re dots d b o known free =
      let known' : any (has_id u.id) w.db.users ≡ true =
        any_of_find (has_id u.id) w.db.users u known in
      let bad : validate_path (u.username ∷ req.name ∷ []) ≡ false =
        dots_refused u.username req.name dots in
      ground arith

  -- `Create` never succeeds for an organization whose identifier is not one of a user, and leaves
  -- everything as it was.
  pub create_org-refused :
      (fails : Faults) (id now user : ℕ) (req : CreateRepoRequest) (w : World f)
      → str_eq req.org_name "" ≡ false
      → All (λ (o : OrgRow). any (has_id o.id) w.db.users ≡ false) w.db.organizations
      → (e : Error) × ((create fold f fails id now user req w).0 ≡ err e)
        × ((create fold f fails id now user req w).1 ≡ w)
  unfolding create
  create_org-refused fails id now user req w named apart =
      let org = find (has_name (fold.to_lower req.org_name)) w.db.organizations in
      elim (Result-cases (create fold f fails id now user req w).0) [
        | inl (r, ok_r) ↦ elim (Option-cases org) [
          | inl e ↦ absurd (ground arith)
          | inr (o, e) ↦
              let unknown =
                All-find _ (has_name (fold.to_lower req.org_name)) w.db.organizations o apart e in
              absurd (ground arith)
        ]
        | inr (x, err_x) ↦ (
          x,
          err_x,
          elim (Option-cases org) [
            | inl e ↦ ground arith
            | inr (o, e) ↦
                let unknown =
                  All-find _ (has_name (fold.to_lower req.org_name)) w.db.organizations o apart e in
                ground arith
          ],
        )
      ]
