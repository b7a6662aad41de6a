-- ===== src/Repo.antt =====
-- `Create`, `Update` and `Delete` of internal/services/repo/service.go. `GetByOwnerAndName`
-- is in Server.antt, with the access checks that ask it.
pub mod Lists
pub mod Listing
pub mod Names
use gitwise.Prelude.{
  ℕ, ℤ, pos, negsuc, String, Bool, true, false, not, ◌&&◌, ◌||◌, Option, none, some, List, [], ◌∷◌,
  ◌++◌, ltb, leb, ◌==◌, if◌then◌else◌, str_eq, find, any, keep, update_where, take, map,
}
use gitwise.Text.{byte_len}
use gitwise.Text.Names.{repo_name_re}
use gitwise.Action.{
  Action, Result, ok, err, Faults, pure, raise, gets, or_raise, modify, raise_if, ◌>>=◌, ◌>>◌,
}
use gitwise.Db.{Db, UserRow, OrgRow, RepoRow, is_membership, delete_repos}
use gitwise.Db.Order.{order_by}
use gitwise.Field.{or_old, is_given, refuses}
use gitwise.Git.{validate_path, validate_branch_name}
use gitwise.Auth.Totp.{has_id}
use gitwise.Server.{Folding, owner_name, is_lower}

-- `panicked` is the panic of `RepoPath` at a name that is no path component
pub data Error : Type 0 where
  invalid_name not_found duplicate internal panicked : Error

pub record CreateRepoRequest : Type 0 where
  pub name : String
  pub description : String
  pub visibility : String
  pub default_branch : String
  pub topics : List String
  pub auto_init : Bool
  pub org_name : String

pub record UpdateRepoRequest : Type 0 where
  pub name : Option String
  pub description : Option String
  pub visibility : Option String
  pub default_branch : Option String
  -- nil is none
  pub topics : Option (List String)

-- `models.Repository`: the row, and the name of its owner
pub record Repository : Type 0 where
  pub row : RepoRow
  pub owner_name : String

-- The bare repositories on disk, which go-git and the operating system keep: the directory of an owner
-- and a name is made, filled, renamed and removed; `false` is an error.
pub record Files : Type 1 where
  pub Disk : Type 0
  pub plain_init : String → String → Disk → Bool × Disk
  pub auto_init : String → String → String → Disk → Bool × Disk
  pub rename : String → String → String → Disk → Bool × Disk
  pub remove : String → String → Disk → Disk

pub record World (f : Files) : Type 0 where
  pub db : Db
  pub disk : f.Disk

abbrev pub or_else : String → String → String
or_else text default = if str_eq text "" then default else text

abbrev pub bad_description : String → Bool
bad_description d = ltb 1_000 (byte_len d)

abbrev pub clashes : RepoRow → RepoRow → Bool
clashes new r = r.id == new.id || r.owner_id == new.owner_id && str_eq r.name new.name

abbrev pub has_name : String → OrgRow → Bool
has_name name o = str_eq o.name name

-- the owner: a type, an identifier and a name
abbrev pub user_owner : Option UserRow → Option (String × ℕ × String)
user_owner none = none
user_owner (some u) = some ("user", u.id, u.username)

abbrev pub org_owner : Option OrgRow → Option (String × ℕ × String)
org_owner none = none
org_owner (some o) = some ("org", o.id, o.name)

module _ (fold : Folding) (f : Files) where
  abbrev pub find_owner : ℕ → String → World f → Option (String × ℕ × String)
  find_owner user org w =
      if str_eq org ""
      then user_owner (find (has_id user) w.db.users)
      else org_owner (find (has_name (fold.to_lower org)) w.db.organizations)

  -- `InitBare`, with the panic of `RepoPath`
  abbrev pub init_bare : String → String → Action (World f) Error (Unit {0})
  init_bare owner name w =
      if not (validate_path (owner ∷ name ∷ []))
      then (err panicked, w)
      else let (done, disk) = f.plain_init owner name w.disk in
        (if done then ok tt else err internal, record w { disk = disk })

  -- an error is only logged
  abbrev pub try_auto_init : Bool → String → String → String → Action (World f) Error (Unit {0})
  try_auto_init asked owner name branch w =
      if asked
      then (ok tt, record w { disk = (f.auto_init owner name branch w.disk).1 })
      else (ok tt, w)

  -- the INSERT: the owner has to be a user (migrations/013_user_delete_cascade.sql)
  abbrev pub insert : Faults → RepoRow → Action (World f) Error (Unit {0})
  insert fails r = do
    raise_if (fails 1) internal
    taken ← gets (λ (w : World f). any (clashes r) w.db.repositories)
    raise_if taken duplicate
    known ← gets (λ (w : World f). any (has_id r.owner_id) w.db.users)
    raise_if (not known) internal
    modify (λ (w : World f). record w {
      db = record w.db { repositories = w.db.repositories ++ r ∷ [] };
    })

  -- the counter; an error is dropped
  abbrev pub add_counter : Bool → ℕ → World f → World f
  add_counter failed id w =
      if failed || any (λ c. c.repo_id == id) w.db.repo_counters then w else record w {
        db = record w.db {
          repo_counters = w.db.repo_counters ++ record { repo_id = id; next_number = 1 } ∷ [];
        };
      }

  unfoldable pub create : Faults → ℕ → ℕ → ℕ → CreateRepoRequest → Action (World f) Error Repository
  create fails id now user req = do
    raise_if (not (repo_name_re req.name)) invalid_name
    raise_if (bad_description req.description) invalid_name
    let branch = or_else req.default_branch "main"
    raise_if (not (validate_branch_name branch)) invalid_name
    raise_if (fails 0) internal
    found ← gets (find_owner user req.org_name)
    owner ← or_raise found internal
    let r : RepoRow = record {
      id = id;
      owner_id = owner.1;
      owner_type = owner.0;
      name = req.name;
      description = req.description;
      visibility = or_else req.visibility "public";
      default_branch = branch;
      topics = req.topics;
      created_at = now;
      updated_at = now;
    }
    insert fails r
    modify (add_counter (fails 2) id)
    init_bare owner.2 req.name
    try_auto_init req.auto_init owner.2 req.name branch
    pure (record { row = r; owner_name = owner.2 })

  abbrev pub bad_visibility : String → Bool
  bad_visibility v = not (str_eq v "public") && not (str_eq v "private")

  -- the SET clauses
  abbrev pub assign : ℕ → UpdateRepoRequest → RepoRow → RepoRow
  assign now req r = record r {
    updated_at = now;
    name = or_old req.name r.name;
    description = or_old req.description r.description;
    visibility = or_old req.visibility r.visibility;
    default_branch = or_old req.default_branch r.default_branch;
    topics = or_old req.topics r.topics;
  }

  abbrev pub is_repo : ℕ → RepoRow → Bool
  is_repo id r = r.id == id

  -- the SELECT of the old name and the owner; a NULL owner cannot be scanned
  abbrev pub old_name : Db → Option RepoRow → Option (String × String)
  old_name db none = none
  old_name db (some r) = elim (owner_name db r) [ none ↦ none | some o ↦ some (r.name, o) ]

  abbrev pub look_up :
      Faults → ℕ → Option String → Action (World f) Error (Option (String × String))
  look_up fails id none w = (ok none, w)
  look_up fails id (some name) w =
      if fails 0
      then (err internal, w)
      else elim (old_name w.db (find (is_repo id) w.db.repositories)) [
        | none ↦ (err internal, w)
        | some o ↦ (ok (some o), w)
      ]

  abbrev pub renames_onto : RepoRow → RepoRow → Bool
  renames_onto new r = not (r.id == new.id) && r.owner_id == new.owner_id && str_eq r.name new.name

  -- `os.Rename`, with the panics of `RepoPath`; an error is only logged
  abbrev pub move : Option (String × String) → Option String → Action (World f) Error (Unit {0})
  move none name w = (ok tt, w)
  move (some o) none w = (ok tt, w)
  move (some (old, owner)) (some name) w =
      if str_eq name old
      then (ok tt, w)
      else if not (validate_path (owner ∷ old ∷ [])) || not (validate_path (owner ∷ name ∷ []))
      then (err panicked, w)
      else (ok tt, record w { disk = (f.rename owner old name w.disk).1 })

  -- The UPDATE is written before its answer is scanned; the name of an owner that is no user is NULL,
  -- which a text does not take.
  unfoldable pub update : Faults → ℕ → ℕ → UpdateRepoRequest → Action (World f) Error Repository
  update fails now id req = do
    before ← look_up fails id req.name
    raise_if (refuses (λ n. not (repo_name_re n)) req.name) invalid_name
    raise_if (refuses bad_description req.description) invalid_name
    raise_if (refuses bad_visibility req.visibility) invalid_name
    raise_if (refuses (λ b. not (validate_branch_name b)) req.default_branch) invalid_name
    raise_if (fails (if is_given req.name then 1 else 0)) internal
    found ← gets (λ (w : World f). find (is_repo id) w.db.repositories)
    r ← or_raise found not_found
    let new = assign now req r
    taken ← gets (λ (w : World f). any (renames_onto new) w.db.repositories)
    raise_if taken internal
    modify λ (w : World f). record w {
      db = record w.db {
        repositories = update_where (is_repo id) (assign now req) w.db.repositories;
      };
    }
    scanned ← gets (λ (w : World f). find (has_id new.owner_id) w.db.users)
    u ← or_raise scanned internal
    move before req.name
    pure (record { row = new; owner_name = u.username })

  -- the names of the directory are the caller's
  unfoldable pub delete : Faults → String → String → ℕ → Action (World f) Error (Unit {0})
  delete fails owner name id = do
    raise_if (fails 0) internal
    affected ← gets (λ (w : World f). any (is_repo id) w.db.repositories)
    raise_if (not affected) not_found
    modify (λ (w : World f). record w { db = delete_repos (is_repo id) w.db })
    raise_if (not (validate_path (owner ∷ name ∷ []))) panicked
    modify (λ (w : World f). record w { disk = f.remove owner name w.disk })
