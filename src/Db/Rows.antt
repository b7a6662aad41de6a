-- ===== src/Db/Rows.antt =====
-- The rows of the tables of accounts: users, organizations, teams, repositories (migrations/*.sql).
use gitwise.Prelude.{ℕ, String, Bool, Option, List}

pub record UserRow : Type 0 where
  pub id : ℕ
  pub username : String
  pub email : String
  pub password : Option String
  pub full_name : String
  pub avatar_url : String
  pub bio : String
  pub is_admin : Bool
  pub created_at : ℕ
  pub updated_at : ℕ
  pub totp_secret : Option String
  pub totp_enabled : Bool
  -- NULL is the empty list
  pub recovery_codes : List String

pub record OrgRow : Type 0 where
  pub id : ℕ
  pub name : String
  pub display_name : String
  pub description : String
  pub avatar_url : String
  pub created_at : ℕ
  pub updated_at : ℕ

pub record OrgMemberRow : Type 0 where
  pub org_id : ℕ
  pub user_id : ℕ
  pub role : String

pub record TeamRow : Type 0 where
  pub id : ℕ
  pub org_id : ℕ
  pub name : String
  pub description : String
  pub permission : String
  pub created_at : ℕ
  pub updated_at : ℕ

-- rows of `org_team_members` and `org_team_repos`: the team, and the user or repository
pub record TeamLink : Type 0 where
  pub team_id : ℕ
  pub target_id : ℕ

pub record RepoRow : Type 0 where
  pub id : ℕ
  pub owner_id : ℕ
  pub owner_type : String
  pub name : String
  pub description : String
  pub visibility : String
  pub default_branch : String
  pub topics : List String
  pub created_at : ℕ
  pub updated_at : ℕ

pub record CollaboratorRow : Type 0 where
  pub repo_id : ℕ
  pub user_id : ℕ
  pub role : String

pub record TokenRow : Type 0 where
  pub id : ℕ
  pub user_id : ℕ
  pub name : String
  pub token_hash : String
  pub scopes : List String
  pub expires_at : Option ℕ
  pub last_used : Option ℕ
  pub created_at : ℕ

pub record OauthRow : Type 0 where
  pub id : ℕ
  pub user_id : ℕ
  pub provider : String
  pub provider_id : String
  pub access_token : String
  pub created_at : ℕ

pub record PinRow : Type 0 where
  pub user_id : ℕ
  pub repo_id : ℕ
  pub position : ℕ
