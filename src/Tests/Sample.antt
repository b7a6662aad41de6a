-- ===== src/Tests/Sample.antt =====
-- A small database: an organization with an owner and a member, two teams, a repository with a
-- protected branch, and an open pull request with one approval.
use gitwise.Prelude.{ℕ, ◌+◌, pos, String, Bool, true, false, none, some, [], ◌∷◌}
use gitwise.Db.{Db, UserRow, OrgRow, TeamRow, PullRow, ReviewRow, array, BranchProtection}
use gitwise.Git.{Git}
use gitwise.Pull.{World}

abbrev pub person : ℕ → String → String → UserRow
person id username email = record {
  id = id;
  username = username;
  email = email;
  password = none;
  full_name = "";
  avatar_url = "";
  bio = "";
  is_admin = false;
  created_at = 0;
  updated_at = 0;
  totp_secret = none;
  totp_enabled = false;
  recovery_codes = [];
}

abbrev pub ada : UserRow
ada = person 1 "ada" "ada@x"

abbrev pub bob : UserRow
bob = person 2 "bob" "bob@x"

abbrev pub acme : OrgRow
acme = record {
  id = 10;
  name = "acme";
  display_name = "Acme";
  description = "";
  avatar_url = "";
  created_at = 0;
  updated_at = 0;
}

abbrev team : ℕ → String → String → TeamRow
team id name permission = record {
  id = id;
  org_id = 10;
  name = name;
  description = "";
  permission = permission;
  created_at = 0;
  updated_at = 0;
}

abbrev pub review : ReviewRow
review = record {
  id = 40;
  pr_id = 30;
  author_id = 2;
  kind = "approval";
  body = "";
  comments = array [];
  submitted_at = 5;
}

abbrev pub pull : PullRow
pull = record {
  id = 30;
  repo_id = 20;
  number = 1;
  author_id = 1;
  title = "t";
  body = "";
  body_history = [];
  source_branch = "topic";
  target_branch = "main";
  status = "open";
  intent = none;
  diff_stats = record { files_changed = 0; insertions = 0; deletions = 0; files = [] };
  review_summary = none;
  merge_strategy = none;
  merged_by = none;
  merged_at = none;
  closed_at = none;
  created_at = 0;
  updated_at = 0;
}

abbrev pub merged_pull : PullRow
merged_pull = record pull { id = 31; number = 2; status = "merged"; merged_by = some 1 }

abbrev pub main_rule : BranchProtection
main_rule = record {
  id = 50;
  repo_id = 20;
  branch_pattern = "ma*";
  required_reviews = pos 1;
  require_linear = true;
  created_at = 0;
  updated_at = 0;
}

abbrev pub sample : Db
sample = record {
  users = ada ∷ bob ∷ [];
  organizations = acme ∷ [];
  org_members =
      record { org_id = 10; user_id = 1; role = "owner" }
      ∷ record { org_id = 10; user_id = 2; role = "member" }
      ∷ [];
  org_teams = team 11 "core" "triage" ∷ team 12 "dev" "write" ∷ [];
  org_team_members =
      record { team_id = 11; target_id = 2 } ∷ record { team_id = 12; target_id = 2 } ∷ [];
  org_team_repos =
      record { team_id = 11; target_id = 20 } ∷ record { team_id = 12; target_id = 20 } ∷ [];
  repositories =
      record {
        id = 20;
        owner_id = 10;
        owner_type = "org";
        name = "site";
        description = "";
        visibility = "private";
        default_branch = "main";
        topics = [];
        created_at = 0;
        updated_at = 0;
      }
      ∷ [];
  repo_collaborators = [];
  branch_protection_rules = main_rule ∷ [];
  pull_requests = pull ∷ merged_pull ∷ [];
  reviews = review ∷ [];
  comments = [];
  repo_counters = record { repo_id = 20; next_number = 3 } ∷ [];
  issues = [];
  labels = [];
  milestones = [];
  api_tokens = [];
  oauth_accounts = [];
  pinned_repos = [];
  webhooks = [];
  webhook_deliveries = [];
  ssh_keys = [];
  notifications = [];
  notification_preferences = [];
  repo_watchers = [];
}

-- texts that are in lower case already
abbrev pub same_text : String → String
same_text s = s

abbrev pub any_order : String → String → Bool
any_order a b = true

-- a disk that counts what is written; every branch is there, and no merge fails
abbrev pub counting : Git
counting = record {
  Disk = ℕ;
  resolve_ref = λ owner name ref disk. true;
  compare_branches = λ owner name base head disk.
      some (record { files = []; total_files = 0; total_additions = 0; total_deletions = 0 });
  merge_branches = λ owner name base head strategy message author email disk. (true, disk + 1);
  delete_branch = λ owner name branch disk. (true, disk + 1);
}

abbrev pub world : World counting
world = record { db = sample; disk = 0 }
