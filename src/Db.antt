-- ===== src/Db.antt =====
-- The PostgreSQL tables (migrations/*.sql) that the services read and write. A table is the list of
-- its rows, in the order in which they were inserted; a row has the columns that the modelled
-- statements name. A UUID is a number, and so is a time (nanoseconds).
pub mod Order
mod Rows
mod Pulls
mod Tracker
mod Events
pub use Rows.*
pub use Pulls.*
pub use Tracker.*
pub use Events.*
use gitwise.Prelude.{ℕ, String, Bool, not, List, ◌==◌, ◌&&◌, any, keep}

pub record Db : Type 0 where
  pub users : List UserRow
  pub organizations : List OrgRow
  pub org_members : List OrgMemberRow
  pub org_teams : List TeamRow
  pub org_team_members : List TeamLink
  pub org_team_repos : List TeamLink
  pub repositories : List RepoRow
  pub repo_collaborators : List CollaboratorRow
  pub branch_protection_rules : List BranchProtection
  pub pull_requests : List PullRow
  pub reviews : List ReviewRow
  pub comments : List CommentRow
  pub repo_counters : List CounterRow
  pub issues : List IssueRow
  pub labels : List LabelRow
  pub milestones : List MilestoneRow
  pub api_tokens : List TokenRow
  pub oauth_accounts : List OauthRow
  pub pinned_repos : List PinRow
  pub webhooks : List WebhookRow
  pub webhook_deliveries : List DeliveryRow
  pub ssh_keys : List SshKeyRow
  pub notifications : List NotificationRow
  pub notification_preferences : List PreferencesRow
  pub repo_watchers : List WatcherRow

-- the row of a link table for a team and its target
abbrev pub is_link : ℕ → ℕ → TeamLink → Bool
is_link team target l = l.team_id == team && l.target_id == target

abbrev pub linked : ℕ → ℕ → List TeamLink → Bool
linked team target = any (is_link team target)

abbrev pub is_membership : ℕ → ℕ → OrgMemberRow → Bool
is_membership org user m = m.org_id == org && m.user_id == user

-- Deleting repositories takes the rows that refer to them along (`ON DELETE CASCADE`).
abbrev pub delete_repos : (RepoRow → Bool) → Db → Db
delete_repos gone db =
    let lost = λ (id : ℕ). any (λ r. r.id == id && gone r) db.repositories in
    record db {
      repositories = keep (λ r. not (gone r)) db.repositories;
      org_team_repos = keep (λ l. not (lost l.target_id)) db.org_team_repos;
      repo_collaborators = keep (λ c. not (lost c.repo_id)) db.repo_collaborators;
      branch_protection_rules = keep (λ b. not (lost b.repo_id)) db.branch_protection_rules;
      pull_requests = keep (λ p. not (lost p.repo_id)) db.pull_requests;
      reviews =
          keep (λ r. not (any (λ p. p.id == r.pr_id && lost p.repo_id) db.pull_requests))
            db.reviews;
      repo_counters = keep (λ c. not (lost c.repo_id)) db.repo_counters;
      issues = keep (λ i. not (lost i.repo_id)) db.issues;
      labels = keep (λ l. not (lost l.repo_id)) db.labels;
      milestones = keep (λ m. not (lost m.repo_id)) db.milestones;
      comments = keep (λ c. not (lost c.repo_id)) db.comments;
      pinned_repos = keep (λ p. not (lost p.repo_id)) db.pinned_repos;
      repo_watchers = keep (λ w. not (lost w.repo_id)) db.repo_watchers;
      webhooks = keep (λ w. not (lost w.repo_id)) db.webhooks;
      webhook_deliveries =
          keep (λ d. not (any (λ w. w.id == d.webhook_id && lost w.repo_id) db.webhooks))
            db.webhook_deliveries;
    }

-- Deleting an organization takes its members and its teams along, and the links of these.
abbrev pub delete_org : ℕ → Db → Db
delete_org id db =
    let lost = λ (team : ℕ). any (λ t. t.id == team && t.org_id == id) db.org_teams in
    record db {
      organizations = keep (λ o. not (o.id == id)) db.organizations;
      org_members = keep (λ m. not (m.org_id == id)) db.org_members;
      org_teams = keep (λ t. not (t.org_id == id)) db.org_teams;
      org_team_members = keep (λ l. not (lost l.team_id)) db.org_team_members;
      org_team_repos = keep (λ l. not (lost l.team_id)) db.org_team_repos;
    }
