-- ===== src/Tests/Teams.antt =====
-- Teams that are made, changed and deleted at the sample.
use gitwise.Prelude.{List, [], ◌∷◌, some, none, ◌≡◌, refl}
use gitwise.Action.{no_faults, ok}
use gitwise.Text.{trim_space}
use gitwise.Team.{CreateTeamRequest, OrgTeam, create}
use gitwise.Team.Update.{UpdateTeamRequest}
use gitwise.Team.Permissions.{Call, creates, updates, deletes}
use gitwise.Tests.Sample.{sample}

abbrev ops : CreateTeamRequest
ops = record { name = " ops "; description = "on call"; permission = "" }

abbrev promotion : UpdateTeamRequest
promotion = record { name = none; description = none; permission = some "admin" }

abbrev calls : List Call
calls =
    creates no_faults 13 9 10 ops
    ∷ updates no_faults 10 10 "ops" promotion
    ∷ deletes no_faults 10 "dev"
    ∷ []

abbrev ops_team : OrgTeam
ops_team = record {
  id = 13;
  org_id = 10;
  name = "ops";
  description = "on call";
  permission = "read";
  member_count = 0;
  repo_count = 0;
  created_at = 9;
  updated_at = 9;
}

ops_is_made : (create no_faults 13 9 10 ops sample).0 ≡ ok ops_team
unfolding create trim_space gitwise.Text.Names.team_name_re
ops_is_made = refl
