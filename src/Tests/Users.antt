-- ===== src/Tests/Users.antt =====
-- API tokens and logins by OAuth at the sample.
use gitwise.Prelude.{ℕ, String, some, List, [], ◌∷◌, ◌≡◌, refl, find, if◌then◌else◌}
use gitwise.Action.{no_faults, ok, err}
use gitwise.Db.{Db, UserRow, TokenRow}
use gitwise.Text.{trim_space}
use gitwise.Auth.Totp.{has_id}
use gitwise.Auth.Login.{token_not_found}
use gitwise.User.{CreateTokenRequest, token_of, create_token, validate_token}
use gitwise.User.Tokens.{row, has_run_out, create_token-validate_token}
use gitwise.User.Oauth.{Profile, lowered, find_or_create_by_oauth}
use gitwise.User.Takeover.{IsLogin, find_or_create_by_oauth-IsLogin}
use gitwise.Tests.Sample.{sample, ada, person}
use gitwise.Tests.Logins.{letters}

abbrev pub sha : String → List ℕ
sha s = 4 ∷ []

abbrev ci : CreateTokenRequest
ci = record { name = "ci"; scopes = []; expires_at = some 9 }

abbrev ci_row : TokenRow
ci_row = row letters sha 90 5 (1 ∷ []) 1 ci

abbrev ci_token : String
ci_token = token_of letters sha (1 ∷ [])

token_is_made :
    (create_token letters sha no_faults 90 5 (some (1 ∷ [])) 1 ci sample).0 ≡ ok (ci_token, ci_row)
unfolding create_token trim_space
token_is_made = refl

create_token-validate_token_example :
    ((validate_token letters sha no_faults 4 ci_token sample).0 ≡ err token_not_found)
    × (u : UserRow) × (find (has_id 1) sample.users ≡ some u)
    × ((validate_token letters sha no_faults 7 ci_token
          (create_token letters sha no_faults 90 5 (some (1 ∷ [])) 1 ci sample).1).0
        ≡ (if has_run_out 7 (some 9) then err token_not_found else ok u))
create_token-validate_token_example =
    create_token-validate_token letters sha no_faults 90 5 (some (1 ∷ [])) 1 ci sample ci_token
      ci_row token_is_made 4 7

abbrev profile : String → Profile
profile email = record {
  provider = "github";
  provider_id = "77";
  email = email;
  username = "eve";
  full_name = "";
  avatar_url = "";
  access_token = "";
}

-- a user with a password
abbrev guarded : UserRow
guarded = record (person 5 "fay" "fay@x") { password = some "$argon2id$v$m$s$h" }

abbrev guarded_db : Db
guarded_db = record sample { users = ada ∷ guarded ∷ [] }

ada_is_found :
    (find_or_create_by_oauth letters no_faults 91 92 5 (profile "ada@x") guarded_db).0 ≡ ok ada
unfolding find_or_create_by_oauth
ada_is_found = refl

find_or_create_by_oauth-IsLogin_example :
    IsLogin 91 (lowered letters (profile "ada@x")) guarded_db ada
find_or_create_by_oauth-IsLogin_example =
    find_or_create_by_oauth-IsLogin letters no_faults 91 92 5 (profile "ada@x") guarded_db ada
      ada_is_found
