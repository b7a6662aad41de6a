-- ===== src/Tests/Github.antt =====
-- A login at GitHub: a state is used, and a user without a public address comes back.
use Prim.Native.String
use gitwise.Prelude.{ℕ, ◌+◌, String, true, false, Option, some, List, [], ◌∷◌, ◌≡◌, refl, ltb}
use gitwise.GithubLogin.{
  Github, GithubUser, Reply, Call, exchanges, asks_user, asks_emails, token_of, generate_state,
  validate_state, exchange_github_code, callback_uri, fetch_github_user, fetch_primary_email,
  pick_email,
}
use gitwise.GithubLogin.States.{generate_state-validate_state}
use gitwise.GithubLogin.Emails.{HasAddress, exchange_github_code-HasAddress}

abbrev hex : List ℕ → String
hex b = "6162"

state_is_made : (generate_state hex false 5 (some (1 ∷ 2 ∷ [])) []).0 ≡ some "6162"
unfolding generate_state
state_is_made = refl

generate_state-validate_state_example :
    let asked =
      validate_state false 99 "6162" (generate_state hex false 5 (some (1 ∷ 2 ∷ [])) []).1 in
    (asked.0 ≡ ltb 99 (5 + 600_000)) × ((validate_state false 100 "6162" asked.1).0 ≡ false)
generate_state-validate_state_example =
    generate_state-validate_state hex false 5 (some (1 ∷ 2 ∷ [])) [] "6162" state_is_made 99 100

abbrev eve : GithubUser
eve = record { id = 7; login = "eve"; email = ""; name = "Eve"; avatar_url = "" }

abbrev answer : Call → Option Reply
answer (exchanges code cb) = some (record { status = 200; body = "token" })
answer (asks_user token) = some (record { status = 200; body = "user" })
answer (asks_emails token) = some (record { status = 200; body = "emails" })

abbrev github : Github
github = record {
  answer = answer;
  decode_token = λ s. some (record { access_token = "gho"; error = "" });
  decode_user = λ s. some eve;
  decode_emails = λ s. some (
      record { email = "old@x"; primary = true; verified = false }
      ∷ record { email = "eve@x"; primary = false; verified = true }
      ∷ []);
  parse_base = λ s. some ("https", λ path. String.◌++◌ "https://git" path);
}

abbrev eve_found : GithubUser
eve_found = record eve { email = "eve@x" }

eve_is_exchanged : exchange_github_code github "https://git" "code" ≡ some (eve_found, "gho")
unfolding exchange_github_code callback_uri fetch_github_user fetch_primary_email pick_email
eve_is_exchanged = refl

exchange_github_code-HasAddress_example :
    (cb : String) × (r : Reply) × (profile : GithubUser) × (token_of github
        (github.answer (exchanges "code" cb))
      ≡ some "gho")
    × (github.answer (asks_user "gho") ≡ some r)
    × (github.decode_user r.body ≡ some profile)
    × ("eve" ≡ profile.login)
    × (7 ≡ profile.id)
    × HasAddress github "gho" profile eve_found
exchange_github_code-HasAddress_example =
    exchange_github_code-HasAddress github "https://git" "code" "gho" eve_found eve_is_exchanged
