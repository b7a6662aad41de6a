-- ===== src/Tests/Keys.antt =====
-- SSH keys at the sample: a strong key is added and found.
use gitwise.Prelude.{String, Option, some, List, [], ◌∷◌, ◌≡◌, refl, find, All}
use gitwise.Action.{ok, err, no_faults}
use gitwise.Db.{UserRow}
use gitwise.Text.{trim_space}
use gitwise.Auth.Totp.{has_id}
use gitwise.SshKey.{
  SshKey, PublicKey, rsa, CreateSshKeyRequest, key_not_found, validate_key_strength, add,
  lookup_by_fingerprint,
}
use gitwise.SshKey.Strength.{Edit, adds, deletes, row, IsSound, apply_all, apply_all-AreSound}
use gitwise.SshKey.Lookup.{add-lookup_by_fingerprint}
use gitwise.Tests.Sample.{sample}
use gitwise.Tests.Logins.{letters}
use gitwise.Tests.Users.{sha}

abbrev strong : PublicKey
strong = record { kind = rsa 4_096; type_name = "ssh-rsa"; wire = "w" }

abbrev parse : String → Option PublicKey
parse s = some strong

abbrev laptop : CreateSshKeyRequest
laptop = record { title = "laptop"; public_key = "ssh-rsa AAAA" }

abbrev laptop_key : SshKey
laptop_key = record { row = row letters sha parse 95 5 1 laptop strong; key_type = "ssh-rsa" }

laptop_is_added : (add letters sha parse no_faults 95 5 1 laptop sample).0 ≡ ok laptop_key
unfolding add validate_key_strength trim_space
laptop_is_added = refl

add-lookup_by_fingerprint_example :
    ((lookup_by_fingerprint no_faults laptop_key.row.fingerprint sample).0 ≡ err key_not_found)
    × (u : UserRow) × (find (has_id 1) sample.users ≡ some u)
    × ((lookup_by_fingerprint no_faults laptop_key.row.fingerprint
          (add letters sha parse no_faults 95 5 1 laptop sample).1).0
        ≡ ok u.username)
add-lookup_by_fingerprint_example =
    add-lookup_by_fingerprint letters sha parse no_faults 95 5 1 laptop sample laptop_key
      laptop_is_added

abbrev edits : List Edit
edits = adds no_faults 95 5 1 laptop ∷ deletes no_faults 1 96 ∷ []

apply_all-AreSound_example :
    All (IsSound letters sha parse) (apply_all letters sha parse edits sample).ssh_keys
apply_all-AreSound_example = apply_all-AreSound letters sha parse edits sample tt
