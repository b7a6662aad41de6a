-- ===== src/Repo/Listing.antt =====
-- `ListByOwner`, `ListForUser` and `ListPublic` of internal/services/repo/service.go.
use gitwise.Prelude.{
  ℕ, ℤ, pos, negsuc, String, Bool, ◌&&◌, ◌||◌, Option, none, some, List, [], ◌∷◌, ltb, leb, ◌==◌,
  if◌then◌else◌, str_eq, find, any, keep, take, map,
}
use gitwise.Action.{Action, Faults, gets, or_raise, raise_if, ◌>>=◌, ◌>>◌}
use gitwise.Db.{Db, RepoRow, is_membership}
use gitwise.Db.Order.{order_by}
use gitwise.Auth.Totp.{has_id}
use gitwise.Server.{Folding, owner_name, is_lower}
use gitwise.Repo.{Error, internal, Repository}

abbrev pub page_size : ℤ → ℕ
page_size (negsuc n) = 30
page_size (pos n) = if n == 0 || ltb 100 n then 30 else n

-- the rows of a query, the newest first
abbrev pub page : ℤ → (RepoRow → Bool) → Db → List RepoRow
page limit shown db =
    take (page_size limit)
      (order_by (λ a b. leb b.updated_at a.updated_at) (keep shown db.repositories))

-- none at a row whose owner's name is NULL: a text does not take it
unfoldable pub scan : Db → List RepoRow → Option (List Repository)
scan db [] = some []
scan db (r ∷ rs) =
    let rest = scan db rs in
    elim (owner_name db r) [
      | none ↦ none
      | some o ↦ elim rest [ none ↦ none | some l ↦ some (record { row = r; owner_name = o } ∷ l) ]
    ]

-- `uuid.Nil` for nobody
abbrev pub viewer_id : Option ℕ → ℕ
viewer_id none = 0
viewer_id (some v) = v

-- public, of the viewer, or of an organization of the viewer
abbrev pub is_visible : ℕ → Db → RepoRow → Bool
is_visible viewer db r =
    str_eq r.visibility "public"
    || r.owner_id == viewer
    || any (is_membership r.owner_id viewer) db.org_members

abbrev pub is_listed : Folding → String → Option ℕ → Db → RepoRow → Bool
is_listed fold owner viewer db r =
    is_lower fold.lower (fold.to_lower owner) (owner_name db r)
    && is_visible (viewer_id viewer) db r

unfoldable pub list_by_owner :
    Folding → Faults → String → Option ℕ → ℤ → Action Db Error (List Repository)
unfolding scan
list_by_owner fold fails owner viewer limit = do
  raise_if (fails 0) internal
  found ← gets (λ db. scan db (page limit (is_listed fold owner viewer db) db))
  or_raise found internal

-- the inner JOIN: the owner is a user
unfoldable pub list_for_user : Faults → ℕ → ℤ → Action Db Error (List Repository)
list_for_user fails user limit = do
  raise_if (fails 0) internal
  gets λ db. elim (find (has_id user) db.users) [
    | none ↦ []
    | some u ↦
        map (λ (r : RepoRow). record { row = r; owner_name = u.username })
          (page limit (λ r. r.owner_id == user) db)
  ]

unfoldable pub list_public : Faults → ℤ → Action Db Error (List Repository)
unfolding scan
list_public fails limit = do
  raise_if (fails 0) internal
  found ← gets (λ db. scan db (page limit (λ r. str_eq r.visibility "public") db))
  or_raise found internal
