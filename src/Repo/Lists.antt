-- ===== src/Repo/Lists.antt =====
-- A list shows nothing that `GetByOwnerAndName` hides.
use gitwise.Prelude.{
  ℕ, zero, suc, ℤ, String, true, false, Option, none, some, List, [], ◌∷◌, ◌≡◌, refl, ap, ◌∙◌,
  subst, inl, inr, arith, ◌&&◌, find, leb, ◌==◌, str_eq, str_eq_iff, str_eq_refl, any, take, keep,
  All, Option-cases, Bool-cases, Bool,
}
use gitwise.Action.{ok, Faults, no_faults}
use gitwise.Db.{Db, RepoRow, OrgMemberRow, is_membership}
use gitwise.Db.Order.{order_by-All}
use gitwise.Server.{Folding, shown, owner_name, is_lower, find_repo, get_by_owner_and_name}
use gitwise.Repo.{Repository}
use gitwise.Repo.Listing.{page, page_size, scan, is_visible, viewer_id, is_listed, list_by_owner}

-- `GetByOwnerAndName` finds this row under its name and the name of the owner, and gives it to the viewer
abbrev pub IsFound : Folding → String → Option ℕ → Db → RepoRow → Type 0
IsFound fold owner viewer db r =
    get_by_owner_and_name fold no_faults owner r.name viewer db ≡ some r

-- names of owners that agree in lower case
abbrev same_owner : (String → String) → Option String → Option String → Bool
same_owner lower none b = false
same_owner lower (some a) none = false
same_owner lower (some a) (some b) = str_eq (lower a) (lower b)

abbrev is_double : Folding → Db → RepoRow → RepoRow → Bool
is_double fold db r r' =
    same_owner fold.lower (owner_name db r) (owner_name db r') && str_eq r.name r'.name

-- no two repositories have the same name and owners of the same name, whatever the case of its letters
abbrev pub AreNamed : Folding → Db → List RepoRow → Type 0
AreNamed fold db [] = Unit
AreNamed fold db (r ∷ rs) =
    All (λ (r' : RepoRow). is_double fold db r r' ≡ false) rs × AreNamed fold db rs

-- its visibility does not hide it from the viewer
abbrev IsShown : Option ℕ → Db → RepoRow → Type 0
IsShown viewer db r = shown no_faults viewer db (some r) ≡ some r

-- the UUID of nobody owns nothing and is in no organization
abbrev pub IsNobody : Db → Type 0
IsNobody db =
    All (λ (r : RepoRow). (r.owner_id == 0) ≡ false) db.repositories
    × All (λ (m : OrgMemberRow). (m.user_id == 0) ≡ false) db.org_members

no_member :
    (org : ℕ) (ms : List OrgMemberRow)
    → All (λ (m : OrgMemberRow). (m.user_id == 0) ≡ false) ms
    → any (is_membership org 0) ms ≡ false
no_member org [] h = refl
no_member org (m ∷ ms) h = ground (arith, no_member org ms h.1)

public-IsShown :
    (viewer : Option ℕ) (db : Db) (r : RepoRow)
    → str_eq r.visibility "public" ≡ true
    → IsShown viewer db r
public-IsShown viewer db r e =
    let public : r.visibility ≡ "public" = (str_eq_iff r.visibility "public").0 e in
    let not_private : str_eq r.visibility "private" ≡ false =
      ap (λ (x : String). str_eq x "private") public in
    ground arith

hidden-IsShown :
    (viewer : Option ℕ) (db : Db) (r : RepoRow)
    → IsNobody db
    → (r.owner_id == 0) ≡ false
    → str_eq r.visibility "public" ≡ false
    → is_visible (viewer_id viewer) db r ≡ true
    → IsShown viewer db r
hidden-IsShown none db r n o e h = absurd (ground (arith, no_member r.owner_id db.org_members n.1))
hidden-IsShown (some u) db r n o e h = ground arith

visible-IsShown :
    (viewer : Option ℕ) (db : Db) (r : RepoRow)
    → IsNobody db
    → (r.owner_id == 0) ≡ false
    → is_visible (viewer_id viewer) db r ≡ true
    → IsShown viewer db r
visible-IsShown viewer db r n o v = elim (Bool-cases (str_eq r.visibility "public")) [
  | inl e ↦ public-IsShown viewer db r e
  | inr e ↦ hidden-IsShown viewer db r n o e v
]

abbrev is_called : Folding → String → Db → RepoRow → Bool
is_called fold owner db r = is_lower fold.lower (fold.to_lower owner) (owner_name db r)

-- a row before it that is no double does not hide a row
not_hidden :
    (fold : Folding) (owner : String) (db : Db) (r r' : RepoRow)
    → is_double fold db r r' ≡ false
    → is_called fold owner db r' ≡ true
    → (is_called fold owner db r && str_eq r.name r'.name) ≡ false
not_hidden fold owner db r r' d h = go (owner_name db r) (owner_name db r') d h
  where
    go :
        (o o' : Option String)
        → (same_owner fold.lower o o' && str_eq r.name r'.name) ≡ false
        → is_lower fold.lower (fold.to_lower owner) o' ≡ true
        → (is_lower fold.lower (fold.to_lower owner) o && str_eq r.name r'.name) ≡ false
    go none o' d h = refl
    go (some a) none d h = cc
    go (some a) (some b) d h = ground (
      arith,
      str_eq_iff (fold.lower a) (fold.to_lower owner),
      str_eq_iff (fold.lower b) (fold.to_lower owner),
      str_eq_iff (fold.lower a) (fold.lower b),
    )

Finds : Folding → String → Db → List RepoRow → RepoRow → Type 0
Finds fold owner db rs r =
    is_called fold owner db r ≡ true
    → find (λ x. is_called fold owner db x && str_eq x.name r.name) rs ≡ some r

Finds-cons :
    (fold : Folding) (owner : String) (db : Db) (r : RepoRow) (all rs : List RepoRow)
    → All (λ (r' : RepoRow). is_double fold db r r' ≡ false) rs
    → All (Finds fold owner db all) rs
    → All (Finds fold owner db (r ∷ all)) rs
unfolding Finds
Finds-cons fold owner db r all [] d f = tt
Finds-cons fold owner db r all (x ∷ rs) d f = (
  (λ h. rw (not_hidden fold owner db r x d.0 h) (f.0 h)),
  Finds-cons fold owner db r all rs d.1 f.1,
)

AreNamed-Finds :
    (fold : Folding) (owner : String) (db : Db) (rs : List RepoRow)
    → AreNamed fold db rs
    → All (Finds fold owner db rs) rs
unfolding Finds
AreNamed-Finds fold owner db [] d = tt
AreNamed-Finds fold owner db (r ∷ rs) d = (
  (λ h. rw (h, str_eq_refl r.name) refl),
  Finds-cons fold owner db r rs rs d.0 (AreNamed-Finds fold owner db rs d.1),
)

keep-IsFound :
    (fold : Folding) (owner : String) (viewer : Option ℕ) (db : Db) (rs : List RepoRow)
    → IsNobody db
    → All (λ (r : RepoRow). (r.owner_id == 0) ≡ false) rs
    → All (Finds fold owner db db.repositories) rs
    → All (IsFound fold owner viewer db) (keep (is_listed fold owner viewer db) rs)
unfolding Finds get_by_owner_and_name
keep-IsFound fold owner viewer db [] n h k = tt
keep-IsFound fold owner viewer db (r ∷ rs) n (o, h) (f, k) =
    let rest = keep-IsFound fold owner viewer db rs n h k in
    elim (Bool-cases (is_listed fold owner viewer db r)) [
      | inl e ↦
          let found : find_repo fold.lower (fold.to_lower owner) r.name db ≡ some r =
            f (ground arith) in
          let seen = visible-IsShown viewer db r n o (ground arith) in
          rw e (ap (shown no_faults viewer db) found ∙ seen, rest)
      | inr e ↦ rw e rest
    ]

take-All : (q : RepoRow → Type 0) (n : ℕ) (rs : List RepoRow) → All q rs → All q (take n rs)
take-All q zero rs h = tt
take-All q (suc n) [] h = tt
take-All q (suc n) (r ∷ rs) h = (h.0, take-All q n rs h.1)

scan-All :
    (q : RepoRow → Type 0) (db : Db) (rs : List RepoRow) (l : List Repository)
    → scan db rs ≡ some l
    → All q rs
    → All (λ (x : Repository). q x.row) l
unfolding scan
scan-All q db [] [] e h = tt
scan-All q db [] (x ∷ l) e h = absurd (ground arith)
scan-All q db (r ∷ rs) l e h = elim (Option-cases (owner_name db r)) [
  | inl f ↦ absurd (ground arith)
  | inr (o, f) ↦ elim (Option-cases (scan db rs)) [
    | inl g ↦ absurd (ground arith)
    | inr (k, g) ↦
        let same : record { row = r; owner_name = o } ∷ k ≡ l = ground arith in
        subst (All (λ (x : Repository). q x.row)) same (h.0, scan-All q db rs k g h.1)
  ]
]

-- Every repository that `ListByOwner` shows to a viewer, `GetByOwnerAndName` finds under the same owner and
-- the repository's name, and shows to the same viewer: it is not private, or the viewer owns it or is
-- a member of the organization that owns it. The zero UUID, which stands for nobody, owns no repository
-- and is in no organization, and no two repositories have the same name and owners of the same name,
-- whatever the case of its letters. No statement of `GetByOwnerAndName` fails.
pub list_by_owner-get_by_owner_and_name :
    (fold : Folding) (fails : Faults) (owner : String) (viewer : Option ℕ) (limit : ℤ) (db : Db)
    (l : List Repository)
    → IsNobody db
    → AreNamed fold db db.repositories
    → (list_by_owner fold fails owner viewer limit db).0 ≡ ok l
    → All (λ (x : Repository). IsFound fold owner viewer db x.row) l
unfolding list_by_owner
list_by_owner-get_by_owner_and_name fold fails owner viewer limit db l n d e =
    let rows = page limit (is_listed fold owner viewer db) db in
    let found =
      keep-IsFound fold owner viewer db db.repositories n n.0
        (AreNamed-Finds fold owner db db.repositories d) in
    let kept = take-All (IsFound fold owner viewer db) (page_size limit) _ (
      order_by-All (λ a b. leb b.updated_at a.updated_at) (IsFound fold owner viewer db) _ found) in
    elim (Option-cases (scan db rows)) [
      | inl f ↦ absurd (ground arith)
      | inr (k, f) ↦ scan-All (IsFound fold owner viewer db) db rows l (ground arith) kept
    ]
