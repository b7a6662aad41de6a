-- ===== src/Team/Access.antt =====
-- The permission that `GetUserRepoPermission` returns is the strongest that a team grants.
use mathlib.Core.List.{Memᴰ}
use gitwise.Prelude.{
  ℕ, zero, ◌≤◌, String, true, false, Option, none, some, List, [], ◌∷◌, ◌≡◌, refl, sym, subst, ◌⊎◌,
  inl, inr, arith, str_eq, str_eq_iff, head?, All, All-keep, All-Mem, Bool-cases,
}
use gitwise.Action.{Faults, no_faults, ok, err}
use gitwise.Db.{Db, TeamRow}
use gitwise.Db.Order.{order_by, head?-order_by-Mem, head?-order_by-eq-none, head?-order_by-least}
use gitwise.Team.{internal, valid_permission, is_valid_permission, permission_level}
use gitwise.Team.Permission.{
  sort_key, sorts_before, stronger, is_owner_role, best_permission, granting, org_role,
  get_user_repo_permission,
}

sorts_before_total : (a b : Option ℕ) → sorts_before a b ≡ false → sorts_before b a ≡ true
sorts_before_total none b h = cc
sorts_before_total (some a) none h = refl
sorts_before_total (some a) (some b) h = ground arith

sorts_before_trans :
    (a b c : Option ℕ) → sorts_before a b ≡ true → sorts_before b c ≡ true → sorts_before a c ≡ true
sorts_before_trans none b c h k = refl
sorts_before_trans (some a) none c h k = cc
sorts_before_trans (some a) (some b) none h k = cc
sorts_before_trans (some a) (some b) (some c) h k = ground arith

-- the check constraint on `org_teams.permission`
abbrev pub HasValidPermissions : List TeamRow → Type 0
HasValidPermissions = All (λ t. is_valid_permission t.permission ≡ true)

at_name :
    (perm name : String)
    → str_eq perm name ≡ true
    → sort_key name ≡ valid_permission name
    → sort_key perm ≡ valid_permission perm
at_name perm name e h =
    subst (λ (x : String). sort_key x ≡ valid_permission x) (sym ((str_eq_iff perm name).0 e)) h

-- the order of the SELECT is that of the Go map
sort_key-eq-valid_permission : (perm : String) → sort_key perm ≡ valid_permission perm
sort_key-eq-valid_permission perm = elim (Bool-cases (str_eq perm "admin")) [
  | inl e ↦ at_name perm "admin" e refl
  | inr a ↦ elim (Bool-cases (str_eq perm "write")) [
    | inl e ↦ at_name perm "write" e refl
    | inr w ↦ elim (Bool-cases (str_eq perm "triage")) [
      | inl e ↦ at_name perm "triage" e refl
      | inr t ↦ rw (a, w, t) refl
    ]
  ]
]

level-le :
    (a b : TeamRow)
    → is_valid_permission a.permission ≡ true
    → stronger a b ≡ true
    → permission_level b.permission ≤ permission_level a.permission
unfolding permission_level
level-le a b v h = go (valid_permission a.permission) (valid_permission b.permission) v (
    rw (← sort_key-eq-valid_permission a.permission, ← sort_key-eq-valid_permission b.permission) h)
  where
    go :
        (x y : Option ℕ)
        → (elim x [ none ↦ false | some n ↦ true ]) ≡ true
        → sorts_before x y ≡ true
        → (let m : ℕ = elim y [ none ↦ zero | some n ↦ n ] in m)
          ≤ (let m : ℕ = elim x [ none ↦ zero | some n ↦ n ] in m)
    go none y v h = cc
    go (some n) none v h = omega arith
    go (some n) (some m) v h = ground arith

levels-le :
    (a : TeamRow) (ts : List TeamRow)
    → is_valid_permission a.permission ≡ true
    → All (λ t. stronger a t ≡ true) ts
    → All (λ t. permission_level t.permission ≤ permission_level a.permission) ts
levels-le a [] v h = tt
levels-le a (t ∷ ts) v h = (level-le a t v h.0, levels-le a ts v h.1)

-- `p` is the permission of one of the teams and none has a higher level; with no team it is empty.
abbrev pub IsStrongest : String → List TeamRow → Type 0
IsStrongest p ts =
    All (λ t. permission_level t.permission ≤ permission_level p) ts
    × ((ts ≡ []) × (p ≡ "") ⊎ ((t : TeamRow) × Memᴰ t ts × (t.permission ≡ p)))

best-IsStrongest :
    (ts : List TeamRow)
    → HasValidPermissions ts
    → IsStrongest (best_permission (head? (order_by stronger ts))) ts
best-IsStrongest ts v = go (head? (order_by stronger ts)) refl
  where
    go :
        (o : Option TeamRow) → head? (order_by stronger ts) ≡ o → IsStrongest (best_permission o) ts
    go none e =
        let empty : ts ≡ [] = head?-order_by-eq-none stronger ts e in
        (
          subst (All (λ t. permission_level t.permission ≤ permission_level "")) (sym empty) tt,
          inl (empty, refl),
        )
    go (some a) e =
        let m = head?-order_by-Mem stronger a ts e in
        (
          levels-le a ts (All-Mem (λ t. is_valid_permission t.permission ≡ true) a ts v m) (
              head?-order_by-least stronger
                (λ x y. sorts_before_total (sort_key x.permission) (sort_key y.permission))
                (λ x y z.
                  sorts_before_trans (sort_key x.permission) (sort_key y.permission)
                    (sort_key z.permission))
                a ts e),
          inr (a, m, refl),
        )

-- With no fault, an owner of the organization that owns the repository gets "admin"; any other user
-- gets the strongest permission among the teams that have both the user and the repository, and
-- the empty text exactly when there is no such team. Nothing is written.
pub get_user_repo_permission-IsStrongest :
    (db : Db) (user repo : ℕ)
    → HasValidPermissions db.org_teams
    → (p : String) × (get_user_repo_permission no_faults user repo db ≡ (ok p, db))
      × (is_owner_role (org_role user repo db) ≡ true → p ≡ "admin")
      × (is_owner_role (org_role user repo db) ≡ false → IsStrongest p (granting user repo db))
unfolding get_user_repo_permission
get_user_repo_permission-IsStrongest db user repo v =
    let strongest : IsStrongest
        (best_permission (head? (order_by stronger (granting user repo db))))
        (granting user repo db) =
      best-IsStrongest (granting user repo db) (All-keep _ _ db.org_teams v) in
    elim (Bool-cases (is_owner_role (org_role user repo db))) [
      | inl e ↦ ("admin", rw e, λ _. refl, λ f. cc)
      | inr e ↦ (
        best_permission (head? (order_by stronger (granting user repo db))),
        rw e,
        λ f. cc,
        λ _. strongest,
      )
    ]

-- A failing statement never turns into access: the call returns the driver's error, or "admin" for
-- an owner whose role was read before.
get_user_repo_permission_fails_closed :
    (db : Db) (fails : Faults) (user repo : ℕ)
    → (fails 0 ≡ true) ⊎ (fails 1 ≡ true)
    → ((get_user_repo_permission fails user repo db).0 ≡ err internal)
      ⊎ (((get_user_repo_permission fails user repo db).0 ≡ ok "admin")
          × (is_owner_role (org_role user repo db) ≡ true))
unfolding get_user_repo_permission
get_user_repo_permission_fails_closed db fails user repo h = ground arith
