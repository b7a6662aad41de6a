-- ===== src/Label.antt =====
-- internal/services/label/service.go and internal/models/label.go: the labels of a repository.
use gitwise.Prelude.{
  ℕ, String, Bool, not, ◌&&◌, ◌||◌, Option, List, [], ◌∷◌, ◌++◌, ltb, ◌==◌, if◌then◌else◌, str_eq,
  find, any, keep, update_where,
}
use gitwise.Text.{trim_space, byte_len}
use gitwise.Text.Names.{color_re}
use gitwise.Action.{Action, Faults, pure, gets, or_raise, modify, raise_if, ◌>>=◌, ◌>>◌}
use gitwise.Db.{Db, LabelRow}
use gitwise.Db.Order.{order_by}
use gitwise.Field.{or_old, is_given, refuses, trimmed}

pub data Error : Type 0 where
  not_found duplicate invalid_name invalid_color internal : Error

pub record CreateLabelRequest : Type 0 where
  pub name : String
  pub color : String
  pub description : String

pub record UpdateLabelRequest : Type 0 where
  pub name : Option String
  pub color : Option String
  pub description : Option String

abbrev pub bad_name : String → Bool
bad_name name = str_eq name "" || ltb 255 (byte_len name)

abbrev pub default_color : String → String
default_color color = if str_eq color "" then "#888888" else color

-- `UNIQUE (repo_id, name)`, and the primary key
abbrev pub clashes : LabelRow → LabelRow → Bool
clashes new l = l.id == new.id || l.repo_id == new.repo_id && str_eq l.name new.name

unfoldable pub create : Faults → ℕ → ℕ → CreateLabelRequest → Action Db Error LabelRow
create fails id repo_id req = do
  let name = trim_space req.name
  raise_if (bad_name name) invalid_name
  let color = default_color req.color
  raise_if (not (color_re color)) invalid_color
  let label : LabelRow = record {
    id = id;
    repo_id = repo_id;
    name = name;
    color = color;
    description = req.description;
  }
  raise_if (fails 0) internal
  taken ← gets (λ db. any (clashes label) db.labels)
  raise_if taken duplicate
  modify (λ db. record db { labels = db.labels ++ label ∷ [] })
  pure label

unfoldable pub list : (String → String → Bool) → Faults → ℕ → Action Db Error (List LabelRow)
list collate fails repo_id = do
  raise_if (fails 0) internal
  gets λ db. order_by (λ a b. collate a.name b.name) (keep (λ l. l.repo_id == repo_id) db.labels)

unfoldable pub get_by_id : Faults → ℕ → Action Db Error LabelRow
get_by_id fails id = do
  raise_if (fails 0) internal
  found ← gets (λ db. find (λ l. l.id == id) db.labels)
  or_raise found not_found

abbrev pub is_label : ℕ → ℕ → LabelRow → Bool
is_label repo_id id l = l.id == id && l.repo_id == repo_id

-- the SET clauses
abbrev pub assign : Option String → UpdateLabelRequest → LabelRow → LabelRow
assign name req l = record l {
  name = or_old name l.name;
  color = or_old req.color l.color;
  description = or_old req.description l.description;
}

-- another label of the repository has the new name
abbrev pub renames_onto : ℕ → LabelRow → LabelRow → Bool
renames_onto id new l = not (l.id == id) && l.repo_id == new.repo_id && str_eq l.name new.name

-- the UPDATE and its RETURNING
unfoldable pub write :
    Faults → ℕ → ℕ → Option String → UpdateLabelRequest → Action Db Error LabelRow
write fails repo_id id name req = do
  raise_if (fails 0) internal
  found ← gets (λ db. find (is_label repo_id id) db.labels)
  l ← or_raise found not_found
  taken ← gets (λ db. any (renames_onto id (assign name req l)) db.labels)
  raise_if taken duplicate
  modify λ db. record db { labels = update_where (is_label repo_id id) (assign name req) db.labels }
  pure (assign name req l)

abbrev pub is_empty_request : UpdateLabelRequest → Bool
is_empty_request req = not (is_given req.name || is_given req.color || is_given req.description)

unfoldable pub update : Faults → ℕ → ℕ → UpdateLabelRequest → Action Db Error LabelRow
update fails repo_id id req = do
  let name = trimmed req.name
  raise_if (refuses bad_name name) invalid_name
  raise_if (refuses (λ c. not (color_re c)) req.color) invalid_color
  if is_empty_request req then get_by_id fails id else write fails repo_id id name req

unfoldable pub delete : Faults → ℕ → ℕ → Action Db Error (Unit {0})
delete fails repo_id id = do
  raise_if (fails 0) internal
  affected ← gets (λ db. any (is_label repo_id id) db.labels)
  modify (λ db. record db { labels = keep (λ l. not (is_label repo_id id l)) db.labels })
  raise_if (not affected) not_found
