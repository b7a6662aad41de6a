-- ===== src/Comment/Walk.antt =====
-- `ListByIssue` and `ListByPR` of internal/services/comment/service.go, read page by page.
use gitwise.Prelude.{ℕ, ℤ, String, Option, none, some, List}
use gitwise.Action.{Action, Result, ok, err, no_faults, gets, or_raise, raise_if, ◌>>=◌, ◌>>◌}
use gitwise.Db.{Db}
use gitwise.Page.{Codec, ascending, clamp_limit, page, next_cursor}
use gitwise.Comment.{Error, invalid_cursor, Comment, Target, created_at, comment_id, listed, list}

abbrev value : {E A : Type 0} → Result E A → Option A
value (ok a) = some a
value (err e) = none

module _ (codec : Codec) (target : Target) (limit : ℤ) (db : Db) where
  -- the answer to the request with this cursor, while the comments stay as they are
  abbrev pub ask : String → Option (List Comment × String)
  ask s = value (list codec no_faults target s limit db).0

  -- the answer, by what the cursor means
  abbrev given : Option (Option (ℕ × ℕ)) → Action Db Error (List Comment × String)
  given o = do
    c ← or_raise o invalid_cursor
    raise_if (no_faults 0) Error.internal
    gets λ db.
        let p = page created_at comment_id ascending (clamp_limit 50 limit) c (listed target db) in
        (p.0, next_cursor codec p.1)
