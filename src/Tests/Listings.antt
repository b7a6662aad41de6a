-- ===== src/Tests/Listings.antt =====
-- Pages of comments, with cursors that count in tallies.
use Prim.Native.Char.{Char}
use gitwise.Prelude.{ℕ, zero, suc, String, Bool, true, false, none, some, [], ◌∷◌}
use gitwise.Db.{Db, CommentRow}
use gitwise.Page.{Codec}
use gitwise.Comment.{created_at}
use gitwise.Tests.Sample.{sample}

-- a number as so many letters
tally : ℕ → String
tally zero = ""
tally (suc n) = String.◌∷◌ "a" (tally n)

count : String → ℕ
count (String.[]) = 0
count (String.◌∷◌ c s) = suc (count s)

is_empty : String → Bool
is_empty (String.[]) = true
is_empty (String.◌∷◌ c s) = false

abbrev tallies : Codec
tallies = record {
  b64_encode = λ s. s;
  b64_decode = λ s. some s;
  format_time = tally;
  parse_time = λ s. some (count s);
  uuid_string = tally;
  parse_uuid = λ s. some (count s);
}

abbrev comment : ℕ → ℕ → CommentRow
comment id time = record {
  id = id;
  repo_id = 20;
  issue_id = some 60;
  pr_id = none;
  author_id = 1;
  body = "b";
  body_history = [];
  created_at = time;
  updated_at = time;
}

abbrev discussed : Db
discussed = record sample { comments = comment 72 5 ∷ comment 71 5 ∷ comment 70 3 ∷ [] }
