-- ===== src/Tests/Reviews.antt =====
-- Reviews and their threads at the sample.
use mathlib.Core.List.{Memᴰ}
use gitwise.Prelude.{
  pos, String, Bool, true, false, none, List, [], ◌∷◌, ◌≡◌, ◌≢◌, refl, str_eq, str_eq_iff, arith,
  any, All,
}
use gitwise.Action.{no_faults, ok, err}
use gitwise.Db.{Db, InlineComment, ReviewRow, null, array}
use gitwise.Review.Summary.{lookup, collect, internal, latest, summarize}
use gitwise.Review.{CreateReviewRequest, in_thread, is_affected, create, resolve_thread}
use gitwise.Review.Threads.{create_blocks_resolve_thread}
use gitwise.Review.Resolve.{AreSet, resolve_thread-AreSet}
use gitwise.Pull.History.{updates, merges}
use gitwise.Review.History.{Call, on_pulls, creates_review, resolves, run, IsStill, merged_is_final}
use gitwise.Tests.Pulls.{retitle, squash, sample-Inv}
use gitwise.Tests.Sample.{sample, review, merged_pull, any_order, counting, world}

abbrev comment : String → Bool → InlineComment
comment t b = record {
  path = "a.go";
  line = pos 1;
  side = "new";
  body = "b";
  thread_id = t;
  resolved = b;
}

abbrev comments : List InlineComment
comments = comment "t1" false ∷ comment "" true ∷ comment "t1" true ∷ comment "t2" false ∷ []

differ : (a b : String) → str_eq a b ≡ false → a ≢ b
differ a b h e = ground (arith, str_eq_iff a b)

abbrev objection : CreateReviewRequest
objection = record { kind = "changes_requested"; body = "no"; comments = none }

abbrev objected : ReviewRow
objected = record {
  id = 41;
  pr_id = 30;
  author_id = 2;
  kind = "changes_requested";
  body = "no";
  comments = null;
  submitted_at = 9;
}

objection_is_stored :
    (create no_faults 41 9 30 2 objection sample).0
    ≡ ok (record { row = objected; author_name = "bob" })
unfolding create gitwise.Review.Summary.update_review_summary
objection_is_stored = refl

create_blocks_resolve_thread_example :
    let db = (create no_faults 41 9 30 2 objection sample).1 in
    resolve_thread no_faults 10 30 "t1" true db ≡ (err internal, db)
create_blocks_resolve_thread_example =
    create_blocks_resolve_thread no_faults no_faults 41 9 30 2 10 objection
      (record { row = objected; author_name = "bob" }) "t1" true sample refl objection_is_stored

abbrev commented : Db
commented = record sample { reviews = record review { comments = array comments } ∷ [] }

thread_is_set : (resolve_thread no_faults 9 30 "t2" true commented).0 ≡ ok tt
unfolding resolve_thread gitwise.Review.Summary.update_review_summary
thread_is_set = refl

resolve_thread-AreSet_example :
    (any (is_affected 30 "t2") commented.reviews ≡ true)
    × All (AreSet 30 "t2" true) (resolve_thread no_faults 9 30 "t2" true commented).1.reviews
resolve_thread-AreSet_example =
    resolve_thread-AreSet no_faults 9 30 "t2" true commented thread_is_set

abbrev approval : CreateReviewRequest
approval = record { kind = "approval"; body = ""; comments = none }

-- reviews of a merged pull request, between calls that try to change it
abbrev history : List Call
history =
    creates_review no_faults 42 9 31 2 approval
    ∷ on_pulls (updates no_faults 10 20 2 retitle)
    ∷ resolves no_faults 11 31 "t1" true
    ∷ on_pulls (merges no_faults 12 20 2 1 "acme" "site" squash)
    ∷ []

merged_is_final_example :
    IsStill merged_pull (run counting any_order world history).db.pull_requests
merged_is_final_example =
    merged_is_final merged_pull counting any_order world history refl sample-Inv
      (Memᴰ.tail (Memᴰ.head refl))
