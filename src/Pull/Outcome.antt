-- ===== src/Pull/Outcome.antt =====
-- What a successful `Merge` has checked and written, and what a failed one leaves behind.
use gitwise.Prelude.{
  ℕ, String, Bool, true, not, ◌&&◌, ◌||◌, some, ◌≡◌, ◌⊎◌, inl, inr, arith, Bool-cases, Option-cases,
  update_where,
}
use gitwise.Action.{Faults, Result, ok, err, Result-cases}
use gitwise.Db.{UserRow}
use gitwise.Git.{Git}
use gitwise.Pull.{Error, merge_failed, World, PullRequest, user_of, is_pull, find_pull}
use gitwise.Pull.Merge.{
  MergePullRequestRequest, strategy_of, is_strategy, admit, record_merge, set_merged, merge_message,
  merge,
}
use gitwise.Pull.Merging.{IsMergeable, admit_db, admit_ok}

module _ (g : Git) (collate : String → String → Bool) (fails : Faults)
    (now repo number merger_id : ℕ) (owner name : String) (req : MergePullRequestRequest)
    (w : World g) where
  abbrev pub outcome : Result Error PullRequest × World g
  outcome = merge g collate fails now repo number merger_id owner name req w

  abbrev pub strategy : String
  strategy = strategy_of req.strategy

  -- the result of the git merge of a pull request
  abbrev pub git_merged : UserRow → PullRequest → Bool
  git_merged m pr =
      (g.merge_branches owner name pr.row.target_branch pr.row.source_branch strategy
        (merge_message req.message pr.row) m.username m.email w.disk).0

  -- what has been checked and written by a merge of `pr` on behalf of `m`
  abbrev pub IsMergeOf : UserRow → PullRequest → Type 0
  IsMergeOf m pr =
      (is_strategy strategy ≡ true)
      × (user_of merger_id w.db ≡ some m)
      × (find_pull repo number w.db ≡ some pr)
      × IsMergeable collate fails repo number w.db strategy pr.row
      × (git_merged m pr ≡ true)
      × (outcome.1.db ≡ record (w.db) {
        pull_requests =
            update_where (is_pull repo number) (set_merged now merger_id strategy)
              w.db.pull_requests;
      })

  -- A merge that succeeds was asked for with a known strategy by an existing user; the pull request
  -- was there and open; the rule that protects its target branch, if there is one, has as many
  -- approving reviewers as it requires and no merge commit where it requires a linear history; git
  -- has merged the branches; and the row is marked as merged, and nothing else in the database
  -- has changed.
  pub merge_ok :
      (r : PullRequest) → outcome.0 ≡ ok r → (m : UserRow) × (pr : PullRequest) × IsMergeOf m pr
  unfolding merge record_merge
  merge_ok r h = elim (Option-cases (user_of merger_id w.db)) [
    | inl e ↦ absurd (ground arith)
    | inr (m, e) ↦
        let kept = admit_db collate fails repo number w.db strategy in
        elim (Result-cases (admit collate fails repo number strategy w.db).0) [
          | inl (pr, e') ↦
              let (found, mergeable) = admit_ok collate fails repo number w.db strategy pr e' in
              (
                m,
                pr,
                (
                  ground (arith, kept),
                  e,
                  found,
                  mergeable,
                  ground (arith, kept),
                  ground (arith, kept),
                ),
              )
          | inr (x, e') ↦ absurd (ground (arith, kept))
        ]
  ]

  merge_err_db : (x : Error) → outcome.0 ≡ err x → outcome.1.db ≡ w.db
  unfolding merge record_merge
  merge_err_db x h = elim (Option-cases (user_of merger_id w.db)) [
    | inl e ↦ ground arith
    | inr (m, e) ↦
        let kept = admit_db collate fails repo number w.db strategy in
        elim (Result-cases (admit collate fails repo number strategy w.db).0) [
          | inl (pr, e') ↦ ground (arith, kept)
          | inr (y, e') ↦ ground (arith, kept)
        ]
  ]

  -- the disk is as it was, or git has been at work before the error
  abbrev pub IsDiskOutcome : Error → Type 0
  IsDiskOutcome x =
      (outcome.1.disk ≡ w.disk) ⊎ (x ≡ merge_failed) ⊎ (fails 5 ≡ true) ⊎ (fails 6 ≡ true)

  merge_err_disk : (x : Error) → outcome.0 ≡ err x → IsDiskOutcome x
  unfolding merge record_merge
  merge_err_disk x h = elim (Bool-cases (fails 5 || fails 6)) [
    | inl f ↦ inr (inr (ground arith))
    | inr f ↦ elim (Bool-cases (is_strategy strategy && not (fails 0))) [
      | inr f' ↦ inl (ground arith)
      | inl f' ↦ elim (Option-cases (user_of merger_id w.db)) [
        | inl e ↦ inl (ground arith)
        | inr (m, e) ↦
            let kept = admit_db collate fails repo number w.db strategy in
            elim (Result-cases (admit collate fails repo number strategy w.db).0) [
              | inl (pr, e') ↦ elim (Bool-cases (git_merged m pr)) [
                | inl t ↦ inl (ground (arith, kept))
                | inr t ↦ inr (inl (ground (arith, kept)))
              ]
              | inr (y, e') ↦ inl (ground (arith, kept))
            ]
      ]
    ]
  ]

  -- A merge that fails leaves the database as it was. It leaves the disk as it was too, unless git
  -- failed during the merge, or a statement after the git merge failed.
  pub merge_err : (x : Error) → outcome.0 ≡ err x → (outcome.1.db ≡ w.db) × IsDiskOutcome x
  merge_err x h = (merge_err_db x h, merge_err_disk x h)
