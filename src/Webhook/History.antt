-- ===== src/Webhook/History.antt =====
-- Sequences of the calls that touch the deliveries.
use gitwise.Prelude.{
  ℕ, suc, String, Bool, false, not, List, [], ◌∷◌, ◌≡◌, refl, inl, inr, arith, keep, All,
  Option-cases, Bool-cases,
}
use gitwise.Action.{Faults}
use gitwise.Db.{Db, WebhookRow, DeliveryRow}
use gitwise.Webhook.Payload.{obj, Fields}
use gitwise.Webhook.Delivery.{Net, Answers, Post, subscribes, shortened, deliver_one, dispatch}
use gitwise.Webhook.Retry.{retry_pending}
use gitwise.Webhook.Attempts.{count_sent, Counted-keep, IsKept, deliver-IsKept, deliver_all-IsKept}
use gitwise.Webhook.Retries.{AreReadable, retry_pending-IsKept}

-- `edits` leaves another database behind with the same deliveries, as all other services do, and `drops`
-- takes deliveries away, as the deletion of a webhook or a repository does
pub data Call : Type 0 where
  dispatches : Faults → ℕ → ℕ → String → Fields → Call
  delivers_one : Bool → ℕ → WebhookRow → String → String → Call
  retries : Faults → ℕ → Call
  edits : Db → Call
  drops : (DeliveryRow → Bool) → Call

abbrev pub step : Net → Answers → Post → Call → Post
step n answers s (dispatches fails now repo_id event payload) =
    dispatch n answers fails now repo_id event payload s
step n answers s (delivers_one failed now w event payload) =
    (deliver_one n answers failed now w event payload s).1
step n answers s (retries fails now) = (retry_pending n answers fails now s).1
step n answers s (edits db) = record s {
  db = record db { webhook_deliveries = s.db.webhook_deliveries };
}
step n answers s (drops gone) = record s {
  db = record s.db { webhook_deliveries = keep (λ d. not (gone d)) s.db.webhook_deliveries };
}

unfoldable pub run : Net → Answers → Post → List Call → Post
run n answers s [] = s
run n answers s (c ∷ cs) = run n answers (step n answers s c) cs

-- no UPDATE of a retry fails
abbrev pub Passes : Call → Type 0
Passes (dispatches fails now repo_id event payload) = Unit
Passes (delivers_one failed now w event payload) = Unit
Passes (retries fails now) = (k : ℕ) → fails (suc k) ≡ false
Passes (edits db) = Unit
Passes (drops gone) = Unit

abbrev pub nothing_sent : Db → Post
nothing_sent db = record { db = record db { webhook_deliveries = [] }; sent = []; next = 0 }

module _ (n : Net) (answers : Answers) where
  dispatch-IsKept :
      (fails : Faults) (now repo_id : ℕ) (event : String) (payload : Fields) (s : Post)
      → IsKept s
      → IsKept (dispatch n answers fails now repo_id event payload s)
  unfolding dispatch
  dispatch-IsKept fails now repo_id event payload s k = elim (Bool-cases (fails 0)) [
    | inl e ↦ rw (e, dispatch) k
    | inr e ↦ elim (Option-cases (n.marshal (obj payload))) [
      | inl f ↦ rw (e, f, dispatch) k
      | inr (b, f) ↦
          rw (e, f, dispatch)
            (deliver_all-IsKept n answers (λ i. fails (suc i)) now
              (keep (subscribes repo_id event) s.db.webhooks) event (shortened n payload b) s k)
    ]
  ]

  step-IsKept :
      (readable : AreReadable answers) (s : Post) (c : Call)
      → Passes c
      → IsKept s
      → IsKept (step n answers s c)
  unfolding deliver_one
  step-IsKept readable s (dispatches fails now repo_id event payload) p k =
      dispatch-IsKept fails now repo_id event payload s k
  step-IsKept readable s (delivers_one failed now w event payload) p k =
      deliver-IsKept n answers failed now w event payload s k
  step-IsKept readable s (retries fails now) p k =
      retry_pending-IsKept n answers readable fails now s p k
  step-IsKept readable s (edits db) p k = record { rows = k.rows; bound = k.bound; fresh = k.fresh }
  step-IsKept readable s (drops gone) p k = record {
    rows = Counted-keep s.next s.sent (λ d. not (gone d)) 0 s.db.webhook_deliveries k.rows;
    bound = k.bound;
    fresh = k.fresh;
  }

  run-IsKept_from :
      (readable : AreReadable answers) (s : Post) (cs : List Call)
      → All Passes cs
      → IsKept s
      → IsKept (run n answers s cs)
  unfolding run
  run-IsKept_from readable s [] p k = k
  run-IsKept_from readable s (c ∷ cs) p k =
      run-IsKept_from readable (step n answers s c) cs p.1 (step-IsKept readable s c p.0 k)

  -- In every history of dispatches, test deliveries and runs of the retry loop, with any changes of the
  -- other tables and any deletions between them: no delivery is sent more than three times, and each
  -- row that is left says how often its delivery was sent, and has a time of the next retry exactly if
  -- it did not succeed and was sent fewer than three times. This needs that the answers' texts can be
  -- stored and that no UPDATE of a retry fails.
  pub run-IsKept :
      (db : Db) (cs : List Call)
      → AreReadable answers
      → All Passes cs
      → IsKept (run n answers (nothing_sent db) cs)
  unfolding count_sent
  run-IsKept db cs readable p =
      run-IsKept_from readable (nothing_sent db) cs p
        (record { rows = tt; bound = λ i. omega arith; fresh = λ i h. refl })
