-- ===== src/Webhook/Retries.antt =====
-- What the retry loop sends, over every history of the deliveries.
use gitwise.Prelude.{
  ℕ, suc, ◌+◌, ◌≤◌, ◌<◌, true, false, List, [], ◌∷◌, ◌++◌, ◌≡◌, ap, subst, ◌∙◌, update_where, inl,
  inr, arith, ◌==◌, length, find, Option-cases, Bool-cases,
}
use gitwise.Action.{Faults}
use gitwise.Db.{WebhookRow, DeliveryRow}
use gitwise.Field.{is_given}
use gitwise.Webhook.Delivery.{Net, Request, Answers, Post, prepare, text_of}
use gitwise.Webhook.Retry.{
  Pending, is_due, joins, retried, pending, retry_delivery, retry_all, retry_pending,
}
use gitwise.Webhook.Attempts.{
  count_sent, count_sent-append, Counted, Counted-rewrite, IsKept, prepare-id,
}

-- the deliveries of a run, with ascending identifiers, each with its requests counted
abbrev Due : ℕ → List Request → ℕ → List Pending → Type 0
Due next sent lo [] = Unit
Due next sent lo (p ∷ ps) =
    (lo ≤ p.delivery.id)
    × (p.delivery.id < next)
    × (count_sent p.delivery.id sent ≡ p.delivery.attempts)
    × (p.delivery.attempts < 3)
    × Due next sent (suc p.delivery.id) ps

module _ (next : ℕ) (sent : List Request) where
  Due-mono : (lo hi : ℕ) (ps : List Pending) → lo ≤ hi → Due next sent hi ps → Due next sent lo ps
  Due-mono lo hi [] h k = tt
  Due-mono lo hi (p ∷ ps) h (a, b, c, d, k) = (omega arith, b, c, d, k)

  Due-append :
      (r : Request) (lo : ℕ) (ps : List Pending)
      → r.id < lo
      → Due next sent lo ps
      → Due next (sent ++ r ∷ []) lo ps
  Due-append r lo [] h k = tt
  Due-append r lo (p ∷ ps) h (a, b, c, d, k) = (
    a,
    b,
    ground (arith, count_sent-append p.delivery.id sent r),
    d,
    Due-append r (suc p.delivery.id) ps (omega arith) k,
  )

  pending-Due :
      (now : ℕ) (ws : List WebhookRow) (lo : ℕ) (ds : List DeliveryRow)
      → Counted next sent lo ds
      → Due next sent lo (pending now ws ds)
  unfolding pending
  pending-Due now ws lo [] k = tt
  pending-Due now ws lo (d ∷ ds) (a, b, c, k) =
      let rest = pending-Due now ws (suc d.id) ds k in
      let wider = Due-mono lo (suc d.id) (pending now ws ds) (omega arith) rest in
      elim (Option-cases (find (joins d) ws)) [
        | inl e ↦ rw (e, pending) wider
        | inr (w, e) ↦ elim (Bool-cases (is_due now d)) [
          | inl due ↦ rw (e, pending) (rw due (a, b, ground arith, ground arith, rest))
          | inr not_due ↦ rw (e, pending) (rw not_due wider)
        ]
      ]

-- PostgreSQL stores the text of each answer
abbrev pub AreReadable : Answers → Type 0
AreReadable answers = (k : ℕ) → is_given (text_of (answers k)) ≡ true

module _ (n : Net) (answers : Answers) (readable : AreReadable answers) where
  retry_delivery-IsKept :
      (now : ℕ) (p : Pending) (s : Post)
      → p.delivery.id < s.next
      → count_sent p.delivery.id s.sent ≡ p.delivery.attempts
      → p.delivery.attempts < 3
      → IsKept s
      → IsKept (retry_delivery n answers false now p s)
  unfolding retry_delivery
  retry_delivery-IsKept now p s below same few k =
      let d = p.delivery in
      elim (Option-cases (prepare n now d.id p.url p.secret d.event_type d.payload)) [
        | inl e ↦ rw (e, retry_delivery) k
        | inr (r, e) ↦ elim (Option-cases (text_of (answers (length s.sent)))) [
          | inl f ↦ absurd (ground (arith, readable (length s.sent)))
          | inr (b, f) ↦
              let own : r.id ≡ d.id =
                prepare-id n now d.id p.url p.secret d.event_type d.payload r e in
              rw (e, f, retry_delivery)
                (record {
                  rows =
                      subst
                        (λ (i : ℕ). Counted s.next (s.sent ++ r ∷ []) 0 (
                          update_where (λ x. x.id == i)
                            (retried (d.attempts + 1) now (answers (length s.sent)) b)
                            s.db.webhook_deliveries))
                        own
                        (Counted-rewrite s.next s.sent r d.attempts now (answers (length s.sent)) b
                          0 s.db.webhook_deliveries (ap (λ (i : ℕ). count_sent i s.sent) own ∙ same)
                          few k.rows);
                  bound = λ i. ground (arith, count_sent-append i s.sent r, k.bound i);
                  fresh = λ i h. ground (arith, count_sent-append i s.sent r, k.fresh i);
                })
        ]
      ]

  -- what is due after one of the run was sent
  Due-retry_delivery :
      (now : ℕ) (p : Pending) (ps : List Pending) (s : Post)
      → Due s.next s.sent (suc p.delivery.id) ps
      → Due
          (retry_delivery n answers false now p s).next
          (retry_delivery n answers false now p s).sent
          (suc p.delivery.id)
          ps
  unfolding retry_delivery
  Due-retry_delivery now p ps s k =
      let d = p.delivery in
      elim (Option-cases (prepare n now d.id p.url p.secret d.event_type d.payload)) [
        | inl e ↦ rw (e, retry_delivery) k
        | inr (r, e) ↦
            let own : r.id ≡ d.id =
              prepare-id n now d.id p.url p.secret d.event_type d.payload r e in
            rw (e, retry_delivery) (Due-append s.next s.sent r (suc d.id) ps (omega arith) k)
      ]

  retry_all-IsKept :
      (fails : Faults) (now lo : ℕ) (ps : List Pending) (s : Post)
      → ((k : ℕ) → fails k ≡ false)
      → Due s.next s.sent lo ps
      → IsKept s
      → IsKept (retry_all n answers fails now ps s)
  unfolding retry_all
  retry_all-IsKept fails now lo [] s passes u k = k
  retry_all-IsKept fails now lo (p ∷ ps) s passes (a, b, c, d, u) k =
      rw (passes 0, retry_all)
        (retry_all-IsKept (λ i. fails (suc i)) now (suc p.delivery.id) ps
          (retry_delivery n answers false now p s) (λ i. passes (suc i))
          (Due-retry_delivery now p ps s u) (retry_delivery-IsKept now p s b c d k))

  pub retry_pending-IsKept :
      (fails : Faults) (now : ℕ) (s : Post)
      → ((k : ℕ) → fails (suc k) ≡ false)
      → IsKept s
      → IsKept (retry_pending n answers fails now s).1
  unfolding retry_pending
  retry_pending-IsKept fails now s passes k = elim (Bool-cases (fails 0)) [
    | inl e ↦ rw (e, retry_pending) k
    | inr e ↦
        rw (e, retry_pending)
          (retry_all-IsKept (λ i. fails (suc i)) now 0
            (pending now s.db.webhooks s.db.webhook_deliveries) s passes
            (pending-Due s.next s.sent now s.db.webhooks 0 s.db.webhook_deliveries k.rows) k)
  ]
