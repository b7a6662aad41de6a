-- ===== src/Webhook/Unstored.antt =====
-- A receiver whose answers PostgreSQL cannot store.
use mathlib.Core.List.{Memᴰ}
use gitwise.Prelude.{
  ℕ, ◌+◌, ◌≤◌, ◌<◌, true, none, some, List, [], ◌∷◌, ◌≡◌, refl, ap, sym, subst, ◌∙◌, inl, inr,
  arith, length, map, find, All, Option-cases, Bool-cases,
}
use gitwise.Action.{no_faults}
use gitwise.Db.{Db, WebhookRow, DeliveryRow}
use gitwise.Field.{is_given}
use gitwise.Webhook.Delivery.{Net, Answers, Post, prepare, text_of}
use gitwise.Webhook.Retry.{
  Pending, is_due, joins, pending, retry_delivery, retry_all, retry_pending,
}
use gitwise.Webhook.Attempts.{count_sent, count_sent-append, prepare-id}
use gitwise.Webhook.History.{retries, run}

abbrev pub AreUnstored : Answers → Type 0
AreUnstored answers = (k : ℕ) → text_of (answers k) ≡ none

-- the delivery of `d` to `w` can be sent at any time
abbrev pub IsSendable : Net → DeliveryRow → WebhookRow → Type 0
IsSendable n d w =
    (t : ℕ) → is_given (prepare n t d.id w.url w.secret d.event_type d.payload) ≡ true

module _ (n : Net) (answers : Answers) (unstored : AreUnstored answers) where
  retry_delivery-same :
      (now : ℕ) (p : Pending) (s : Post) (i : ℕ)
      → ((retry_delivery n answers (no_faults 0) now p s).db ≡ s.db)
        × (count_sent i s.sent ≤ count_sent i (retry_delivery n answers (no_faults 0) now p s).sent)
  unfolding retry_delivery
  retry_delivery-same now p s i =
      let d = p.delivery in
      elim (Option-cases (prepare n now d.id p.url p.secret d.event_type d.payload)) [
        | inl e ↦ ground arith
        | inr (r, e) ↦ ground (arith, unstored (length s.sent), count_sent-append i s.sent r)
      ]

  retry_all-same :
      (now : ℕ) (ps : List Pending) (s : Post) (i : ℕ)
      → ((retry_all n answers no_faults now ps s).db ≡ s.db)
        × (count_sent i s.sent ≤ count_sent i (retry_all n answers no_faults now ps s).sent)
  unfolding retry_all
  retry_all-same now [] s i = (refl, omega arith)
  retry_all-same now (p ∷ ps) s i =
      let (e, h) = retry_delivery-same now p s i in
      let (f, k) = retry_all-same now ps (retry_delivery n answers (no_faults 0) now p s) i in
      (f ∙ e, omega arith)

  retry_all-sends :
      (now : ℕ) (ps : List Pending) (p : Pending) (s : Post)
      → Memᴰ p ps
      → is_given
          (prepare n now p.delivery.id p.url p.secret p.delivery.event_type p.delivery.payload)
        ≡ true
      → count_sent p.delivery.id s.sent
        < count_sent p.delivery.id (retry_all n answers no_faults now ps s).sent
  unfolding retry_all retry_delivery
  retry_all-sends now [] p s m g = elim m [ ]
  retry_all-sends now (q ∷ ps) p s (Memᴰ.head same) g =
      let d = p.delivery in
      elim (Option-cases (prepare n now d.id p.url p.secret d.event_type d.payload)) [
        | inl e ↦ absurd (ground arith)
        | inr (r, e) ↦
            let own = prepare-id n now d.id p.url p.secret d.event_type d.payload r e in
            let (f, k) =
              retry_all-same now ps (retry_delivery n answers (no_faults 0) now p s) d.id in
            subst
              (λ (x : Pending).
                count_sent d.id s.sent
                < count_sent d.id (retry_all n answers no_faults now (x ∷ ps) s).sent)
              same (ground (arith, count_sent-append d.id s.sent r))
      ]
  retry_all-sends now (q ∷ ps) p s (Memᴰ.tail m) g =
      let (f, k) = retry_delivery-same now q s p.delivery.id in
      let h = retry_all-sends now ps p (retry_delivery n answers (no_faults 0) now q s) m g in
      omega arith

  pending-Mem :
      (now : ℕ) (ws : List WebhookRow) (ds : List DeliveryRow) (d : DeliveryRow) (w : WebhookRow)
      → find (joins d) ws ≡ some w
      → is_due now d ≡ true
      → Memᴰ d ds
      → Memᴰ (record { delivery = d; url = w.url; secret = w.secret }) (pending now ws ds)
  unfolding pending
  pending-Mem now ws [] d w f u m = elim m [ ]
  pending-Mem now ws (c ∷ ds) d w f u (Memᴰ.head same) =
      subst
        (λ (x : DeliveryRow).
          Memᴰ (record { delivery = d; url = w.url; secret = w.secret }) (pending now ws (x ∷ ds)))
        same (rw (f, pending) (rw u (Memᴰ.head refl)))
  pending-Mem now ws (c ∷ ds) d w f u (Memᴰ.tail m) =
      let rest = pending-Mem now ws ds d w f u m in
      elim (Option-cases (find (joins c) ws)) [
        | inl e ↦ rw (e, pending) rest
        | inr (v, e) ↦ elim (Bool-cases (is_due now c)) [
          | inl due ↦ rw (e, pending) (rw due (Memᴰ.tail rest))
          | inr not_due ↦ rw (e, pending) (rw not_due rest)
        ]
      ]

  -- A delivery that is due is sent again by every run of the retry loop, as often as there are runs
  -- at times when it is due, and the database stays as it is, if PostgreSQL does not store the texts
  -- of the answers. Its webhook is active, and requests can be built for it.
  pub run-unstored :
      (times : List ℕ) (d : DeliveryRow) (w : WebhookRow) (s : Post)
      → Memᴰ d s.db.webhook_deliveries
      → find (joins d) s.db.webhooks ≡ some w
      → IsSendable n d w
      → All (λ t. is_due t d ≡ true) times
      → ((run n answers s (map (retries no_faults) times)).db ≡ s.db)
        × (count_sent d.id s.sent + length times
            ≤ count_sent d.id (run n answers s (map (retries no_faults) times)).sent)
  unfolding run retry_pending
  run-unstored [] d w s m f g u = (refl, omega arith)
  run-unstored (t ∷ times) d w s m f g (u, us) =
      let ps = pending t s.db.webhooks s.db.webhook_deliveries in
      let (e, h) = retry_all-same t ps s d.id in
      let more =
        retry_all-sends t ps (record { delivery = d; url = w.url; secret = w.secret }) s
          (pending-Mem t s.db.webhooks s.db.webhook_deliveries d w f u m) (g t) in
      let s' = retry_all n answers no_faults t ps s in
      let (e', h') =
        run-unstored times d w s' (subst (λ (x : Db). Memᴰ d x.webhook_deliveries) (sym e) m)
          (ap (λ (x : Db). find (joins d) x.webhooks) e ∙ f) g us in
      (e' ∙ e, omega arith)
