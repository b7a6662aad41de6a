-- ===== src/Webhook/Attempts.antt =====
-- How often a delivery is sent: the rows of `webhook_deliveries` count the requests.
use gitwise.Prelude.{
  ℕ, suc, ◌+◌, ◌≤◌, ◌<◌, String, Bool, true, false, not, ◌&&◌, Option, none, some, List, [], ◌∷◌,
  ◌++◌, ◌≡◌, refl, inl, inr, arith, ltb, ◌==◌, if◌then◌else◌, length, keep, update_where,
  Option-cases,
}
use gitwise.Action.{Result, Faults}
use gitwise.Db.{WebhookRow, DeliveryRow}
use gitwise.Field.{is_given}
use gitwise.Webhook.Delivery.{
  Net, Request, Response, Answers, Post, body_of, prepare, text_of, row_of, insert, deliver,
  deliver_all,
}
use gitwise.Webhook.Retry.{retried}

-- how many of the requests are of this delivery
unfoldable pub count_sent : ℕ → List Request → ℕ
count_sent i [] = 0
count_sent i (r ∷ rs) = let rest = count_sent i rs in if r.id == i then suc rest else rest

pub count_sent-append :
    (i : ℕ) (rs : List Request) (r : Request)
    → count_sent i (rs ++ r ∷ []) ≡ (if r.id == i then suc (count_sent i rs) else count_sent i rs)
unfolding count_sent
count_sent-append i [] r = ground arith
count_sent-append i (q ∷ rs) r = ground (arith, count_sent-append i rs r)

-- the row has counted the requests, at most three, and has a time of the next one exactly if there is
-- to be one: it did not succeed, and there were fewer than three
abbrev pub IsCounted : List Request → DeliveryRow → Type 0
IsCounted sent d =
    (count_sent d.id sent ≡ d.attempts)
    × (d.attempts ≤ 3)
    × (is_given d.next_retry ≡ (not d.success && ltb d.attempts 3))

-- the rows have ascending identifiers from `lo` on, below `next`
abbrev pub Counted : ℕ → List Request → ℕ → List DeliveryRow → Type 0
Counted next sent lo [] = Unit
Counted next sent lo (d ∷ ds) =
    (lo ≤ d.id) × (d.id < next) × IsCounted sent d × Counted next sent (suc d.id) ds

module _ (next : ℕ) (sent : List Request) where
  pub Counted-mono :
      (lo hi : ℕ) (ds : List DeliveryRow)
      → lo ≤ hi
      → Counted next sent hi ds
      → Counted next sent lo ds
  Counted-mono lo hi [] h k = tt
  Counted-mono lo hi (d ∷ ds) h (a, b, c, k) = (omega arith, b, c, k)

  pub Counted-keep :
      (p : DeliveryRow → Bool) (lo : ℕ) (ds : List DeliveryRow)
      → Counted next sent lo ds
      → Counted next sent lo (keep p ds)
  Counted-keep p lo [] k = tt
  Counted-keep p lo (d ∷ ds) (a, b, c, k) =
      let rest = Counted-keep p (suc d.id) ds k in
      ground (arith, rest, Counted-mono lo (suc d.id) (keep p ds) (omega arith) rest)

  -- a delivery that is sent for the first time
  pub Counted-skip :
      (r : Request) (lo : ℕ) (ds : List DeliveryRow)
      → r.id ≡ next
      → Counted next sent lo ds
      → Counted (suc next) (sent ++ r ∷ []) lo ds
  Counted-skip r lo [] e k = tt
  Counted-skip r lo (d ∷ ds) e (a, b, c, k) = (
    a,
    omega arith,
    ground (arith, count_sent-append d.id sent r),
    Counted-skip r (suc d.id) ds e k,
  )

  pub Counted-later :
      (lo : ℕ) (ds : List DeliveryRow) → Counted next sent lo ds → Counted (suc next) sent lo ds
  Counted-later lo [] k = tt
  Counted-later lo (d ∷ ds) (a, b, c, k) = (a, omega arith, c, Counted-later (suc d.id) ds k)

  pub Counted-append :
      (r : Request) (new : DeliveryRow) (lo : ℕ) (ds : List DeliveryRow)
      → r.id ≡ next
      → new.id ≡ next
      → IsCounted (sent ++ r ∷ []) new
      → lo ≤ next
      → Counted next sent lo ds
      → Counted (suc next) (sent ++ r ∷ []) lo (ds ++ new ∷ [])
  Counted-append r new lo [] e f c h k = (omega arith, omega arith, c, tt)
  Counted-append r new lo (d ∷ ds) e f c h (a, b, g, k) = (
    a,
    omega arith,
    ground (arith, count_sent-append d.id sent r),
    Counted-append r new (suc d.id) ds e f c (omega arith) k,
  )

  -- a delivery that is sent again
  pub Counted-rewrite :
      (r : Request) (a now : ℕ) (ans : Result String Response) (body : String) (lo : ℕ)
      (ds : List DeliveryRow)
      → count_sent r.id sent ≡ a
      → a < 3
      → Counted next sent lo ds
      → Counted next
          (sent ++ r ∷ [])
          lo
          (update_where (λ d. d.id == r.id) (retried (a + 1) now ans body) ds)
  Counted-rewrite r a now ans body lo [] e h k = tt
  Counted-rewrite r a now ans body lo (d ∷ ds) e h (x, y, c, k) =
      let rest = Counted-rewrite r a now ans body (suc d.id) ds e h k in
      ground (arith, rest, count_sent-append d.id sent r)

-- the state of the deliveries
pub record IsKept (s : Post) : Type 0 where
  pub rows : Counted s.next s.sent 0 s.db.webhook_deliveries
  pub bound : (i : ℕ) → count_sent i s.sent ≤ 3
  pub fresh : (i : ℕ) → s.next ≤ i → count_sent i s.sent ≡ 0

module _ (n : Net) where
  pub prepare-id :
      (now id : ℕ) (url secret event payload : String) (r : Request)
      → prepare n now id url secret event payload ≡ some r
      → r.id ≡ id
  unfolding prepare
  prepare-id now id url secret event payload r h =
      elim (Option-cases (body_of n now url event payload)) [
        | inl e ↦ ground arith
        | inr (b, e) ↦ ground arith
      ]

  -- the rows after the INSERT of a new delivery
  inserted :
      (failed : Bool) (now webhook : ℕ) (event payload : String) (r : Request)
      (a : Result String Response) (text : Option String) (s : Post)
      → r.id ≡ s.next
      → IsKept s
      → Counted
          (suc s.next)
          (s.sent ++ r ∷ [])
          0
          (insert failed text
            (row_of n s.next now webhook event payload r a)
            s.db).webhook_deliveries
  inserted failed now webhook event payload r a none s e k =
      Counted-skip s.next s.sent r 0 s.db.webhook_deliveries e k.rows
  inserted true now webhook event payload r a (some b) s e k =
      Counted-skip s.next s.sent r 0 s.db.webhook_deliveries e k.rows
  inserted false now webhook event payload r a (some b) s e k =
      Counted-append s.next s.sent r (row_of n s.next now webhook event payload r a b) 0
        s.db.webhook_deliveries e refl
        (ground (arith, count_sent-append s.next s.sent r, k.fresh s.next)) (omega arith) k.rows

  pub deliver-IsKept :
      (answers : Answers) (failed : Bool) (now : ℕ) (w : WebhookRow) (event payload : String)
      (s : Post)
      → IsKept s
      → IsKept (deliver n answers failed now w event payload s).1
  unfolding deliver
  deliver-IsKept answers failed now w event payload s k =
      elim (Option-cases (prepare n now s.next w.url w.secret event payload)) [
        | inl e ↦
            rw (e, deliver)
              (record {
                rows = Counted-later s.next s.sent 0 s.db.webhook_deliveries k.rows;
                bound = k.bound;
                fresh = λ i h. k.fresh i (omega arith);
              })
        | inr (r, e) ↦
            let same : r.id ≡ s.next = prepare-id now s.next w.url w.secret event payload r e in
            rw (e, deliver)
              (record {
                rows =
                    inserted failed now w.id event payload r (answers (length s.sent))
                      (text_of (answers (length s.sent))) s same k;
                bound =
                    λ i. ground (arith, count_sent-append i s.sent r, k.bound i, k.fresh s.next);
                fresh = λ i h. ground (arith, count_sent-append i s.sent r, k.fresh i);
              })
      ]

  pub deliver_all-IsKept :
      (answers : Answers) (fails : Faults) (now : ℕ) (ws : List WebhookRow) (event payload : String)
      (s : Post)
      → IsKept s
      → IsKept (deliver_all n answers fails now ws event payload s)
  unfolding deliver_all
  deliver_all-IsKept answers fails now [] event payload s k = k
  deliver_all-IsKept answers fails now (w ∷ ws) event payload s k =
      deliver_all-IsKept answers (λ i. fails (suc i)) now ws event payload
        (deliver n answers (fails 0) now w event payload s).1
        (deliver-IsKept answers (fails 0) now w event payload s k)
