-- ===== src/Queue/Refinement.antt =====
-- `Enqueue` and `dequeue` do what the queue promises.
use gitwise.Prelude.{
  ℕ, ℤ, pos, String, Option, none, some, List, [], ◌∷◌, ◌++◌, ◌≡◌, refl, ap, sym, subst, ◌∙◌, inl,
  inr, arith, if◌then◌else◌, if_true, if_false, Option-cases, Bool-cases,
}
use gitwise.Action.{Result, ok, err, no_faults, Faults}
use gitwise.Queue.{
  AgentTask, Queue, Error, Popped, pop_last, same_int, set_list, pop_from, no_task, with_id,
  enqueue, empty, task, pop, dequeue,
}
use gitwise.Queue.Order.{
  oldest, next_task, pop_from-append, same_int_refl, same_int-eq, same_int_comm, Held, Holds,
  Held-push, Held-skip, oldest-none, Taken, oldest-Taken, oldest-Held,
}

module _ (unmarshal : String → Option AgentTask) where
  pop-empty :
      (key : ℤ) (ts : List AgentTask) (q : Queue)
      → Holds unmarshal q ts
      → oldest key ts ≡ none
      → pop unmarshal key q ≡ (empty, q)
  pop-empty key ts q h e =
      let l : q.lists key ≡ [] = oldest-none unmarshal key ts (q.lists key) e (h key) in
      ground arith

  pop-oldest :
      (key : ℤ) (ts : List AgentTask) (q : Queue) (t : AgentTask) (rest : List AgentTask)
      → Holds unmarshal q ts
      → oldest key ts ≡ some (t, rest)
      → ((pop unmarshal key q).0 ≡ task t) × Holds unmarshal (pop unmarshal key q).1 rest
  unfolding Taken
  pop-oldest key ts q t rest h e =
      let (k, s, l, u, held) = oldest-Taken unmarshal key ts (q.lists key) t rest e (h key) in
      let found : pop_from (q.lists key) ≡ some (k, s) = ap pop_from l ∙ pop_from-append s k in
      let popped : pop unmarshal key q ≡ (task t, set_list key k q) = ground arith in
      (
        ground arith,
        subst (λ (x : Queue). Holds unmarshal x rest)
            (sym (ap (λ (x : Popped × Queue). x.1) popped))
            (λ r. elim (Bool-cases (same_int r key)) [
              | inl f ↦
                  subst (Held unmarshal r rest) (sym (if_true k (q.lists r) f))
                    (subst (λ (x : ℤ). Held unmarshal x rest k) (sym (same_int-eq r key f)) held)
              | inr f ↦
                  subst (Held unmarshal r rest) (sym (if_false k (q.lists r) f))
                    (oldest-Held unmarshal key r ts (q.lists r) t rest e f (h r))
            ]),
      )

  -- without a task of the first two priorities
  dequeue-last :
      (ts : List AgentTask) (q : Queue)
      → Holds unmarshal q ts
      → oldest (pos 1) ts ≡ none
      → oldest (pos 2) ts ≡ none
      → dequeue unmarshal no_faults q ≡ pop_last unmarshal no_faults q
  unfolding dequeue
  dequeue-last ts q h e f =
      let chat : q.lists (pos 1) ≡ [] =
        oldest-none unmarshal (pos 1) ts (q.lists (pos 1)) e (h (pos 1)) in
      let push : q.lists (pos 2) ≡ [] =
        oldest-none unmarshal (pos 2) ts (q.lists (pos 2)) f (h (pos 2)) in
      ground arith

  -- what `dequeue` is to do
  abbrev pub Takes :
      Option (AgentTask × List AgentTask) → List AgentTask → Result Error AgentTask × Queue → Type 0
  Takes none ts r = (r.0 ≡ err no_task) × Holds unmarshal r.1 ts
  Takes (some (t, rest)) ts r = (r.0 ≡ ok t) × Holds unmarshal r.1 rest

  -- If the Redis lists hold the tasks `ts`, `dequeue` without a failure of Redis takes the oldest task of
  -- priority 1, else the oldest of priority 2, else the oldest of priority 3, and the lists hold the
  -- other tasks. If there is none of these priorities, it says so and the lists hold what they held.
  pub dequeue-Takes :
      (ts : List AgentTask) (q : Queue)
      → Holds unmarshal q ts
      → Takes (next_task ts) ts (dequeue unmarshal no_faults q)
  unfolding dequeue next_task
  dequeue-Takes ts q h = elim (Option-cases (oldest (pos 1) ts)) [
    | inr ((t, rest), e) ↦
        let (a, b) = pop-oldest (pos 1) ts q t rest h e in
        rw (e, next_task) (rw (a, dequeue) (refl, b))
    | inl e ↦
        let none_1 = pop-empty (pos 1) ts q h e in
        elim (Option-cases (oldest (pos 2) ts)) [
          | inr ((t, rest), f) ↦
              let (a, b) = pop-oldest (pos 2) ts q t rest h f in
              rw (e, f, next_task) (rw (none_1, a, dequeue) (refl, b))
          | inl f ↦
              let none_2 = pop-empty (pos 2) ts q h f in
              elim (Option-cases (oldest (pos 3) ts)) [
                | inr ((t, rest), g) ↦
                    let (a, b) = pop-oldest (pos 3) ts q t rest h g in
                    rw (e, f, g, next_task)
                      (subst (Takes (some (t, rest)) ts) (sym (dequeue-last ts q h e f))
                        (rw a (refl, b)))
                | inl g ↦
                    let last : q.lists (pos 3) ≡ [] =
                      oldest-none unmarshal (pos 3) ts (q.lists (pos 3)) g (h (pos 3)) in
                    let gives_up : pop_last unmarshal no_faults q ≡ (err no_task, q) =
                      ground arith in
                    rw (e, f, g, next_task)
                      (subst (Takes none ts) (sym (dequeue-last ts q h e f ∙ gives_up)) (refl, h))
              ]
        ]
  ]

  -- If the Redis lists hold the tasks `ts` and `Enqueue` succeeds, they hold afterwards these tasks and
  -- the new one as the last, with an identifier, if its JSON text is read back as the task.
  pub enqueue-Holds :
      (marshal : AgentTask → Option String) (fails : Faults) (fresh : ℕ) (t : AgentTask)
      (ts : List AgentTask) (q : Queue)
      → ((s : String) → marshal (with_id fresh t) ≡ some s → unmarshal s ≡ some (with_id fresh t))
      → Holds unmarshal q ts
      → (enqueue marshal fails fresh t q).0 ≡ ok tt
      → Holds unmarshal (enqueue marshal fails fresh t q).1 (ts ++ with_id fresh t ∷ [])
  unfolding enqueue
  enqueue-Holds marshal fails fresh t ts q back h e =
      elim (Option-cases (marshal (with_id fresh t))) [
        | inl m ↦ absurd (ground arith)
        | inr (s, m) ↦
            let u = with_id fresh t in
            let pushed : (p : ℤ)
                → (enqueue marshal fails fresh t q).1.lists p
                  ≡ (if same_int p u.priority then s ∷ q.lists u.priority else q.lists p) =
              λ p. ground arith in
            λ p. elim (Bool-cases (same_int p u.priority)) [
              | inl f ↦
                  let same : p ≡ u.priority = same_int-eq p u.priority f in
                  subst (Held unmarshal p (ts ++ u ∷ [])) (sym (pushed p ∙ if_true _ _ f)) (
                    subst (λ (x : ℤ). Held unmarshal x (ts ++ u ∷ []) (s ∷ q.lists u.priority))
                      (sym same)
                      (Held-push unmarshal u.priority ts (q.lists u.priority) u s
                        (same_int_refl u.priority) (back s m) (h u.priority)))
              | inr f ↦
                  subst (Held unmarshal p (ts ++ u ∷ [])) (sym (pushed p ∙ if_false _ _ f))
                    (Held-skip unmarshal p ts (q.lists p) u (same_int_comm u.priority p ∙ f) (h p))
            ]
      ]
