-- ===== src/Queue/Workers.antt =====
-- A worker gets through the tasks that wait.
use mathlib.Core.List.{Memᴰ}
use gitwise.Prelude.{
  ℕ, zero, suc, ℤ, pos, String, true, ◌||◌, Option, none, some, List, [], ◌∷◌, ◌≡◌, refl, ap, sym,
  subst, ◌∙◌, ◌⊎◌, inl, inr, arith, length, All, Option-cases, Bool-cases,
}
use gitwise.Action.{Result, Result-cases, no_faults, Faults}
use gitwise.Queue.{AgentTask, Queue, Generated, same_int, dequeue, process_task, worker_round}
use gitwise.Queue.Order.{oldest, next_task, Held, Holds}
use gitwise.Queue.Refinement.{Takes, dequeue-Takes}

-- one of the priorities that `dequeue` asks for
abbrev pub IsServed : AgentTask → Type 0
IsServed t =
    (same_int t.priority (pos 1) || same_int t.priority (pos 2) || same_int t.priority (pos 3))
    ≡ true

-- `t` was taken out of `ts`, and `rest` is left
abbrev IsWithout : AgentTask → List AgentTask → List AgentTask → Type 0
IsWithout t ts rest =
    (length ts ≡ suc (length rest))
    × ((u : AgentTask) → Memᴰ u ts → (u ≡ t) ⊎ Memᴰ u rest)
    × (All IsServed ts → All IsServed rest)

oldest-IsWithout :
    (p : ℤ) (ts : List AgentTask) (t : AgentTask) (rest : List AgentTask)
    → oldest p ts ≡ some (t, rest)
    → IsWithout t ts rest
unfolding oldest
oldest-IsWithout p [] t rest e = cc
oldest-IsWithout p (v ∷ ts) t rest e = elim (Bool-cases (same_int v.priority p)) [
  | inl f ↦
      let a : v ≡ t = ground arith in
      let b : ts ≡ rest = ground arith in
      subst (λ (x : List AgentTask). IsWithout t (v ∷ ts) x) b
        (refl, λ u m. elim m [ Memᴰ.head h ↦ inl (h ∙ a) | Memᴰ.tail n ↦ inr n ], λ h. h.1)
  | inr f ↦ elim (Option-cases (oldest p ts)) [
    | inl g ↦ absurd (ground arith)
    | inr ((w, us), g) ↦
        let a : w ≡ t = ground arith in
        let b : v ∷ us ≡ rest = ground arith in
        let (n, m, k) = oldest-IsWithout p ts w us g in
        subst (λ (x : List AgentTask). IsWithout t (v ∷ ts) x) b
          (
            ap suc n,
            λ u i. elim i [
              | Memᴰ.head h ↦ inr (Memᴰ.head h)
              | Memᴰ.tail j ↦ elim (m u j) [ inl h ↦ inl (h ∙ a) | inr h ↦ inr (Memᴰ.tail h) ]
            ],
            λ h. (h.0, k h.1),
          )
  ]
]

next_task-IsWithout :
    (ts : List AgentTask) (t : AgentTask) (rest : List AgentTask)
    → next_task ts ≡ some (t, rest)
    → IsWithout t ts rest
unfolding next_task
next_task-IsWithout ts t rest e = elim (Option-cases (oldest (pos 1) ts)) [
  | inr (r, f) ↦ oldest-IsWithout (pos 1) ts t rest (ground arith)
  | inl f ↦ elim (Option-cases (oldest (pos 2) ts)) [
    | inr (r, g) ↦ oldest-IsWithout (pos 2) ts t rest (ground arith)
    | inl g ↦ oldest-IsWithout (pos 3) ts t rest (ground arith)
  ]
]

-- the first of the tasks is of a priority that is asked for
next_task-some : (t : AgentTask) (ts : List AgentTask) → IsServed t → next_task (t ∷ ts) ≡ none → ⊥
unfolding next_task oldest
next_task-some t ts s e = ground arith

module _ (unmarshal : String → Option AgentTask) (content_json : String → String) (fails : Faults)
    (now : ℕ) (generate : AgentTask → Result String Generated) where
  -- the tasks of so many rounds
  unfoldable pub work : ℕ → Queue → List AgentTask × Queue
  unfolding worker_round
  work zero q = ([], q)
  work (suc n) q =
      let (taken, q') = worker_round unmarshal content_json no_faults fails now generate q in
      let (more, q'') = work n q' in elim taken [ none ↦ (more, q'') | some t ↦ (t ∷ more, q'') ]

  process_task-lists :
      (t : AgentTask) (q : Queue)
      → (process_task content_json fails now (generate t) t q).lists ≡ q.lists
  unfolding process_task
  process_task-lists t q = elim (Result-cases (generate t)) [
    | inl (g, e) ↦ ground arith
    | inr (x, e) ↦ ground arith
  ]

  round-Takes :
      (ts : List AgentTask) (q : Queue) (t : AgentTask) (rest : List AgentTask)
      → Holds unmarshal q ts
      → next_task ts ≡ some (t, rest)
      → let r = worker_round unmarshal content_json no_faults fails now generate q in
        (r.0 ≡ some t) × Holds unmarshal r.1 rest
  unfolding worker_round
  round-Takes ts q t rest h e =
      let (a, b) : Takes unmarshal (some (t, rest)) ts (dequeue unmarshal no_faults q) =
        subst
          (λ (o : Option (AgentTask × List AgentTask)).
            Takes unmarshal o ts (dequeue unmarshal no_faults q))
          e (dequeue-Takes unmarshal ts q h) in
      let q' = (dequeue unmarshal no_faults q).1 in
      rw (a, worker_round)
        (
          refl,
          λ p.
              subst (λ (l : ℤ → List String). Held unmarshal p rest (l p))
                (sym (process_task-lists t q')) (b p),
        )

  work_from :
      (n : ℕ) (ts : List AgentTask) (q : Queue)
      → length ts ≡ n
      → Holds unmarshal q ts
      → All IsServed ts
      → (length (work n q).0 ≡ n)
        × ((t : AgentTask) → Memᴰ t ts → Memᴰ t (work n q).0)
        × Holds unmarshal (work n q).1 []
  unfolding work
  work_from zero [] q l h s = (refl, λ t m. m, h)
  work_from zero (t ∷ ts) q l h s = absurd (omega arith)
  work_from (suc n) [] q l h s = absurd (omega arith)
  work_from (suc n) (v ∷ ts) q l h s = elim (Option-cases (next_task (v ∷ ts))) [
    | inl e ↦ absurd (next_task-some v ts s.0 e)
    | inr ((t, rest), e) ↦
        let (shorter, apart, served) = next_task-IsWithout (v ∷ ts) t rest e in
        let (a, b) = round-Takes (v ∷ ts) q t rest h e in
        let q' = (worker_round unmarshal content_json no_faults fails now generate q).1 in
        let (n', m, k) = work_from n rest q' (omega arith) b (served s) in
        rw (a, work)
          (
            ap suc n',
            λ u i. elim (apart u i) [ inl c ↦ Memᴰ.head c | inr c ↦ Memᴰ.tail (m u c) ],
            k,
          )
  ]

  -- If the Redis lists hold the tasks `ts`, all of the priorities 1 to 3, and Redis does not fail, then a
  -- worker has taken all of them after as many rounds as there are tasks, and the lists are
  -- empty, whatever the language model answers and whether the UPDATEs fail.
  pub work-empties :
      (ts : List AgentTask) (q : Queue)
      → Holds unmarshal q ts
      → All IsServed ts
      → (length (work (length ts) q).0 ≡ length ts)
        × ((t : AgentTask) → Memᴰ t ts → Memᴰ t (work (length ts) q).0)
        × Holds unmarshal (work (length ts) q).1 []
  work-empties ts q h s = work_from (length ts) ts q refl h s
