-- ===== src/Queue/Order.antt =====
-- The order in which tasks leave the queue.
use gitwise.Prelude.{
  ℤ, pos, negsuc, String, true, false, Option, none, some, List, [], ◌∷◌, ◌++◌, ◌≡◌, refl, ap,
  subst, ◌∙◌, inl, inr, arith, if◌then◌else◌, Option-cases, Bool-cases,
}
use gitwise.Queue.{AgentTask, Queue, same_int, last_of, pop_from}

-- What the queue promises, on the tasks in the order in which they came: the oldest task of a priority,
-- and the others.
unfoldable pub oldest : ℤ → List AgentTask → Option (AgentTask × List AgentTask)
oldest p [] = none
oldest p (t ∷ ts) =
    let rest = oldest p ts in
    if same_int t.priority p
    then some (t, ts)
    else elim rest [ none ↦ none | some (u, us) ↦ some (u, t ∷ us) ]

-- the oldest task of the first priority that has one
unfoldable pub next_task : List AgentTask → Option (AgentTask × List AgentTask)
unfolding oldest
next_task ts = elim (oldest (pos 1) ts) [
  | some r ↦ some r
  | none ↦ elim (oldest (pos 2) ts) [ some r ↦ some r | none ↦ oldest (pos 3) ts ]
]

last_of-append : (x s : String) (l : List String) → last_of x (l ++ s ∷ []) ≡ (x ∷ l, s)
unfolding last_of
last_of-append x s [] = refl
last_of-append x s (y ∷ l) =
    ap (λ (r : List String × String). (x ∷ r.0, r.1)) (last_of-append y s l)

pub pop_from-append : (s : String) (l : List String) → pop_from (l ++ s ∷ []) ≡ some (l, s)
unfolding last_of
pop_from-append s [] = refl
pop_from-append s (x ∷ l) = ap some (last_of-append x s l)

pub same_int_refl : (p : ℤ) → same_int p p ≡ true
same_int_refl (pos n) = ground arith
same_int_refl (negsuc n) = ground arith

pub same_int-eq : (p q : ℤ) → same_int p q ≡ true → p ≡ q
same_int-eq (pos n) (pos m) h = ground arith
same_int-eq (pos n) (negsuc m) h = cc
same_int-eq (negsuc n) (pos m) h = cc
same_int-eq (negsuc n) (negsuc m) h = ground arith

pub same_int_comm : (p q : ℤ) → same_int p q ≡ same_int q p
same_int_comm (pos n) (pos m) = ground arith
same_int_comm (pos n) (negsuc m) = refl
same_int_comm (negsuc n) (pos m) = refl
same_int_comm (negsuc n) (negsuc m) = ground arith

same_int_other : (v p r : ℤ) → same_int v p ≡ true → same_int r p ≡ false → same_int v r ≡ false
same_int_other v p r e n =
    ap (λ (x : ℤ). same_int x r) (same_int-eq v p e) ∙ (same_int_comm p r ∙ n)

module _ (unmarshal : String → Option AgentTask) where
  -- the Redis list of a priority holds its tasks, the oldest at the right end
  abbrev pub Held : ℤ → List AgentTask → List String → Type 0
  Held p [] l = l ≡ []
  Held p (t ∷ ts) l = elim (same_int t.priority p) as (λ x. Type 0) [
    | true ↦
        (k : List String) × (s : String) × (l ≡ k ++ s ∷ []) × (unmarshal s ≡ some t) × Held p ts k
    | false ↦ Held p ts l
  ]

  abbrev pub Holds : Queue → List AgentTask → Type 0
  Holds q ts = (p : ℤ) → Held p ts (q.lists p)

  pub Held-push :
      (p : ℤ) (ts : List AgentTask) (l : List String) (t : AgentTask) (s : String)
      → same_int t.priority p ≡ true
      → unmarshal s ≡ some t
      → Held p ts l
      → Held p (ts ++ t ∷ []) (s ∷ l)
  Held-push p [] l t s e u h = rw (e, Held) ([], s, ap (λ (k : List String). s ∷ k) h, u, refl)
  Held-push p (v ∷ ts) l t s e u h = elim (Bool-cases (same_int v.priority p)) [
    | inl f ↦
        let (k, x, q, w, g) = rw (f, Held) at h in
        rw (f, Held) (s ∷ k, x, ap (λ (m : List String). s ∷ m) q, w, Held-push p ts k t s e u g)
    | inr f ↦ rw (f, Held) (Held-push p ts l t s e u (rw (f, Held) at h))
  ]

  pub Held-skip :
      (p : ℤ) (ts : List AgentTask) (l : List String) (t : AgentTask)
      → same_int t.priority p ≡ false
      → Held p ts l
      → Held p (ts ++ t ∷ []) l
  Held-skip p [] l t e h = rw (e, Held) h
  Held-skip p (v ∷ ts) l t e h = elim (Bool-cases (same_int v.priority p)) [
    | inl f ↦
        let (k, x, q, w, g) = rw (f, Held) at h in rw (f, Held) (k, x, q, w, Held-skip p ts k t e g)
    | inr f ↦ rw (f, Held) (Held-skip p ts l t e (rw (f, Held) at h))
  ]

  pub oldest-none :
      (p : ℤ) (ts : List AgentTask) (l : List String) → oldest p ts ≡ none → Held p ts l → l ≡ []
  unfolding oldest
  oldest-none p [] l e h = h
  oldest-none p (t ∷ ts) l e h = elim (Bool-cases (same_int t.priority p)) [
    | inl f ↦ absurd (ground arith)
    | inr f ↦ elim (Option-cases (oldest p ts)) [
      | inl g ↦ oldest-none p ts l g (rw (f, Held) at h)
      | inr (r, g) ↦ absurd (ground arith)
    ]
  ]

  -- the list of a priority that lost its oldest task
  unfoldable pub Taken : ℤ → AgentTask → List AgentTask → List String → Type 0
  Taken p t rest l =
      (k : List String) × (s : String) × (l ≡ k ++ s ∷ []) × (unmarshal s ≡ some t) × Held p rest k

  pub oldest-Taken :
      (p : ℤ) (ts : List AgentTask) (l : List String) (t : AgentTask) (rest : List AgentTask)
      → oldest p ts ≡ some (t, rest)
      → Held p ts l
      → Taken p t rest l
  unfolding oldest Taken
  oldest-Taken p [] l t rest e h = cc
  oldest-Taken p (v ∷ ts) l t rest e h = elim (Bool-cases (same_int v.priority p)) [
    | inl f ↦
        let (k, x, q, w, g) = rw (f, Held) at h in
        let a : v ≡ t = ground arith in
        let b : ts ≡ rest = ground arith in
        (k, x, q, w ∙ ap some a, subst (λ (r : List AgentTask). Held p r k) b g)
    | inr f ↦ elim (Option-cases (oldest p ts)) [
      | inl g ↦ absurd (ground arith)
      | inr ((u, us), g) ↦
          let a : u ≡ t = ground arith in
          let b : v ∷ us ≡ rest = ground arith in
          let (k, x, q, w, held) = oldest-Taken p ts l u us g (rw (f, Held) at h) in
          (k, x, q, w ∙ ap some a, subst (λ (r : List AgentTask). Held p r k) b (rw (f, Held) held))
    ]
  ]

  -- the other lists
  pub oldest-Held :
      (p r : ℤ) (ts : List AgentTask) (l : List String) (t : AgentTask) (rest : List AgentTask)
      → oldest p ts ≡ some (t, rest)
      → same_int r p ≡ false
      → Held r ts l
      → Held r rest l
  unfolding oldest
  oldest-Held p r [] l t rest e n h = cc
  oldest-Held p r (v ∷ ts) l t rest e n h = elim (Bool-cases (same_int v.priority p)) [
    | inl f ↦
        let b : ts ≡ rest = ground arith in
        let other : same_int v.priority r ≡ false = same_int_other v.priority p r f n in
        subst (λ (x : List AgentTask). Held r x l) b (rw (other, Held) at h)
    | inr f ↦ elim (Option-cases (oldest p ts)) [
      | inl g ↦ absurd (ground arith)
      | inr ((u, us), g) ↦
          let b : v ∷ us ≡ rest = ground arith in
          subst (λ (x : List AgentTask). Held r x l) b
            (elim (Bool-cases (same_int v.priority r)) [
              | inl c ↦
                  let (k, x, q, w, held) = rw (c, Held) at h in
                  rw (c, Held) (k, x, q, w, oldest-Held p r ts k u us g n held)
              | inr c ↦ rw (c, Held) (oldest-Held p r ts l u us g n (rw (c, Held) at h))
            ])
    ]
  ]
