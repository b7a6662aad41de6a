-- ===== src/Hub/Safety.antt =====
-- The channels of the hub, and what keeps a call on it from a panic.
use gitwise.Prelude.{
  ℕ, ◌+◌, ◌≤◌, ◌<◌, String, Bool, false, some, List, [], ◌∷◌, ◌++◌, ◌≡◌, refl, arith, ltb, ◌==◌,
  find, any, length, update_where, Bool-cases, Option-cases, inl, inr, All, find-Mem, any-eq-false,
  length-append,
}
use gitwise.Hub.{Hub, Conn, send_buf_size, is_closed, cut, close_found, deliver, tail}

abbrev at : ℕ → Conn → Bool
at address c = c.address == address

-- Each connection has an address of its own that was given out, its channel is not closed, and its
-- channel holds no more than the buffer does.
abbrev pub AreLive : List ℕ → ℕ → List Conn → Type 0
AreLive closed next [] = Unit
AreLive closed next (c ∷ cs) =
    (is_closed c.address closed ≡ false)
    × (c.address < next)
    × (length c.queue ≤ send_buf_size)
    × (any (at c.address) cs ≡ false)
    × AreLive closed next cs

pub record IsSafe (h : Hub) : Type 0 where
  pub live : AreLive h.closed h.next h.conns
  pub given : All (λ a. a < h.next) h.closed

live-close :
    (a next : ℕ) (closed : List ℕ) (cs : List Conn)
    → any (at a) cs ≡ false
    → AreLive closed next cs
    → AreLive (a ∷ closed) next cs
live-close a next closed [] h v = tt
live-close a next closed (c ∷ cs) h v = ground (arith, live-close a next closed cs)

any-cut : (q p : Conn → Bool) (cs : List Conn) → any q cs ≡ false → any q (cut p cs) ≡ false
any-cut q p [] h = refl
any-cut q p (c ∷ cs) h = ground (arith, any-cut q p cs)

pub live-cut :
    (p : Conn → Bool) (closed : List ℕ) (next : ℕ) (cs : List Conn)
    → AreLive closed next cs
    → AreLive closed next (cut p cs)
live-cut p closed next [] v = tt
live-cut p closed next (c ∷ cs) v =
    ground (arith, live-cut p closed next cs, any-cut (at c.address) p cs)

cut-absent :
    (p : Conn → Bool) (closed : List ℕ) (next : ℕ) (cs : List Conn) (c : Conn)
    → AreLive closed next cs
    → find p cs ≡ some c
    → any (at c.address) (cut p cs) ≡ false
cut-absent p closed next [] c v e = cc
cut-absent p closed next (d ∷ cs) c v e = elim (Bool-cases (p d)) [
  | inl here ↦ ground arith
  | inr later ↦
      let e' : find p cs ≡ some c = ground arith in
      let other : at d.address c ≡ false =
        any-eq-false (at d.address) cs c v.3 (find-Mem p cs c e') in
      ground (arith, cut-absent p closed next cs c v.4 e', other)
]

abbrev pub Left : ℕ → List ℕ → List Conn → List Conn × List ℕ → Type 0
Left next closed cs r =
    AreLive r.1 next r.0
    × All (λ a. a < next) r.1
    × ((a : ℕ) → any (at a) cs ≡ false → any (at a) r.0 ≡ false)
    × ((a : ℕ) → any (at a) cs ≡ false → is_closed a closed ≡ false → is_closed a r.1 ≡ false)

pub deliver-Left :
    (user : ℕ) (msg : String) (next : ℕ) (closed : List ℕ) (cs : List Conn)
    → AreLive closed next cs
    → All (λ a. a < next) closed
    → (r : List Conn × List ℕ) × (deliver user msg closed cs ≡ some r) × Left next closed cs r
unfolding deliver
deliver-Left user msg next closed [] v g = (([], closed), refl, (tt, g, (λ a h. refl), λ a h k. k))
deliver-Left user msg next closed (c ∷ cs) v g =
    let (r, e, (live, given, gone, clean)) = deliver-Left user msg next closed cs v.4 g in
    let (s, f, (live', given', gone', clean')) =
      deliver-Left user msg next (c.address ∷ closed) cs
        (live-close c.address next closed cs v.3 v.4) (v.1, g) in
    elim (Bool-cases (c.user == user)) [
      | inl mine ↦ elim (Bool-cases (ltb (length c.queue) send_buf_size)) [
        | inl fits ↦ (
          (record c { queue = c.queue ++ msg ∷ [] } ∷ r.0, r.1),
          ground arith,
          (
            ground (arith, gone c.address, clean c.address, length-append c.queue (msg ∷ [])),
            given,
            (λ a h. ground (arith, gone a)),
            λ a h k. ground (arith, clean a),
          ),
        )
        | inr full ↦ (
          s,
          ground arith,
          (live', given', (λ a h. ground (arith, gone' a)), λ a h k. ground (arith, clean' a)),
        )
      ]
      | inr other ↦ (
        (c ∷ r.0, r.1),
        ground arith,
        (
          ground (arith, gone c.address, clean c.address),
          given,
          (λ a h. ground (arith, gone a)),
          λ a h k. ground (arith, clean a),
        ),
      )
    ]

pub live-append :
    (closed : List ℕ) (next : ℕ) (cs : List Conn) (c : Conn)
    → AreLive closed next cs
    → AreLive closed (next + 1) (c ∷ [])
    → c.address ≡ next
    → AreLive closed (next + 1) (cs ++ c ∷ [])
live-append closed next [] c v k e = k
live-append closed next (d ∷ cs) c v k e =
    ground (arith, live-append closed next cs c v.4 k e, fresh cs v.3)
  where
    fresh :
        (ds : List Conn) → any (at d.address) ds ≡ false → any (at d.address) (ds ++ c ∷ []) ≡ false
    fresh [] h = let l : d.address < next = v.1 in ground arith
    fresh (f ∷ ds) h = ground (arith, fresh ds)

pub given-closed :
    (next : ℕ) (closed : List ℕ) → All (λ a. a < next) closed → is_closed next closed ≡ false
given-closed next [] g = refl
given-closed next (a ∷ rest) g = ground (arith, given-closed next rest)

pub given-grows :
    (next : ℕ) (closed : List ℕ) → All (λ a. a < next) closed → All (λ a. a < next + 1) closed
given-grows next [] g = tt
given-grows next (a ∷ rest) g = ground (arith, given-grows next rest)

find-address :
    (p : Conn → Bool) (closed : List ℕ) (next : ℕ) (cs : List Conn) (c : Conn)
    → AreLive closed next cs
    → find p cs ≡ some c
    → (is_closed c.address closed ≡ false) × (c.address < next)
find-address p closed next [] c v e = cc
find-address p closed next (d ∷ cs) c v e = elim (Bool-cases (p d)) [
  | inl here ↦ ground arith
  | inr later ↦ find-address p closed next cs c v.4 (ground arith)
]

any-take :
    (a address : ℕ) (cs : List Conn)
    → any
        (at a)
        (update_where (λ c. c.address == address) (λ c. record c { queue = tail c.queue }) cs)
      ≡ any (at a) cs
any-take a address [] = refl
any-take a address (c ∷ cs) = ground (arith, any-take a address cs)

length-tail : (ms : List String) → length (tail ms) ≤ length ms
length-tail [] = omega arith
length-tail (m ∷ ms) = omega arith

pub live-take :
    (address : ℕ) (closed : List ℕ) (next : ℕ) (cs : List Conn)
    → AreLive closed next cs
    → AreLive closed next
        (update_where (λ c. c.address == address) (λ c. record c { queue = tail c.queue }) cs)
live-take address closed next [] v = tt
live-take address closed next (c ∷ cs) v = ground (
  arith,
  live-take address closed next cs v.4,
  any-take c.address address cs,
  length-tail c.queue,
)

pub close_found-IsSafe :
    (p : Conn → Bool) (h : Hub)
    → IsSafe h
    → (h' : Hub) × (close_found p h (find p h.conns) ≡ some h') × IsSafe h'
close_found-IsSafe p h v = elim (Option-cases (find p h.conns)) [
  | inl e ↦ (h, ground arith, v)
  | inr (c, e) ↦
      let (unclosed, bound) = find-address p h.closed h.next h.conns c v.live e in
      let cut_live =
        live-close c.address h.next h.closed (cut p h.conns)
          (cut-absent p h.closed h.next h.conns c v.live e)
          (live-cut p h.closed h.next h.conns v.live) in
      (
        record h { conns = cut p h.conns; closed = c.address ∷ h.closed },
        ground arith,
        record { live = cut_live; given = (bound, v.given) },
      )
]
