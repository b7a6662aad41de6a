-- ===== src/Hub/Runs.antt =====
-- Sequences of calls on the hub, and who gets a message.
use gitwise.Prelude.{
  ℕ, String, Bool, not, ◌&&◌, Option, none, some, List, [], ◌∷◌, ◌++◌, ◌≡◌, refl, arith, ltb, ◌==◌,
  keep, length, update_where, Option-cases, inl, inr,
}
use gitwise.Hub.{
  Hub, Conn, send_buf_size, has_ws, has_address, new_hub, register, unregister, unregister_conn,
  deliver, send_to_user, take_message,
}
use gitwise.Hub.Safety.{
  IsSafe, live-append, live-cut, live-take, given-closed, given-grows, deliver-Left,
  close_found-IsSafe,
}

-- A call on the hub by any goroutine; the mutex lets one run at a time.
pub data Call : Type 0 where
  registers unregisters drops : ℕ → ℕ → Call
  sends : ℕ → String → Call
  takes : ℕ → Call

-- `none` is a panic
abbrev pub step : Hub → Call → Option Hub
step h (registers user ws) = some (register user ws h)
step h (unregisters user ws) = unregister user ws h
step h (drops user address) = some (unregister_conn user address h)
step h (sends user msg) = send_to_user user msg h
step h (takes address) = some (take_message address h)

pub run : Hub → List Call → Option Hub
run h [] = some h
run h (c ∷ cs) = elim (step h c) [ none ↦ none | some h' ↦ run h' cs ]

-- Every call on a safe hub returns without a panic and leaves a safe hub: no channel is closed twice,
-- nothing is sent on a closed channel, no connection that is left has a closed channel, and no channel
-- holds more than its buffer.
pub step-IsSafe : (h : Hub) (c : Call) → IsSafe h → (h' : Hub) × (step h c ≡ some h') × IsSafe h'
unfolding register unregister unregister_conn send_to_user take_message
step-IsSafe h (registers user ws) v = (
  register user ws h,
  refl,
  record {
    live =
        live-append h.closed h.next h.conns
          (record { user = user; address = h.next; ws = ws; queue = [] }) v.live
          (ground (arith, given-closed h.next h.closed v.given)) refl;
    given = given-grows h.next h.closed v.given;
  },
)
step-IsSafe h (unregisters user ws) v = close_found-IsSafe (has_ws user ws) h v
step-IsSafe h (drops user address) v = (
  unregister_conn user address h,
  refl,
  record {
    live = live-cut (has_address user address) h.closed h.next h.conns v.live;
    given = v.given;
  },
)
step-IsSafe h (sends user msg) v =
    let (r, e, (live, given, gone, clean)) =
      deliver-Left user msg h.next h.closed h.conns v.live v.given in
    (record h { conns = r.0; closed = r.1 }, ground arith, record { live = live; given = given })
step-IsSafe h (takes address) v = (
  take_message address h,
  refl,
  record { live = live-take address h.closed h.next h.conns v.live; given = v.given },
)

run-IsSafe : (h : Hub) (cs : List Call) → IsSafe h → (h' : Hub) × (run h cs ≡ some h') × IsSafe h'
unfolding run
run-IsSafe h [] v = (h, refl, v)
run-IsSafe h (c ∷ cs) v =
    let (m, e, safe) = step-IsSafe h c v in
    let (h', f, safe') = run-IsSafe m cs safe in (h', ground arith, safe')

-- Whatever calls a hub gets after `NewHub`, in whatever order, none panics: no channel is closed twice,
-- and nothing is sent on a closed channel. No connection that is left has a closed channel, all have
-- addresses of their own, and no channel holds more than its buffer.
pub run-new_hub-IsSafe : (cs : List Call) → (h : Hub) × (run new_hub cs ≡ some h) × IsSafe h
run-new_hub-IsSafe cs = run-IsSafe new_hub cs (record { live = tt; given = tt })

abbrev is_full : ℕ → Conn → Bool
is_full user c = c.user == user && not (ltb (length c.queue) send_buf_size)

abbrev given_to : ℕ → Conn → Bool
given_to user c = c.user == user

abbrev enqueue : String → Conn → Conn
enqueue msg c = record c { queue = c.queue ++ msg ∷ [] }

-- `r` has lost the connections of the user that are full, and the others of the user got the message
abbrev pub receivers : ℕ → String → List Conn → List Conn
receivers user msg cs =
    update_where (given_to user) (enqueue msg) (keep (λ c. not (is_full user c)) cs)

deliver-receivers :
    (user : ℕ) (msg : String) (closed : List ℕ) (cs : List Conn) (r : List Conn × List ℕ)
    → deliver user msg closed cs ≡ some r
    → r.0 ≡ receivers user msg cs
unfolding deliver
deliver-receivers user msg closed [] r e = ground arith
deliver-receivers user msg closed (c ∷ cs) r e = elim (Option-cases (deliver user msg closed cs)) [
  | inl f ↦ ground (arith, deliver-receivers user msg (c.address ∷ closed) cs r)
  | inr (s, f) ↦ ground (
    arith,
    deliver-receivers user msg closed cs s f,
    deliver-receivers user msg (c.address ∷ closed) cs r,
  )
]

-- `SendToUser` on a safe hub gives the message to every connection of the user whose channel has room,
-- as its last message, drops those whose channel is full, and leaves all others as they are.
pub send_to_user-receivers :
    (h : Hub) (user : ℕ) (msg : String)
    → IsSafe h
    → (h' : Hub) × (send_to_user user msg h ≡ some h')
      × (h'.conns ≡ receivers user msg h.conns)
      × (h'.next ≡ h.next)
unfolding send_to_user
send_to_user-receivers h user msg v =
    let (r, e, left) = deliver-Left user msg h.next h.closed h.conns v.live v.given in
    (
      record h { conns = r.0; closed = r.1 },
      ground arith,
      deliver-receivers user msg h.closed h.conns r e,
      refl,
    )
