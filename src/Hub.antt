-- ===== src/Hub.antt =====
-- internal/websocket/hub.go: the registry of websocket connections.
pub mod Safety
pub mod Runs
use gitwise.Prelude.{
  ℕ, ◌+◌, String, Bool, true, false, ◌&&◌, Option, none, some, List, [], ◌∷◌, ◌++◌, ltb, ◌==◌,
  if◌then◌else◌, find, any, update_where, length,
}

abbrev pub send_buf_size : ℕ
send_buf_size = 256

-- A registered `*conn`: its user, its address, its websocket, and what its channel `send` holds.
pub record Conn : Type 0 where
  pub user : ℕ
  pub address : ℕ
  pub ws : ℕ
  pub queue : List String

-- The map from a user to a slice is one list, in which the connections of a user have the order of
-- the slice; a user with an empty slice is not in the map. `closed` has the connections whose
-- channel was closed, and `next` is an address that no connection has had.
pub record Hub : Type 0 where
  pub conns : List Conn
  pub closed : List ℕ
  pub next : ℕ

abbrev pub new_hub : Hub
new_hub = record { conns = []; closed = []; next = 0 }

abbrev pub is_closed : ℕ → List ℕ → Bool
is_closed address = any (λ a. a == address)

-- the first match is cut out of the slice
abbrev pub cut : (Conn → Bool) → List Conn → List Conn
cut p [] = []
cut p (c ∷ cs) = let rest = cut p cs in if p c then cs else c ∷ rest

unfoldable pub register : ℕ → ℕ → Hub → Hub
register user ws h = record h {
  conns = h.conns ++ record { user = user; address = h.next; ws = ws; queue = [] } ∷ [];
  next = h.next + 1;
}

abbrev pub has_ws : ℕ → ℕ → Conn → Bool
has_ws user ws c = c.user == user && c.ws == ws

-- `none` is the panic of a `close` of a closed channel
abbrev pub close_found : (Conn → Bool) → Hub → Option Conn → Option Hub
close_found p h none = some h
close_found p h (some c) =
    if is_closed c.address h.closed
    then none
    else some (record h { conns = cut p h.conns; closed = c.address ∷ h.closed })

unfoldable pub unregister : ℕ → ℕ → Hub → Option Hub
unregister user ws h = close_found (has_ws user ws) h (find (has_ws user ws) h.conns)

abbrev pub has_address : ℕ → ℕ → Conn → Bool
has_address user address c = c.user == user && c.address == address

unfoldable pub unregister_conn : ℕ → ℕ → Hub → Hub
unregister_conn user address h = record h { conns = cut (has_address user address) h.conns }

abbrev pub prepend : Conn → Option (List Conn × List ℕ) → Option (List Conn × List ℕ)
prepend c none = none
prepend c (some r) = some (c ∷ r.0, r.1)

-- The loop of `SendToUser`; `none` is the panic of a send on a closed channel. A connection with a
-- full channel is closed and dropped.
pub deliver : ℕ → String → List ℕ → List Conn → Option (List Conn × List ℕ)
deliver user msg closed [] = some ([], closed)
deliver user msg closed (c ∷ cs) =
    let rest = deliver user msg closed cs in
    let dropped = deliver user msg (c.address ∷ closed) cs in
    if c.user == user
    then if is_closed c.address closed
      then none
      else if ltb (length c.queue) send_buf_size
      then prepend (record c { queue = c.queue ++ msg ∷ [] }) rest
      else dropped
    else prepend c rest

abbrev pub delivered : Hub → Option (List Conn × List ℕ) → Option Hub
delivered h none = none
delivered h (some r) = some (record h { conns = r.0; closed = r.1 })

unfoldable pub send_to_user : ℕ → String → Hub → Option Hub
unfolding deliver
send_to_user user msg h = delivered h (deliver user msg h.closed h.conns)

abbrev pub tail : List String → List String
tail [] = []
tail (m ∷ ms) = ms

-- `writePump` takes the next message from the channel of a connection
unfoldable pub take_message : ℕ → Hub → Hub
take_message address h = record h {
  conns = update_where (λ c. c.address == address) (λ c. record c { queue = tail c.queue }) h.conns;
}
