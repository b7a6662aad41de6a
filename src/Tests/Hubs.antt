-- ===== src/Tests/Hubs.antt =====
-- Two tabs of a user connect to a hub and get a message; one is closed.
use gitwise.Prelude.{List, [], ◌∷◌, some, ◌≡◌, refl, arith}
use gitwise.Hub.{Hub, Conn, send_to_user, new_hub}
use gitwise.Hub.Safety.{IsSafe}
use gitwise.Hub.Runs.{
  Call, registers, unregisters, sends, run, receivers, run-new_hub-IsSafe, send_to_user-receivers,
}

abbrev calls : List Call
calls = registers 1 7 ∷ registers 1 8 ∷ sends 1 "hi" ∷ unregisters 1 7 ∷ unregisters 1 7 ∷ []

run-new_hub-IsSafe_example : (h : Hub) × (run new_hub calls ≡ some h) × IsSafe h
run-new_hub-IsSafe_example = run-new_hub-IsSafe calls

abbrev tab : Conn
tab = record { user = 1; address = 0; ws = 7; queue = "hi" ∷ [] }

abbrev one_tab : Hub
one_tab = record { conns = tab ∷ []; closed = []; next = 1 }

one_tab-IsSafe : IsSafe one_tab
one_tab-IsSafe = record { live = (refl, ground arith, ground arith, refl, tt); given = tt }

send_to_user-receivers_example :
    (h : Hub) × (send_to_user 1 "again" one_tab ≡ some h)
    × (h.conns ≡ receivers 1 "again" (tab ∷ []))
    × (h.next ≡ 1)
send_to_user-receivers_example = send_to_user-receivers one_tab 1 "again" one_tab-IsSafe
