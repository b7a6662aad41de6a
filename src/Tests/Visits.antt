-- ===== src/Tests/Visits.antt =====
-- A session that is made and destroyed at the sample.
use gitwise.Prelude.{String, none, some, [], ◌≡◌, refl, ◌+◌, ltb, if◌then◌else◌}
use gitwise.Action.{no_faults}
use gitwise.Auth.{World}
use gitwise.Auth.Login.{session_expiry, create_session}
use gitwise.Middleware.{is_hex, destroy, request_user}
use gitwise.Middleware.Visits.{create_session-request_user}
use gitwise.Tests.Sample.{sample}
use gitwise.Tests.Logins.{letters}

abbrev sid : String
sid = "0123456789abcdef0123456789abcdef0123456789abcdef0123456789abcdef"

abbrev idle : World
idle = record { db = sample; pending = []; sessions = [] }

create_session-request_user_example :
    ((request_user letters
        (λ s. [])
        no_faults
        9
        ""
        (some sid)
        (create_session no_faults 5 (some sid) 1 idle).1).0
      ≡ (if ltb 9 (5 + session_expiry) then some 1 else none))
    × ((request_user letters
          (λ s. [])
          no_faults
          9
          ""
          (some sid)
          (destroy no_faults sid (create_session no_faults 5 (some sid) 1 idle).1)).0
        ≡ none)
unfolding is_hex
create_session-request_user_example =
    create_session-request_user letters (λ s. []) sid refl 5 1 9 idle
