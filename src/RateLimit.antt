-- ===== src/RateLimit.antt =====
-- internal/middleware/ratelimit.go: the limit on the requests of one address.
pub mod Window
use gitwise.Prelude.{
  ℕ, suc, ◌+◌, ◌-◌, String, Bool, true, false, ◌||◌, Option, none, some, ltb, leb, ◌==◌,
  if◌then◌else◌, str_eq,
}
use gitwise.Action.{Faults}

-- the value of a key of Redis, and when it expires, in milliseconds; `none` is never
pub record Counter : Type 0 where
  pub count : ℕ
  pub expires : Option ℕ

-- the keys with the limiter's prefix
abbrev pub Store : Type 0
Store = String → Option Counter

abbrev pub is_over : ℕ → Option ℕ → Bool
is_over now none = false
is_over now (some t) = leb t now

-- `GET`: an expired key is gone
abbrev pub live : ℕ → Option Counter → Option Counter
live now none = none
live now (some c) = if is_over now c.expires then none else some c

abbrev pub set : String → Counter → Store → Store
set key c store k = if str_eq k key then some c else store k

-- `INCR`, which keeps the time of expiry; a missing key counts from 0 and does not expire
abbrev pub incremented : Option Counter → Counter
incremented none = record { count = 1; expires = none }
incremented (some c) = record c { count = suc c.count }

-- `EXPIRE` on the first request of a window; its error is not looked at
abbrev pub with_expiry : Faults → ℕ → ℕ → Counter → Counter
with_expiry fails now window c =
    if c.count == 1 then if fails 1 then c else record c { expires = some (now + window) } else c

-- 503; 429 with the seconds of Retry-After; or the handler behind, with the requests that remain
pub data Verdict : Type 0 where
  unavailable : Verdict
  limited : ℕ → Verdict
  passes : ℕ → Verdict

abbrev pub left : ℕ → Option ℕ → Option ℕ
left now none = none
left now (some t) = some (t - now)

-- the window, if `TTL` fails or the key does not expire; `seconds` are the whole seconds of a duration
abbrev pub retry_after : (ℕ → ℕ) → ℕ → Option ℕ → ℕ
retry_after seconds window none = let s = seconds window in if ltb s 1 then 1 else s
retry_after seconds window (some ttl) =
    let s = seconds (if ttl == 0 then window else ttl) in if ltb s 1 then 1 else s

abbrev pub judge : (ℕ → ℕ) → Faults → ℕ → ℕ → ℕ → Counter → Verdict
judge seconds fails now limit window c =
    if ltb limit c.count
    then limited (retry_after seconds window (if fails 2 then none else left now c.expires))
    else passes (limit - c.count)

unfoldable pub rate_limit : (ℕ → ℕ) → Faults → ℕ → ℕ → ℕ → String → Store → Verdict × Store
rate_limit seconds fails now limit window key store =
    let c = with_expiry fails now window (incremented (live now (store key))) in
    if fails 0
    then (unavailable, store)
    else (judge seconds fails now limit window c, set key c store)
