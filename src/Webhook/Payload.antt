-- ===== src/Webhook/Payload.antt =====
-- The payloads of webhooks, as Go's `map[string]any` and as `truncatePayload` shortens them.
use Prim.Native.Char.{len_utf8}
use Prim.Native.String
use gitwise.Prelude.{
  ℕ, zero, suc, ◌-◌, ℤ, String, Bool, true, Option, none, some, ltb, leb, str_eq, if◌then◌else◌,
}
use gitwise.Text.{byte_len}

-- `any`, as `json.Unmarshal` gives it and as the handlers build it. The numbers are the whole ones that
-- the handlers put there.
mutual
  pub data Json : Type 0 where
    null : Json
    bool : Bool → Json
    num : ℤ → Json
    text : String → Json
    arr : Items → Json
    obj : Fields → Json

  pub data Items : Type 0 where
    nil : Items
    cons : Json → Items → Items

  -- a Go map; the order of its keys is of no account
  pub data Fields : Type 0 where
    end : Fields
    field : String → Json → Fields → Fields

-- U+FFFD, as often as given: `json.Marshal` writes it for each byte of a character that was cut
unfoldable pub marks : ℕ → String
marks zero = ""
marks (suc n) = String.◌++◌ "�" (marks n)

-- `s[:n]` for a text of more than n bytes, as `json.Marshal` writes it
unfoldable pub cut : ℕ → String → String
unfolding marks
cut n (String.[]) = ""
cut n (String.◌∷◌ c s) =
    let rest = cut (n - len_utf8 c) s in if leb (len_utf8 c) n then String.◌∷◌ c rest else marks n

-- `capStrings` at a text
abbrev max_str_len : ℕ
max_str_len = 1_024

abbrev pub cap_text : String → String
cap_text s =
    if ltb max_str_len (byte_len s) then String.◌++◌ (cut max_str_len s) "…[truncated]" else s

unfoldable mutual
  unfolding cut

  -- a value of a map: a text is cut, and a map or the maps of an array are gone through
  pub cap_value : Json → Json
  cap_value null = null
  cap_value (bool b) = bool b
  cap_value (num z) = num z
  cap_value (text s) = text (cap_text s)
  cap_value (arr xs) = arr (cap_items xs)
  cap_value (obj m) = obj (cap_strings m)

  -- the elements of an array that are maps; others stay
  pub cap_items : Items → Items
  cap_items nil = nil
  cap_items (cons null xs) = cons null (cap_items xs)
  cap_items (cons (bool b) xs) = cons (bool b) (cap_items xs)
  cap_items (cons (num z) xs) = cons (num z) (cap_items xs)
  cap_items (cons (text s) xs) = cons (text s) (cap_items xs)
  cap_items (cons (arr ys) xs) = cons (arr ys) (cap_items xs)
  cap_items (cons (obj m) xs) = cons (obj (cap_strings m)) (cap_items xs)

  pub cap_strings : Fields → Fields
  cap_strings end = end
  cap_strings (field k v m) = field k (cap_value v) (cap_strings m)

-- `m[k] = v`
unfoldable pub put : String → Json → Fields → Fields
put k v end = field k v end
put k v (field j w m) = let rest = put k v m in if str_eq j k then field k v m else field j w rest

-- `m[k]`
unfoldable pub get : String → Fields → Option Json
get k end = none
get k (field j v m) = let rest = get k m in if str_eq j k then some v else rest

-- `truncatePayload`, with `json.Marshal` (none if it fails). The maps inside are shared with the
-- caller's, who does not use them again.
unfoldable pub truncate_payload : (Json → Option String) → Fields → String
unfolding cap_strings put
truncate_payload marshal payload =
    elim (marshal (obj (cap_strings (put "truncated" (bool true) payload)))) [
      | some b ↦ b
      | none ↦
          elim (marshal
            (obj (field "truncated" (bool true) (field "error" (text "payload too large") end)))) [
              | some b ↦ b
              | none ↦ ""
            ]
    ]
