-- ===== src/Webhook/Discord.antt =====
-- `isDiscordWebhook` and `buildDiscordPayload` of internal/services/webhook/service.go.
use Prim.Native.Char.{code, len_utf8}
use Prim.Native.String
use Prim.Native.String.{slice}
use gitwise.Prelude.{
  ℕ, zero, suc, ◌+◌, ◌-◌, ℤ, pos, negsuc, String, Bool, true, false, not, ◌&&◌, ◌||◌, Option, none,
  some, List, [], ◌∷◌, ltb, ◌==◌, str_eq, if◌then◌else◌,
}
use gitwise.Text.{byte_len}
use gitwise.Pull.Merge.{decimal}
use gitwise.Webhook.Payload.{
  Json, null, num, text, arr, obj, Items, nil, cons, Fields, end, field, cut, get,
}

-- `strings.HasPrefix`
pub has_prefix : String → String → Bool
has_prefix (String.[]) s = true
has_prefix (String.◌∷◌ c p) (String.[]) = false
has_prefix (String.◌∷◌ c p) (String.◌∷◌ d s) = let rest = has_prefix p s in code c == code d && rest

-- `strings.Contains`
pub contains_text : String → String → Bool
unfolding has_prefix
contains_text (String.[]) sub = has_prefix sub ""
contains_text (String.◌∷◌ c s) sub =
    let rest = contains_text s sub in has_prefix sub (String.◌∷◌ c s) || rest

-- `strings.TrimPrefix`
pub trim_prefix : String → String → String
unfolding has_prefix
trim_prefix s p = if has_prefix p s then slice s (byte_len p) (byte_len s) else s

unfoldable pub is_discord_webhook : String → Bool
unfolding contains_text
is_discord_webhook url =
    contains_text url "discord.com/api/webhooks/"
    || contains_text url "discordapp.com/api/webhooks/"

abbrev pub color : String → ℕ
color event =
    if str_eq event "push"
    then 0x2196F3
    else if str_eq event "ping"
    then 0x9E9E9E
    else if str_eq event "issue.opened"
    then 0x4CAF50
    else if str_eq event "issue.closed"
    then 0xF44336
    else if str_eq event "pr.opened"
    then 0x4CAF50
    else if str_eq event "pr.merged"
    then 0x9C27B0
    else if str_eq event "pr.closed"
    then 0xF44336
    else if str_eq event "review.submitted"
    then 0xFF9800
    else if str_eq event "comment.created"
    then 0x00BCD4
    else 0x607D8B

-- the type assertions `v.(T)` at a map's value; where they fail there is the zero value
abbrev as_text : Option Json → String
as_text (some (text s)) = s
as_text _ = ""

abbrev as_num : Option Json → ℤ
as_num (some (num z)) = z
as_num _ = pos 0

abbrev as_items : Option Json → Items
as_items (some (arr xs)) = xs
as_items _ = nil

abbrev as_map : Option Json → Option Fields
as_map (some (obj m)) = some m
as_map _ = none

pub text_at : String → Fields → String
unfolding get
text_at k m = as_text (get k m)

pub num_at : String → Fields → ℤ
unfolding get
num_at k m = as_num (get k m)

pub map_at : String → Fields → Option Fields
unfolding get
map_at k m = as_map (get k m)

-- `%d`
abbrev pub int_text : ℤ → String
int_text (pos n) = decimal (suc n) n
int_text (negsuc n) = String.◌++◌ "-" (decimal (suc (suc n)) (suc n))

-- `s[:200] + "..."` where it is longer
abbrev pub clip : String → String
clip s = if ltb 200 (byte_len s) then String.◌++◌ (cut 200 s) "..." else s

-- `strings.IndexByte(msg, '\n')`
pub newline_at : String → Option ℕ
newline_at (String.[]) = none
newline_at (String.◌∷◌ c s) =
    let rest = newline_at s in
    if code c == 10 then some 0 else elim rest [ none ↦ none | some i ↦ some (len_utf8 c + i) ]

pub first_line : String → String
unfolding newline_at
first_line msg = elim (newline_at msg) [
  | none ↦ msg
  | some i ↦ if ltb 0 i then slice msg 0 i else msg
]

pub commit_line : Fields → String
unfolding text_at first_line
commit_line cm =
    let sha = text_at "id" cm in
    let short = if ltb 7 (byte_len sha) then cut 7 sha else sha in
    String.◌++◌ "`" (String.◌++◌ short (String.◌++◌ "` " (first_line (text_at "message" cm))))

pub count_items : Items → ℕ
count_items nil = 0
count_items (cons c cs) = suc (count_items cs)

-- at most five commits, and how many there are more
pub commit_lines : ℕ → ℕ → Items → List String
unfolding commit_line
commit_lines i total nil = []
commit_lines zero total (cons c cs) =
    String.◌++◌ "... and " (String.◌++◌ (decimal (suc total) (total - 5)) " more") ∷ []
commit_lines (suc i) total (cons null cs) = commit_lines i total cs
commit_lines (suc i) total (cons (Json.bool b) cs) = commit_lines i total cs
commit_lines (suc i) total (cons (num z) cs) = commit_lines i total cs
commit_lines (suc i) total (cons (text t) cs) = commit_lines i total cs
commit_lines (suc i) total (cons (arr xs) cs) = commit_lines i total cs
commit_lines (suc i) total (cons (obj cm) cs) = commit_line cm ∷ commit_lines i total cs

-- `strings.Join(lines, sep)`
pub join : String → List String → String
join sep [] = ""
join sep (l ∷ []) = l
join sep (l ∷ k ∷ ls) = String.◌++◌ l (String.◌++◌ sep (join sep (k ∷ ls)))

-- a title and a description
abbrev pub Words : Type 0
Words = String × String

abbrev about_issue : String → Option Fields → Words
about_issue event none = (event, "")
about_issue event (some issue) = (
  String.◌++◌ "Issue #" (
      String.◌++◌ (int_text (num_at "number" issue))
        (String.◌++◌ " " (trim_prefix event "issue."))),
  text_at "title" issue,
)

abbrev branches : String → String → String
branches head base =
    if not (str_eq head "") && not (str_eq base "")
    then String.◌++◌ "\n`" (String.◌++◌ head (String.◌++◌ "` → `" (String.◌++◌ base "`")))
    else ""

abbrev about_pull : String → Option Fields → Words
about_pull event none = (event, "")
about_pull event (some pr) = (
  String.◌++◌ "Pull request #"
      (String.◌++◌ (int_text (num_at "number" pr)) (String.◌++◌ " " (trim_prefix event "pr."))),
  String.◌++◌ (text_at "title" pr) (branches (text_at "head_branch" pr) (text_at "base_branch" pr)),
)

abbrev about_push : Fields → Words
about_push payload =
    let commits = as_items (get "commits" payload) in
    (
      String.◌++◌ "Push to " (trim_prefix (text_at "ref" payload) "refs/heads/"),
      join "\n" (commit_lines 5 (count_items commits) commits),
    )

abbrev comment_title : Option Fields → Option Fields → String
comment_title (some iss) pr = String.◌++◌ "Comment on issue #" (int_text (num_at "number" iss))
comment_title none (some pr) =
    String.◌++◌ "Comment on pull request #" (int_text (num_at "number" pr))
comment_title none none = "New comment"

abbrev clipped_body : Option Fields → String
clipped_body none = ""
clipped_body (some m) = clip (text_at "body" m)

abbrev about_review : String → Option Fields → Words
about_review event none = (event, "")
about_review event (some review) =
    (String.◌++◌ "Review submitted: " (text_at "state" review), clip (text_at "body" review))

-- the `switch`
unfoldable pub describe : String → Fields → Words
unfolding text_at num_at map_at get trim_prefix has_prefix commit_lines count_items join
describe event payload =
    if has_prefix "issue." event
    then about_issue event (map_at "issue" payload)
    else if has_prefix "pr." event
    then about_pull event (map_at "pull_request" payload)
    else if str_eq event "push"
    then about_push payload
    else if str_eq event "comment.created"
    then (
      comment_title (map_at "issue" payload) (map_at "pull_request" payload),
      clipped_body (map_at "comment" payload),
    )
    else if str_eq event "review.submitted"
    then about_review event (map_at "review" payload)
    else if str_eq event "ping"
    then ("Webhook connected", "Webhook configured successfully!")
    else (event, "")

abbrev repo_name : Fields → Option Fields → String
repo_name payload (some repo) = text_at "name" repo
repo_name payload none = text_at "repository" payload

abbrev repo_path : String → String → String
repo_path owner name =
    if not (str_eq owner "") && not (str_eq name "")
    then String.◌++◌ owner (String.◌++◌ "/" name)
    else name

abbrev discord_avatar_url : String
discord_avatar_url =
    "https://raw.githubusercontent.com/exec/gitwise/main/web/public/gitwise-avatar.png"

-- an entry that is there only for a text that is not empty
abbrev unless_empty : String → String → Json → Fields → Fields
unless_empty t k v m = if str_eq t "" then m else field k v m

-- the message; `timestamp` is the time in RFC 3339
unfoldable pub embed : String → String → Fields → Json
unfolding describe text_at map_at
embed timestamp event payload =
    let (title, desc) = describe event payload in
    let path =
      repo_path (text_at "owner" payload) (repo_name payload (map_at "repository" payload)) in
    let sender = text_at "sender" payload in
    obj (
      field "title" (text title) (
        field "color" (num (pos (color event))) (
          field "timestamp" (text timestamp) (
            unless_empty desc "description" (text desc) (
              unless_empty path "footer"
                (obj (field "text" (text path) (field "icon_url" (text discord_avatar_url) end)))
                (unless_empty sender "author" (obj (field "name" (text sender) end)) end))))))

unfoldable pub build_discord_payload :
    (String → Option Fields) → (Json → Option String) → String → String → String → Option String
unfolding embed
build_discord_payload unmarshal marshal timestamp event payload = elim (unmarshal payload) [
  | none ↦ none
  | some m ↦ marshal (
      obj (
        field "username" (text "Gitwise") (
          field "avatar_url" (text discord_avatar_url)
            (field "embeds" (arr (cons (embed timestamp event m) nil)) end))))
]
