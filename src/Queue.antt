-- ===== src/Queue.antt =====
-- internal/services/llm/queue.go: the tasks for the language model, in Redis lists, one for each
-- priority, and in the table `agent_tasks`.
pub mod Order
pub mod Refinement
pub mod Workers
use gitwise.Prelude.{
  ℕ, zero, suc, ◌+◌, ℤ, pos, negsuc, String, Bool, true, false, not, ◌&&◌, ◌||◌, Option, none, some,
  List, [], ◌∷◌, ◌++◌, ◌==◌, if◌then◌else◌, str_eq, any, update_where,
}
use gitwise.Action.{
  Result, ok, err, Action, Faults, pure, raise, modify, raise_if, or_raise, gets, ◌>>=◌, ◌>>◌,
}

-- the temperature, which is only passed on, is left out
pub record AgentTask : Type 0 where
  pub id : ℕ
  pub repo_id : ℕ
  pub agent_id : ℕ
  pub trigger_event : String
  pub trigger_ref : String
  pub priority : ℤ
  pub provider : String
  pub system_prompt : String
  pub messages : List (String × String)
  pub max_tokens : ℤ

pub record TaskRow : Type 0 where
  pub id : ℕ
  pub repo_id : ℕ
  pub agent_id : ℕ
  pub trigger_event : String
  pub trigger_ref : String
  pub status : String
  pub provider : String
  pub input_tokens : ℤ
  pub output_tokens : ℤ
  pub result : String
  pub error : Option String
  pub completed_at : Option ℕ

-- the answer of the language model
pub record Generated : Type 0 where
  pub content : String
  pub input_tokens : ℤ
  pub output_tokens : ℤ

-- `lists p` is the Redis list of priority `p`, its left end first
pub record Queue : Type 0 where
  pub agent_tasks : List TaskRow
  pub lists : ℤ → List String

abbrev pub same_int : ℤ → ℤ → Bool
same_int (pos n) (pos m) = n == m
same_int (pos n) (negsuc m) = false
same_int (negsuc n) (pos m) = false
same_int (negsuc n) (negsuc m) = n == m

abbrev pub priority_chat : ℤ
priority_chat = pos 1

abbrev pub priority_push : ℤ
priority_push = pos 2

abbrev pub priority_schedule : ℤ
priority_schedule = pos 3

-- the list of `key` is replaced
abbrev pub set_list : ℤ → List String → Queue → Queue
set_list key l q = record q { lists = λ (p : ℤ). if same_int p key then l else q.lists p }

-- `LPUSH`
abbrev pub l_push : ℤ → String → Queue → Queue
l_push key text q = set_list key (text ∷ q.lists key) q

-- the right end of a list, and what is left of it
unfoldable pub last_of : String → List String → List String × String
last_of s [] = ([], s)
last_of s (t ∷ l) = let (rest, x) = last_of t l in (s ∷ rest, x)

-- `RPOP`
abbrev pub pop_from : List String → Option (List String × String)
pop_from [] = none
pop_from (s ∷ l) = some (last_of s l)

abbrev pub queued_row : AgentTask → TaskRow
queued_row t = record {
  id = t.id;
  repo_id = t.repo_id;
  agent_id = t.agent_id;
  trigger_event = t.trigger_event;
  trigger_ref = t.trigger_ref;
  status = "queued";
  provider = t.provider;
  input_tokens = pos 0;
  output_tokens = pos 0;
  result = "{}";
  error = none;
  completed_at = none;
}

pub data Error : Type 0 where
  no_task bad_task internal : Error

-- `uuid.Nil` is the number 0; `fresh` is the new identifier
abbrev pub with_id : ℕ → AgentTask → AgentTask
with_id fresh t = if t.id == 0 then record t { id = fresh } else t

-- `json.Marshal` (none if it fails); the row stays if the push fails
unfoldable pub enqueue :
    (AgentTask → Option String) → Faults → ℕ → AgentTask → Action Queue Error (Unit {0})
enqueue marshal fails fresh task = do
  let t = with_id fresh task
  taken ← gets (λ (q : Queue). any (λ (r : TaskRow). r.id == t.id) q.agent_tasks)
  raise_if (fails 0 || taken) internal
  modify (λ (q : Queue). record q { agent_tasks = q.agent_tasks ++ queued_row t ∷ [] })
  text ← or_raise (marshal t) internal
  raise_if (fails 1) internal
  modify (l_push t.priority text)

-- one priority of `dequeue`: the list is empty, or what was taken from it is a task or no task
pub data Popped : Type 0 where
  empty broken : Popped
  task : AgentTask → Popped

module _ (unmarshal : String → Option AgentTask) where
  abbrev pub decode : Option AgentTask → Popped
  decode none = broken
  decode (some t) = task t

  abbrev pub pop : ℤ → Queue → Popped × Queue
  pop key q = elim (pop_from (q.lists key)) [
    | none ↦ (empty, q)
    | some (rest, s) ↦ (decode (unmarshal s), set_list key rest q)
  ]

  -- the `BRPOP` on the lowest priority: after a second without a task it gives up
  abbrev pub pop_last : Faults → Queue → Result Error AgentTask × Queue
  pop_last fails q =
      if fails 2
      then (err internal, q)
      else let (r, q') = pop priority_schedule q in
        elim r [ empty ↦ (err no_task, q') | broken ↦ (err bad_task, q') | task t ↦ (ok t, q') ]

  abbrev pub after_chat : Faults → Popped → Queue → Result Error AgentTask × Queue
  after_chat fails (task t) q = (ok t, q)
  after_chat fails r q =
      if fails 1
      then (err internal, q)
      else let (r', q') = pop priority_push q in
        elim r' [ empty ↦ pop_last fails q' | broken ↦ pop_last fails q' | task t ↦ (ok t, q') ]

  unfoldable pub dequeue : Faults → Queue → Result Error AgentTask × Queue
  unfolding last_of
  dequeue fails q =
      if fails 0
      then (err internal, q)
      else let (r, q') = pop priority_chat q in after_chat fails r q'

abbrev pub set_task : ℕ → (TaskRow → TaskRow) → Queue → Queue
set_task id f q = record q { agent_tasks = update_where (λ r. r.id == id) f q.agent_tasks }

-- an UPDATE whose error is only logged
abbrev pub try_set : Bool → ℕ → (TaskRow → TaskRow) → Queue → Queue
try_set failed id f q = if failed then q else set_task id f q

abbrev pub failed_row : ℕ → String → TaskRow → TaskRow
failed_row now e r = record r { status = "failed"; error = some e; completed_at = some now }

abbrev pub completed_row : ℕ → String → Generated → TaskRow → TaskRow
completed_row now result g r = record r {
  status = "completed";
  input_tokens = g.input_tokens;
  output_tokens = g.output_tokens;
  result = result;
  completed_at = some now;
}

-- `processTask`; `answer` is what the gateway gives, `content_json` the JSON text of its content
unfoldable pub process_task :
    (String → String) → Faults → ℕ → Result String Generated → AgentTask → Queue → Queue
process_task content_json fails now answer t q =
    let running = try_set (fails 0) t.id (λ r. record r { status = "running" }) q in
    elim answer [
      | err e ↦ try_set (fails 1) t.id (failed_row now e) running
      | ok g ↦ try_set (fails 1) t.id (completed_row now (content_json g.content) g) running
    ]

-- one round of a `worker`: the task that it took, if there was one, and was through with
unfoldable pub worker_round :
    (String → Option AgentTask)
    → (String → String)
    → Faults
    → Faults
    → ℕ
    → (AgentTask → Result String Generated)
    → Queue
    → Option AgentTask × Queue
unfolding dequeue process_task
worker_round unmarshal content_json pops fails now generate q =
    let (r, q') = dequeue unmarshal pops q in
    elim r [
      | err e ↦ (none, q')
      | ok t ↦ (some t, process_task content_json fails now (generate t) t q')
    ]
