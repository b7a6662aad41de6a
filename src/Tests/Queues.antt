-- ===== src/Tests/Queues.antt =====
-- Tasks for the language model: two of a push and one of a chat, which goes first.
use mathlib.Core.List.{Memᴰ}
use gitwise.Prelude.{
  ℕ, ℤ, pos, String, Option, none, some, List, [], ◌∷◌, ◌≡◌, refl, length, str_eq, if◌then◌else◌,
}
use gitwise.Action.{ok, err, no_faults}
use gitwise.Queue.{AgentTask, Queue, dequeue, enqueue, last_of}
use gitwise.Queue.Order.{Holds, next_task}
use gitwise.Queue.Refinement.{Takes, dequeue-Takes, enqueue-Holds}
use gitwise.Queue.Workers.{work, work-empties}

abbrev a_task : ℕ → ℤ → AgentTask
a_task id priority = record {
  id = id;
  repo_id = 20;
  agent_id = 70;
  trigger_event = "push";
  trigger_ref = "";
  priority = priority;
  provider = "p";
  system_prompt = "";
  messages = [];
  max_tokens = pos 0;
}

abbrev early : AgentTask
early = a_task 1 (pos 2)

abbrev late : AgentTask
late = a_task 2 (pos 2)

abbrev chat : AgentTask
chat = a_task 3 (pos 1)

abbrev read : String → Option AgentTask
read s =
    if str_eq s "early"
    then some early
    else if str_eq s "late"
    then some late
    else if str_eq s "chat"
    then some chat
    else none

abbrev nothing : Queue
nothing = record { agent_tasks = []; lists = λ p. [] }

abbrev after_early : Queue
after_early = (enqueue (λ t. some "early") no_faults 9 early nothing).1

abbrev after_late : Queue
after_late = (enqueue (λ t. some "late") no_faults 9 late after_early).1

abbrev after_chat : Queue
after_chat = (enqueue (λ t. some "chat") no_faults 9 chat after_late).1

is_read :
    (text s : String) (t : AgentTask) → read text ≡ some t → some text ≡ some s → read s ≡ some t
is_read text s t e h = cc

early-Holds : Holds read after_early (early ∷ [])
unfolding enqueue
early-Holds =
    enqueue-Holds read (λ t. some "early") no_faults 9 early [] nothing
      (λ s. is_read "early" s early refl) (λ p. refl) refl

late-Holds : Holds read after_late (early ∷ late ∷ [])
unfolding enqueue
late-Holds =
    enqueue-Holds read (λ t. some "late") no_faults 9 late (early ∷ []) after_early
      (λ s. is_read "late" s late refl) early-Holds refl

chat_is_queued : (enqueue (λ t. some "chat") no_faults 9 chat after_late).0 ≡ ok tt
unfolding enqueue
chat_is_queued = refl

chat-Holds : Holds read after_chat (early ∷ late ∷ chat ∷ [])
chat-Holds =
    enqueue-Holds read (λ t. some "chat") no_faults 9 chat (early ∷ late ∷ []) after_late
      (λ s. is_read "chat" s chat refl) late-Holds chat_is_queued

enqueue-Holds_example : Holds read after_chat (early ∷ late ∷ chat ∷ [])
enqueue-Holds_example =
    enqueue-Holds read (λ t. some "chat") no_faults 9 chat (early ∷ late ∷ []) after_late
      (λ s. is_read "chat" s chat refl) late-Holds chat_is_queued

abbrev waiting : List AgentTask
waiting = early ∷ late ∷ chat ∷ []

dequeue-Takes_example : Takes read (next_task waiting) waiting (dequeue read no_faults after_chat)
dequeue-Takes_example = dequeue-Takes read waiting after_chat chat-Holds

chat_goes_first : (dequeue read no_faults after_chat).0 ≡ ok chat
unfolding enqueue dequeue last_of
chat_goes_first = refl

work-empties_example :
    (length (work read (λ s. s) no_faults 5 (λ t. err "e") 3 after_chat).0 ≡ 3)
    × ((t : AgentTask)
        → Memᴰ t waiting
        → Memᴰ t (work read (λ s. s) no_faults 5 (λ t. err "e") 3 after_chat).0)
    × Holds read (work read (λ s. s) no_faults 5 (λ t. err "e") 3 after_chat).1 []
work-empties_example =
    work-empties read (λ s. s) no_faults 5 (λ t. err "e") waiting after_chat chat-Holds
      (refl, (refl, (refl, tt)))
