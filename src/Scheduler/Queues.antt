-- ===== src/Scheduler/Queues.antt =====
-- The per-user queues of inference-api/src/scheduler/scheduler.service.ts: the fields `userQueues`,
-- `userKeys`, `rrIndex`, `totalQueued` and `totalQueuedTokens`, and the methods that write them.
-- A key without a queue, on which `userQueues.get(key)!` would fail, reads as an empty queue here;
-- `Counters` shows that there is none.
pub mod Counters
pub mod Withdrawal
pub mod Selection
pub mod Dequeue
pub mod Cancel
mod Tests
use inference_stack.Prelude.{
  ℕ, zero, suc, ◌+◌, ◌-◌, ◌%◌, max, String, Bool, true, false, ◌&&◌, ◌≡◌, Option, none, some, List,
  [], ◌∷◌, ◌++◌, map, length, get_elem?, sum_of, leb, ltb, ◌==◌, ℕ_eq, string_eq, if◌then◌else◌,
}
use inference_stack.Map.{Map, keys, get, set, delete}
use inference_stack.Scheduler.Requests.{Request}

pub record Queues : Type 0 where
  pub user_queues : Map String (List Request)
  pub user_keys : List String
  pub rr_index : ℕ
  pub total_queued : ℕ
  pub total_queued_tokens : ℕ

unfoldable pub empty : Queues
empty = record {
  user_queues = [];
  user_keys = [];
  rr_index = 0;
  total_queued = 0;
  total_queued_tokens = 0;
}

abbrev pub or_empty : Option (List Request) → List Request
or_empty none = []
or_empty (some queue) = queue

pub queue_of : String → Queues → List Request
queue_of user q = or_empty (get user q.user_queues)

pub refresh_user_keys : Queues → Queues
refresh_user_keys q =
    let current = keys q.user_queues in
    record q {
      user_keys = current;
      rr_index = if leb (length current) q.rr_index then 0 else q.rr_index;
    }

-- The first half of `addToQueue`: the user has a queue afterwards.
pub ensure_queue : String → Queues → Queues
ensure_queue user q = elim (get user q.user_queues) [
  | none ↦ refresh_user_keys (record q { user_queues = set user [] q.user_queues })
  | some queue ↦ q
]

-- `queue.push(request)` and the counters.
pub push_request : Request → Queues → Queues
push_request r q = record q {
  user_queues = set r.user_id (queue_of r.user_id q ++ r ∷ []) q.user_queues;
  total_queued = q.total_queued + 1;
  total_queued_tokens = q.total_queued_tokens + r.estimated_tokens;
}

pub add_to_queue : Request → Queues → Queues
add_to_queue r q = push_request r (ensure_queue r.user_id q)

-- What `cancel` and `dequeueNext` do once `r` has been taken out of the user's queue, of which
-- `rest` is left: the counters, and the user's entry if the queue is empty. The subtractions are
-- those of the source where the counters are right, which `Counters` proves.
pub close_queue : String → List Request → Queues → Queues
close_queue user [] q = refresh_user_keys (record q { user_queues = delete user q.user_queues })
close_queue user (r ∷ rest) q = record q { user_queues = set user (r ∷ rest) q.user_queues }

pub withdraw : String → Request → List Request → Queues → Queues
withdraw user r rest q = close_queue user rest (record q {
  total_queued = q.total_queued - 1;
  total_queued_tokens = q.total_queued_tokens - r.estimated_tokens;
})

-- `queue[0].effectivePriority < bestPriority`, with `none` for Infinity.
pub lower : List Request → Option ℕ → Option ℕ
lower [] best = best
lower (r ∷ rest) none = some r.effective_priority
lower (r ∷ rest) (some best) =
    if ltb r.effective_priority best then some r.effective_priority else some best

pub best_priority : Queues → List String → Option ℕ → Option ℕ
best_priority q [] best = best
best_priority q (user ∷ users) best = best_priority q users (lower (queue_of user q) best)

-- `queue[0].effectivePriority <= bestPriority + 0.5`
abbrev pub within : Option ℕ → Request → Bool
within none r = true
within (some best) r = leb r.effective_priority (best + 5)

-- The head of a queue and what follows it, if the head passes.
pub take_head : Option ℕ → List Request → Option (Request × List Request)
take_head best [] = none
take_head best (r ∷ rest) = if within best r then some (r, rest) else none

pub record Choice : Type 0 where
  pub index : ℕ
  pub user : String
  pub request : Request
  pub rest : List Request

pub choose_at : Queues → Option ℕ → ℕ → Option Choice
choose_at q best index = elim (get_elem? q.user_keys index) [
  | none ↦ none
  | some user ↦ elim (take_head best (queue_of user q)) [
    | none ↦ none
    | some (r, rest) ↦ some (record { index = index; user = user; request = r; rest = rest })
  ]
]

-- The round-robin loop, with the rounds that are left and the next offset.
pub choose_from : Queues → Option ℕ → ℕ → ℕ → Option Choice
choose_from q best zero i = none
choose_from q best (suc rounds) i =
    let later = choose_from q best rounds (i + 1) in
    elim (choose_at q best ((q.rr_index + i) % length q.user_keys)) [
      | some c ↦ some c
      | none ↦ later
    ]

pub choose : Queues → Option Choice
choose q = choose_from q (best_priority q q.user_keys none) (length q.user_keys) 0

-- `this.rrIndex = (idx + 1) % Math.max(this.userKeys.length, 1)`
pub advance : ℕ → Queues → Queues
advance index q = record q { rr_index = (index + 1) % max (length q.user_keys) 1 }

pub take_choice : Choice → Queues → Queues
take_choice c q = advance c.index (withdraw c.user c.request c.rest q)

-- With no keys there are no rounds, so the early return for that case is the same `none`.
pub dequeue_next : Queues → Option (Request × Queues)
dequeue_next q = elim (choose q) [ none ↦ none | some c ↦ some (c.request, take_choice c q) ]

-- `findIndex` and `splice` of `cancel`, in one queue.
pub splice : ℕ → List Request → Option (Request × List Request)
splice id [] = none
splice id (r ∷ rest) =
    if r.id == id
    then some (r, rest)
    else elim (splice id rest) [ none ↦ none | some (found, others) ↦ some (found, r ∷ others) ]

-- The loop of `cancel` over the queues.
pub find_queued : ℕ → Map String (List Request) → Option (String × Request × List Request)
find_queued id [] = none
find_queued id ((user, queue) ∷ m) = elim (splice id queue) [
  | none ↦ find_queued id m
  | some (r, rest) ↦ some (user, r, rest)
]

pub cancel_queued : ℕ → Queues → Option (Request × Queues)
cancel_queued id q = elim (find_queued id q.user_queues) [
  | none ↦ none
  | some (user, r, rest) ↦ some (r, withdraw user r rest q)
]

pub queued_ids : Map String (List Request) → List ℕ
queued_ids [] = []
queued_ids ((user, queue) ∷ m) = map (λ r. r.id) queue ++ queued_ids m

pub get_queued_request_ids : Queues → List ℕ
get_queued_request_ids q = queued_ids q.user_queues
