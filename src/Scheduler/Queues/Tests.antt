-- ===== src/Scheduler/Queues/Tests.antt =====
-- Two users' queues, and the theorems on them.
use inference_stack.Prelude.{ℕ, ◌*◌, ◌≡◌, refl, String, false, none, some, [], ◌∷◌, arith}
use inference_stack.Map.{get, set, delete}
use inference_stack.Scheduler.Requests.{Priority, high, low, level, CreateCompletionDto, Request}
use inference_stack.Scheduler.Queues.{
  Queues, empty, queue_of, refresh_user_keys, ensure_queue, push_request, add_to_queue, close_queue,
  withdraw, lower, best_priority, take_head, choose_at, choose_from, choose, advance, take_choice,
  dequeue_next, splice, find_queued, cancel_queued,
}
use inference_stack.Scheduler.Queues.Counters.{IsValid, empty-IsValid, add_to_queue-IsValid}
use inference_stack.Scheduler.Queues.Dequeue.{
  IsDequeued, dequeue_next-IsDequeued, dequeue_next-total,
}

abbrev plain : CreateCompletionDto
plain = record {
  model = "qwen";
  prompt = some "hi";
  messages = [];
  max_tokens = none;
  temperature = none;
  top_p = none;
  stream = false;
  stop = [];
  user = none;
  priority = none;
  images = [];
  session_id = none;
}

abbrev ask : ℕ → String → Priority → Request
ask id user priority = record {
  id = id;
  dto = plain;
  user_id = user;
  priority = priority;
  estimated_tokens = 3;
  enqueued_at = 0;
  effective_priority = 10 * level priority;
}

abbrev two_users : Queues
two_users = add_to_queue (ask 2 "bob" high) (add_to_queue (ask 1 "ada" low) empty)

two_users-IsValid : IsValid two_users
two_users-IsValid =
    add_to_queue-IsValid (ask 2 "bob" high) (add_to_queue (ask 1 "ada" low) empty)
      (add_to_queue-IsValid (ask 1 "ada" low) empty empty-IsValid)

abbrev only_ada : Queues
only_ada = record {
  user_queues = ("ada", ask 1 "ada" low ∷ []) ∷ [];
  user_keys = "ada" ∷ [];
  rr_index = 0;
  total_queued = 1;
  total_queued_tokens = 3;
}

bob_first : dequeue_next two_users ≡ some (ask 2 "bob" high, only_ada)
unfolding dequeue_next choose choose_from choose_at take_head best_priority lower queue_of
    take_choice advance withdraw close_queue refresh_user_keys add_to_queue push_request
    ensure_queue empty get set delete
bob_first = refl

dequeue_next-IsDequeued_example : IsDequeued two_users (ask 2 "bob" high) only_ada
dequeue_next-IsDequeued_example =
    dequeue_next-IsDequeued two_users (ask 2 "bob" high) only_ada two_users-IsValid bob_first

dequeue_next-total_example : (r : Request) × (q' : Queues) × (dequeue_next two_users ≡ some (r, q'))
unfolding add_to_queue push_request ensure_queue refresh_user_keys empty get
dequeue_next-total_example = dequeue_next-total two_users two_users-IsValid (omega arith)

bob_cancelled : cancel_queued 2 two_users ≡ some (ask 2 "bob" high, only_ada)
unfolding cancel_queued find_queued splice withdraw close_queue refresh_user_keys add_to_queue
    push_request ensure_queue queue_of empty get set delete
bob_cancelled = refl
