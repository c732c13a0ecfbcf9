-- ===== src/Scheduler/Tests.antt =====
-- Concrete services, and the theorems on them.
use inference_stack.Prelude.{
  ℕ, ◌+◌, ◌≤◌, ◌≡◌, refl, ◌≢◌, String, true, false, none, some, List, [], ◌∷◌, arith, length, ◌==◌,
  ℕ_eq, if◌then◌else◌, ◌↔◌, ◌⊎◌, ◌<◌,
}
use Prim.Native.String
use inference_stack.Map.{delete, get}
use inference_stack.Tokenizer.{estimate_token_count}
use inference_stack.Batching.{default_batch_config}
use inference_stack.Scheduler.Requests.{normal, active, CreateCompletionDto, Request}
use inference_stack.Scheduler.Results.{
  InferResponse, Completion, resolved, rejected, request_cancelled, request_timed_out, single_timer,
}
use inference_stack.Scheduler.Responses.{present}
use inference_stack.Scheduler.Queues.{empty, add_to_queue, get_queued_request_ids}
use inference_stack.Scheduler.Queues.Counters.{empty-IsValid}
use inference_stack.Scheduler.State.{SingleStream, single, Service, fresh}
use inference_stack.Scheduler.Dispatching.{batchable, try_dispatch}
use inference_stack.Scheduler.Service.{
  new_request, text_for_estimation, admission_check, admit, enqueue, cancel, get_stats, accepted,
  too_many_requests, queue_full, token_budget_exceeded, estimate_retry_after,
}
use inference_stack.Scheduler.Events.{stream_complete, stream_next, stream_error, timer_fired}
use inference_stack.Scheduler.Invariant.{IsSound, nothing}
use inference_stack.Scheduler.Invariant.Calls.{with_id}
use inference_stack.Scheduler.Histories.{
  Settings, start, Reach, begin, more, enqueued, cancelled, Reach-IsSound, get_stats-Reach,
}
use inference_stack.Scheduler.Concurrency.{try_dispatch_within}
use inference_stack.Scheduler.Admission.{
  estimate, IsAccepted, enqueue-IsAccepted-iff, enqueue_refusal,
}
use inference_stack.Scheduler.Cancelling.{cancel_in_bucket, cancel_outcome, cancel_closes_stream}
use inference_stack.Scheduler.Endings.{timer_fired_outcome}
use inference_stack.Scheduler.Streaming.{texts, stream_all, stream_all_outcome}

abbrev pub hello : CreateCompletionDto
hello = record {
  model = "qwen";
  prompt = some "";
  messages = [];
  max_tokens = none;
  temperature = none;
  top_p = none;
  stream = false;
  stop = [];
  user = none;
  priority = none;
  images = "aGk=" ∷ [];
  session_id = none;
}

abbrev pub settings : Settings
settings = record {
  max_queue_depth = 100;
  max_queued_tokens = 50000;
  max_concurrent = some 2;
  request_timeout_ms = 120000;
  batching = record default_batch_config { enabled = false };
}

abbrev pub greeting : Request
greeting = record {
  id = 1;
  dto = hello;
  user_id = "ada";
  priority = normal;
  estimated_tokens = 0;
  enqueued_at = 5;
  effective_priority = 10;
}

abbrev pub greeting_stream : SingleStream
greeting_stream = record {
  request = greeting;
  worker_id = "worker-0";
  full_text = "";
  thinking_content = "";
  usage = none;
  finish_reason = "";
}

-- Request 1 runs on stream 0, with its timer.
abbrev pub running : Service
running = record {
  queues = empty;
  active_count = 1;
  active_requests = (1, greeting) ∷ [];
  collector = record { config = settings.batching; buckets = [] };
  max_queue_depth = 100;
  max_queued_tokens = 50000;
  max_concurrent = some 2;
  request_timeout_ms = 120000;
  progress = λ i.
      if i == 1
      then record fresh {
        state = active;
        dispatch_start_time = some 5;
        subscription = some 0;
        timeout_timer = some single_timer;
      }
      else fresh;
  awaiting = [];
  streams = (0, single greeting_stream) ∷ [];
  next_ticket = 1;
}

pub running-IsSound : IsSound (with_id 1 nothing) running
unfolding empty
running-IsSound = record {
  queues = empty-IsValid;
  depth = omega arith;
  budget = omega arith;
  counted = refl;
  exact = λ i. ground arith;
  issued_once = λ i. ground arith;
  kept = λ i. ground arith;
  ran = λ i. ground arith;
  keyed = (refl, tt);
  timed = λ i. ground arith;
  routes = tt;
  streams = (refl, tt);
}

pub found_stream : get 0 running.streams ≡ some (single greeting_stream)
unfolding get
found_stream = refl

-- Request 1 waits in a bucket.
abbrev bucketed : Service
bucketed = record (start (record settings { batching = default_batch_config })) {
  collector = record {
    config = default_batch_config;
    buckets = ("qwen", record { requests = batchable greeting ∷ []; timer = true } ∷ []) ∷ [];
  };
}

bucketed-IsSound : IsSound (with_id 1 nothing) bucketed
unfolding empty start
bucketed-IsSound = record {
  queues = empty-IsValid;
  depth = omega arith;
  budget = omega arith;
  counted = refl;
  exact = λ i. ground arith;
  issued_once = λ i. ground arith;
  kept = λ i. ground arith;
  ran = λ i. ground arith;
  keyed = tt;
  timed = λ i. ground arith;
  routes = tt;
  streams = tt;
}

cancel_in_bucket_example : cancel 9 1 bucketed ≡ bucketed
cancel_in_bucket_example = cancel_in_bucket (with_id 1 nothing) 9 1 bucketed bucketed-IsSound refl

cancel_outcome_example :
    ((cancel 9 1 running).progress 1).outcome ≡ some (rejected request_cancelled)
cancel_outcome_example =
    cancel_outcome (with_id 1 nothing) 9 1 running running-IsSound (unfold empty in omega arith)

cancel_closes_stream_example :
    ((i : ℕ) → i ≢ 1 → ((cancel 9 1 running).progress i).outcome ≡ (running.progress i).outcome)
    × ((later : ℕ) (response : InferResponse)
        → stream_next later 0 response (cancel 9 1 running) ≡ cancel 9 1 running)
    × ((later : ℕ) → stream_complete later 0 (cancel 9 1 running) ≡ cancel 9 1 running)
    × ((later : ℕ) (message : String)
        → stream_error later 0 message (cancel 9 1 running) ≡ cancel 9 1 running)
unfolding get
cancel_closes_stream_example =
    cancel_closes_stream (with_id 1 nothing) 9 1 0 running running-IsSound (refl, tt) refl refl

abbrev pub one_chunk : InferResponse
one_chunk = record {
  request_id = 1;
  chunk = some (record { is_thinking = false; text = some "Hi" });
  complete = none;
  error = none;
}

abbrev pub last_message : InferResponse
last_message = record {
  request_id = 1;
  chunk = none;
  complete = some (record { finish_reason = "stop"; usage = none });
  error = none;
}

abbrev pub two_messages : List InferResponse
two_messages = one_chunk ∷ last_message ∷ []

stream_all_outcome_example :
    (c : Completion) × (((stream_complete 9 0 (stream_all 9 0 two_messages running)).progress
        1).outcome
      ≡ some (resolved c))
    × (c.id ≡ 1)
    × (c.text ≡ String.◌++◌ "" (texts false two_messages))
    × (c.thinking_content ≡ present (String.◌++◌ "" (texts true two_messages)))
stream_all_outcome_example =
    stream_all_outcome (with_id 1 nothing) 9 0 two_messages greeting_stream running running-IsSound
      found_stream refl (refl, (refl, tt))

timer_fired_outcome_example :
    (((timer_fired 9 1 running).progress 1).outcome ≡ some (rejected request_timed_out))
    × ((timer_fired 9 1 running).streams ≡ [])
    × ((i : ℕ)
        → i ≢ 1
        → ((timer_fired 9 1 running).progress i).outcome ≡ (running.progress i).outcome)
unfolding delete
timer_fired_outcome_example =
    timer_fired_outcome (with_id 1 nothing) 9 1 single_timer running running-IsSound refl refl

-- Request 1 is queued and two slots are free.
abbrev waiting_greeting : Service
waiting_greeting = record (start settings) { queues = add_to_queue greeting empty }

try_dispatch_within_example : (try_dispatch 9 waiting_greeting).active_count ≤ 2
unfolding start
try_dispatch_within_example = try_dispatch_within 9 2 waiting_greeting refl refl (omega arith)

enqueued_greeting :
    enqueue hello "ada" normal 1 5 (start settings) ≡ accepted (admit 5 greeting (start settings))
unfolding enqueue admission_check start empty new_request text_for_estimation estimate_token_count
enqueued_greeting = refl

two_steps : Reach settings (with_id 1 nothing) (cancel 9 1 (admit 5 greeting (start settings)))
two_steps =
    more (more begin (enqueued hello "ada" normal 1 5 refl enqueued_greeting)) (cancelled 9 1)

Reach-IsSound_example : IsSound (with_id 1 nothing) (cancel 9 1 (admit 5 greeting (start settings)))
Reach-IsSound_example = Reach-IsSound two_steps

get_stats-Reach_example :
    ((get_stats (admit 5 greeting (start settings))).queue_depth
      ≡ length (get_queued_request_ids (admit 5 greeting (start settings)).queues))
    × ((get_stats (admit 5 greeting (start settings))).queue_depth
        ≤ (admit 5 greeting (start settings)).max_queue_depth)
    × ((get_stats (admit 5 greeting (start settings))).queued_tokens
        ≤ (admit 5 greeting (start settings)).max_queued_tokens)
    × ((get_stats (admit 5 greeting (start settings))).active
        ≡ length (admit 5 greeting (start settings)).active_requests)
get_stats-Reach_example =
    get_stats-Reach (admit 5 greeting (start settings))
      (more begin (enqueued hello "ada" normal 1 5 refl enqueued_greeting))

-- No request may wait.
abbrev closed : Service
closed = start (record settings { max_queue_depth = 0 })

refused_greeting : enqueue hello "ada" normal 1 5 closed ≡ too_many_requests queue_full 1
unfolding enqueue admission_check start empty new_request estimate_retry_after
refused_greeting = refl

enqueue_refusal_example :
    (1 ≤ 1)
    × (closed.active_count ≤ 1)
    × (((queue_full ≡ queue_full) × (closed.max_queue_depth ≤ closed.queues.total_queued))
        ⊎ ((queue_full ≡ token_budget_exceeded)
            × (closed.queues.total_queued < closed.max_queue_depth)
            × (closed.max_queued_tokens < closed.queues.total_queued_tokens + estimate hello)))
enqueue_refusal_example =
    enqueue_refusal hello "ada" normal 1 5 closed queue_full 1 refused_greeting

enqueue-IsAccepted-iff_example : IsAccepted (enqueue hello "ada" normal 1 5 running) ↔ (
    (running.queues.total_queued < running.max_queue_depth)
    × (running.queues.total_queued_tokens + estimate hello ≤ running.max_queued_tokens))
enqueue-IsAccepted-iff_example = enqueue-IsAccepted-iff hello "ada" normal 1 5 running
