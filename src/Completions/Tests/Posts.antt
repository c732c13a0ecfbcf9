-- ===== src/Completions/Tests/Posts.antt =====
-- Concrete requests to inference-api/src/completions: refused ones, and one that is left.
use inference_stack.Prelude.{◌≤◌, ◌≡◌, refl, Bool, true, false, some, [], ◌∷◌, arith, ℕ_eq}
use inference_stack.Map.{get, set}
use inference_stack.Tokenizer.{estimate_token_count}
use inference_stack.Metrics.Windows.{decimal}
use inference_stack.Scheduler.Requests.{normal, CreateCompletionDto}
use inference_stack.Scheduler.Inference.{truthy, or_text}
use inference_stack.Scheduler.Queues.{empty}
use inference_stack.Scheduler.Service.{
  admit, enqueue, accepted, too_many_requests, queue_full, admission_check, new_request,
  estimate_retry_after, text_for_estimation,
}
use inference_stack.Scheduler.Histories.{Settings, start}
use inference_stack.Scheduler.Invariant.{nothing}
use inference_stack.Scheduler.Invariant.Calls.{with_id}
use inference_stack.Scheduler.Tests.{hello, settings}
use inference_stack.Completions.Records.{error, streaming, find_one}
use inference_stack.Completions.Calls.{error_event, Returned, plain, sse, Call, App, parse_priority}
use inference_stack.Completions.Service.{new_call, create, on_settled, disconnect}
use inference_stack.Completions.Histories.{
  app_start, AppReach, opened, after, entered, left, IsGood, AppReach-IsGood, disconnect_unheard,
  enqueued_by,
}
use inference_stack.Completions.Controller.{
  bad_request, with_session, post, taken, answer, refusal_body,
}
use inference_stack.Completions.Answers.{post_refused, post_stream_refused}
use inference_stack.Completions.Calls.{request, promise_of, write_call}
use inference_stack.Scheduler.Invariant.{queued_at, pending_at, active_at, settled_at}
use inference_stack.Prelude.{ap, ◌+◌, ℕ}
use inference_stack.Completions.Promises.{request_of_its_own}
use inference_stack.Completions.Tests.{service_texts, table}

-- A service whose queue takes nothing.
abbrev closed : Settings
closed = record settings { max_queue_depth = 0 }

abbrev greeted : CreateCompletionDto
greeted = record hello { prompt = some "hi" }

abbrev refused_dto : Bool → CreateCompletionDto
refused_dto stream = with_session "session" (record greeted { stream = stream })

full :
    (stream : Bool)
    → enqueued_by (refused_dto stream) 1 5 (app_start closed table) ≡ too_many_requests queue_full 1
unfolding enqueue admission_check app_start start empty estimate_retry_after
full stream = refl

abbrev posted : Bool → App
posted stream = create service_texts stream (refused_dto stream) 9 1 5 (app_start closed table)

taken_as :
    (stream : Bool)
    → post service_texts
        (record greeted { stream = stream })
        "session"
        9
        1
        5
        (app_start closed table)
      ≡ taken (posted stream)
unfolding post bad_request truthy
taken_as stream = refl

post_refused_example :
    (1 ≤ 1)
    × ((on_settled service_texts true 7 9 (posted false)).scheduler
        ≡ (app_start closed table).scheduler)
    × ((call : Call) × (get 9 (on_settled service_texts true 7 9 (posted false)).calls ≡ some call)
        × (find_one 9 (on_settled service_texts true 7 9 (posted false)).repository
            ≡ some call.entity)
        × (call.entity.status ≡ error)
        × ((outcome : Returned) × (call.kind ≡ plain false outcome)
            × (answer call.dto outcome
                ≡ some (record {
                  status = 429;
                  retry_after = some (decimal 1 "");
                  body = refusal_body queue_full 1;
                }))))
post_refused_example =
    post_refused service_texts (record greeted { stream = false }) "session" 9 1 5 7 true queue_full
      1 (app_start closed table) (posted false) refl (full false) (taken_as false)

post_stream_refused_example :
    ((on_settled service_texts true 7 9 (posted true)).scheduler
      ≡ (app_start closed table).scheduler)
    × ((call : Call) × (get 9 (on_settled service_texts true 7 9 (posted true)).calls ≡ some call)
        × (find_one 9 (on_settled service_texts true 7 9 (posted true)).repository
            ≡ some call.entity)
        × (call.entity.status ≡ streaming)
        × (call.kind ≡ sse (some (error_event "Inference failed" ∷ []))))
post_stream_refused_example =
    post_stream_refused service_texts (record greeted { stream = true }) "session" 9 1 5 7 true
      queue_full 1 (app_start closed table) (posted true) refl (full true) (taken_as true)

admitted :
    enqueued_by greeted 1 5 (app_start settings table)
    ≡ accepted
        (admit 5 (new_request greeted "anonymous" normal 1 5) (app_start settings table).scheduler)
unfolding enqueue admission_check app_start start empty new_request text_for_estimation
    estimate_token_count or_text truthy parse_priority
admitted = refl

abbrev one_left : App
one_left = disconnect 6 9 (create service_texts true greeted 9 1 5 (app_start settings table))

one_step :
    AppReach service_texts settings table
      (with_id 1 nothing)
      (create service_texts true greeted 9 1 5 (app_start settings table))
unfolding app_start get
one_step =
    after opened (entered true greeted 9 1 5 refl refl refl (λ e. ground (arith, e)) admitted)

two_steps : AppReach service_texts settings table (with_id 1 nothing) one_left
two_steps = after one_step (left 6 9)

AppReach-IsGood_example : IsGood service_texts (with_id 1 nothing) one_left
AppReach-IsGood_example = AppReach-IsGood service_texts two_steps

disconnect_unheard_example : (disconnect 7 9 one_left).scheduler ≡ one_left.scheduler
disconnect_unheard_example = disconnect_unheard service_texts one_left 7 9 two_steps

abbrev one_entered : App
one_entered = create service_texts true greeted 9 1 5 (app_start settings table)

abbrev entered_call : Call
entered_call =
    new_call service_texts true greeted 9 1 5 (enqueued_by greeted 1 5 (app_start settings table))

found_entered : get 9 one_entered.calls ≡ some entered_call
unfolding create write_call app_start get set
found_entered = refl

asks_one : entered_call.promise ≡ request 1
unfolding new_call
asks_one = ap (promise_of 1) admitted

request_of_its_own_example :
    (queued_at 1 one_entered.scheduler
        + pending_at 1 one_entered.scheduler
        + active_at 1 one_entered.scheduler
        + settled_at 1 one_entered.scheduler
      ≡ 1)
    × ((j : ℕ) (other : Call)
        → get j one_entered.calls ≡ some other
        → other.promise ≡ request 1
        → j ≡ 9)
request_of_its_own_example =
    request_of_its_own service_texts one_entered 9 1 entered_call one_step found_entered asks_one
