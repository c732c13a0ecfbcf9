-- ===== src/Completions/Tests.antt =====
-- Concrete calls of inference-api/src/completions, and the theorems on them.
mod Posts
use Prim.Native.String
use inference_stack.Prelude.{
  inl, ◌≤◌, ◌≡◌, refl, ap, Bool, true, false, none, some, [], ◌∷◌, arith, subst, ℕ_discrete, ℕ_eq,
}
use inference_stack.Map.{get}
use inference_stack.Tokenizer.{estimate_token_count}
use inference_stack.ClickHouse.{ClickHouse}
use inference_stack.Metrics.Recording.{MetricRow}
use inference_stack.Metrics.Windows.{decimal}
use inference_stack.Scheduler.Requests.{normal, CreateCompletionDto}
use inference_stack.Scheduler.Results.{Completion}
use inference_stack.Scheduler.Inference.{truthy, or_text}
use inference_stack.Scheduler.Queues.{empty}
use inference_stack.Scheduler.State.{Service}
use inference_stack.Scheduler.Service.{
  admit, enqueue, accepted, too_many_requests, queue_full, admission_check, new_request,
  estimate_retry_after, text_for_estimation,
}
use inference_stack.Scheduler.Events.{stream_complete}
use inference_stack.Scheduler.Responses.{single_completion}
use inference_stack.Scheduler.Histories.{Settings, start}
use inference_stack.Scheduler.Invariant.{IsSound, nothing}
use inference_stack.Scheduler.Invariant.Calls.{with_id}
use inference_stack.Scheduler.Invariant.Ends.{stream_complete-IsSound}
use inference_stack.Scheduler.Streaming.{texts, stream_all}
use inference_stack.Scheduler.Endings.{stream_complete_outcome}
use inference_stack.Scheduler.Tests.{
  hello, settings, greeting_stream, running, running-IsSound, found_stream, two_messages,
}
use inference_stack.Completions.Records.{completed, cancelled, error, streaming, Entity, find_one}
use inference_stack.Completions.Calls.{
  request, error_event, Returned, unsettled, Kind, plain, sse, Call, App, settled, fulfilled,
  of_outcome, parse_priority,
}
use inference_stack.Completions.Service.{Texts, new_entity, create, on_settled, disconnect}
use inference_stack.Completions.Filing.{Agrees, IsFiled}
use inference_stack.Completions.Histories.{
  app_start, AppReach, opened, after, entered, left, IsGood, AppReach-IsGood, disconnect_unheard,
  enqueued_by,
}
use inference_stack.Completions.Controller.{
  bad_request, with_session, post, taken, answer, refusal_body,
}
use inference_stack.Completions.Answers.{post_refused, post_stream_refused}
use inference_stack.Completions.Endings.{IsAnsweredWith, create_streamed, finished_then_closed}
use inference_stack.Completions.Streams.{IsStreamed, create_stream-IsStreamed}

abbrev service_texts : Texts
service_texts = record {
  stringify = λ ms. "[]";
  exception_message = λ why. "Http Exception";
  error_string = λ err. "[object Object]";
}

abbrev table : ClickHouse MetricRow
table = record { connected = true; rows = [] }

abbrev entity : Bool → Entity
entity stream = new_entity service_texts stream hello 9

-- Call 9, whose request 1 runs.
abbrev call_of : Bool → Kind → Call
call_of stream kind = record {
  dto = hello;
  request_start_time = 5;
  promise = request 1;
  entity = entity stream;
  kind = kind;
}

abbrev app_of : Service → Call → App
app_of s call = record {
  scheduler = s;
  clickhouse = table;
  repository = (9, call.entity) ∷ [];
  calls = (9, call) ∷ [];
}

-- With one call the invariant is that of the scheduler and of the call.
one_call-IsGood :
    (s : Service) (call : Call)
    → IsSound (with_id 1 nothing) s
    → call.entity.id ≡ 9
    → Agrees service_texts call.kind call.entity
    → IsGood service_texts (with_id 1 nothing) (app_of s call)
unfolding get find_one
one_call-IsGood s call sound same told = record {
  sound = sound;
  filed = λ k c found. elim (ℕ_discrete k 9) [
    | yes nine ↦
        let itself : call ≡ c = ground (arith, nine) in
        subst (IsFiled service_texts (with_id 1 nothing) ((9, call.entity) ∷ []) k) itself (record {
          apart = ground (arith, nine);
          same_id = omega (arith, same, nine);
          stored = ground (arith, nine);
          told = told;
        })
    | no other ↦ absurd (ground (arith, other))
  ];
}

abbrev waiting_call : Call
waiting_call = call_of false (plain false unsettled)

waiting-IsGood : IsGood service_texts (with_id 1 nothing) (app_of running waiting_call)
unfolding new_entity
waiting-IsGood = one_call-IsGood running waiting_call running-IsSound refl refl

found_call : (call : Call) (s : Service) → get 9 (app_of s call).calls ≡ some call
unfolding get
found_call call s = refl

create_streamed_example : IsAnsweredWith 9 (String.◌++◌ "" (texts false two_messages)) (
    on_settled service_texts true 12 9 (record (app_of running waiting_call) {
      scheduler = stream_complete 9 0 (stream_all 9 0 two_messages running);
    }))
create_streamed_example =
    create_streamed service_texts (with_id 1 nothing) (app_of running waiting_call) true 9 12 0 9
      two_messages greeting_stream waiting_call false waiting-IsGood
      (found_call waiting_call running) refl refl found_stream refl (refl, (refl, tt))

abbrev streaming_call : Call
streaming_call = call_of true (sse none)

streaming-IsGood : IsGood service_texts (with_id 1 nothing) (app_of running streaming_call)
unfolding new_entity
streaming-IsGood = one_call-IsGood running streaming_call running-IsSound refl (inl refl)

create_stream-IsStreamed_example :
    IsStreamed 9
      (String.◌++◌ "" (texts false two_messages))
      (String.◌++◌ "" (texts true two_messages))
      (on_settled service_texts true 12 9 (record (app_of running streaming_call) {
        scheduler = stream_complete 9 0 (stream_all 9 0 two_messages running);
      }))
create_stream-IsStreamed_example =
    create_stream-IsStreamed service_texts (with_id 1 nothing) (app_of running streaming_call) true
      9 12 0 9 two_messages greeting_stream streaming_call streaming-IsGood
      (found_call streaming_call running) refl refl found_stream refl (refl, (refl, tt))

abbrev finished : Service
finished = stream_complete 9 0 running

finished-IsGood : IsGood service_texts (with_id 1 nothing) (app_of finished streaming_call)
unfolding new_entity
finished-IsGood =
    one_call-IsGood finished streaming_call
      (stream_complete-IsSound (with_id 1 nothing) 9 0 running running-IsSound) refl (inl refl)

abbrev reply : Completion
reply = single_completion 9 greeting_stream (running.progress 1)

came_back : settled (request 1) finished ≡ fulfilled reply
unfolding settled
came_back =
    ap of_outcome
      (stream_complete_outcome (with_id 1 nothing) 9 0 greeting_stream running running-IsSound
        found_stream refl).0

finished_then_closed_example :
    (e : Entity) × (e.status ≡ completed)
    × (e.completion_text ≡ some reply.text)
    × (find_one 9 (on_settled service_texts true 10 9 (app_of finished streaming_call)).repository
        ≡ some e)
    × (find_one 9
          (disconnect 11 9
            (on_settled service_texts true 10 9 (app_of finished streaming_call))).repository
        ≡ some (record e { status = cancelled }))
finished_then_closed_example =
    finished_then_closed service_texts (with_id 1 nothing) (app_of finished streaming_call) true 10
      11 9 streaming_call reply finished-IsGood (found_call streaming_call finished) refl came_back
