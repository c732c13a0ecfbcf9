-- ===== src/Completions/Service.antt =====
-- The methods of `CompletionsService` in inference-api/src/completions/completions.service.ts, and the
-- callbacks of the promise that they wait for.
use inference_stack.Prelude.{ℕ, String, Bool, true, false, Option, none, some, List, [], ◌∷◌, ℕ_eq}
use inference_stack.Map.{get, set}
use inference_stack.Metrics.Recording.{record_inference}
use inference_stack.Scheduler.Requests.{Message, CreateCompletionDto}
use inference_stack.Scheduler.Results.{
  Completion, request_cancelled, request_timed_out, worker_error, server_error, thrown,
}
use inference_stack.Scheduler.Inference.{params_of, or_text}
use inference_stack.Scheduler.Service.{Rejection, Enqueued, or_empty_text, enqueue, cancel}
use inference_stack.Completions.Records.{
  Status, pending, streaming, error, cancelled, Entity, remove,
}
use inference_stack.Completions.Calls.{
  Thrown, refused, failed, error_event, unsettled, returned, threw, Kind, plain, sse, Call, App,
  parse_priority, error_text, metric_event, complete_entity, complete_stream_entity, final_events,
  Settled, not_yet, fulfilled, broken, settled, promise_of, scheduler_after, write_call,
}

-- What the service takes from libraries: `JSON.stringify` of messages, the `message` of a Nest
-- exception, and `String(err)`.
pub record Texts : Type 0 where
  pub stringify : List Message → String
  pub exception_message : Rejection → String
  pub error_string : Thrown → String

abbrev pub new_kind : Bool → Kind
new_kind true = sse none
new_kind false = plain false unsettled

abbrev pub first_status : Bool → Status
first_status true = streaming
first_status false = pending

module _ (texts : Texts) where
  unfoldable pub prompt_for_db : CreateCompletionDto → String
  prompt_for_db dto = elim dto.messages [
    | [] ↦ or_empty_text dto.prompt
    | m ∷ ms ↦ texts.stringify (m ∷ ms)
  ]

  unfoldable pub new_entity : Bool → CreateCompletionDto → ℕ → Entity
  new_entity stream dto id = record {
    id = id;
    model = dto.model;
    prompt = prompt_for_db dto;
    completion_text = none;
    stream = stream;
    status = first_status stream;
    finish_reason = none;
    prompt_tokens = none;
    completion_tokens = none;
    total_tokens = none;
    prefill_time_ms = none;
    decode_time_ms = none;
    total_time_ms = none;
    temperature = (params_of dto).temperature;
    max_tokens = (params_of dto).max_tokens;
    top_p = (params_of dto).top_p;
    error_message = none;
    worker_id = none;
  }

  -- `result` is what the scheduler said.
  unfoldable pub new_call : Bool → CreateCompletionDto → ℕ → ℕ → ℕ → Enqueued → Call
  new_call stream dto request_id scheduler_id now result = record {
    dto = dto;
    request_start_time = now;
    promise = promise_of scheduler_id result;
    entity = new_entity stream dto request_id;
    kind = new_kind stream;
  }

  -- `createStream` (`true`) and `create` (`false`); `request_id` is the id of the record, and
  -- `scheduler_id` the one that the scheduler gives the request.
  unfoldable pub create : Bool → CreateCompletionDto → ℕ → ℕ → ℕ → App → App
  create stream dto request_id scheduler_id now app =
      let result =
        enqueue dto (or_text "anonymous" dto.user) (parse_priority dto.priority) scheduler_id now
          app.scheduler in
      write_call request_id (new_call stream dto request_id scheduler_id now result)
        (record app { scheduler = scheduler_after app.scheduler result })

  -- `err?.message`
  unfoldable pub message_of : Thrown → Option String
  message_of (refused why retry_after) = some (texts.exception_message why)
  message_of (failed request_cancelled) = none
  message_of (failed request_timed_out) = none
  message_of (failed (worker_error e)) = none
  message_of (failed (server_error message)) = none
  message_of (failed (thrown message)) = some message

  pub stored_message : Thrown → String
  stored_message err = or_text (or_text (texts.error_string err) (message_of err)) (error_text err)

  -- What `.catch` of `create` writes into the record.
  unfoldable pub fail_entity : Bool → Thrown → Entity → Entity
  fail_entity true err e = record e { status = cancelled }
  fail_entity false err e = record e { status = error; error_message = some (stored_message err) }

  -- `recordInference` of a call that has its result; `accepts` is the database's.
  unfoldable pub note : Bool → ℕ → ℕ → Bool → Call → Completion → App → App
  note accepts now request_id stream call result app = record app {
    clickhouse =
        record_inference accepts now (metric_event now request_id stream call result)
          app.clickhouse;
  }

  -- The callbacks of `create`; `cancelled_externally` is the variable that they share with `cancel`.
  unfoldable pub settle_plain : Bool → ℕ → ℕ → Call → Bool → Settled → App → App
  settle_plain accepts now request_id call cancelled_externally not_yet app = app
  settle_plain accepts now request_id call cancelled_externally (fulfilled result) app =
      note accepts now request_id false call result (
        write_call request_id
          (record call {
            entity = complete_entity result call.entity;
            kind = plain cancelled_externally (returned (record result { id = request_id }));
          })
          app)
  settle_plain accepts now request_id call cancelled_externally (broken err) app =
      write_call request_id
        (record call {
          entity = fail_entity cancelled_externally err call.entity;
          kind = plain cancelled_externally (threw err);
        })
        app

  -- The callbacks of `createStream`. The one for an error writes no record.
  unfoldable pub settle_stream : Bool → ℕ → ℕ → Call → Settled → App → App
  settle_stream accepts now request_id call not_yet app = app
  settle_stream accepts now request_id call (fulfilled result) app =
      note accepts now request_id true call result (
        write_call request_id
          (record call {
            entity = complete_stream_entity result call.entity;
            kind = sse (some (final_events now request_id call result));
          })
          app)
  settle_stream accepts now request_id call (broken err) app = record app {
    calls =
        set request_id
          (record call {
            kind = sse (some (error_event (or_text "Inference failed" (error_text err)) ∷ []));
          })
          app.calls;
  }

  unfoldable pub settle_call : Bool → ℕ → ℕ → Call → App → App
  settle_call accepts now request_id call app = elim call.kind [
    | plain cancelled_externally unsettled ↦
        settle_plain accepts now request_id call cancelled_externally
          (settled call.promise app.scheduler) app
    | plain cancelled_externally (returned result) ↦ app
    | plain cancelled_externally (threw err) ↦ app
    | sse none ↦ settle_stream accepts now request_id call (settled call.promise app.scheduler) app
    | sse (some events) ↦ app
  ]

  -- The callbacks of a call run once, when its promise is settled.
  unfoldable pub on_settled : Bool → ℕ → ℕ → App → App
  on_settled accepts now request_id app = elim (get request_id app.calls) [
    | none ↦ app
    | some call ↦ settle_call accepts now request_id call app
  ]

-- The `cancel` of a call. That of `create` sets a variable; that of `createStream` writes the record.
unfoldable pub cancel_call : ℕ → ℕ → Call → App → App
cancel_call now request_id call app = elim call.kind [
  | plain cancelled_externally outcome ↦ record app {
    scheduler = cancel now request_id app.scheduler;
    calls = set request_id (record call { kind = plain true outcome }) app.calls;
  }
  | sse events ↦
      write_call request_id (record call { entity = record call.entity { status = cancelled } })
        (record app { scheduler = cancel now request_id app.scheduler })
]

unfoldable pub disconnect : ℕ → ℕ → App → App
disconnect now request_id app = elim (get request_id app.calls) [
  | none ↦ app
  | some call ↦ cancel_call now request_id call app
]

unfoldable pub remove_record : ℕ → App → App
remove_record id app = record app { repository = remove id app.repository }
