-- ===== src/Completions/Streams.antt =====
-- What the clients of `createStream` in inference-api/src/completions/completions.service.ts get of a
-- stream of the worker.
use Prim.Native.String
use inference_stack.Prelude.{
  ℕ, ◌≡◌, refl, ap, ◌∙◌, subst, String, Bool, true, false, none, some, List, [], ◌∷◌, All, arith,
  ◌==◌, ℕ_eq, string_eq, if◌then◌else◌,
}
use inference_stack.Map.{get, get-set_self}
use inference_stack.Scheduler.Results.{Completion, InferResponse}
use inference_stack.Scheduler.Inference.{truthy}
use inference_stack.Scheduler.Responses.{present}
use inference_stack.Scheduler.State.{SingleStream, single}
use inference_stack.Scheduler.Events.{stream_complete}
use inference_stack.Scheduler.Invariant.{active_at}
use inference_stack.Scheduler.Streaming.{texts, stream_all, IsFine, stream_all_outcome}
use inference_stack.Completions.Records.{completed, find_one}
use inference_stack.Completions.Calls.{
  FinalChunk, StreamEvent, final_chunk, done, sse, Call, App, request, complete_stream_entity,
  final_chunk_of, final_event, final_events, of_outcome, fulfilled, settled, write_call,
}
use inference_stack.Completions.Service.{Texts, note, settle_stream, settle_call, on_settled}
use inference_stack.Completions.Histories.{IsGood}
use inference_stack.Completions.Answers.{on_settled-call}
use inference_stack.Completions.Endings.{saved_under}

-- One chunk and the mark of the end, or the mark alone where there is nothing to say.
abbrev pub expected_events : String → String → FinalChunk → List StreamEvent
expected_events text thinking chunk =
    if text == ""
    then (if thinking == "" then done ∷ [] else final_chunk chunk ∷ done ∷ [])
    else final_chunk chunk ∷ done ∷ []

truthy-present : (thinking : String) → truthy (present thinking) ≡ present thinking
unfolding truthy present
truthy-present thinking = ground arith

final_events-expected :
    (now id : ℕ) (call : Call) (result : Completion) (thinking : String)
    → result.thinking_content ≡ present thinking
    → final_events now id call result
      ≡ expected_events result.text thinking (final_chunk_of now id call result)
unfolding final_events final_event truthy present
final_events-expected now id call result thinking same = ground (arith, same)

-- A call of `createStream` whose client has got a text and thinking in one chunk, with the record.
pub record IsStreamed (id : ℕ) (text thinking : String) (app : App) : Type 0 where
  pub call : Call
  pub there : get id app.calls ≡ some call
  pub chunk : FinalChunk
  pub told : call.kind ≡ sse (some (expected_events text thinking chunk))
  pub own_id : chunk.id ≡ id
  pub whole : chunk.text ≡ text
  pub thoughts : chunk.thinking_content ≡ present thinking
  pub stored : find_one id app.repository ≡ some call.entity
  pub kept : call.entity.completion_text ≡ some text
  pub ended : call.entity.status ≡ completed

module _ (service_texts : Texts) where
  settle_stream_fulfilled :
      (accepts : Bool) (now id : ℕ) (call : Call) (result : Completion) (thinking : String)
      (app : App)
      → get id app.calls ≡ some call
      → call.entity.id ≡ id
      → call.kind ≡ sse none
      → result.thinking_content ≡ present thinking
      → settled call.promise app.scheduler ≡ fulfilled result
      → IsStreamed id result.text thinking (on_settled service_texts accepts now id app)
  unfolding settle_call settle_stream note write_call complete_stream_entity final_chunk_of
  settle_stream_fulfilled accepts now id call result thinking app found same waits thought came =
      let ended = record call {
        entity = complete_stream_entity result call.entity;
        kind = sse (some (final_events now id call result));
      } in
      rw (on_settled-call service_texts accepts now id call app found) (
        rw (waits, settle_call)
          (rw came (record {
            call = ended;
            there = get-set_self id ended app.calls;
            chunk = final_chunk_of now id call result;
            told =
                ap (λ events. sse (some events))
                  (final_events-expected now id call result thinking thought);
            own_id = refl;
            whole = refl;
            thoughts = ap truthy thought ∙ truthy-present thinking;
            stored = saved_under id ended.entity app.repository same;
            kept = refl;
            ended = refl;
          })))

  -- When a worker sends messages without errors for the request of a call of `createStream` that runs
  -- on a stream of its own, and completes the stream, then the client gets its events at once: one
  -- chunk under the id of the call's record with the whole text and the whole thinking content, left
  -- out where both are empty, and the mark of the end. The record says "completed" with that text.
  -- The state is one that the invariant `IsGood` holds of, and the request is active.
  pub create_stream-IsStreamed :
      (born : ℕ → ℕ) (app : App) (accepts : Bool) (now later n id : ℕ) (ms : List InferResponse)
      (x : SingleStream) (call : Call)
      → IsGood service_texts born app
      → get id app.calls ≡ some call
      → call.kind ≡ sse none
      → call.promise ≡ request x.request.id
      → get n app.scheduler.streams ≡ some (single x)
      → active_at x.request.id app.scheduler ≡ 1
      → All IsFine ms
      → IsStreamed id
          (String.◌++◌ x.full_text (texts false ms))
          (String.◌++◌ x.thinking_content (texts true ms))
          (on_settled service_texts accepts later id
            (record app { scheduler = stream_complete now n (stream_all now n ms app.scheduler) }))
  unfolding settled
  create_stream-IsStreamed born app accepts now later n id ms x call good found waits asks there
        running fine =
      let (result, resolves, same, whole, thinking) =
        stream_all_outcome born now n ms x app.scheduler good.sound there running fine in
      let after = stream_complete now n (stream_all now n ms app.scheduler) in
      subst
        (λ text.
          IsStreamed id text (String.◌++◌ x.thinking_content (texts true ms))
            (on_settled service_texts accepts later id (record app { scheduler = after })))
        whole
        (settle_stream_fulfilled accepts later id call result
          (String.◌++◌ x.thinking_content (texts true ms)) (record app { scheduler = after }) found
          (good.filed id call found).same_id waits thinking
          (rw (asks, settled) (ap of_outcome resolves)))
