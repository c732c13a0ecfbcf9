-- ===== src/Completions/Endings.antt =====
-- How calls of inference-api/src/completions/completions.service.ts end: over a whole stream of the
-- worker, and when the response is closed.
use Prim.Native.String
use inference_stack.Prelude.{
  ℕ, ◌≡◌, refl, sym, ap, subst, ◌∙◌, String, Bool, false, Option, none, some, List, All, ℕ_eq,
}
use inference_stack.Map.{get, get-set_self}
use inference_stack.Scheduler.Results.{Completion, InferResponse}
use inference_stack.Scheduler.State.{SingleStream, single}
use inference_stack.Scheduler.Events.{stream_complete}
use inference_stack.Scheduler.Invariant.{active_at}
use inference_stack.Scheduler.Streaming.{texts, stream_all, IsFine, stream_all_outcome}
use inference_stack.Completions.Records.{completed, cancelled, Entity, Repository, save, find_one}
use inference_stack.Completions.Calls.{
  StreamEvent, unsettled, returned, plain, sse, Call, App, request, complete_entity,
  complete_stream_entity, final_events, fulfilled, settled, write_call, of_outcome,
}
use inference_stack.Completions.Service.{
  Texts, note, settle_plain, settle_stream, settle_call, on_settled, cancel_call, disconnect,
}
use inference_stack.Completions.Histories.{IsGood}
use inference_stack.Completions.Answers.{on_settled-call}

-- A call of `create` whose client was answered with a text for the call's own id, as it is stored.
pub record IsAnsweredWith (id : ℕ) (text : String) (app : App) : Type 0 where
  pub call : Call
  pub there : get id app.calls ≡ some call
  pub result : Completion
  pub told : (flag : Bool) × (call.kind ≡ plain flag (returned result))
  pub own_id : result.id ≡ id
  pub whole : result.text ≡ text
  pub stored : find_one id app.repository ≡ some call.entity
  pub kept : call.entity.completion_text ≡ some text
  pub ended : call.entity.status ≡ completed

pub saved_under :
    (id : ℕ) (e : Entity) (repo : Repository) → e.id ≡ id → find_one id (save e repo) ≡ some e
unfolding save find_one
saved_under id e repo same =
    ap (λ j. find_one j (save e repo)) (sym same) ∙ get-set_self e.id e repo

module _ (service_texts : Texts) where
  settle_plain_fulfilled :
      (accepts : Bool) (now id : ℕ) (call : Call) (flag : Bool) (result : Completion) (app : App)
      → get id app.calls ≡ some call
      → call.entity.id ≡ id
      → call.kind ≡ plain flag unsettled
      → settled call.promise app.scheduler ≡ fulfilled result
      → IsAnsweredWith id result.text (on_settled service_texts accepts now id app)
  unfolding settle_call settle_plain note write_call save find_one complete_entity
  settle_plain_fulfilled accepts now id call flag result app found same waits came =
      rw (on_settled-call service_texts accepts now id call app found) (
        rw (waits, settle_call)
          (rw came (record {
            call = record call {
              entity = complete_entity result call.entity;
              kind = plain flag (returned (record result { id = id }));
            };
            there = get-set_self id _ app.calls;
            result = record result { id = id };
            told = (flag, refl);
            own_id = refl;
            whole = refl;
            stored = saved_under id (complete_entity result call.entity) app.repository same;
            kept = refl;
            ended = refl;
          })))

  -- The response of a call of `createStream` is closed.
  disconnect-stream :
      (later id : ℕ) (call : Call) (events : Option (List StreamEvent)) (app : App)
      → get id app.calls ≡ some call
      → call.kind ≡ sse events
      → call.entity.id ≡ id
      → find_one id (disconnect later id app).repository
        ≡ some (record call.entity { status = cancelled })
  unfolding disconnect cancel_call write_call
  disconnect-stream later id call events app found streams same =
      rw (found, disconnect)
        (rw (streams, cancel_call)
          (saved_under id (record call.entity { status = cancelled }) app.repository same))

  -- When a worker sends messages without errors for the request of a call of `create` that runs on
  -- a stream of its own, and completes the stream, then the client is answered, under the id of the
  -- call's record, with the text that the stream had before followed by the texts of the answer
  -- chunks in order, and the record says "completed" with the same text. The state is one
  -- that the invariant `IsGood` holds of, and the request is active.
  pub create_streamed :
      (born : ℕ → ℕ) (app : App) (accepts : Bool) (now later n id : ℕ) (ms : List InferResponse)
      (x : SingleStream) (call : Call) (flag : Bool)
      → IsGood service_texts born app
      → get id app.calls ≡ some call
      → call.kind ≡ plain flag unsettled
      → call.promise ≡ request x.request.id
      → get n app.scheduler.streams ≡ some (single x)
      → active_at x.request.id app.scheduler ≡ 1
      → All IsFine ms
      → IsAnsweredWith id (String.◌++◌ x.full_text (texts false ms)) (
          on_settled service_texts accepts later id
            (record app { scheduler = stream_complete now n (stream_all now n ms app.scheduler) }))
  unfolding settled
  create_streamed born app accepts now later n id ms x call flag good found waits asks there running
        fine =
      let (result, resolves, same, whole, thinking) =
        stream_all_outcome born now n ms x app.scheduler good.sound there running fine in
      let after = stream_complete now n (stream_all now n ms app.scheduler) in
      subst
        (λ text.
          IsAnsweredWith id text
            (on_settled service_texts accepts later id (record app { scheduler = after })))
        whole
        (settle_plain_fulfilled accepts later id call flag result (record app { scheduler = after })
          found (good.filed id call found).same_id waits
          (rw (asks, settled) (ap of_outcome resolves)))

  -- On a state that the invariant `IsGood` holds of, when the promise of a call of `createStream` comes back with a result, its
  -- record says "completed" with the text of the result; and when its response is closed after
  -- that, the record says "cancelled", with all else as it was.
  pub finished_then_closed :
      (born : ℕ → ℕ) (app : App) (accepts : Bool) (now later id : ℕ) (call : Call)
      (result : Completion)
      → IsGood service_texts born app
      → get id app.calls ≡ some call
      → call.kind ≡ sse none
      → settled call.promise app.scheduler ≡ fulfilled result
      → (e : Entity) × (e.status ≡ completed)
        × (e.completion_text ≡ some result.text)
        × (find_one id (on_settled service_texts accepts now id app).repository ≡ some e)
        × (find_one id
              (disconnect later id (on_settled service_texts accepts now id app)).repository
            ≡ some (record e { status = cancelled }))
  unfolding settle_call settle_stream note write_call save find_one complete_stream_entity
  finished_then_closed born app accepts now later id call result good found waits came =
      let done = record call {
        entity = complete_stream_entity result call.entity;
        kind = sse (some (final_events now id call result));
      } in
      let same = (good.filed id call found).same_id in
      rw (on_settled-call service_texts accepts now id call app found) (
        rw (waits, settle_call)
          (rw came (
            done.entity,
            refl,
            refl,
            saved_under id done.entity app.repository same,
            disconnect-stream later id done _ _ (get-set_self id done app.calls) refl same,
          )))
