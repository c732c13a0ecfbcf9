-- ===== src/Completions/Histories.antt =====
-- Histories of inference-api/src/completions/completions.service.ts over the scheduler: requests of
-- clients, their disconnections, the callbacks of the promises, and everything that happens to the
-- scheduler meanwhile, in any order. No record is deleted meanwhile.
use inference_stack.Prelude.{
  ℕ, ◌≡◌, refl, ◌≢◌, Bool, none, some, [], arith, ℕ_eq, subst, sym, Option-cases, inl, inr,
}
use inference_stack.Map.{get}
use inference_stack.ClickHouse.{ClickHouse}
use inference_stack.Metrics.Recording.{MetricRow}
use inference_stack.Scheduler.Requests.{CreateCompletionDto}
use inference_stack.Scheduler.Inference.{or_text}
use inference_stack.Scheduler.State.{Service}
use inference_stack.Scheduler.Service.{
  Rejection, Enqueued, too_many_requests, accepted, enqueue, cancel,
}
use inference_stack.Scheduler.Invariant.{IsSound, nothing}
use inference_stack.Scheduler.Invariant.Calls.{with_id, enqueue-IsSound}
use inference_stack.Scheduler.Histories.{Settings, start, Step, Step-IsSound, start-IsSound}
use inference_stack.Scheduler.Cancelling.{cancel_elsewhere}
use inference_stack.Completions.Filing.{
  IsFiledAll, settle_call-filed, cancel_call-filed, create-filed,
}
use inference_stack.Completions.Calls.{Call, App, parse_priority, write_call}
use inference_stack.Completions.Service.{
  Texts, create, note, settle_plain, settle_stream, settle_call, on_settled, cancel_call,
  disconnect,
}

unfoldable pub app_start : Settings → ClickHouse MetricRow → App
app_start c ch = record { scheduler = start c; clickhouse = ch; repository = []; calls = [] }

-- The enqueueing of a call.
abbrev pub enqueued_by : CreateCompletionDto → ℕ → ℕ → App → Enqueued
enqueued_by dto scheduler_id now app =
    enqueue dto (or_text "anonymous" dto.user) (parse_priority dto.priority) scheduler_id now
      app.scheduler

-- One event. Ids come fresh from `uuidv4()`; `works` is whatever happens to the scheduler without a
-- new request.
pub data AppStep (texts : Texts) (born : ℕ → ℕ) (app : App) : (ℕ → ℕ) → App → Type 0 where
  entered :
      (stream : Bool) (dto : CreateCompletionDto) (request_id scheduler_id now : ℕ) {t : Service}
      → born request_id ≡ 0
      → born scheduler_id ≡ 0
      → get scheduler_id app.calls ≡ none
      → request_id ≢ scheduler_id
      → enqueued_by dto scheduler_id now app ≡ accepted t
      → AppStep texts born app
          (with_id scheduler_id born)
          (create texts stream dto request_id scheduler_id now app)
  turned_away :
      (stream : Bool) (dto : CreateCompletionDto) (request_id scheduler_id now : ℕ)
      (why : Rejection) (retry_after : ℕ)
      → born request_id ≡ 0
      → enqueued_by dto scheduler_id now app ≡ too_many_requests why retry_after
      → AppStep texts born app born (create texts stream dto request_id scheduler_id now app)
  works :
      {t : Service}
      → Step born app.scheduler born t
      → AppStep texts born app born (record app { scheduler = t })
  reported :
      (accepts : Bool) (now request_id : ℕ)
      → AppStep texts born app born (on_settled texts accepts now request_id app)
  left : (now request_id : ℕ) → AppStep texts born app born (disconnect now request_id app)

pub data AppReach (texts : Texts) (c : Settings) (ch : ClickHouse MetricRow)
    : (ℕ → ℕ) → App → Type 0 where
  opened : AppReach texts c ch nothing (app_start c ch)
  after :
      {born next_born : ℕ → ℕ} {app next : App}
      → AppReach texts c ch born app
      → AppStep texts born app next_born next
      → AppReach texts c ch next_born next

pub record IsGood (texts : Texts) (born : ℕ → ℕ) (app : App) : Type 0 where
  pub sound : IsSound born app.scheduler
  pub filed : IsFiledAll texts born app

module _ (texts : Texts) where
  on_settled-filed :
      (born : ℕ → ℕ) (accepts : Bool) (now id : ℕ) (app : App)
      → IsFiledAll texts born app
      → IsFiledAll texts born (on_settled texts accepts now id app)
  unfolding on_settled
  on_settled-filed born accepts now id app filed = elim (Option-cases (get id app.calls)) [
    | inl missing ↦ rw (missing, on_settled) filed
    | inr (call, found) ↦
        rw (found, on_settled) (settle_call-filed texts born accepts now id call app filed found)
  ]

  disconnect-filed :
      (born : ℕ → ℕ) (now id : ℕ) (app : App)
      → IsFiledAll texts born app
      → IsFiledAll texts born (disconnect now id app)
  unfolding disconnect
  disconnect-filed born now id app filed = elim (Option-cases (get id app.calls)) [
    | inl missing ↦ rw (missing, disconnect) filed
    | inr (call, found) ↦
        rw (found, disconnect) (cancel_call-filed texts born now id call app filed found)
  ]

  on_settled-scheduler :
      (accepts : Bool) (now id : ℕ) (app : App)
      → (on_settled texts accepts now id app).scheduler ≡ app.scheduler
  unfolding on_settled settle_call settle_plain settle_stream note write_call
  on_settled-scheduler accepts now id app = ground arith

  -- A disconnection cancels under the id of the record, which the scheduler never issued.
  disconnect-scheduler :
      (born : ℕ → ℕ) (now id : ℕ) (app : App)
      → IsGood texts born app
      → (disconnect now id app).scheduler ≡ app.scheduler
  unfolding disconnect cancel_call write_call
  disconnect-scheduler born now id app good = elim (Option-cases (get id app.calls)) [
    | inl missing ↦ rw (missing, disconnect) refl
    | inr (call, found) ↦
        let unissued = (good.filed id call found).apart in
        let same : cancel now id app.scheduler ≡ app.scheduler =
          cancel_elsewhere born now id app.scheduler good.sound
            (omega (arith, unissued, good.sound.exact id))
            (omega (arith, unissued, good.sound.exact id)) in
        ground (arith, found, same)
  ]

  -- The id that a request is given is none of the calls'.
  still_apart :
      (born : ℕ → ℕ) (scheduler_id : ℕ) (app : App)
      → IsFiledAll texts born app
      → get scheduler_id app.calls ≡ none
      → (k : ℕ) (call : Call) → get k app.calls ≡ some call
      → with_id scheduler_id born k ≡ 0
  still_apart born scheduler_id app filed unused k call found =
      ground (arith, (filed k call found).apart)

  AppStep-IsGood :
      {born next_born : ℕ → ℕ} {app next : App}
      → AppStep texts born app next_born next
      → IsGood texts born app
      → IsGood texts next_born next
  unfolding create write_call
  AppStep-IsGood {born} {next_born} {app}
        (entered stream dto request_id scheduler_id now {t} fresh_id unissued unused different e)
        good =
      record {
        sound = rw e (
            enqueue-IsSound born dto (or_text "anonymous" dto.user) (parse_priority dto.priority)
              scheduler_id now app.scheduler t unissued e good.sound);
        filed =
            create-filed texts stream born next_born dto request_id scheduler_id now app good.filed
              (still_apart born scheduler_id app good.filed unused)
              (ground (arith, fresh_id, different));
      }
  AppStep-IsGood {born} {next_born} {app}
        (turned_away stream dto request_id scheduler_id now why retry_after fresh_id e) good =
      record {
        sound = rw e good.sound;
        filed =
            create-filed texts stream born next_born dto request_id scheduler_id now app good.filed
              (λ k call found. (good.filed k call found).apart) fresh_id;
      }
  AppStep-IsGood (works st) good = record { sound = Step-IsSound st good.sound; filed = good.filed }
  AppStep-IsGood {born} {next_born} {app} (reported accepts now id) good = record {
    sound = subst (IsSound born) (sym (on_settled-scheduler accepts now id app)) good.sound;
    filed = on_settled-filed born accepts now id app good.filed;
  }
  AppStep-IsGood {born} {next_born} {app} (left now id) good = record {
    sound = subst (IsSound born) (sym (disconnect-scheduler born now id app good)) good.sound;
    filed = disconnect-filed born now id app good.filed;
  }

  -- After any history of requests, disconnections, settled promises and events of the scheduler,
  -- where every id of `uuidv4()` is new, the scheduler is sound, and every call has its record in the
  -- repository as the service holds it, under its own id. A client of `create` that was answered got
  -- the text, the worker and the number of tokens that the record has, under the record's id, and the
  -- record says "completed"; where it was not answered yet the record says "pending", and where its
  -- promise was rejected, "cancelled", or "error" with the message of the error. The record of a call of
  -- `createStream` says "streaming" or "cancelled" while nothing was sent, and after that it may say
  -- "completed" as well, but never "error".
  pub AppReach-IsGood :
      {c : Settings} {ch : ClickHouse MetricRow} {born : ℕ → ℕ} {app : App}
      → AppReach texts c ch born app
      → IsGood texts born app
  unfolding app_start get
  AppReach-IsGood {c} opened = record { sound = start-IsSound c; filed = λ k call found. cc }
  AppReach-IsGood (after r st) = AppStep-IsGood st (AppReach-IsGood r)

  -- After any history of requests, disconnections, settled promises and events of the scheduler, where
  -- every id of `uuidv4()` is new, the disconnection of a client leaves the scheduler as it is: nothing
  -- that is queued or running is cancelled.
  pub disconnect_unheard :
      {c : Settings} {ch : ClickHouse MetricRow} {born : ℕ → ℕ} (app : App) (now request_id : ℕ)
      → AppReach texts c ch born app
      → (disconnect now request_id app).scheduler ≡ app.scheduler
  disconnect_unheard {c} {ch} {born} app now request_id r =
      disconnect-scheduler born now request_id app (AppReach-IsGood r)
