-- ===== src/Completions/Answers.antt =====
-- What clients of inference-api/src/completions are told in the end, and what is on record then.
use inference_stack.Prelude.{
  ℕ, ◌≤◌, ◌≡◌, refl, sym, ap, ◌∙◌, ◌↔◌, ◌≢◌, ◌⊎◌, String, Bool, true, false, none, some, [], ◌∷◌,
  arith, ℕ_eq, string_eq,
}
use inference_stack.Map.{get, get-set_self}
use inference_stack.Metrics.Windows.{decimal}
use inference_stack.Scheduler.Requests.{CreateCompletionDto}
use inference_stack.Scheduler.Inference.{truthy, or_text}
use inference_stack.Scheduler.Service.{Rejection, too_many_requests}
use inference_stack.Scheduler.Admission.{enqueue_refusal}
use inference_stack.Completions.Records.{error, streaming, save, find_one}
use inference_stack.Completions.Calls.{
  refused, error_event, Returned, threw, plain, sse, Call, App, parse_priority, error_text, settled,
  write_call,
}
use inference_stack.Completions.Service.{
  Texts, new_call, new_entity, create, fail_entity, settle_plain, settle_stream, settle_call,
  on_settled,
}
use inference_stack.Completions.Controller.{
  bad_request, with_session, taken, post, refusal_body, answer,
}
use inference_stack.Completions.Histories.{enqueued_by}

-- A request is taken exactly when it names a model and has a prompt that is not empty, or messages.
pub post_iff :
    (service_texts : Texts) (dto : CreateCompletionDto) (session_id : String)
    (request_id scheduler_id now : ℕ) (app : App)
    → ((next : App) × (post service_texts dto session_id request_id scheduler_id now app
          ≡ taken next))
      ↔ ((dto.model ≢ "") × ((truthy dto.prompt ≢ none) ⊎ (dto.messages ≢ [])))
unfolding post bad_request
post_iff service_texts dto session_id request_id scheduler_id now app = (
  λ (next, e). (ground (arith, string_eq.beq_iff dto.model ""), ground arith),
  λ (named, asked).
      let fine : bad_request dto ≡ none = ground (arith, string_eq.beq_iff dto.model "") in
      (
        create service_texts dto.stream (with_session session_id dto) request_id scheduler_id now
            app,
        rw (fine, post) refl,
      ),
)

post-taken :
    (service_texts : Texts) (dto : CreateCompletionDto) (session_id : String)
    (request_id scheduler_id now : ℕ) (app next : App)
    → post service_texts dto session_id request_id scheduler_id now app ≡ taken next
    → create service_texts dto.stream (with_session session_id dto) request_id scheduler_id now app
      ≡ next
unfolding post
post-taken service_texts dto session_id request_id scheduler_id now app next e = ground arith

module _ (service_texts : Texts) where
  -- The call that `create` writes.
  create-call :
      (stream : Bool) (dto : CreateCompletionDto) (request_id scheduler_id now : ℕ)
      (why : Rejection) (retry_after : ℕ) (app : App)
      → enqueued_by dto scheduler_id now app ≡ too_many_requests why retry_after
      → get request_id (create service_texts stream dto request_id scheduler_id now app).calls
        ≡ some (
            new_call service_texts stream dto request_id scheduler_id now
              (too_many_requests why retry_after))
  unfolding create write_call
  create-call stream dto request_id scheduler_id now why retry_after app refusal =
      rw refusal (get-set_self request_id _ app.calls)

  pub on_settled-call :
      (accepts : Bool) (now id : ℕ) (call : Call) (app : App)
      → get id app.calls ≡ some call
      → on_settled service_texts accepts now id app
        ≡ settle_call service_texts accepts now id call app
  unfolding on_settled
  on_settled-call accepts now id call app found = rw (found, on_settled) refl

  create-scheduler :
      (stream : Bool) (dto : CreateCompletionDto) (request_id scheduler_id now : ℕ)
      (why : Rejection) (retry_after : ℕ) (app : App)
      → enqueued_by dto scheduler_id now app ≡ too_many_requests why retry_after
      → (create service_texts stream dto request_id scheduler_id now app).scheduler ≡ app.scheduler
  unfolding create write_call
  create-scheduler stream dto request_id scheduler_id now why retry_after app refusal =
      rw refusal refl

  -- What is left when the promise of a refused request has come back.
  refused_plain :
      (dto : CreateCompletionDto) (request_id scheduler_id now later : ℕ) (accepts : Bool)
      (why : Rejection) (retry_after : ℕ) (app : App)
      → enqueued_by dto scheduler_id now app ≡ too_many_requests why retry_after
      → let before = create service_texts false dto request_id scheduler_id now app in
        let next = on_settled service_texts accepts later request_id before in
        let call =
          new_call service_texts false dto request_id scheduler_id now
            (too_many_requests why retry_after) in
        let entity = fail_entity service_texts false (refused why retry_after) call.entity in
        (next.scheduler ≡ before.scheduler)
        × (get request_id next.calls
            ≡ some (record call {
              entity = entity;
              kind = plain false (threw (refused why retry_after));
            }))
        × (find_one request_id next.repository ≡ some entity)
  unfolding new_call new_entity fail_entity settle_call settle_plain settled write_call save
      find_one
  refused_plain dto request_id scheduler_id now later accepts why retry_after app refusal =
      let before = create service_texts false dto request_id scheduler_id now app in
      let found = create-call false dto request_id scheduler_id now why retry_after app refusal in
      rw (on_settled-call accepts later request_id _ before found)
        (refl, get-set_self request_id _ before.calls, get-set_self request_id _ before.repository)

  refused_stream :
      (dto : CreateCompletionDto) (request_id scheduler_id now later : ℕ) (accepts : Bool)
      (why : Rejection) (retry_after : ℕ) (app : App)
      → enqueued_by dto scheduler_id now app ≡ too_many_requests why retry_after
      → let before = create service_texts true dto request_id scheduler_id now app in
        let next = on_settled service_texts accepts later request_id before in
        let call =
          new_call service_texts true dto request_id scheduler_id now
            (too_many_requests why retry_after) in
        (next.scheduler ≡ before.scheduler)
        × (get request_id next.calls
            ≡ some (record call { kind = sse (some (error_event "Inference failed" ∷ [])) }))
        × (find_one request_id next.repository ≡ some call.entity)
  unfolding create new_call new_entity settle_call settle_stream settled write_call save find_one
      error_text or_text truthy
  refused_stream dto request_id scheduler_id now later accepts why retry_after app refusal =
      let before = create service_texts true dto request_id scheduler_id now app in
      let found = create-call true dto request_id scheduler_id now why retry_after app refusal in
      rw (on_settled-call accepts later request_id _ before found)
        (refl, get-set_self request_id _ before.calls, get-set_self request_id _ app.repository)

  retry_after_of :
      (dto : CreateCompletionDto) (scheduler_id now : ℕ) (why : Rejection) (retry_after : ℕ)
      (app : App)
      → enqueued_by dto scheduler_id now app ≡ too_many_requests why retry_after
      → 1 ≤ retry_after
  retry_after_of dto scheduler_id now why retry_after app refusal =
      (enqueue_refusal dto (or_text "anonymous" dto.user) (parse_priority dto.priority) scheduler_id
        now app.scheduler why retry_after refusal).0

  -- A request without streaming that is taken and that the scheduler refuses: once the promise has
  -- come back the scheduler is as it was, the answer is a 429 whose `Retry-After` is the decimal of
  -- the scheduler's estimate, at least 1, and the record says "error".
  pub post_refused :
      (dto : CreateCompletionDto) (session_id : String) (request_id scheduler_id now later : ℕ)
      (accepts : Bool) (why : Rejection) (retry_after : ℕ) (app next : App)
      → dto.stream ≡ false
      → enqueued_by (with_session session_id dto) scheduler_id now app
        ≡ too_many_requests why retry_after
      → post service_texts dto session_id request_id scheduler_id now app ≡ taken next
      → (1 ≤ retry_after)
        × ((on_settled service_texts accepts later request_id next).scheduler ≡ app.scheduler)
        × ((call : Call) × (get request_id
                (on_settled service_texts accepts later request_id next).calls
              ≡ some call)
            × (find_one request_id
                  (on_settled service_texts accepts later request_id next).repository
                ≡ some call.entity)
            × (call.entity.status ≡ error)
            × ((outcome : Returned) × (call.kind ≡ plain false outcome)
                × (answer call.dto outcome
                    ≡ some (record {
                      status = 429;
                      retry_after = some (decimal retry_after "");
                      body = refusal_body why retry_after;
                    }))))
  unfolding answer fail_entity
  post_refused dto session_id request_id scheduler_id now later accepts why retry_after app next
        whole refusal taken_as =
      let asked = with_session session_id dto in
      let made : create service_texts false asked request_id scheduler_id now app ≡ next =
        ap (λ b. create service_texts b asked request_id scheduler_id now app) (sym whole)
        ∙ post-taken service_texts dto session_id request_id scheduler_id now app next taken_as in
      let (same, found, stored) =
        refused_plain asked request_id scheduler_id now later accepts why retry_after app refusal in
      rw (← made) (
        retry_after_of asked scheduler_id now why retry_after app refusal,
        same ∙ create-scheduler false asked request_id scheduler_id now why retry_after app refusal,
        (_, found, stored, refl, (threw (refused why retry_after), refl, refl)),
      )

  -- The same request with streaming: the scheduler is as it was, the client gets one event, with the
  -- message "Inference failed", and the record still says "streaming".
  pub post_stream_refused :
      (dto : CreateCompletionDto) (session_id : String) (request_id scheduler_id now later : ℕ)
      (accepts : Bool) (why : Rejection) (retry_after : ℕ) (app next : App)
      → dto.stream ≡ true
      → enqueued_by (with_session session_id dto) scheduler_id now app
        ≡ too_many_requests why retry_after
      → post service_texts dto session_id request_id scheduler_id now app ≡ taken next
      → ((on_settled service_texts accepts later request_id next).scheduler ≡ app.scheduler)
        × ((call : Call) × (get request_id
                (on_settled service_texts accepts later request_id next).calls
              ≡ some call)
            × (find_one request_id
                  (on_settled service_texts accepts later request_id next).repository
                ≡ some call.entity)
            × (call.entity.status ≡ streaming)
            × (call.kind ≡ sse (some (error_event "Inference failed" ∷ []))))
  unfolding new_call new_entity
  post_stream_refused dto session_id request_id scheduler_id now later accepts why retry_after app
        next streamed refusal taken_as =
      let asked = with_session session_id dto in
      let made : create service_texts true asked request_id scheduler_id now app ≡ next =
        ap (λ b. create service_texts b asked request_id scheduler_id now app) (sym streamed)
        ∙ post-taken service_texts dto session_id request_id scheduler_id now app next taken_as in
      let (same, found, stored) =
        refused_stream asked request_id scheduler_id now later accepts why retry_after app
          refusal in
      rw (← made) (
        same ∙ create-scheduler true asked request_id scheduler_id now why retry_after app refusal,
        (_, found, stored, refl, refl),
      )
