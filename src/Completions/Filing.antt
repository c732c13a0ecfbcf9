-- ===== src/Completions/Filing.antt =====
-- The records of inference-api/src/completions/completions.service.ts: how they stand in the repository
-- after each of its operations.
use inference_stack.Prelude.{
  ℕ, ◌≡◌, refl, ◌⊎◌, Bool, true, false, Option, List, none, some, arith, ℕ_eq, ℕ_discrete, ap,
  subst, sym, ◌∙◌, inl, inr,
}
use inference_stack.Map.{get, set, get-set_self, get-set_ne}
use inference_stack.Scheduler.Requests.{CreateCompletionDto}
use inference_stack.Completions.Records.{
  pending, streaming, completed, error, cancelled, Entity, Repository, save, find_one,
}
use inference_stack.Completions.Calls.{
  StreamEvent, Returned, unsettled, returned, threw, Kind, plain, sse, Call, App, complete_entity,
  complete_stream_entity, Settled, not_yet, fulfilled, broken, settled, write_call,
}
use inference_stack.Completions.Service.{
  Texts, new_entity, new_call, create, stored_message, fail_entity, note, settle_plain,
  settle_stream, settle_call, cancel_call,
}

-- What the record of a call says, against what its client was told.
abbrev pub Agrees : Texts → Kind → Entity → Type 0
Agrees texts (plain flag unsettled) e = e.status ≡ pending
Agrees texts (plain flag (returned r)) e =
    (r.id ≡ e.id)
    × (e.status ≡ completed)
    × (e.completion_text ≡ some r.text)
    × (e.total_tokens ≡ some r.usage.total_tokens)
    × (e.worker_id ≡ some r.worker_id)
Agrees texts (plain flag (threw err)) e =
    (e.status ≡ cancelled)
    ⊎ ((e.status ≡ error) × (e.error_message ≡ some (stored_message texts err)))
Agrees texts (sse none) e = (e.status ≡ streaming) ⊎ (e.status ≡ cancelled)
Agrees texts (sse (some events)) e =
    (e.status ≡ completed) ⊎ ((e.status ≡ streaming) ⊎ (e.status ≡ cancelled))

-- A call is stored as it stands, and its id is none of the scheduler's.
pub record IsFiled (texts : Texts) (born : ℕ → ℕ) (repo : Repository) (k : ℕ) (call : Call)
    : Type 0 where
  pub apart : born k ≡ 0
  pub same_id : call.entity.id ≡ k
  pub stored : find_one k repo ≡ some call.entity
  pub told : Agrees texts call.kind call.entity

-- What holds of the calls, for ids that may be issued since.
abbrev pub IsFiledAll : Texts → (ℕ → ℕ) → App → Type 0
IsFiledAll texts born app =
    (k : ℕ) (call : Call) → get k app.calls ≡ some call → IsFiled texts born app.repository k call

module _ (texts : Texts) where
  -- A call that is written goes over whatever was there.
  write_call-filed :
      (born next_born : ℕ → ℕ) (id : ℕ) (new : Call) (app : App)
      → IsFiledAll texts born app
      → ((k : ℕ) (call : Call) → get k app.calls ≡ some call → next_born k ≡ 0)
      → next_born id ≡ 0
      → new.entity.id ≡ id
      → Agrees texts new.kind new.entity
      → IsFiledAll texts next_born (write_call id new app)
  unfolding write_call save find_one
  write_call-filed born next_born id new app filed apart fresh_id same_id told k call found =
      elim (ℕ_discrete k id) [
        | yes same ↦
            let itself : new ≡ call = ground (arith, get-set_self id new app.calls) in
            subst (IsFiled texts next_born (save new.entity app.repository) k) itself (record {
              apart = ap next_born same ∙ fresh_id;
              same_id = same_id ∙ sym same;
              stored = ground (arith, get-set_self id new.entity app.repository);
              told = told;
            })
        | no other ↦
            let before : get k app.calls ≡ some call =
              ground (arith, get-set_ne id k new app.calls) in
            let f = filed k call before in
            record {
              apart = apart k call before;
              same_id = f.same_id;
              stored = ground (arith, get-set_ne id k new.entity app.repository, f.stored);
              told = f.told;
            }
      ]

  -- Variables that are written, with the record left as it is.
  set_call-filed :
      (born : ℕ → ℕ) (id : ℕ) (old new : Call) (app : App)
      → IsFiledAll texts born app
      → get id app.calls ≡ some old
      → new.entity ≡ old.entity
      → Agrees texts new.kind new.entity
      → IsFiledAll texts born (record app { calls = set id new app.calls })
  set_call-filed born id old new app filed found kept told k call there = elim (ℕ_discrete k id) [
    | yes same ↦
        let itself : new ≡ call = ground (arith, get-set_self id new app.calls) in
        let f = filed id old found in
        subst (IsFiled texts born app.repository k) itself (record {
          apart = ap born same ∙ f.apart;
          same_id = ap (λ (e : Entity). e.id) kept ∙ f.same_id ∙ sym same;
          stored = ap (λ j. find_one j app.repository) same ∙ f.stored ∙ ap some (sym kept);
          told = told;
        })
    | no other ↦ filed k call (ground (arith, get-set_ne id k new app.calls))
  ]

  pub create-filed :
      (stream : Bool) (born next_born : ℕ → ℕ) (dto : CreateCompletionDto)
      (request_id scheduler_id now : ℕ) (app : App)
      → IsFiledAll texts born app
      → ((k : ℕ) (call : Call) → get k app.calls ≡ some call → next_born k ≡ 0)
      → next_born request_id ≡ 0
      → IsFiledAll texts next_born (create texts stream dto request_id scheduler_id now app)
  unfolding create new_call new_entity
  create-filed true born next_born dto request_id scheduler_id now app filed apart fresh_id =
      write_call-filed born next_born request_id _ _ filed apart fresh_id refl (inl refl)
  create-filed false born next_born dto request_id scheduler_id now app filed apart fresh_id =
      write_call-filed born next_born request_id _ _ filed apart fresh_id refl refl

  apart_of :
      (born : ℕ → ℕ) (app : App)
      → IsFiledAll texts born app
      → (k : ℕ) (call : Call) → get k app.calls ≡ some call
      → born k ≡ 0
  apart_of born app filed k call found = (filed k call found).apart

  settle_plain-filed :
      (born : ℕ → ℕ) (accepts : Bool) (now id : ℕ) (call : Call) (flag : Bool) (o : Settled)
      (app : App)
      → IsFiledAll texts born app
      → get id app.calls ≡ some call
      → IsFiledAll texts born (settle_plain texts accepts now id call flag o app)
  unfolding settle_plain note complete_entity
  settle_plain-filed born accepts now id call flag not_yet app filed found = filed
  settle_plain-filed born accepts now id call flag (fulfilled result) app filed found =
      let f = filed id call found in
      write_call-filed born born id _ _ filed (apart_of born app filed) f.apart f.same_id
        (sym f.same_id, refl, refl, refl, refl)
  settle_plain-filed born accepts now id call flag (broken err) app filed found =
      let f = filed id call found in
      write_call-filed born born id _ _ filed (apart_of born app filed) f.apart
        (by_flag flag ∙ f.same_id) (told flag)
    where
      by_flag : (flag : Bool) → (fail_entity texts flag err call.entity).id ≡ call.entity.id
      by_flag true = unfold fail_entity in refl
      by_flag false = unfold fail_entity in refl

      told :
          (flag : Bool)
          → Agrees texts (plain flag (threw err)) (fail_entity texts flag err call.entity)
      told true = unfold fail_entity in inl refl
      told false = unfold fail_entity in inr (refl, refl)

  settle_stream-filed :
      (born : ℕ → ℕ) (accepts : Bool) (now id : ℕ) (call : Call) (o : Settled) (app : App)
      → IsFiledAll texts born app
      → get id app.calls ≡ some call
      → call.kind ≡ sse none
      → IsFiledAll texts born (settle_stream texts accepts now id call o app)
  unfolding settle_stream note complete_stream_entity
  settle_stream-filed born accepts now id call not_yet app filed found waits = filed
  settle_stream-filed born accepts now id call (fulfilled result) app filed found waits =
      let f = filed id call found in
      write_call-filed born born id _ _ filed (apart_of born app filed) f.apart f.same_id (inl refl)
  settle_stream-filed born accepts now id call (broken err) app filed found waits =
      let told : Agrees texts (sse none) call.entity =
        subst (λ kind. Agrees texts kind call.entity) waits (filed id call found).told in
      set_call-filed born id call _ app filed found refl (inr told)

  pub settle_call-filed :
      (born : ℕ → ℕ) (accepts : Bool) (now id : ℕ) (call : Call) (app : App)
      → IsFiledAll texts born app
      → get id app.calls ≡ some call
      → IsFiledAll texts born (settle_call texts accepts now id call app)
  unfolding settle_call
  settle_call-filed born accepts now id call app filed found = by_kind call.kind refl
    where
      o : Settled
      o = settled call.promise app.scheduler

      by_kind :
          (kind : Kind)
          → call.kind ≡ kind
          → IsFiledAll texts born (settle_call texts accepts now id call app)
      by_kind (plain flag unsettled) e =
          rw (e, settle_call) (settle_plain-filed born accepts now id call flag o app filed found)
      by_kind (plain flag (returned result)) e = rw (e, settle_call) filed
      by_kind (plain flag (threw err)) e = rw (e, settle_call) filed
      by_kind (sse none) e =
          rw (e, settle_call) (settle_stream-filed born accepts now id call o app filed found e)
      by_kind (sse (some events)) e = rw (e, settle_call) filed

  flag-Agrees :
      (flag : Bool) (o : Returned) (e : Entity)
      → Agrees texts (plain flag o) e
      → Agrees texts (plain true o) e
  flag-Agrees flag unsettled e told = told
  flag-Agrees flag (returned result) e told = told
  flag-Agrees flag (threw err) e told = told

  left_stream :
      (events : Option (List StreamEvent)) (e : Entity)
      → Agrees texts (sse events) (record e { status = cancelled })
  left_stream none e = inr refl
  left_stream (some events) e = inr (inr refl)

  pub cancel_call-filed :
      (born : ℕ → ℕ) (now id : ℕ) (call : Call) (app : App)
      → IsFiledAll texts born app
      → get id app.calls ≡ some call
      → IsFiledAll texts born (cancel_call now id call app)
  unfolding cancel_call
  cancel_call-filed born now id call app filed found = by_kind call.kind refl
    where
      f : IsFiled texts born app.repository id call
      f = filed id call found

      by_kind :
          (kind : Kind) → call.kind ≡ kind → IsFiledAll texts born (cancel_call now id call app)
      by_kind (plain flag o) e =
          rw (e, cancel_call)
            (set_call-filed born id call _ app filed found refl (
              flag-Agrees flag o call.entity
                (subst (λ kind. Agrees texts kind call.entity) e f.told)))
      by_kind (sse events) e =
          rw (e, cancel_call)
            (write_call-filed born born id _ _ filed (apart_of born app filed) f.apart f.same_id (
              subst (λ kind. Agrees texts kind (record call.entity { status = cancelled })) (sym e)
                (left_stream events call.entity)))
