-- ===== src/Completions/Promises.antt =====
-- The promises that the calls of inference-api/src/completions/completions.service.ts wait for, and the
-- requests of the scheduler behind them.
use inference_stack.Prelude.{
  ℕ, ◌+◌, ◌≡◌, refl, ap, subst, sym, ◌∙◌, Bool, none, some, arith, ℕ_eq, ℕ_discrete, Option-cases,
  inl, inr,
}
use inference_stack.Map.{Map, get, set, get-set_self, get-set_ne}
use inference_stack.ClickHouse.{ClickHouse}
use inference_stack.Metrics.Recording.{MetricRow}
use inference_stack.Scheduler.Requests.{CreateCompletionDto}
use inference_stack.Scheduler.Service.{Enqueued, too_many_requests, accepted}
use inference_stack.Scheduler.Invariant.{queued_at, pending_at, active_at, settled_at}
use inference_stack.Scheduler.Invariant.Calls.{with_id}
use inference_stack.Scheduler.Histories.{Settings}
use inference_stack.Completions.Calls.{
  Promise, request, too_many, unsettled, returned, threw, Kind, plain, sse, Call, App, Settled,
  not_yet, fulfilled, broken, settled, promise_of, write_call,
}
use inference_stack.Completions.Service.{
  Texts, new_call, create, note, settle_plain, settle_stream, settle_call, on_settled, cancel_call,
  disconnect,
}
use inference_stack.Completions.Histories.{
  app_start, enqueued_by, AppStep, entered, turned_away, works, reported, left, AppReach, opened,
  after, AppReach-IsGood,
}

-- The id of a promise was issued by the scheduler.
abbrev pub IsAsked : (ℕ → ℕ) → Promise → Type 0
IsAsked born (request id) = born id ≡ 1
IsAsked born (too_many why retry_after) = Unit

-- Every call waits for a request of its own.
pub record IsTraced (born : ℕ → ℕ) (app : App) : Type 0 where
  pub asked : (k : ℕ) (call : Call) → get k app.calls ≡ some call → IsAsked born call.promise
  pub own :
      (j k : ℕ) (first second : Call) (id : ℕ)
      → get j app.calls ≡ some first
      → get k app.calls ≡ some second
      → first.promise ≡ request id
      → second.promise ≡ request id
      → j ≡ k

-- Every call of `next` was there before, with its promise.
abbrev Keeps : Map ℕ Call → Map ℕ Call → Type 0
Keeps calls next =
    (k : ℕ) (new : Call)
    → get k next ≡ some new
    → (old : Call) × (get k calls ≡ some old) × (new.promise ≡ old.promise)

Keeps-refl : (calls : Map ℕ Call) → Keeps calls calls
Keeps-refl calls k new found = (new, found, refl)

set-Keeps :
    (id : ℕ) (old new : Call) (calls : Map ℕ Call)
    → get id calls ≡ some old
    → new.promise ≡ old.promise
    → Keeps calls (set id new calls)
set-Keeps id old new calls found same k call there = elim (ℕ_discrete k id) [
  | yes here ↦
      let itself : new ≡ call = ground (arith, get-set_self id new calls) in
      (old, ground (arith, found), ap (λ (c : Call). c.promise) (sym itself) ∙ same)
  | no other ↦ (call, ground (arith, get-set_ne id k new calls), refl)
]

IsTraced-Keeps :
    (born : ℕ → ℕ) (app next : App)
    → Keeps app.calls next.calls
    → IsTraced born app
    → IsTraced born next
IsTraced-Keeps born app next keeps t = record {
  asked =
      λ k new found. let (old, there, same) = keeps k new found in rw same (t.asked k old there);
  own = λ j k first second id at_j at_k e d.
      let (first_old, there_j, same_j) = keeps j first at_j in
      let (second_old, there_k, same_k) = keeps k second at_k in
      t.own j k first_old second_old id there_j there_k (sym same_j ∙ e) (sym same_k ∙ d);
}

settle_plain-Keeps :
    (texts : Texts) (accepts : Bool) (now id : ℕ) (call : Call) (flag : Bool) (o : Settled)
    (app : App)
    → get id app.calls ≡ some call
    → Keeps app.calls (settle_plain texts accepts now id call flag o app).calls
unfolding settle_plain note write_call
settle_plain-Keeps texts accepts now id call flag not_yet app found = Keeps-refl app.calls
settle_plain-Keeps texts accepts now id call flag (fulfilled result) app found =
    set-Keeps id call _ app.calls found refl
settle_plain-Keeps texts accepts now id call flag (broken err) app found =
    set-Keeps id call _ app.calls found refl

settle_stream-Keeps :
    (texts : Texts) (accepts : Bool) (now id : ℕ) (call : Call) (o : Settled) (app : App)
    → get id app.calls ≡ some call
    → Keeps app.calls (settle_stream texts accepts now id call o app).calls
unfolding settle_stream note write_call
settle_stream-Keeps texts accepts now id call not_yet app found = Keeps-refl app.calls
settle_stream-Keeps texts accepts now id call (fulfilled result) app found =
    set-Keeps id call _ app.calls found refl
settle_stream-Keeps texts accepts now id call (broken err) app found =
    set-Keeps id call _ app.calls found refl

on_settled-Keeps :
    (texts : Texts) (accepts : Bool) (now id : ℕ) (app : App)
    → Keeps app.calls (on_settled texts accepts now id app).calls
unfolding on_settled
on_settled-Keeps texts accepts now id app = elim (Option-cases (get id app.calls)) [
  | inl missing ↦ rw (missing, on_settled) (Keeps-refl app.calls)
  | inr (call, found) ↦ rw (found, on_settled) (by_kind call found call.kind refl)
]
  where
    by_kind :
        (call : Call)
        → get id app.calls ≡ some call
        → (kind : Kind) → call.kind ≡ kind
        → Keeps app.calls (settle_call texts accepts now id call app).calls
    by_kind call found (plain flag unsettled) e =
        unfold settle_call in
        rw (e, settle_call)
          (settle_plain-Keeps texts accepts now id call flag (settled call.promise app.scheduler)
            app found)
    by_kind call found (plain flag (returned result)) e =
        unfold settle_call in rw (e, settle_call) (Keeps-refl app.calls)
    by_kind call found (plain flag (threw err)) e =
        unfold settle_call in rw (e, settle_call) (Keeps-refl app.calls)
    by_kind call found (sse none) e =
        unfold settle_call in
        rw (e, settle_call)
          (settle_stream-Keeps texts accepts now id call (settled call.promise app.scheduler) app
            found)
    by_kind call found (sse (some events)) e =
        unfold settle_call in rw (e, settle_call) (Keeps-refl app.calls)

disconnect-Keeps : (now id : ℕ) (app : App) → Keeps app.calls (disconnect now id app).calls
unfolding disconnect
disconnect-Keeps now id app = elim (Option-cases (get id app.calls)) [
  | inl missing ↦ rw (missing, disconnect) (Keeps-refl app.calls)
  | inr (call, found) ↦ rw (found, disconnect) (by_kind call found call.kind refl)
]
  where
    by_kind :
        (call : Call)
        → get id app.calls ≡ some call
        → (kind : Kind) → call.kind ≡ kind
        → Keeps app.calls (cancel_call now id call app).calls
    by_kind call found (plain flag o) e =
        unfold cancel_call in rw (e, cancel_call) (set-Keeps id call _ app.calls found refl)
    by_kind call found (sse events) e =
        unfold cancel_call in
        rw (e, cancel_call) (unfold write_call in set-Keeps id call _ app.calls found refl)

IsAsked-with_id :
    (born : ℕ → ℕ) (id : ℕ) (p : Promise)
    → born id ≡ 0
    → IsAsked born p
    → IsAsked (with_id id born) p
IsAsked-with_id born id (request j) unissued asked = ground (arith, asked, unissued)
IsAsked-with_id born id (too_many why retry_after) unissued asked = tt

-- A call that is put under an id, with a request that no other call has.
set-IsTraced :
    (born next_born : ℕ → ℕ) (id : ℕ) (new : Call) (app next : App)
    → next.calls ≡ set id new app.calls
    → IsTraced born app
    → ((k : ℕ) (call : Call) → get k app.calls ≡ some call → IsAsked next_born call.promise)
    → IsAsked next_born new.promise
    → ((i : ℕ) → new.promise ≡ request i → born i ≡ 0)
    → IsTraced next_born next
set-IsTraced born next_born id new app next written t still asked unissued = record {
  asked = λ k call found. elim (ℕ_discrete k id) [
    | yes here ↦ subst (λ (c : Call). IsAsked next_born c.promise) (itself k call here found) asked
    | no other ↦ still k call (ground (arith, written, get-set_ne id k new app.calls))
  ];
  own = λ j k first second i at_j at_k e d. elim (ℕ_discrete j id) [
    | yes j_new ↦ elim (ℕ_discrete k id) [
      | yes k_new ↦ j_new ∙ sym k_new
      | no k_old ↦ absurd (
          clash k second i (ground (arith, written, get-set_ne id k new app.calls)) d
            (ap (λ (c : Call). c.promise) (itself j first j_new at_j) ∙ e))
    ]
    | no j_old ↦ elim (ℕ_discrete k id) [
      | yes k_new ↦ absurd (
          clash j first i (ground (arith, written, get-set_ne id j new app.calls)) e
            (ap (λ (c : Call). c.promise) (itself k second k_new at_k) ∙ d))
      | no k_old ↦
          t.own j k first second i (ground (arith, written, get-set_ne id j new app.calls))
            (ground (arith, written, get-set_ne id k new app.calls)) e d
    ]
  ];
}
  where
    itself : (k : ℕ) (call : Call) → k ≡ id → get k next.calls ≡ some call → new ≡ call
    itself k call here found = ground (arith, written, get-set_self id new app.calls)

    clash :
        (k : ℕ) (call : Call) (i : ℕ)
        → get k app.calls ≡ some call
        → call.promise ≡ request i
        → new.promise ≡ request i
        → ⊥
    clash k call i found old_asks new_asks =
        omega (arith, subst (IsAsked born) old_asks (t.asked k call found), unissued i new_asks)

module _ (texts : Texts) where
  create-IsTraced :
      (born next_born : ℕ → ℕ) (stream : Bool) (dto : CreateCompletionDto)
      (request_id scheduler_id now : ℕ) (app : App) (result : Enqueued)
      → enqueued_by dto scheduler_id now app ≡ result
      → IsTraced born app
      → ((k : ℕ) (call : Call) → get k app.calls ≡ some call → IsAsked next_born call.promise)
      → IsAsked next_born (promise_of scheduler_id result)
      → ((i : ℕ) → promise_of scheduler_id result ≡ request i → born i ≡ 0)
      → IsTraced next_born (create texts stream dto request_id scheduler_id now app)
  unfolding create new_call write_call
  create-IsTraced born next_born stream dto request_id scheduler_id now app result e t still asked
        unissued =
      set-IsTraced born next_born request_id
        (new_call texts stream dto request_id scheduler_id now
          (enqueued_by dto scheduler_id now app))
        app _ refl t still (rw e asked) (rw e unissued)

  AppStep-IsTraced :
      {born next_born : ℕ → ℕ} {app next : App}
      → AppStep texts born app next_born next
      → IsTraced born app
      → IsTraced next_born next
  AppStep-IsTraced {born} {next_born} {app}
        (entered stream dto request_id scheduler_id now {t} fresh_id unissued unused different e)
        traced =
      create-IsTraced born next_born stream dto request_id scheduler_id now app (accepted t) e
        traced
        (λ k call found.
          IsAsked-with_id born scheduler_id call.promise unissued (traced.asked k call found))
        (ground (arith, unissued)) (λ i same. ground (arith, unissued, same))
  AppStep-IsTraced {born} {next_born} {app}
        (turned_away stream dto request_id scheduler_id now why retry_after fresh_id e) traced =
      create-IsTraced born born stream dto request_id scheduler_id now app
        (too_many_requests why retry_after) e traced traced.asked tt (λ i same. cc)
  AppStep-IsTraced {born} {next_born} {app} (works st) traced = record {
    asked = traced.asked;
    own = traced.own;
  }
  AppStep-IsTraced {born} {next_born} {app} (reported accepts now id) traced =
      IsTraced-Keeps born app _ (on_settled-Keeps texts accepts now id app) traced
  AppStep-IsTraced {born} {next_born} {app} (left now id) traced =
      IsTraced-Keeps born app _ (disconnect-Keeps now id app) traced

  AppReach-IsTraced :
      {c : Settings} {ch : ClickHouse MetricRow} {born : ℕ → ℕ} {app : App}
      → AppReach texts c ch born app
      → IsTraced born app
  unfolding app_start get
  AppReach-IsTraced opened = record {
    asked = λ k call found. cc;
    own = λ j k first second id at_j at_k e d. cc;
  }
  AppReach-IsTraced (after r st) = AppStep-IsTraced st (AppReach-IsTraced r)

  -- After any history, the request behind a call that the scheduler took is queued, or waits in the
  -- collector, or is active, or is settled, in exactly one of these ways; and no other call has the
  -- same request.
  pub request_of_its_own :
      {c : Settings} {ch : ClickHouse MetricRow} {born : ℕ → ℕ} (app : App) (k id : ℕ) (call : Call)
      → AppReach texts c ch born app
      → get k app.calls ≡ some call
      → call.promise ≡ request id
      → (queued_at id app.scheduler
            + pending_at id app.scheduler
            + active_at id app.scheduler
            + settled_at id app.scheduler
          ≡ 1)
        × ((j : ℕ) (other : Call)
            → get j app.calls ≡ some other
            → other.promise ≡ request id
            → j ≡ k)
  request_of_its_own {c} {ch} {born} app k id call r found asks =
      let good = AppReach-IsGood texts r in
      let traced = AppReach-IsTraced r in
      (
        omega (arith, good.sound.exact id, subst (IsAsked born) asks (traced.asked k call found)),
        λ j other there same. traced.own j k other call id there found same asks,
      )
