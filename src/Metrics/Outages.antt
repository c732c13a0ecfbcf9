-- ===== src/Metrics/Outages.antt =====
-- What the routes of inference-api/src/metrics/metrics.controller.ts answer while ClickHouse cannot
-- be asked.
use inference_stack.Prelude.{
  String, ◌≡◌, refl, ◌⊎◌, false, Option, none, some, List, [], Bool-cases, inl, inr,
}
use inference_stack.Map.{get}
use inference_stack.Scheduler.Inference.{or_text}
use inference_stack.ClickHouse.{Row, ClickHouse, query}
use inference_stack.Metrics.Queries.{HistoryOptions}
use inference_stack.Metrics.Reports.{
  Percentiles, get_tps, get_latency_percentiles, get_breakdown, get_history, tps_route,
  latency_route, breakdown_route, history_route, current_of, percentiles, latency_of,
}

abbrev pub zero_value : {F : Type 0} → (Option String → F) → F
zero_value parse_float = parse_float (some "0")

abbrev pub zero_percentiles : {F : Type 0} → (Option String → F) → Percentiles F
zero_percentiles parse_float = record {
  p50 = zero_value parse_float;
  p95 = zero_value parse_float;
  p99 = zero_value parse_float;
}

module _ {F V : Type 0} (parse_float parse_int : Option String → F)
    (answer : String → Option (List Row)) (ch : ClickHouse V) where
  query-down :
      ((sql : String) → answer sql ≡ none) ⊎ (ch.connected ≡ false)
      → (sql : String) → query answer sql ch ≡ []
  unfolding query
  query-down down sql = elim down [
    | inr away ↦ rw away refl
    | inl fails ↦ elim (Bool-cases ch.connected) [
      | inr away ↦ rw away refl
      | inl here ↦ rw (here, fails sql) refl
    ]
  ]

  -- While the service is not connected to ClickHouse, or every query fails there, no route fails:
  -- the rates and all percentiles are the number 0, the lists are empty, and the window is the one
  -- that was asked for.
  pub routes-outage :
      (((sql : String) → answer sql ≡ none) ⊎ (ch.connected ≡ false))
      → (window : Option String) (opts : HistoryOptions)
      → (tps_route parse_float parse_int answer ch window ≡ record {
        current = record {
          decode_tps = zero_value parse_float;
          prefill_tps = zero_value parse_float;
          requests_per_minute = zero_value parse_float;
        };
        by_model = [];
        window = or_text "5m" window;
      })
        × (latency_route parse_float parse_int answer ch window ≡ record {
          e2e = zero_percentiles parse_float;
          prefill = zero_percentiles parse_float;
          decode = zero_percentiles parse_float;
          queue_wait = zero_percentiles parse_float;
          time_to_first_token = zero_percentiles parse_float;
          window = or_text "5m" window;
        })
        × (breakdown_route parse_float parse_int answer ch window
            ≡ record { by_model = []; by_worker = []; window = or_text "5m" window })
        × (history_route parse_float parse_int answer ch opts ≡ [])
  unfolding tps_route latency_route breakdown_route history_route get_tps get_latency_percentiles
      get_breakdown get_history current_of latency_of percentiles or_text get
  routes-outage down window opts = (
    simp (query-down down),
    simp (query-down down),
    simp (query-down down),
    simp (query-down down),
  )
