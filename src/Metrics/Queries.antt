-- ===== src/Metrics/Queries.antt =====
-- The texts of the queries of inference-api/src/metrics/metrics.service.ts, as they are sent.
pub mod Literals
pub mod Clauses
pub mod Injection
use Prim.Native.String
use inference_stack.Prelude.{ℕ, String, Option, none, some, ◌==◌, string_eq, if◌then◌else◌}
use inference_stack.Metrics.Windows.{decimal}

infixr 65 ◌<>◌
abbrev pub ◌<>◌ : String → String → String
s <> t = String.◌++◌ s t

unfoldable pub tps_sql : ℕ → String
tps_sql interval =
    "\n"
    <> "      SELECT\n"
    <> "        avg(decode_tps) AS avg_decode_tps,\n"
    <> "        avg(prefill_tps) AS avg_prefill_tps,\n"
    <> "        count() * 60 / "
    <> decimal interval (
        " AS rpm\n"
        <> "      FROM inference_metrics\n"
        <> "      WHERE timestamp > now() - INTERVAL "
        <> decimal interval (" SECOND\n" <> "        AND is_error = false\n" <> "    "))

pub tps_by_model_sql : ℕ → String
tps_by_model_sql interval =
    "\n"
    <> "      SELECT\n"
    <> "        model,\n"
    <> "        avg(decode_tps) AS avg_decode_tps,\n"
    <> "        avg(prefill_tps) AS avg_prefill_tps,\n"
    <> "        avg(total_time_ms) AS avg_total_ms,\n"
    <> "        count() AS cnt\n"
    <> "      FROM inference_metrics\n"
    <> "      WHERE timestamp > now() - INTERVAL "
    <> decimal interval (
        " SECOND\n" <> "        AND is_error = false\n" <> "      GROUP BY model\n"
        <> "      ORDER BY cnt DESC\n" <> "    ")

pub latency_sql : ℕ → String
latency_sql interval =
    "\n"
    <> "      SELECT\n"
    <> "        quantile(0.50)(e2e_time_ms) AS e2e_p50,\n"
    <> "        quantile(0.95)(e2e_time_ms) AS e2e_p95,\n"
    <> "        quantile(0.99)(e2e_time_ms) AS e2e_p99,\n"
    <> "        quantile(0.50)(prefill_time_ms) AS prefill_p50,\n"
    <> "        quantile(0.95)(prefill_time_ms) AS prefill_p95,\n"
    <> "        quantile(0.99)(prefill_time_ms) AS prefill_p99,\n"
    <> "        quantile(0.50)(decode_time_ms) AS decode_p50,\n"
    <> "        quantile(0.95)(decode_time_ms) AS decode_p95,\n"
    <> "        quantile(0.99)(decode_time_ms) AS decode_p99,\n"
    <> "        quantile(0.50)(queue_wait_ms) AS queue_p50,\n"
    <> "        quantile(0.95)(queue_wait_ms) AS queue_p95,\n"
    <> "        quantile(0.99)(queue_wait_ms) AS queue_p99,\n"
    <> "        quantile(0.50)(time_to_first_token_ms) AS ttft_p50,\n"
    <> "        quantile(0.95)(time_to_first_token_ms) AS ttft_p95,\n"
    <> "        quantile(0.99)(time_to_first_token_ms) AS ttft_p99\n"
    <> "      FROM inference_metrics\n"
    <> "      WHERE timestamp > now() - INTERVAL "
    <> decimal interval (" SECOND\n" <> "        AND is_error = false\n" <> "    ")

pub by_model_sql : ℕ → String
by_model_sql interval =
    "\n"
    <> "      SELECT\n"
    <> "        model,\n"
    <> "        count() AS cnt,\n"
    <> "        avg(decode_tps) AS avg_decode_tps,\n"
    <> "        avg(prefill_tps) AS avg_prefill_tps,\n"
    <> "        avg(e2e_time_ms) AS avg_e2e,\n"
    <> "        quantile(0.95)(e2e_time_ms) AS p95_e2e,\n"
    <> "        sum(prompt_tokens) AS sum_prompt,\n"
    <> "        sum(completion_tokens) AS sum_completion,\n"
    <> "        countIf(is_error = true) AS err_cnt\n"
    <> "      FROM inference_metrics\n"
    <> "      WHERE timestamp > now() - INTERVAL "
    <> decimal interval
        (" SECOND\n" <> "      GROUP BY model\n" <> "      ORDER BY cnt DESC\n" <> "    ")

pub by_worker_sql : ℕ → String
by_worker_sql interval =
    "\n"
    <> "      SELECT\n"
    <> "        worker_id,\n"
    <> "        count() AS cnt,\n"
    <> "        avg(e2e_time_ms) AS avg_e2e,\n"
    <> "        sum(prompt_tokens) AS sum_prompt,\n"
    <> "        sum(completion_tokens) AS sum_completion\n"
    <> "      FROM inference_metrics\n"
    <> "      WHERE timestamp > now() - INTERVAL "
    <> decimal interval
        (" SECOND\n" <> "      GROUP BY worker_id\n" <> "      ORDER BY cnt DESC\n" <> "    ")

-- A field of the options that is absent or empty.
abbrev pub or_nothing : Option String → (String → String) → String → String
or_nothing none f other = other
or_nothing (some text) f other = if text == "" then other else f text

pub from_clause : Option String → String
from_clause from =
    or_nothing from (λ t. "AND timestamp >= '" <> t <> "'")
      "AND timestamp > now() - INTERVAL 1 HOUR"

pub to_clause : Option String → String
to_clause to = or_nothing to (λ t. "AND timestamp <= '" <> t <> "'") ""

unfoldable pub model_clause : Option String → String
model_clause model = or_nothing model (λ t. "AND model = '" <> t <> "'") ""

pub metric_expr : Option String → String
metric_expr none = "avg(decode_tps)"
metric_expr (some metric) =
    if metric == "prefill_tps"
    then "avg(prefill_tps)"
    else if metric == "latency"
    then "avg(e2e_time_ms)"
    else if metric == "throughput"
    then "count()"
    else "avg(decode_tps)"

pub record HistoryOptions : Type 0 where
  pub model : Option String
  pub metric : Option String
  pub interval : Option String
  pub from : Option String
  pub to : Option String

pub history_text : ℕ → String → String → String → String → String
history_text bucket_seconds metric from to model =
    "\n"
    <> "      SELECT\n"
    <> "        toStartOfInterval(timestamp, INTERVAL "
    <> decimal bucket_seconds (
        " SECOND) AS ts,\n" <> "        " <> metric <> " AS val\n"
        <> "      FROM inference_metrics\n" <> "      WHERE is_error = false\n" <> "        "
        <> from <> "\n" <> "        " <> to <> "\n" <> "        " <> model <> "\n"
        <> "      GROUP BY ts\n" <> "      ORDER BY ts\n" <> "    ")

pub history_sql : ℕ → HistoryOptions → String
history_sql bucket_seconds opts =
    history_text bucket_seconds (metric_expr opts.metric) (from_clause opts.from)
      (to_clause opts.to) (model_clause opts.model)
