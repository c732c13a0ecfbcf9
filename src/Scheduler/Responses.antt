-- ===== src/Scheduler/Responses.antt =====
-- The results that requests are resolved with, in inference-api/src/scheduler/scheduler.service.ts:
-- the values given to `resolve` by the completion of a single stream, by a member's own completion
-- in a batch, and by the completion of a batch for the members that are left.
use inference_stack.Prelude.{
  ℕ, ◌+◌, ◌/◌, String, Option, none, some, ◌==◌, string_eq, if◌then◌else◌, ℤ, pos, sub_ℕ,
}
use inference_stack.Scheduler.Requests.{Request}
use inference_stack.Scheduler.Results.{Usage, ResultUsage, Timing, Completion, Progress}
use inference_stack.Scheduler.State.{SingleStream, Entry}

abbrev pub or_zero : Option ℕ → ℕ
or_zero none = 0
or_zero (some n) = n

-- `usage?.field ?? 0`
abbrev pub usage_field : (Usage → Option ℕ) → Option Usage → ℕ
usage_field f none = 0
usage_field f (some u) = or_zero (f u)

unfoldable pub single_usage : Option Usage → ResultUsage
single_usage u = record {
  prompt_tokens = usage_field (λ u. u.prompt_tokens) u;
  completion_tokens = usage_field (λ u. u.completion_tokens) u;
  total_tokens = usage_field (λ u. u.prompt_tokens) u + usage_field (λ u. u.completion_tokens) u;
  prefill_time_ms = usage_field (λ u. u.prefill_time_ms) u;
  decode_time_ms = usage_field (λ u. u.decode_time_ms) u;
  total_time_ms = usage_field (λ u. u.total_time_ms) u;
  cached_tokens = usage_field (λ u. u.cached_tokens) u;
  cache_load_ms = some (usage_field (λ u. u.cache_load_ms) u);
  cache_save_ms = some (usage_field (λ u. u.cache_save_ms) u);
}

unfoldable pub batch_usage : Option Usage → ResultUsage
batch_usage u = record (single_usage u) { cache_load_ms = none; cache_save_ms = none }

-- The usage of a member that the stream's completion resolves.
unfoldable pub fallback_usage : Option Usage → ResultUsage
fallback_usage u = record (batch_usage u) { total_tokens = 0; cached_tokens = 0 }

-- `...(thinkingContent && { thinking_content: thinkingContent })`
unfoldable pub present : String → Option String
present text = if text == "" then none else some text

pub or_time : Option ℕ → ℕ → ℕ
or_time none t = t
or_time (some start) t = start

unfoldable pub or_no_time : Option ℤ → ℤ
or_no_time none = pos 0
or_no_time (some t) = t

pub timing : Request → Progress → Timing
timing r p = record {
  queue_wait_ms = sub_ℕ (or_time p.dispatch_start_time r.enqueued_at) r.enqueued_at;
  routing_time_ms = or_no_time p.routing_time_ms;
}

unfoldable pub single_completion : ℕ → SingleStream → Progress → Completion
single_completion now x p = record {
  id = x.request.id;
  created = now / 1000;
  model = x.request.dto.model;
  text = x.full_text;
  finish_reason = x.finish_reason;
  thinking_content = present x.thinking_content;
  usage = single_usage x.usage;
  timing = some (timing x.request p);
  worker_id = x.worker_id;
}

pub batch_completion : ℕ → String → Entry → String → Progress → Completion
batch_completion now worker_id e finish_reason p = record {
  id = e.request.id;
  created = now / 1000;
  model = e.request.dto.model;
  text = e.text;
  finish_reason = finish_reason;
  thinking_content = present e.thinking_content;
  usage = batch_usage e.usage;
  timing = some (timing e.request p);
  worker_id = worker_id;
}

pub fallback_completion : ℕ → String → Entry → Completion
fallback_completion now worker_id e = record {
  id = e.request.id;
  created = now / 1000;
  model = e.request.dto.model;
  text = e.text;
  finish_reason = "STOP";
  thinking_content = none;
  usage = fallback_usage e.usage;
  timing = none;
  worker_id = worker_id;
}
