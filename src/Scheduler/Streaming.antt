-- ===== src/Scheduler/Streaming.antt =====
-- A whole stream of one request, over the callbacks of `dispatchRequest` in
-- inference-api/src/scheduler/scheduler.service.ts: any number of messages, then the completion.
use inference_stack.Prelude.{
  ℕ, ◌≡◌, refl, sym, ap, subst, sum_of, ◌∙◌, String, Bool, true, false, Option, none, some, List,
  [], ◌∷◌, arith, All, ℕ_eq, if◌then◌else◌,
}
use Prim.Native.String
use text.Mathlib.TextLemmas.{append_assoc, append-nil}
use inference_stack.Map.{get, set, get-set_self}
use inference_stack.Scheduler.Requests.{Request}
use inference_stack.Scheduler.Results.{Chunk, InferResponse, Completion, resolved}
use inference_stack.Scheduler.Responses.{present, single_completion}
use inference_stack.Scheduler.State.{SingleStream, single, Service}
use inference_stack.Scheduler.Events.{
  chunk_text, add_chunk, add_complete, open_stream, next_single, report_error, stream_next,
  stream_complete,
}
use inference_stack.Scheduler.Invariant.{active_at, has_key, IsSound}
use inference_stack.Scheduler.Invariant.Streams.{add-request, stream_next-IsSound}
use inference_stack.Scheduler.Endings.{stream_complete_outcome}

-- The text that a message adds to the answer (`false`) or to the thinking (`true`).
abbrev pub text_of : Bool → Option Chunk → String
text_of thinking none = ""
text_of true (some c) = if c.is_thinking then chunk_text c else ""
text_of false (some c) = if c.is_thinking then "" else chunk_text c

abbrev pub texts : Bool → List InferResponse → String
texts thinking [] = ""
texts thinking (m ∷ ms) = String.◌++◌ (text_of thinking m.chunk) (texts thinking ms)

-- Messages of one stream, in the order in which they arrive.
pub stream_all : ℕ → ℕ → List InferResponse → Service → Service
stream_all now n [] s = s
stream_all now n (m ∷ ms) s = stream_all now n ms (stream_next now n m s)

abbrev pub IsFine : InferResponse → Type 0
IsFine m = m.error ≡ none

abbrev received : InferResponse → SingleStream → SingleStream
received m x = add_complete m.complete (add_chunk m.chunk x)

received-text :
    (m : InferResponse) (x : SingleStream)
    → ((received m x).full_text ≡ String.◌++◌ x.full_text (text_of false m.chunk))
      × ((received m x).thinking_content ≡ String.◌++◌ x.thinking_content (text_of true m.chunk))
unfolding add_complete add_chunk
received-text m x =
    (ground (arith, append-nil x.full_text), ground (arith, append-nil x.thinking_content))

stream_next-fine :
    (now n : ℕ) (m : InferResponse) (x : SingleStream) (s : Service)
    → IsFine m
    → get n s.streams ≡ some (single x)
    → stream_next now n m s ≡ open_stream n (single (received m x)) s
unfolding stream_next next_single
stream_next-fine now n m x s fine found =
    rw (found, stream_next) (rw fine (unfold report_error in refl))

-- What a promise is resolved with, when a stream had gathered `text` and `thinking`.
record IsAnswer (id : ℕ) (text thinking : String) (t : Service) : Type 0 where
  answer : Completion
  settled : (t.progress id).outcome ≡ some (resolved answer)
  same_id : answer.id ≡ id
  whole_text : answer.text ≡ text
  whole_thinking : answer.thinking_content ≡ present thinking

stream_all-IsAnswer :
    (born : ℕ → ℕ) (now n id : ℕ) (ms : List InferResponse) (x : SingleStream) (s : Service)
    → x.request.id ≡ id
    → IsSound born s
    → get n s.streams ≡ some (single x)
    → active_at id s ≡ 1
    → All IsFine ms
    → IsAnswer id
        (String.◌++◌ x.full_text (texts false ms))
        (String.◌++◌ x.thinking_content (texts true ms))
        (stream_complete now n (stream_all now n ms s))
unfolding stream_all
stream_all-IsAnswer born now n id [] x s same v found running fine = record {
  answer = single_completion now x (s.progress x.request.id);
  settled =
      subst
        (λ j.
          ((stream_complete now n s).progress j).outcome
          ≡ some (resolved (single_completion now x (s.progress x.request.id))))
        same
        (stream_complete_outcome born now n x s v found
          (subst (λ j. active_at j s ≡ 1) (sym same) running)).0;
  same_id = unfold single_completion in same;
  whole_text = unfold single_completion in sym (append-nil x.full_text);
  whole_thinking = unfold single_completion in ap present (sym (append-nil x.thinking_content));
}
stream_all-IsAnswer born now n id (m ∷ ms) x s same v found running (fine, rest) =
    let t = stream_next now n m s in
    let y = received m x in
    let opened = stream_next-fine now n m x s fine found in
    let streams : t.streams ≡ set n (single y) s.streams = ap (λ u. u.streams) opened in
    let actives : t.active_requests ≡ s.active_requests = ap (λ u. u.active_requests) opened in
    let later =
      stream_all-IsAnswer born now n id ms y t
        (ap (λ (r : Request). r.id) (add-request m.chunk m.complete x) ∙ same)
        (stream_next-IsSound born now n m s v)
        (ap (get n) streams ∙ get-set_self n (single y) s.streams)
        (ap (sum_of (has_key id)) actives ∙ running) rest in
    let (text, thinking) = received-text m x in
    record {
      answer = later.answer;
      settled = later.settled;
      same_id = later.same_id;
      whole_text =
          later.whole_text
          ∙ ap (λ u. String.◌++◌ u (texts false ms)) text
          ∙ append_assoc x.full_text (text_of false m.chunk) (texts false ms);
      whole_thinking =
          later.whole_thinking
          ∙ ap present (
              ap (λ u. String.◌++◌ u (texts true ms)) thinking
              ∙ append_assoc x.thinking_content (text_of true m.chunk) (texts true ms));
    }

-- When messages without errors come in on the stream of an active single request of a sound service
-- and the stream then completes, the promise is resolved with a completion for that request whose
-- text is what the stream had before followed by the texts of the answer chunks in order, and whose
-- thinking content is that of the thinking chunks in order, or absent if it is empty.
pub stream_all_outcome :
    (born : ℕ → ℕ) (now n : ℕ) (ms : List InferResponse) (x : SingleStream) (s : Service)
    → IsSound born s
    → get n s.streams ≡ some (single x)
    → active_at x.request.id s ≡ 1
    → All IsFine ms
    → (c : Completion) × (((stream_complete now n (stream_all now n ms s)).progress
          x.request.id).outcome
        ≡ some (resolved c))
      × (c.id ≡ x.request.id)
      × (c.text ≡ String.◌++◌ x.full_text (texts false ms))
      × (c.thinking_content ≡ present (String.◌++◌ x.thinking_content (texts true ms)))
stream_all_outcome born now n ms x s v found running fine =
    let a = stream_all-IsAnswer born now n x.request.id ms x s refl v found running fine in
    (a.answer, a.settled, a.same_id, a.whole_text, a.whole_thinking)
