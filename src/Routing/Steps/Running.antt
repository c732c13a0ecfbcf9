-- ===== src/Routing/Steps/Running.antt =====
-- How long a load lasts, whatever happens to the registry meanwhile.
use inference_stack.Prelude.{
  ℕ, ◌+◌, ◌*◌, ◌≤◌, ◌≡◌, ◌⊎◌, max, refl, String, Option, List, [], ◌∷◌, arith, length, inl, inr,
}
use inference_stack.Registry.{WorkerSnapshot, Registry}
use inference_stack.Routing.{candidates, Capabilities}
use inference_stack.Routing.Steps.{
  Loading, asking, evicting, retrying, loaded_on, no_healthy_workers, no_capacity, next_candidate,
  start_load, begin_evict, Answer, proceed,
}

-- How many answers a load still waits for at most.
abbrev pub left_over : Loading → ℕ
left_over (asking s worker rest) = 3 + 3 * length rest
left_over (evicting s worker m evictor rest) = 2 + 3 * length rest
left_over (retrying s worker rest) = 1 + 3 * length rest
left_over (loaded_on id worker caps) = 0
left_over no_healthy_workers = 0
left_over no_capacity = 0

-- A load that waits for nothing.
abbrev pub HasEnded : Loading → Type 0
HasEnded l =
    ((id : String) × (worker : ℕ) × (caps : Option Capabilities) × (l ≡ loaded_on id worker caps))
    ⊎ ((l ≡ no_healthy_workers) ⊎ (l ≡ no_capacity))

ended_of : (l : Loading) → left_over l ≡ 0 → HasEnded l
ended_of (asking s worker rest) e = absurd (omega (arith, e))
ended_of (evicting s worker m evictor rest) e = absurd (omega (arith, e))
ended_of (retrying s worker rest) e = absurd (omega (arith, e))
ended_of (loaded_on id worker caps) e = inl (id, worker, caps, refl)
ended_of no_healthy_workers e = inr (inl refl)
ended_of no_capacity e = inr (inr refl)

next_candidate-left_over :
    (r : Registry) (ss : List WorkerSnapshot) → left_over (next_candidate r ss) ≤ 3 * length ss
unfolding next_candidate
next_candidate-left_over r [] = omega arith
next_candidate-left_over r (s ∷ ss) = ground (arith, next_candidate-left_over r ss)

begin_evict-left_over :
    (r : Registry) (s : WorkerSnapshot) (worker : ℕ) (rest : List WorkerSnapshot)
    → left_over (begin_evict r s worker rest) ≤ 2 + 3 * length rest
unfolding begin_evict
begin_evict-left_over r s worker rest = ground (arith, next_candidate-left_over r rest)

-- An answer takes a load on, unless it has ended.
pub proceed-left_over :
    (r : Registry) (a : Answer) (l : Loading) → left_over (proceed r a l) + 1 ≤ max 1 (left_over l)
unfolding proceed
proceed-left_over r a (asking s worker rest) = ground (arith, begin_evict-left_over r s worker rest)
proceed-left_over r a (evicting s worker m evictor rest) =
    ground (arith, next_candidate-left_over r rest)
proceed-left_over r a (retrying s worker rest) = ground (arith, next_candidate-left_over r rest)
proceed-left_over r a (loaded_on id worker caps) = omega arith
proceed-left_over r a no_healthy_workers = omega arith
proceed-left_over r a no_capacity = omega arith

-- A load under answers, each with the registry at its time.
pub run : List (Registry × Answer) → Loading → Loading
run [] l = l
run ((r, a) ∷ events) l = run events (proceed r a l)

run-left_over :
    (events : List (Registry × Answer)) (l : Loading)
    → left_over l ≤ length events
    → left_over (run events l) ≡ 0
unfolding run
run-left_over [] l enough = omega (arith, enough)
run-left_over ((r, a) ∷ events) l enough =
    run-left_over events (proceed r a l) (omega (arith, enough, proceed-left_over r a l))

pub start_load-left_over :
    (model_id : String) (r : Registry)
    → left_over (start_load model_id r) ≤ 3 * length (candidates model_id r)
unfolding start_load
start_load-left_over model_id r = by_candidates (candidates model_id r) refl
  where
    by_candidates :
        (ss : List WorkerSnapshot)
        → candidates model_id r ≡ ss
        → left_over (start_load model_id r) ≤ 3 * length (candidates model_id r)
    by_candidates [] e = rw (e, start_load) (omega arith)
    by_candidates (s ∷ ss) e = rw (e, start_load) (next_candidate-left_over r (s ∷ ss))

-- A load has ended after as many answers as three for each candidate, whatever the workers answer and however
-- the registry changes between the answers: it has a worker, or there is no healthy worker, or none
-- has capacity.
pub run_ends :
    (model_id : String) (r : Registry) (events : List (Registry × Answer))
    → 3 * length (candidates model_id r) ≤ length events
    → HasEnded (run events (start_load model_id r))
run_ends model_id r events enough = ended_of _ (
    run-left_over events (start_load model_id r)
      (omega (arith, enough, start_load-left_over model_id r)))
