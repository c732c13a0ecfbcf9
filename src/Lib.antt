-- ===== src/Lib.antt =====
-- A model of the inference API of this repository, inference-api/src, with theorems about it.
--
-- The parts and how they interact. A request for a completion comes to `enqueue` of the scheduler,
-- which estimates its tokens (`TokenizerService`), refuses it where a limit is met, and puts it
-- into its user's queue. `tryDispatch` takes requests out of the queues while slots are free, by
-- priority and in turn, and submits them to the batch collector, which dispatches them alone or,
-- when a batch is full or its window has passed, together. A dispatch waits for the router's
-- answer, subscribes to a stream of a worker, and settles the promises of its requests from what
-- the stream brings. A request that ends gives its slot back, which dispatches the next. In front of
-- the scheduler the controller and the service of completions check a request, keep its record in the
-- repository, answer the client and record the metrics; images, speech and video go to the router
-- directly.
--
-- The files, with the code that they are about:
--   * Prelude, Map: what the parts share; Map is JavaScript's `Map`, in the order of insertion.
--   * Tokenizer: inference-api/src/tokenizer/tokenizer.service.ts.
--   * Batching: inference-api/src/scheduler/batch-collector.ts. A bucket's identity is its place in
--     its list; a call returns what the code hands to its callbacks.
--   * Scheduler/Requests, Scheduler/Results: the data of inference-api/src/scheduler/interfaces.ts,
--     inference-api/src/completions/dto/create-completion.dto.ts and of the workers' messages.
--   * Scheduler/Queues: the queues of inference-api/src/scheduler/scheduler.service.ts,
--     `addToQueue`, `dequeueNext`, `refreshUserKeys`, `getQueuedRequestIds` and the queue part of
--     `cancel`.
--   * Scheduler/State, Dispatching, Service, Responses, Inference, Events: the rest of that file.
--     The state is the record `Service`. `tryDispatch`, `dispatchRequest`, `dispatchBatch` and
--     `finishRequest` are in Dispatching; the public methods in Service; what a result holds in
--     Responses; what workers are asked in Inference; what happens when the router or a worker
--     answers or a timer fires in Events. An `async` method is cut at its `await`: what stands
--     before it is one function, what follows another.
--   * Scheduler/Invariant and its children keep the invariant over every call; Histories puts calls
--     and callbacks in any order; Dispatches, Concurrency, Admission, Cancelling, Endings,
--     Streaming and Queues/* have the other theorems.
--   * Roster: inference-api/src/config/model-roster.ts.
--   * Registry: inference-api/src/worker-orchestrator/worker-registry.ts and, beside it,
--     interfaces.ts and worker-orchestrator.module.ts. Modes has `switchMode`, Start what the
--     module does at its start. Clients is about the gRPC clients over all histories, Switching about
--     `switchMode`, Polling about polls.
--   * Routing: inference-api/src/worker-orchestrator/router.ts and, beside it, model-manager.ts.
--     Choice is about `route`, Loading about `tryEvictIdle`, Loading/Outcomes about
--     `loadOnBestWorker`, Caching about `cacheCapabilities`, Coalescing about `ensureModelLoaded`;
--     Sorting has the facts on `sort` and `filter` that they share.
--     Steps is the same load cut where it waits for a worker, with Running on how long it lasts
--     and Refinement on the registry that stays.
--   * ClickHouse: inference-api/src/metrics/clickhouse.service.ts.
--   * Metrics: inference-api/src/metrics/metrics.service.ts and, beside it, interfaces.ts and
--     metrics.controller.ts. Recording is about `recordInference`, Windows about `parseWindow`,
--     Queries has the texts that are sent; in it Literals has a lexer of quoted literals, Clauses and
--     Injection what `getHistory` shows outside them. Reports has the four reports and the routes,
--     Outages what they answer without the database.
--   * Completions: inference-api/src/completions. Records is entities/completion.entity.ts with the
--     repository; Calls and Service are completions.service.ts, Controller the POST route of
--     completions.controller.ts. The state `App` has the scheduler, the repository, the metrics and
--     the variables of each call. Filing and Histories keep its
--     invariant, Promises the requests behind the calls; Answers, Endings
--     and Streams say what clients are told.
--   * Media: inference-api/src/images, inference-api/src/audio and inference-api/src/video, with what
--     they share in Media itself.
--   * A module Tests has runs on concrete data.
--
-- Bounds and fuel: the loop of `tryDispatch` runs on the number of queued requests as fuel; each
-- round takes one request out, and Scheduler/Dispatches shows that it is enough. The loop of
-- `dequeueNext` has one round for each key. Numbers are natural numbers, since counts, token
-- estimates and times are whole and not negative; differences of times are integers. JavaScript's
-- numbers above 2^53 are not considered.
--
-- Histories of the scheduler begin from any limits and any configuration of the collector, which
-- stay as they are: the setters, which tests use, and the collector's `setConfig` and `destroy` are
-- definitions without a step.
--
-- A load lasts at most three answers for each candidate, which Routing/Steps/Running shows for any
-- changes of the registry meanwhile; `load_on_best_worker` in Routing is its specification, with the
-- workers' answers to `loadModel` and `unloadModel` as parameters and a registry that stays. The
-- digits of a number run on the number itself as fuel.
--
-- The database is a parameter: what it answers to a text of SQL, or that it fails. The repository of
-- the completions takes every record, and `save` replaces what is under the record's id. Libraries'
-- texts are parameters: JSON, base64, `parseFloat`, the message of a Nest exception, `String(err)`.
--
-- Not modelled: HTTP and gRPC themselves, the routes that only pass on a service's result, `findAll`,
-- which reads by a time that the database sets, the engine of the table that `ensureSchema` creates,
-- the commands that a mode switch sends over SSH, logging, and the Python worker. What the router
-- and the workers answer is an argument of the callbacks in Events, so every answer is allowed. A
-- worker's stream answers after the subscription, not during it.
pub mod Prelude
pub mod Map
pub mod Tokenizer
pub mod Batching
pub mod Scheduler
pub mod Roster
pub mod Registry
pub mod Routing
pub mod ClickHouse
pub mod Metrics
pub mod Media
pub mod Completions
