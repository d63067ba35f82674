-- ===== src/Lib.antt =====
-- The movie reservation agent: the life of a run from the request of a client to its result.
--
-- A client creates a run over HTTP (llm_agent/llm_agent/api/http/v1/routes/agent.py), the
-- orchestrator (llm_agent/llm_agent/services/agent/orchestrator.py) stores it by the intake store,
-- marks it as enqueued and wakes the workers by the signal queue. A worker
-- (llm_agent/agent_run_worker/in_memory) claims it by the processing store, executes it under a
-- lease that heartbeats renew, and reports its end. Both stores (llm_agent/local_runtime/run_store)
-- share one runtime, the dictionary of runs and the event log. Every method of theirs that writes
-- holds one lock from its beginning to its end, so that a method is one step.
--
-- Apart from that the route of routes/demo.py reserves a seat for a recommended movie by calling
-- four tools of two MCP servers (llm_agent/llm_agent/services/demo/reservation.py). There the
-- client for them is an argument, a function with a state of its own that may answer or raise
-- anything; the client that the program uses is modelled over the library that speaks to a server.
--
-- A third route asks a genetic search for the throttle steps that bring a unit to another one
-- (llm_agent/llm_agent/infrastructure/navigation/path_finders/genetic.py). All routes of the main
-- application stand behind two middlewares, of which the outer one prepares the context of a request
-- and finds its token, and the inner one has the token checked
-- (llm_agent/llm_agent/api/http/middlewares); the demonstration application has a login that writes
-- an audit event for each attempt (llm_agent/llm_agent/api/http/v1/routes/demo_auth.py).
--
-- The files and what they model:
--   Value        the data of JSON, floats included
--   Contracts    RunStatusCode, RunStatus, RunEvent of llm_agent/contracts/domain/runs
--   Transitions  RunTransitionPolicy, DEFAULT_TRANSITION_RULES, TransitionRequestParams;
--                Transitions/Diagram has the state diagram as an indexed type
--   EventLog     InMemoryRunEventLog of llm_agent/local_runtime/event_log/in_memory.py
--   Runtime      InMemoryRuntime and InMemoryRunSignalQueue; Runtime/Evolution has the invariant
--                and how a run may change
--   Intake       InMemoryRunIntakeStore (create_run, mark_enqueued, request_cancellation, …)
--   Processing   InMemoryRunProcessingStore (claim_run, heartbeat, set_succeeded, …)
--   System       any sequence of calls of both stores, as a step relation; Runtime/Moves says how a
--                call may move a status
--   Orchestrator BackendRunOrchestrationService
--   Routes       the handlers of routes/agent.py with their mappers and error answers
--   Worker       InMemoryConsumer, RunLeaseScope's heartbeat, the executors, RunExecutionContext
--   Demo         the reservation of a recommended seat: llm_agent/llm_agent/demo; Demo/Payload and
--                Demo/Reservation are services/demo/reservation.py of llm_agent/llm_agent, and
--                Demo/Routes is its api/http/v1/routes/demo.py, and Demo/Client its
--                infrastructure/mcp/demo_client.py
--   Genetic      the throttle steps of a unit: Genetic is llm_agent/llm_agent/domain/genetic_path,
--                Genetic/Fitness, Genetic/Breeding and Genetic/Search are genetic.py of
--                llm_agent/llm_agent/infrastructure/navigation/path_finders, Genetic/Draws what it
--                uses of Python's random, and Genetic/Paths the path finders, the service and the
--                route above it
--   Authentication   who may call: Authentication/Tokens and Authentication/Middleware are
--                infrastructure/execution_context and api/http/middlewares of
--                llm_agent/llm_agent, Authentication/Claims, Authentication/Keys and
--                Authentication/Manager its infrastructure/authentication
--   Audit        what is recorded of authentications: application/audit/authentication.py and
--                api/http/audit_context.py of llm_agent/llm_agent; Audit/Login and Audit/Stdout the
--                demonstration login above it and the sink below it
--   Metrics      the counting of requests: llm_agent/llm_agent/core/telemetry.py
--   Prelude, Dict, Exec, Int   shared helpers: tests, Python's dict and int, and a
--                state and error monad
--   Tests        the theorems at a concrete history
--
-- A method is a function from a state to a result or an exception and the state left behind, which
-- also has what was written before an exception. A key is a natural number for a UUID, a time is a
-- natural number of microseconds. The clock is part of the state: an arbitrary sequence of
-- readings, of which each call uses up one. Fresh ids, and what other tasks do while a worker waits
-- or executes, are arguments. The loops of `claim_run` run over the keys of the dictionary, so that
-- no fuel is needed; the worker's endless loop is given the list of its rounds, and its
-- theorems are about one round. The genetic search recurses on the number of generations and of
-- children to make; its floats are an argument, a record of operations of which nothing is known,
-- and `div` has no result where Python raises. The polls for a reservation recurse on the number of
-- attempts. A float of JSON is a quotient of integers, an infinity or no number.
--
-- Not modelled: spans and logging, the set-up of telemetry, the wiring of FastAPI and of the service
-- container, the database configuration, the protocols without bodies, and the starting and
-- cancelling of asyncio tasks. Texts are compared and joined; their case folding, the search for a
-- text in another one, their conversion to and from numbers and the reading of JSON are arguments,
-- as are the libraries that speak to the MCP servers, decode tokens and compute digests.
pub mod Prelude
pub mod Dict
pub mod Exec
pub mod Int
pub mod Value
pub mod Contracts
pub mod Transitions
pub mod EventLog
pub mod Runtime
pub mod Intake
pub mod Processing
pub mod System
pub mod Orchestrator
pub mod Routes
pub mod Worker
pub mod Demo
pub mod Genetic
pub mod Metrics
pub mod Audit
pub mod Authentication
pub mod Tests
