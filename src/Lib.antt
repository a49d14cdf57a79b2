-- ===== src/Lib.antt =====
-- A verification library for go-agent-chat-server, an HTTP server for chats with language models.
--
-- The program's parts. The API (internal/api) calls services (internal/service). The chat service
-- checks a user's rate limit, stores the question through the message service, builds the messages
-- for the model with the results of tools, waits for one of the slots for model calls, asks the
-- model, stores the answer and publishes an event. The message service keeps messages in the
-- database (internal/store) and lists of them in Redis (internal/cache). The asynchronous chat
-- service stores a job and publishes a task; the worker (cmd/worker) takes tasks from the queue
-- (internal/queue) and runs the jobs. Tokens (internal/pkg/jwtutil) name the user of a request, and
-- identifiers come from a generator (internal/pkg/idgen).
--
-- Which file models which part:
--   Idgen: internal/pkg/idgen/snowflake.go. `next_id` is NextID over the readings of the clock that
--     are still to come; `none` stands for a call that still waits when they end.
--   Tool: internal/tool. Tool.Calculator has the parser of calculator.go (`parse_expression`,
--     `parse_term`, `parse_factor`), Tool.Calculator.Extract the search for an expression in a text,
--     Tool.Calculator.Syntax and Tool.Calculator.Printing expression trees, their values and their
--     texts, and Tool.Registry the registry and the time tool.
--   Model: internal/model. Store: internal/store, one module for each repository.
--   Cache: internal/cache. Metrics: internal/metrics, with the state of a process.
--   Llm: internal/llm/ollama.go. Agent: internal/agent/eino_runner.go.
--   Service.Message, Service.Session, Service.Knowledge, Service.Auth, Service.AsyncChat: the files
--     of internal/service of these names. Service.Message.Views states what the message service needs
--     of the database, Redis and JSON. Service.Chat: internal/service/chat_service.go, with the
--     limiter in Limits, the choice of the model in Models, tools and events in Tools, and the
--     methods in Answers and Streams.
--   Queue: internal/queue, with the tasks in ChatTask, the events in Rabbit, and the connections to
--     the broker in Broker. Worker: cmd/worker/main.go, with its loop in Worker.Loop as a step
--     relation. Jwt: internal/pkg/jwtutil/jwt.go.
--   Api: internal/api, one module for each file, with the texts of internal/api/coze.go and
--     internal/api/knowledge.go in Api.Coze, the writers of the streams in Api.Sse and
--     internal/ecode in Api.Code. A handler ends with the arguments of its one call of c.JSON, or
--     with the goroutine of a stream.
--   Middleware: internal/middleware. A middleware returns without a call of c.Next, or makes one and
--     ends with a function of what comes back. Config: internal/config/config.go. Router: the routes of
--     internal/router/router.go. Connections: internal/store/mysql.go and internal/cache/redis.go.
--     Start: the start of cmd/worker/main.go and cmd/server/main.go, with the services of
--     internal/router/router.go that have settings.
--   Base: shared types and lemmas: integers, Go strings, lists, results and calls. World: a database
--     and a model in memory, and World.Shelf the cached list of one session, for tests.
--
-- How the code is modelled. A method that changes state is a function of type `Exec S A`: from a
-- state to a value or an error, and the state afterwards, which comes back beside an error too. `S`
-- is everything outside the process and stays abstract; the database, Redis, HTTP, the broker, JSON,
-- HMAC and the clock are records of functions over it. `Process S` adds the counters, the taken
-- slots of the limiter and the events whose publication has been started. A deferred release is a
-- step behind the rest of the function. A context that ends is an error of the call that waits
-- on it. A theorem about a method holds for every behaviour of what lies outside, unless a
-- hypothesis restricts it.
--
-- Numbers, bounds and fuel. Identifiers are computed on 64-bit words, and page offsets and the
-- lifetime of a token wrap at 64 bits. The parser of the calculator runs on fuel of three times the length of the text and 4, which
-- Tool.Calculator.Fuel shows to be enough; the deletion of cached pages takes the number of rounds
-- of SCAN as a bound, since Redis decides when the cursor returns to 0. All other loops are
-- recursion on a list.
--
-- Not modelled: goroutines of other requests between two steps of one request; the HTTP framework's
-- binding of requests and dispatch of routes; the debug servers and the log.
pub mod Base
pub mod Idgen
pub mod Tool
pub mod Model
pub mod Store
pub mod Metrics
pub mod Cache
pub mod Service
pub mod Queue
pub mod Llm
pub mod Agent
pub mod Worker
pub mod Jwt
pub mod Api
pub mod Middleware
pub mod Config
pub mod Router
pub mod Connections
pub mod Start
pub mod World
