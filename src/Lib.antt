-- ===== src/Lib.antt =====
-- A verification library for rust_network_system: framed messages over TCP sessions, and the parts that keep
-- a server stable (circuit breaker, rate limiter, bounded queue, graceful shutdown) and share its resources
-- (cache, load balancer, connection pool), with a client, a server, and pieces around them: processors of
-- messages, tracing and certificate pins.
--
-- How the parts interact. A session (src/session/mod.rs) reads and writes frames of the codec
-- (src/core/message.rs), with the errors of src/error/mod.rs. The queue (src/core/message_queue.rs) holds
-- messages between tasks. The breaker (src/stability/circuit_breaker.rs) and the shutdown
-- (src/stability/graceful_shutdown.rs) stand around calls. The three under src/pooling share values,
-- backends and connections between callers. The server (src/core/server.rs) makes a session for each connection
-- and serves it in a task; the client (src/core/client.rs) speaks the same frames over one connection, which it
-- makes again when it is lost. The task of a connection calls the handler of the server's user, around which
-- those of src/integration can stand: they write a log, count metrics, or pass each message through processors on
-- a thread pool. src/tracing/mod.rs and src/tls/config.rs stand by themselves.
--
-- Which file models which part:
--   Base, Base/*: names of the libraries, lists over native numbers, tests, machine words.
--   Error: `NetworkError` and the result type.
--   Message, Message/*: `Message::encode` and `Message::decode` as functions on lists of bytes. The buffer
--     that `decode` drains is an argument and a result. Message/Conversions is the conversions from and to JSON
--     and containers, over the functions of other crates as a record of parameters.
--   Session, Session/*: a record for `Session`; `send`, `receive` and `close` return the new session. What
--     the socket does is a list of read events, or the outcome of a write. Session/Assembly.antt holds the
--     loop of `receive`, by recursion on the read events.
--   CircuitBreaker, CircuitBreaker/*: the state behind the breaker's lock; each method is a function of
--     the configuration, the state and the time.
--   MessageQueue, MessageQueue/*: the queue alone (Sequential), and with tasks between the semaphore, the
--     channel and the counters (System, Safety).
--   GracefulShutdown, GracefulShutdown/*: the atomics, and a step relation between any two accesses (System).
--   Cache, Cache/*: the map as an association list and the order as a list (Maps, Order). Recency is the
--     abstract list of pairs, the least recently used first, which the cache is compared with (Simulation,
--     Refinement); Stale shows what happens when the map and the order disagree. `clear` takes its two locks one
--     after the other; Locks has them as two accesses, with those of other calls in between.
--   LoadBalancer, LoadBalancer/*: the states that are shared through `Arc` stand in a store; the balancer's
--     list and the guards hold positions in it. Choice is `select` with its four strategies.
--   ConnectionPool, ConnectionPool/*: what each method does under one lock (ConnectionPool), and the tasks
--     between the locks (System).
--   RateLimiter, RateLimiter/*: the token bucket and the table by key, over abstract numbers: with an order (Bounds),
--     or with a bound on their rounding (Window).
--   Client, Client/*: a record for `TcpClient`. Reconnect holds the attempts of `reconnect` and its waits; Reads,
--     Writes and Recovery are `receive`, the two ways to send, and the calls that reconnect by themselves.
--   Server, Server/*: a record for `TcpServer`, and what each method and task does to it between two awaits
--     (Server), and a step relation with the tasks of the connections (System). Counted, Limit, Stop, Leak and
--     Late are about the connection count, the limit and `stop`; Callbacks, about the calls of the handler; Weights
--     and Listed, about the list of sessions. Sessions is what the server does with sessions, and Serving what its session loop makes of a byte stream.
--   ThreadPool, ThreadPool/*: a processor is a function from a message to a result; the pipeline is a list.
--   Monitor, Monitor/*: the calls of the metrics by the handler of src/integration/monitor.rs.
--   Handlers, Handlers/*: `SessionHandler` as a record of functions into lists of acts, the default handler, the three
--     wrappers of src/integration as functions on handlers, `MonitoredServer`, and the task of a connection.
--   EndToEnd, EndToEnd/*: a client and a server together: messages one way (EndToEnd), with processors on both
--     sides (Processed), under the metrics (Metered), and as requests with replies (Exchange).
--   Hex, Tracing, Tracing/*: identifiers as lists of character codes.
--   Tls, Tls/*: the pins (Tls, Pins), the verifiers of certificates (Verifiers), and the configurations (Config,
--     Files).
--   Tests/*: runs of the definitions, and the theorems at concrete inputs.
--
-- Bounds. Lengths, sizes and times are natural numbers. Counters of 32 and 64 bits wrap around in
-- the queue, the breaker, the balancer, the server and the tracing; a theorem that needs that they do not
-- says so. Loops are by recursion on a list, or on the number of attempts that are left
-- (`reconnect`). `serve` and `session_loop` make at most the number of calls of `receive` that they are given; a theorem
-- that all messages arrive holds for every number that is not below theirs.
--
-- Parameters. The floating-point numbers of the rate limiter with their operations and order, the clock, the socket's events,
-- the outcome of a connection attempt, the jitter, the random index of the balancer, the answers of `Poolable`
-- and of health checks, and the iteration order of a hash map are arguments. So are the gzip coders, the hash
-- of a certificate, and what the upper case of a character outside ASCII is, and the TLS library's checks of
-- signatures. The library and its reader of PEM are the parameter `Rustls`, and what the conversions of
-- messages use of JSON, containers and parsers is the parameter `Crates`.
--
-- Not modelled: the text of log lines, the export of spans to JSON, the error rate of a backend, which is a
-- floating-point quotient, and the timers that start periodic tasks.
pub mod Base
pub mod Error
pub mod Message
pub mod Session
pub mod CircuitBreaker
pub mod MessageQueue
mod Tests
pub mod GracefulShutdown
pub mod Cache
pub mod LoadBalancer
pub mod ConnectionPool
pub mod RateLimiter
pub mod Client
pub mod Server
pub mod ThreadPool
pub mod EndToEnd
pub mod Hex
pub mod Tracing
pub mod Tls
pub mod Monitor
pub mod Handlers
