-- ===== src/Lib.antt =====
-- redis-rs-py: a Redis client for Python, written in Rust on the redis crate. This library models the
-- driver, crates/redis-rs-py-driver/src, which owns the connections, builds the commands, keeps the
-- state of pipelines and subscriptions, and turns replies and errors into Python's.
--
-- The parts, and the files that model them (paths of the repository without the common prefix
-- crates/redis-rs-py-driver/src):
--   Base       lists, tests, results, printing of integers; shared by all
--   Redis      the redis crate as the driver sees it: `Value`, `RedisError`, and a `Network` that
--              answers each request as a parameter decides, with the history of what was sent; a
--              pipe without commands is not sent
--   Errors     errors.rs, `classify_error` and `to_py_err`; `is_failover_error` of connection.rs
--   Reply      async_bridge.rs, `redis_value_to_py`
--   Commands   connection.rs, the commands that the methods of `ValkeyConnInner` send
--   Reserved   connection.rs, `ReservedConnection`, `reserve_connection` and `pipeline_exec`
--   Pipeline   facade/pipeline.rs, `PipelineState` and the methods of `Pipeline`, the command
--              methods of `AsyncPipeline`, and `transaction_helper`
--   PubSub     facade/pubsub.rs, the task that owns a pubsub connection
--   Cluster    facade/cluster.rs, `cluster_slot`, `group_by_slot` and the fan-outs of MGET, DEL and
--              EXISTS
--   Awaitable  async_bridge.rs, `RedisRsAwaitable`
--   Client     commands/strings.rs, lists.rs, hashes.rs, sets.rs, zsets.rs and scripts.rs, the
--              methods of `Redis` (Client/Sync) and of `AsyncRedis` (Client/Async) with their
--              checks of arguments; helpers.rs, `sync_op!` and `async_op!` (Client/Ops);
--              facade/decode.rs, `decode_walk`; async_bridge.rs and raw_result.rs, `RawResult`
--              (Client/Raw); `ValkeyConn::get_blocking` and the replies that connection.rs
--              reads itself (Client/Replies)
--   Sentinel   connection.rs, `SentinelConn::rediscover` and the retry of `dispatch_cmd!`
--   Kwargs     facade/kwargs.rs, `accept_and_warn`
--   Examples   a concrete server and concrete runs
-- A Python method of a pipeline takes the state, sends requests on the connection that it reserved
-- or on the shared one (Reserved), and maps the reply by Reply and Errors. The front ends of a pubsub
-- object send a `BridgeCommand` to the supervisor, which alone holds the connection.
--
-- A command method of a client checks its arguments, asks the connection by a builder of Commands,
-- and converts the typed reply; the async one hands it on as a `RawResult`, which the awaitable
-- converts. `FromRedisValue`, Python's `bytes.decode` and pyo3's `extract` are fields of a record that
-- every method takes (Client/Driver), and so is the connection, a function of any state: Redis/Network
-- is one such, and Sentinel says what the connection does after a failover.
--
-- State is passed on explicitly: a method takes the state and the history and returns both with its
-- result, and runs as a whole: one pipeline is used by one thread at a time, so a method of a
-- second thread in the middle of a request is not modelled. A pipeline's use is a list of method
-- calls (Pipeline/Ops), and the supervisor's run a list of turns of its `select!`
-- (PubSub/Supervisor), each with the sinks and dials that it meets, so the theorems hold for every
-- schedule and every failure. `try_reconnect` runs its 32 attempts by structural recursion;
-- printing a number recurs on fuel, one more than the number itself, which is more than it has
-- digits. `transaction_helper` runs for a number of rounds, and any number beyond the first round
-- without a WatchError is enough. A fan-out's replies are taken in the order in which its tasks are
-- joined, any permutation of the groups; an `i64` total is kept by its 64 bits. What happens to an
-- awaitable is a list of polls, wakes and the like (`Happening`).
--
-- Not modelled: the redis crate and tokio, whose answers are parameters; the text that Rust prints for
-- a float and for a value's `Debug` form, parameters as well; the methods of commands/streams.rs
-- and admin.rs and the variants of `RawResult` that only they use; `fanout_mset`;
-- the constructors and the URL of the front ends facade/sync.rs and facade/asyncio_mod.rs, and
-- facade/sentinel.rs; the Python package. An
-- async method's task is run where it is awaited, though tokio may run it earlier.
pub mod Base
pub mod Redis
pub mod Errors
pub mod Reply
pub mod Client
pub mod Sentinel
pub mod Commands
pub mod Reserved
pub mod Pipeline
pub mod PubSub
pub mod Cluster
pub mod Awaitable
pub mod Kwargs
pub mod Examples
