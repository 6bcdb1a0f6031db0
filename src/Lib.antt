-- ===== src/Lib.antt =====
-- DynamoRouter: a router in front of model replicas that sends each prompt where most of its prefix is
-- cached. These modules model the Rust crates of the repository and prove what makes them correct.
--
-- Parts, and the files that model them:
--   * Blocks: crates/protocol/src/blocks.rs, the chained FNV-1a hashes of blocks of 16 tokens, on
--     u64 with wrap-around. Two prompts share a hash exactly as far as they share a prefix, but for
--     collisions.
--   * Lru, PrefixCache: crates/router/src/prefix_cache.rs, what the router believes is cached on a
--     replica: a map from hash to last access, and a heap of (access, seq, hash) with stale entries.
--     Lru holds what it shares with KvCache: crates/mock-triton/src/cache.rs, the replica's own cache.
--   * Float, Scheduler: crates/router/src/scheduler.rs, the choice of a replica and the in-flight
--     counts. `none` is a panic.
--   * Text, Protocol, Rpc, Prompt: byte strings and UTF-8, the messages of
--     crates/protocol/proto/inference.proto, statuses, and the text and the hashes of a request
--     (crates/router/src/server.rs, tokenizer.rs).
--   * Task: code that awaits, as a tree of operations; each reply decides what follows. Task.Trace
--     says what holds on every path. Server is crates/router/src/server.rs so written: the unary
--     handler with its retry, the readiness and metadata handlers and the health pass; Server.Streams
--     has the streaming handler. Server.Shared has the state behind the handlers (RouterInner, with
--     the counters of crates/router/src/telemetry.rs) and the effect of each operation on it, one for
--     each lock region, atomic write or await. Server.System lets any number of tasks interleave
--     these; a task may be dropped, as tonic drops the future of a handler whose caller went away.
--     Server.Step says what one step does, Server.Conservation, Ledger and Liveness what holds of runs.
--   * The UnitTests modules have the repository's own tests, as functions that are run.
--   * Startup: crates/router/src/main.rs, from the arguments to the state behind the handlers.
--   * Mock: crates/mock-triton/src/service.rs, the replica's handlers over KvCache.
--   * Loadgen: crates/loadgen/src/trace.rs and main.rs, the prompts of a trace, their replay, and the
--     report that is printed of it (Loadgen.Stats, over Sorting).
--   * Cluster: a router over mock replicas, as crates/router/tests/integration.rs puts them together,
--     with the requests served one after the other.
--
-- How they meet: a request's text is hashed by Prompt and Blocks; Scheduler scores the replicas by
-- `lookup` in their PrefixCache, inserts the prompt into the one it picks, and cuts that cache to the
-- budget; Server calls the replica, gives its place back, and retries once. Mock's cache sees the
-- prompts that the router sent, which is why its counts can be predicted.
--
-- Choices: the heap is a list from which the entry that outranks all others is removed, and the
-- map is an association list; the code depends on neither one's order. The eviction loop runs on
-- a bound, the length of the heap, since each round takes one entry off it. The counters clock
-- and seq of the caches, and usize arithmetic that only counts requests and blocks, are unbounded
-- numbers; the hashes, the metrics' counters and the replica's delay wrap at 2 ^ 64. The load
-- generator's sums of i64 values are checked or wrap, as the build says. f64 is a parameter
-- (Float), with laws of `<` as a hypothesis where a theorem needs them; Float.Integer is an
-- instance. The packages tonic and tokenizers are a parameter (Rpc.Packages). What replicas,
-- probes and clients do is a World, given anew for each step. Streams end: a stream that never
-- does is covered up to any of its messages.
--
-- Not modelled: argument parsing, listeners, the options of channels, signals and the exporters of
-- traces and metrics (calls of packages); time, but for the length of the replica's sleep and the
-- latencies of the load generator; its wall time and throughput; the encoding of the messages.
mod Base
pub mod Sorting
pub mod Blocks
pub mod Lru
pub mod PrefixCache
pub mod KvCache
pub mod Float
pub mod Scheduler
pub mod Text
pub mod Protocol
pub mod Rpc
pub mod Task
pub mod Prompt
pub mod Server
pub mod Mock
pub mod Loadgen
pub mod Cluster
pub mod Startup
