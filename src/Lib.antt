-- ===== src/Lib.antt =====
-- sniffy is an intercepting HTTP proxy. A flow (one request and its response) runs through a pipeline
-- of hooks, may be stopped at a breakpoint until the UI answers, and is recorded; WebSocket frames and
-- streamed messages are relayed one by one. This library models those parts as functions and states.
--
-- - Flow (internal/flow/flow.go, decision.go, ws.go, stream.go): `Types` and `Messages` are the
--   structs, `Decide` and `Merge` the decisions of the hooks, `Copy` is `Clone` and the replay of a
--   body's wire form, `Order` (internal/flow/order.go) is `reconcileOrderedHeaders`. `Codec`
--   (internal/flow/codec.go) decodes bodies and strips the headers of one hop; `Wire` and `Reply`
--   (internal/flow/http.go) are the responses as they go back to the client: `itoa`,
--   `responseStatusLine`, `writeFaithfulResponse` and `BuildHTTPResponse`. `Framing` and `StatusLine`
--   are about them.
-- - Pipeline (internal/pipeline/pipeline.go, hooks.go): `Hooks` is `Pipeline` with `Register`,
--   `RegisterCore`, `Clear` and the snapshots; `Run` is `OnRequest`, `OnResponse`, `maybePause`,
--   `OnWebSocketMessage` and `OnStreamMessage`. A hook is a function that edits its object and returns
--   a decision, or panics. `Order` and `Stages` are about them.
-- - Breakpoint (internal/pipeline/breakpoint.go): `State` is `BreakpointManager` with its rules,
--   `Pause` splits the method of that name at its `select` and `deliver` at its send, with `Resume`,
--   `Abort` and `List`. `Slots` has the interleavings of goroutines as a step relation, with the ways
--   out of `Pause` by an answer, by the timeout and by a panic of `emit`; `Answers` and `Match` are
--   about the answers and about `ShouldBreakFor`. The pipeline's `maybe_pause` calls
--   `should_break_for` and `pause`, with a function for what others do while it waits.
-- - BodyCache (internal/bodycache/bodycache.go): `Store` is `Cache` and `Entry` over a list of files, some
--   of which cannot be removed; `Accounts`, `Oldest` and `Calls` are about its books.
-- - WebSocket (capture/processors/http/websocket/frame.go, pipeline.go): `Frame` is `readFrame` and
--   `writeFrame`, `Session` is `wsRecorder`, where a snapshot is taken in one step and reaches the sink
--   in another; `RoundTrip` and `Announced` are about them.
-- - Stream (capture/processors/http/streaming.go): `Scan` is the loop of both scanners, `Sse` and
--   `Grpc` are `sseScanner` and `grpcScanner`. `Recorder` is `streamRecorder`, and `Relay` passes a
--   body on: `emitStreamMessage`, `dispatchChunk` and `pumpResponseStream`, over a list of reads and a
--   client that takes a chunk or not; it calls the scanners and the pipeline's `on_stream_message`.
--   `Detect` says which responses are streams.
-- - Rules (internal/rules/engine.go, and the structs of internal/service/rules.go): `Sorted` is
--   `sortedRules`, `Conditions` is `matches` down to `matchOp`, `HeaderOps` and `Edits` are what the
--   actions do, `Engine` is `OnRequest` and `Responses` is `OnResponse`. Unicode case mapping, floats,
--   net/url and regexp are fields of the records `Conversions` and `Matchers`.
-- - Throttle (capture/throttle.go): `Conn` is `throttleConn.Write` over a connection that says of each
--   write how much it takes.
-- - Events (internal/core/events.go): `Bus` is `EventBus`, with what subscribers read.
-- - Service (internal/service): `Sessions` and `Pages` are the stores of sessions.go for any kind of
--   entry, `Timelines` its two smaller stores, `Window` what they promise; `Statistics` is
--   statistics.go, `RuleStore` the store of rules.go with its file (`Loading` and `Reloading`
--   are about it), and `Recording` the reports of the
--   traffic of service.go, which go through the recording switch to the stores, to the counts and to
--   the bus, and whose evicted flows take their copies out of the body cache.
-- - Access (capture/processors/http): `Scope` is scope.go over the wildcards of Common, `Named`
--   and `Hosts` are about it, and
--   `ProxyAuth` is proxy_auth.go with base64; what it strips is checked on the lines that Flow writes.
--   `HeaderLines` is readorder.go over a list of reads, `Lines` is about it.
-- - Detection (capture/processors/registry.go): the protocol of a connection and the registry of the
--   processors that take it, whose constructors are parameters.
-- - Common: tests on numbers, byte strings, UTF-8, maps as association lists, stable sorting, wildcards.
-- - Samples: concrete runs.
--
-- Numbers are unbounded unless a bound is written out; a Go string is its bytes. Times and random IDs
-- are arguments. Locks are not modelled: a method that holds its lock throughout is one step. A method that gives
-- its lock back midway is two steps; of a `streamRecorder` only the step under the lock is modelled, and
-- when a snapshot reaches the sink is left open. The
-- scanners run on the length of the buffer as fuel, and a round takes at least one byte; trimming and
-- `strings.ReplaceAll` do likewise, and a throttled write, which runs on the length of what is to be
-- written; `itoa` has 20 places, which are enough for an int64. Page numbers and sizes are 64-bit
-- ints whose product wraps around, as in the source. A frame's payload is at most 64 MiB, a gRPC
-- message at most 16 MiB, as in the source.
--
-- Not modelled: sockets and the listener, TLS, certificates and JavaScript plugins, the settings and
-- the views of the service, the API and the desktop shell, throttled reads, the forwarder, and calls of the operating
-- system. Failures to write the file of the rules are ignored by the source, and left out.
pub mod Common
pub mod Flow
pub mod Breakpoint
pub mod Pipeline
pub mod BodyCache
pub mod WebSocket
pub mod Stream
pub mod Rules
pub mod Throttle
pub mod Events
pub mod Service
pub mod Access
pub mod Detection
pub mod Samples
