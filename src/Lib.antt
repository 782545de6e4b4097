-- ===== src/Lib.antt =====
-- ComaMessenger: the TypeScript code that keeps the state of its clients and runs its agents.
--
-- The server sends durable events with rising sequence numbers, and ephemeral frames, over one socket
-- per client (docs/protocols/realtime-v1.md). The realtime coordinator owns that socket; it hands each
-- event to the client store, keeps a checkpoint and acknowledges what has come. The outbox holds the
-- messages that the server has not confirmed, and tells the store of each by `optimistic`, `retrying`,
-- `failed` and `reconcile`. The agent runtime claims runs, streams what a provider writes as frames of
-- a message stream, which the store of each client joins again, and its connection manager receives
-- events as the coordinator does.
--
-- Parts and files:
--   * Prelude: the shared names, Boolean tests, lists over the native numbers, and `Dict`, a JavaScript
--     object or Map as an association list in insertion order.
--   * Wire: the types of packages/core/src/types.ts that the modelled code reads. A key that may be
--     absent from JSON is a `Field`, since a spread keeps the old value where a key is absent.
--   * Store: packages/core/src/store.ts. Store.Merge has uniqueSorted, the upsert and
--     reconcileMessage; Store.State the state and the actions; Store.Ephemeral the agent statuses and
--     message streams with their timers; Store.Actions all of these as one step function.
--   * Outbox: packages/core/src/outbox.ts over the queue of apps/web/src/persistence.ts.
--   * FeedRows: packages/core/src/feed.ts.
--   * Realtime: packages/core/src/realtime.ts, and in Realtime.Sessions the event callback of
--     apps/web/src/shell/useMessengerSession.ts, with the writings to the storage in Realtime.Storage.
--     Realtime.Inputs has the methods, callbacks and timeouts as one step function.
--   * AgentConnection: apps/agent-runtime/src/connection.ts, likewise.
--   * AgentRuntime: apps/agent-runtime/src/runtime.ts. AgentRuntime.Text has escapes and the
--     split of a delta; AgentRuntime.Coalescer the coalescer of deltas; AgentRuntime.Run the helpers,
--     with tool calls in Run.Tools and the provider loop and the execution in Run.Loop. Run.Seen
--     puts a round and the store of a client together. AgentRuntime.Context assembles the context of
--     a run; AgentRuntime.Settings has the settings and the rounds of a worker.
--   * Links: packages/core/src/links.ts, the short form of identifiers.
--   * Mcp: apps/agent-runtime/src/mcp.ts. Mcp has the names of tools and their resolution,
--     Mcp.Addresses the tests of endpoints and addresses, and Mcp.Client the client.
--   * Providers: `readProviderSSE` of apps/agent-runtime/src/providers.ts.
--   * AgentSdk: `DeltaCoalescer` of packages/agent-sdk/src/index.ts, and its `RuntimeSocket` in
--     AgentSdk.Socket.
--   * Mentions: packages/core/src/mentions.ts over UTF-16 units. Mentions has the decoding and the
--     encoding, with the regular expression as a scan; Mentions.Edits what edits a draft.
--   * Web: Web.Chats is apps/web/src/lib/chats.ts, Web.Notifications apps/web/src/notificationSound.ts
--     and Web.TabSession apps/web/src/session.ts.
--
-- Conventions. A method takes the state to the next one. In Realtime and AgentConnection an
-- `await` splits it: what comes behind is a function of its own, so that runs of a step function
-- interleave them freely; only a reading of the checkpoint is one step with what follows it. In Outbox
-- a flush is one function, and what is enqueued while it waits is among the arguments, as what the
-- server and the storage answer is. A run of an agent, a client of an MCP server and the reading of a
-- stream wait for each of their calls in turn, and the answers are arguments. Calls of callbacks,
-- sockets and APIs are effects in the order in which they are made. `Date.parse`, the clock, the
-- calendar day, the sum of decimals, `trim`, `JSON.stringify`, `Number` of a text and the
-- decoding of response bodies are parameters. Numbers are natural, as sequence numbers and times
-- are; a subtraction that can stop at zero is written out. No definition runs on fuel: loops go down
-- their lists, and the provider loop down the rounds left.
--
-- Not modelled: the user interface, the generated protocol types, the HTTP wrappers and the server,
-- which is written in another language; the heartbeats of runs, whose effect is the reason of an
-- abort; `type`, reactions and other keys of a message that no modelled code reads, which a spread
-- copies like the others.
pub mod Prelude
pub mod Wire
pub mod AgentConnection
pub mod AgentRuntime
pub mod AgentSdk
pub mod FeedRows
pub mod Links
pub mod Mcp
pub mod Mentions
pub mod Outbox
pub mod Providers
pub mod Realtime
pub mod Store
pub mod Web
