-- ===== src/Lib.antt =====
-- A verification library for now-sdk-ext-core, the TypeScript extension of the ServiceNow SDK. Paths
-- are from the repository's root.
--
-- The parts, and the files that model them:
--   Policy      src/policy: what a request or a script needs permission for, and who grants it.
--     Types, Ladder     PolicyTypes.ts and Policy.ts: layers answer grant, deny or abstain on a
--                       verb; `check_requirement` is checkRequirement, on the module's variables
--                       as a record.
--     Env               PolicyEnv.ts: layers from NEX_POLICY_DENY and NEX_POLICY_ALLOW.
--     Floor, Classify   internal/Classify.ts: `floor_rules` is FLOOR, `path_spellings`
--                       pathSpellings, `classify` classify, on an HTTPRequest of
--                       src/comm/http/HTTPRequest.ts.
--     ScanScript        ScanScript.ts: `walk` and its visitor, scanScript, requirementForScript.
--     Refusal           PolicyRefusal.ts.
--   Cmdb        src/sn/cmdb: the lookups and their cache (Lookup), and traverseGraph (Traverse).
--   Sessions    src/comm/http/ActiveSessionRegistry.ts.
--   Batch       src/sn/batch/BatchOperations.ts: the loop both methods run (Loop), the variable
--               references (References), batchCreate (Create) and batchUpdate (Update); and
--               QueryBatchOperations.ts: queryUpdate and queryDelete (Queries).
--   Amb         src/sn/amb: FunctionQueue, EventManager, the tokens (TokenManagement) that limit
--               the commands in flight, and the sender that draws on the queue and the tokens
--               (SubscriptionCommandSender); Channel is Channel.ts with ChannelListener.ts, and
--               ChannelRedirect moves listeners from channel to channel.
--   Workflow    src/sn/workflow/WorkflowStructure.ts: the structure rebuilt from an exported workflow
--               (Models, of WorkflowModels.ts).
--     Structure         the wiring that the constructor makes of the export (`wire`), and what the
--                       methods on one activity read from it.
--     Explore, Paths    reach, reachUntilJoin and forwardReach share a loop (`explore`); findBegin,
--                       exits and forward.
--     BackEdges         findBackEdges: a depth-first search with a stack of its own.
--     PostDominators    computePostDominators: the loop over the sets (`settle_sets`).
--     Build             the constructor as a whole.
--     Merges            mergeOf and distances.
--     Outline           buildOutline: `sequence` is its inner function, on the numbers given so far.
--                       OutlineItems is the tree that it makes.
--   Common      shared names, lists, sets, texts and maps, sorting, and the regular expressions that
--               the sources use, with a matcher (Regex).
-- A classified request or a scanned script becomes a requirement, which the ladder checks, with the
-- environment's deny layer at its top. The command sender keeps a FunctionQueue and reads the
-- token manager's count.
--
-- Representation. A JavaScript text is a list of code units where its characters matter; case is
-- folded for ASCII. Numbers are naturals, times are milliseconds. A Map is an association list in
-- insertion order, a Set a list without repetition. Object keys are taken in insertion order, so
-- keys that spell an array index or a property of Object.prototype are not covered. What a method
-- throws, and why a traversal was cut off, are values. A search from a node that is no activity throws
-- in the source, and is none here. Effects on timers, channels and the bus are
-- lists in the order of the calls. A command that is issued may throw, which ends what is running; it
-- does not answer before the call returns. A channel's callbacks return. A channel given to the sender is an object, so its isObject guard always passes.
--
-- A workflow's coordinates and orders are whole numbers, and its edges are kept as triples of ids,
-- where the source joins the three with a bar, which no sys_id has. Array.sort is stable.
--
-- Parameters: `new URL(…).pathname` and decodeURIComponent (Platform), the acorn parser, JSON
-- (Json), the answers of the table API (TableApi, and the answers to a post or a put by the index
-- of the operation), localeCompare, the clock, random ids, and the bus client: what it returns, the
-- tokens that a command takes, and which commands throw. The instance answers the same query alike
-- during one traversal.
--
-- Fuel. The search of traverse_graph runs on the number of nodes allowed and two rounds more: each
-- round takes an entry off the queue, and an entry is added only with a node. The loop over chunks
-- of ids is bounded by the number of ids, and the matcher's repetition by the length of the
-- text. A workflow's searches run on the number of edges, the search for back edges on the number of
-- activities and edges, the loop over the sets on the sum of their sizes, which falls in every pass
-- but the last, and distances and the outline on the number of activities, since each round, turn or
-- nesting takes up a new one.
--
-- Not modelled: logs, progress messages and measured times; the connection to the message bus
-- (ServerConnection, AMBClient), the views of a workflow and its conversion, flows,
-- metadata writers, and the classes that only build a request and read its answer.
pub mod Common
pub mod Policy
pub mod Cmdb
pub mod Sessions
pub mod Batch
pub mod Amb
pub mod Workflow
