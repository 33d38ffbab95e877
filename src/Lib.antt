-- ===== src/Lib.antt =====
-- yhub: the data, the scripts and the storage of a hub for collaborative documents.
--
-- Clients write messages of a room (organisation, document, branch) into a stream of redis, which
-- every server reads. A worker compacts the stream of a room that has messages: it merges them into
-- the versions in postgres, stores a new version, deletes the ones that it has read and trims the
-- stream. The functions follow src/ of the repository:
--
--  * Base: texts, digits and lists that the other files share.
--  * Clock: `isSmallerRedisClock`, `maxRedisClock` and `minRedisClock` of src/stream.js;
--    Clock/Order is the order that they make, Clock/Printed what they say of the clocks in use.
--  * Uri: `uriEncode` and `uriDecode`; Uri/RoundTrip and Uri/Alphabet are about them.
--  * Room, Naming: `$room` of src/types.js and the keys of redis that name a room; Naming/Greedy and
--    Naming/Streams are about stream names, Naming/Live about which keys are streams of rooms.
--  * Json, Message: the messages of src/types.js.
--  * Redis: what the scripts need of the server, as a record of commands and laws; Redis/Memory is a
--    server in memory.
--  * Stream: the Lua scripts and the transactions of src/stream.js; Stream/Tasks, Stream/Lacks and
--    Stream/Keeps follow the worker queue through them, Stream/Trim is the trimmed range, and
--    Stream/Faults what goes wrong. Stream/Messages is `getMessages` of one room.
--  * Subscriptions: `subscribe`, `unsubscribe` and the rounds of `_runSub` of src/stream.js;
--    Subscriptions/Order is about the order of delivery, Subscriptions/Complete about what is missed.
--  * Cache: `cachedGet` and `deleteCachedResponses` of src/stream.js; Cache/Rooms tells the responses
--    of rooms apart, Cache/Hits is about a second call. The patterns of SCAN are a parameter, with laws
--    for characters that stand for themselves and for a star at the end.
--  * Assets: `assetIdToString` and `assetIdFromString` of src/types.js.
--  * Persistence: the two tables of src/persistence.js and the chain of its plugins;
--    Persistence/Tombstones, Persistence/Versions and Persistence/Replacing are about them.
--  * Yjs: what is used of Yjs and of the compute pool, as a record of functions.
--  * Hub: `_runTask`, `deleteDoc`, `restoreDoc`, `pruneDoc` and `unsafePersistDoc` of src/index.js,
--    with `getDoc` in Hub/Merging; Hub/Progress and Hub/Tasks are about the versions that a task
--    leaves, Hub/Deletion about deletions. What other processes do between two requests of a task is
--    a function on the state; the keys that SCAN finds and the time are arguments.
--  * Cors: the gate of origins and the headers of src/cors.js for a resolved configuration;
--    Cors/Wildcards is about wildcard entries, Cors/Gate about the gate and the headers. Cors/Config
--    is `resolveCors`, with the fields in Cors/Config/Fields and the expressions for origins, written
--    out as functions, in Cors/Config/Patterns; Cors/Lower, Cors/Bounded, Cors/Allowlist and Cors/Shape,
--    which tells the shape of an entry without these expressions, lead to Cors/Sound, and Cors/Written and Cors/Merging are about it, too. Origins and header values are
--    lowered as ASCII.
--  * Activity: the order, the groups and the limit of the task 'activity' of src/compute-worker.js;
--    Activity/Grouping is about the groups.
--  * Pool: the queue and the threads of src/compute.js, with all their events; Pool/Taking,
--    Pool/Invariant and Pool/Busy are about the workers, the promises and the queue.
--  * Protocol: the messages of src/protocol.js, over the variable-length numbers of lib0.
--  * Server: `WSUser` of src/server.js; Server/Receiving is the handler 'message', and
--    Server/Connection the upgrade and the other handlers, where what `open` waits for is a phase.
--    Server/Closing, Server/Streaming and Server/Writing lead to Server/Invariant; Server/Quiet and
--    Server/Deleted are about closed connections, Server/Frames about the client's messages, and
--    Server/Upgrade about who gets a connection.
--  * Api: `authenticate` and `createApiHandler` of src/api.js; Api/Access is about the requests that
--    reach a handler, Api/Failing and Api/Replies about the ones that are answered. The
--    encodings of values are a parameter, and may throw. Api/Registering is
--    `registerApi`, and Api/Routes is about its routes.
--  * Tests: examples.
--
-- A text is a list of Unicode code points, a lone surrogate being one too: encoding it throws. A
-- function that throws returns `none`. Numbers are natural numbers without a bound, which agrees
-- with JavaScript below 2 ^ 53; a number that is NaN is `none`, and a text with a minus sign,
-- which no clock begins with, is not read as a number. The scripts print numbers in full, as Lua does
-- below 10 ^ 14; a time in milliseconds gets there in the year 5138.
--
-- The commands of redis that a script makes run as one step. The state of the server is abstract:
-- a view shows the streams, the keys that exist, the members of sets, and the consumer group of
-- the worker queue, and a law for each command says how it changes the view. Where a script
-- raises an error, its earlier commands stay in force, so it returns the state together with
-- whether it completed. The statements of SQL are functions on lists of rows. Effects that the
-- source runs side by side are written one after the other. The plugins of the persistence and
-- the encodings of lib0 are parameters. Each recursion is on a list, or on the digits of a
-- number, so that no fuel is needed.
--
-- Components interact through values: the subscriptions hand messages to a connection, whose
-- `onStreamMessage` they see as a function that returns or throws; a connection adds messages to
-- the stream, checks origins with Cors and gets a document of the Hub, as effects and events of
-- its own. What an asynchronous function waits for is an event, and the events of the pool, of
-- the subscriptions and of a connection come in any order; a promise is settled by an entry of a
-- list.
--
-- Not modelled: the endpoints of src/builtin-api.js, the agents, the S3 plugin, the command line,
-- the connections to redis and postgres, logging, the expiry of cached entries, and the documents
-- of Yjs.
pub mod Base
pub mod Clock
pub mod Uri
pub mod Room
pub mod Naming
pub mod Json
pub mod Message
pub mod Redis
pub mod Stream
pub mod Assets
pub mod Persistence
pub mod Yjs
pub mod Hub
pub mod Activity
pub mod Cors
pub mod Pool
pub mod Protocol
pub mod Server
pub mod Subscriptions
pub mod Cache
pub mod Api
pub mod Tests
