-- ===== src/Lib.antt =====
-- A model of strfry with its HTTP interface, a relay that stores nostr events and answers queries,
-- and proofs about it.
--
-- An event arrives as JSON, is packed into a summary of its indexed fields (src/events.cpp,
-- src/PackedEvent.h) and is matched against the filters of queries and subscriptions
-- (src/filters.h). A subscription of a client of the relay is first a query of what is stored, which
-- takes turns with the others (src/QueryScheduler.h, src/DBQuery.h), and is then told of each new
-- event that one of its filters matches (src/ActiveMonitors.h). The HTTP interface
-- (src/HttpServer.cpp) finds out who a client is, asks the rate limiter (src/RateLimiter.cpp)
-- whether the client may go on, and counts requests (src/HttpMetrics.h).
--
-- The modules and the code that they are about:
--   Base      byte strings, lists and tests over the native numbers, `Result` for code that throws
--             (`Error` has a constructor for each message), Base.Json for the values of tao::json
--   Packed    src/PackedEvent.h: PackedEventView, PackedEventTagBuilder, PackedEventBuilder; Layout
--             and Tags hold the round trips
--   Filter    src/filters.h: SetBytes is FilterSetBytes, SetUint is FilterSetUint, Nostr is
--             NostrFilter and NostrFilterGroup. Nostr takes the two kinds of set as an interface,
--             which Nostr.Match fills with the packed sets of the source and with plain lists;
--             Nostr.Written reads off the JSON what its members ask, Nostr.Asked is about the parser
--   Event     src/events.cpp, src/events.h, src/jsonParseUtils.h: Json is nostrJsonToPackedEvent and
--             parseUint64 (src/misc.cpp), Times is verifyEventTimestamp
--   Store     src/events.cpp and golpe.yaml: Index is the index keys of an event, Db the interface of
--             the tables, Payload is decodeEventPayload and getEventJson, Write is writeEvents and
--             deleteEvents. Write.Replaces holds the invariant of the database
--   Http      src/HttpServer.cpp: Ip is isValidIPv4, isValidIPv6 and isValidIPAddress, Text is
--             sanitizeForLog and sanitizeErrorForClient, Client is getClientIP and
--             extractPubkeyFromRequest, Routing the pre-routing handler, Events is handleEventPost
--             and handleEventPostBatch, Query is handleQuery; Metrics is src/HttpMetrics.h
--   Subscription  src/Subscription.h: SubId and Subscription; Conns is the map from connections to
--             subscriptions that src/QueryScheduler.h and src/ActiveMonitors.h keep
--   Scheduler src/QueryScheduler.h: addSub, removeSub, closeConn and process. Valid is the
--             invariant, Removals, Closes, Adds and Process are about the operations, Rounds about
--             a run of turns
--   Query     src/DBQuery.h: DBQuery and its process; Sends is about what it passes on, Reads
--             about the scan of one filter
--   Rate      src/RateLimiter.cpp: Lru is LRUBucketCache, Bucket is TokenBucket and eraseStale,
--             Limiter is checkAndConsume, cleanup and getStats
--   Monitors  src/ActiveMonitors.h: Maps are the indexes, Valid is the invariant, EachKey, Installs
--             and Views are about installLookups, EachRemoval, Uninstalls and Removals about
--             uninstallLookups, Adds and Subs about addSub and removeSub, Process is `process`.
--             Nostr fills the interface of the filters with those of src/filters.h
--   Tests     runs on concrete inputs, and the theorems at inputs that meet their hypotheses
--
-- State is passed explicitly: an operation takes the state before and returns the state after, with
-- a `Result` around it where the code throws. Strings are lists of numbers below 256. Numbers of 64
-- bits are natural numbers with the wrap-around written out where the code adds or subtracts; the
-- counters of the rate limiter and the metrics wrap, array indices do not reach the bound.
--
-- Parameters stand for code outside the repository: the bytes in memory of a number (`Encoding`),
-- golpe's from_hex, the parsers and printers of JSON, the arithmetic of doubles and of steady_clock (`Double`), the headers of an httplib request.
-- The hypotheses on them are that a number of 64 bits is read back as it was written, that the order
-- of doubles is asymmetric and irreflexive, and that the time from a later moment to an earlier one
-- is not above any whole number. Http.Routing takes the rate limiter as an interface, and Http.Query
-- the query of the database. Store.Db has the laws of the tables, which Tests.Database fills with
-- lists. The scheduler takes the queries as an interface (`Queries`, with no hypothesis). A query
-- takes the scans of the indexes as one (`Scans`), with no hypothesis; its theorems suppose of the
-- scans that are run that each finds finitely many events before it ends or pauses. The monitors
-- take the filters as one (`Filters`, which Monitors.Nostr fills), and the theorem about `process`
-- supposes that the filters decide about the event and that a filter that matches asks for what the
-- event holds. The event processor, which src/apps/relay/cmd_relay.cpp sets and which passes an
-- event to the relay's threads, is a parameter too, and may throw. An object of JSON has no key
-- twice, and a time has 64 bits.
--
-- Fuel: the walk over tags takes as many rounds as the tag section has bytes and needs half of them;
-- the binary search takes one more than the number of items, and halves its range in each round.
-- The theorems about both show that the fuel does not run out. The fuel of a query is an argument;
-- Query.Sends shows that it is enough where it is above the number of events that each scan finds.
-- `std::to_string` has 20 rounds, one for each digit of a number of 64 bits.
--
-- Not modelled: the handlers of single stored events and the threads of the HTTP server, the start
-- and stop of the clean-up thread (the operations under its mutex are modelled), the LMDB tables,
-- the scan of the indexes (DBScan), the hash and the signature of an event, the pipeline of writers
-- (src/WriterPipeline.h), the cache of negentropy filters, the threads and messages of the websocket
-- relay, the negentropy and zstd libraries, plugins, command line tools, and the text that
-- renderPrometheus prints. Logging has no effect on any state and is left out.
pub mod Base
pub mod Packed
pub mod Filter
pub mod Event
pub mod Store
pub mod Scheduler
pub mod Subscription
pub mod Query
pub mod Monitors
pub mod Http
pub mod Rate
pub mod Tests
