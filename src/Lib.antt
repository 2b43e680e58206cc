-- ===== src/Lib.antt =====
-- tpm-go: real-time transit performance events. A graph of pipelines polls GTFS-realtime feeds
-- and derives stop events, headways, dwell times and travel times from vehicle positions. This
-- library models its events, state stores, processors, sources, sinks, event server,
-- configuration, graph and start, and proves what makes them correct, also of parts that follow
-- each other.
--
-- The parts, each with the code that it models:
--
-- + Prelude: names of the libraries, integers, texts, lists.
-- + Events (api/v1/events/transit.pb.go): the messages as records and their getters. A pointer
--   to a message is an Option, and the getters answer the zero value at nil, as the generated
--   ones do. Events.Timestamp: instants and durations are integers of nanoseconds; a `float64`
--   is its bit pattern. Events.Feed: `FeedMessageEvent`, over the GTFS bindings as a record of
--   operations.
-- + StateStore (statestore/): Interface is `StateStore` with its laws; InMemory is
--   in_memory_store.go, where a Go map is a function from keys and the mutex makes an operation
--   one step. InMemory.Laws is the implementation of the interface, InMemory.Sweeps the
--   goroutine `expire` between the operations of the clients. Redis is redis_store.go over the
--   client and the encoding as parameters, Redis.Laws its implementation of the interface for
--   the messages of one type (TypedLaws), since bytes do not tell the type of the message that
--   they encode.
-- + Processors (processors/transit/): StopEvents, Dwell, Headway, TravelTime, VehiclePositions
--   and FeedMessages, each with the whole of `process` and of the loop of `doStream`. The
--   stateful ones are over any store: a section takes the store, what is live in it, and the
--   laws. Element is what they read from their channels.
-- + Processors.Keyed: what the four stateful processors have in common, as a record of laws that
--   each of them fills: a turn sees and changes what is live under the key of its message. Its
--   child Shards is about instances of a processor that share the keys out, and Machine about
--   what a processor of derived events does for one key, as a machine without a store; there is
--   one in Dwell, Headway and TravelTime, and StopEvents.Reference is that of one vehicle.
-- + Processors.Channels: the goroutines `doStream` and `transmit` of a processor, with the channels
--   between them, as a step relation; Kept is what their steps keep, Ends how their runs end. The
--   inlet behind them is always ready to receive.
-- + Chain: pipelines in a row, where the items that one sends are those that the next one reads,
--   from an agency's feed to the derived events; Facts says what holds of the events and of the
--   stores on the way, Agencies what becomes of two agencies in one pipeline.
-- + Trips: the stop event processor and then the dwell or the travel time processor, over any
--   two stores, for a vehicle that serves its stops; and then the headway processor, for
--   vehicles that visit one stop after each other.
-- + Sinks (sinks/): Batch is the loop `doSink` that the database and the Parquet sink have, over
--   the cases that `select` takes; Database the statements and the arguments that a flush
--   executes, and in Rows what all of the flushes write; Parquet the rows, the keys of the objects, and what a flush puts into the bucket.
--   Log and Redis are the loops of log_sink.go and redis_sink.go, over the cases of Turns; Sse is
--   that of http_sink.go with the state of its channel, which the flow and the loop both close.
-- + Sources (sources/http_source.go, sources/redis_source.go): what the two loops `init` send; that
--   of the HTTP source starts a ticker, which panics at an interval that is not positive.
--   Wire puts the Redis sink, the Redis source and the stop event processor in a row, as the
--   distributed configurations do, over what a subscriber of Redis receives as a parameter.
-- + Config (config/): the records and `Validate`. A Go map is nil or a list of entries, in the
--   order of an iteration; the theorems are for every order.
-- + Pipelines (pipelines/pipeline.go, with processors/processor.go and the constructors that
--   choose by a type in Parts) and Graphs (graphs/graph.go): what `NewGraph` builds from a
--   configuration, with its errors and its panic. The texts that wrap an error are left out.
--   Main (main.go and `ReadConfig`): from the environment, the arguments and the files to a
--   graph that is to run; a goroutine of an HTTP source is taken to start its ticker at once. Pipelines.Run is `Run` of a pipeline, over the flows of go-streams as a
--   record of functions on lists with what they are documented to do (Streams, StreamsLaws);
--   Items and Flows give each processor's `doStream` the items of its channel, of type any.
--   Graphs.Running is `Run` of the graph: what its pipelines do to the channels of their sinks.
-- + EventMaps (api/v1/events/events.go) and EventServer (event_server/event_server.go): the map
--   of an event, and the subscribers with what `Broadcast` puts into their channels. A channel
--   is what it holds. EventServer.Sse is the handler and `handleSSE`: a step relation over any
--   number of requests, broadcasts and turns of the handlers, interleaved in any order; Safe and
--   Runs are on its runs.
-- + Tests: runs at concrete inputs, and instances of the theorems.
--
-- How the model corresponds to the code. A method that changes its processor's store returns the
-- new store beside the list of what it sends to `out`, in order. An operation that reads the
-- clock takes the instant that it reads, so `process` takes one instant for `Get` and one for
-- `Set`. The end of a channel or of the context is the end of the list of elements. Sends block
-- until they are received; the order of what is sent is modelled, and only in Processors.Channels
-- when it is received. Log calls are left out. There is no fuel but for the digits of a number: a
-- uint64 has twenty at most.
--
-- Parameters, for code outside the repository: `proto.Unmarshal`; the package timestamppb and the
-- conversion of a duration to whole seconds, which is a float in Go (TimeOps, with TimeLaws for
-- what is documented); the GTFS bindings (Gtfs); the widening of a float32. Instants are
-- unbounded, and `time.Time.Sub` is cut to the range of an int64 as in Go; theorems on seconds
-- are for timestamps of whole seconds from 1970 to 2038, which is what the vehicle position
-- processor sends.
--
-- Further parameters: time.ParseDuration and the duration that it returns, what the constructors of sources, sinks and stores
-- start (Makers), the S3 client and the Parquet writer (Client, with ClientLaws), the client of
-- Redis and `proto.Marshal` (Client and Codec of StateStore.Redis, with their laws), its
-- channels, on which a message is delivered at most once (PubSub, with PubSubLaws),
-- `json.Marshal`, the calendar of package time (Calendar), the verb %v, the environment, the
-- files and the YAML package (World of Main). The enums have the declared values only.
--
-- A pipeline's items carry the two instants of the turn in which its processor reads them, also
-- where they wait in a source or a connector; the flows are those of inputs that come to an end.
-- Two processors over one store are not modelled: a pipeline has its store for itself.
--
-- Not modelled: the start and the end of the HTTP server of the event server, the channels of the
-- connectors, and `Via` and `To`, which wire channels and flows of a library; the connections to
-- the database and to S3; signals, logging and deployment.
pub mod Prelude
pub mod Events
pub mod StateStore
pub mod Processors
mod Tests
pub mod Sinks
pub mod Sources
pub mod Config
pub mod Pipelines
pub mod Graphs
pub mod Main
pub mod Chain
pub mod Trips
pub mod EventMaps
pub mod EventServer
