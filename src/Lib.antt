-- ===== src/Lib.antt =====
-- A model of go-streams, a library of stream processing operators that are connected by channels,
-- and what makes its operators correct.
--
-- A program of the library is a chain of sources, operators and sinks (streams.go). Each operator has
-- an input and an output channel and one or more goroutines between them; `Via` and `To` forward what
-- an operator's output delivers to the input of the next one, until it is closed.
--
-- Channel models a channel as all that was sent on it, with the panics of a send and a close that come
-- too late; Channel/Forward is the loop of every `transmit`. An operator with one goroutine is a
-- function from what its input delivers to its channel: PassThrough (flow/pass_through.go), Fold
-- (flow/fold.go), Reduce (flow/reduce.go), Batch (flow/batch.go), Keyed (flow/keyed.go), and the
-- goroutines of flow/util.go in Split (`DoStream`, `Split`), FanOut and ZipWith. `none` as the
-- result of a constructor is its panic.
--
-- An operator with several goroutines is a step relation on a state that says where each goroutine
-- stands, with every interleaving a sequence of steps: Pool is the workers of `stream` in Map, Filter
-- and FlatMap (flow/map.go, flow/filter.go, flow/flat_map.go), which give it what a worker sends for
-- an element; SessionWindow (flow/session_window.go), TumblingWindow (flow/tumbling_window.go),
-- Throttler (flow/throttler.go), Merge and RoundRobin (of flow/util.go) have their own; Keyed/Collect
-- has the collecting goroutines of a Keyed flow as those of a Merge. A timer or ticker may fire
-- at any moment, so that the results do not depend on the length of a duration; that time.NewTicker
-- panics where one is not positive is modelled in Batch, TumblingWindow and Throttler. Channels without
-- a buffer let the sender go on when the receiver has the element, which here is when it is sent.
--
-- Pipeline is a program of the library as a whole, as `Via` and `To` of streams.go connect it: a chain
-- of goroutines of the form `for element := range in`, between channels where a send and its receive
-- are one step, under every interleaving. Pipeline/Remains has what a chain has still to deliver,
-- Pipeline/Progress its steps to the end, Pipeline/Safe when no operator panics, Pipeline/Operators the
-- operators of one goroutine as links (and Batch/Link a Batch without ticks), Pipeline/Agree relates
-- these to the models of the operators, and Pipeline/Stages has the programs that `Via` and `To` build
-- of them.
-- Pools is the same for chains of Maps, Filters and FlatMaps with any number of workers: Pools/Load weighs
-- what is on its way, and Pools/Fresh says what one worker each would deliver. Pipeline/Typed has the
-- types of a chain, Compose operators that are connected otherwise, as in Compose/Parallel.
-- Programs has examples: Maze (examples/maze/main.go), Reversal (examples/file/main.go), OneMap (the
-- shape of the programs with one Map) and Keys (the keys of examples/azure/blob/main.go and
-- examples/aws/s3/main.go).
--
-- Windowing is what an operator that cuts its elements into windows promises, as moves of an abstract
-- state; SessionWindow/Refine and TumblingWindow/Refine relate the goroutines to it. Compose connects
-- operators with each other.
--
-- SlidingWindow (flow/sliding_window.go) has functions for what runs under its mutex, and a run is a
-- sequence of arrivals, timer and ticks. Times are nanoseconds from Go's zero time on; the sort is an
-- argument with what sort.Slice promises as hypotheses (SlidingWindow/Windows, `Sorting`). UnixNano is
-- taken as a number without bounds: it stands for times from 1678 to 2262, outside of which Go leaves its
-- result open.
--
-- Extension models the standard connectors and their options (extension/). Files, writers and contexts
-- are arguments of those definitions.
--
-- The connectors to other systems are sources and sinks over client libraries, whose calls are
-- arguments. Connector is what they share: the loop of a sink, and a source's way out of its loop.
-- Kafka (kafka/kafka_sarama.go), Redis/PubSub and Redis/Stream (redis/redis_pubsub.go,
-- redis/redis_stream.go), Websocket (websocket/web_socket.go), Pulsar (pulsar/pulsar.go),
-- Nats/JetStream and Nats/Streaming (nats/nats_jetstream.go, nats/nats_streaming.go) each have the
-- source's loop over its turns and the sink over what its input delivers. A turn is what the loop
-- meets: the end of the context, or what a call returns. Where the turns are used up, the loop is
-- still running. ObjectStore is the pool of writers of the sinks for object stores, on the steps of
-- Pool; Aws/S3Source, Aws/S3Sink (aws/s3.go), Azure/Source, Azure/Sink (azure/blob_storage.go) and
-- Gcp/Source, Gcp/Sink (gcp/storage.go) use it or have the listing of a container. Aerospike/Polling
-- and Aerospike/Sink (aerospike/aerospike.go) are a source that polls and a sink with a buffer.
--
-- Element has Go's `any` and type assertions; the types of elements are parameters, with the laws of
-- the language as fields of `GoType`. Prelude has the shared lists, numbers and tests. Numbers have no
-- upper bound: counters and lengths of the program stay far below 2^63. A
-- goroutine is a structural recursion over what its input delivers, or a relation; only the listings
-- of Aws/S3Source and Azure/Source and the loop of Programs/Reversal have fuel: the number of pages
-- asked for, the depth of nested calls, and the turns of the loop. As much as the store has pages or
-- directories, or one more than the string has code points, is enough. Examples applies the theorems
-- to concrete inputs.
--
-- Not modelled: the contents of windows by wall-clock time, what the operators inside a Keyed flow do,
-- the client libraries, logging, how the example programs set up their clients, the server of
-- examples/websocket/main.go, whose goroutines race on a map, and negative polling intervals.
pub mod Prelude
pub mod Channel
pub mod Element
pub mod PassThrough
pub mod Pipeline
pub mod Pools
pub mod Programs
pub mod Fold
pub mod Reduce
pub mod RoundRobin
pub mod Pool
pub mod Map
pub mod Filter
pub mod FlatMap
pub mod Batch
pub mod SessionWindow
pub mod TumblingWindow
pub mod Throttler
pub mod SlidingWindow
pub mod Split
pub mod FanOut
pub mod Merge
pub mod ZipWith
pub mod Keyed
pub mod Extension
pub mod Compose
pub mod Connector
pub mod Kafka
pub mod Redis
pub mod Websocket
pub mod Windowing
pub mod Pulsar
pub mod Nats
pub mod ObjectStore
pub mod Aws
pub mod Azure
pub mod Gcp
pub mod Aerospike
pub mod Examples
