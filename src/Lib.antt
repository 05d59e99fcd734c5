-- ===== src/Lib.antt =====
-- MOSN, a network proxy for SOFARPC and HTTP: its byte buffer, the SOFARPC codec stack, and the choice,
-- health checks and retries of upstream hosts, the choice of a virtual host, the filters of a connection, and
-- the streams that the proxy passes on.
--
-- Bytes that a connection receives go into an IoBuffer (pkg/network/buffer/iobuffer.go). The stream layer
-- calls protocols.Decode (pkg/protocol/sofarpc/protocols.go) on it, a loop that looks up the protocol by
-- the first byte and calls the Bolt codec of version 1 or 2 (pkg/protocol/sofarpc/codec), which drains a
-- frame and returns a command; a command handler (pkg/protocol/sofarpc/handler) passes it to a processor.
-- Towards the other side a command, or the header map of one, is encoded by the codec of its protocol
-- code. Header maps are bytes by pkg/protocol/serialize/simple.go.
--
-- A proxied request takes an upstream host from the load balancer of a cluster (pkg/upstream/cluster), which
-- chooses among the healthy hosts of its host sets; health check sessions (pkg/upstream/healthcheck) set and
-- clear the flags of hosts and call the cluster back, and the retry state of a request
-- (pkg/proxy/retrystate.go) takes up the retry resource of the cluster's resource manager.
-- The route matcher (pkg/router/routematcher.go) chooses a virtual host for the request's host header, and
-- the virtual host (pkg/router/virtualhostimpl.go) a route.
--
-- Commands are handed to the streams of their connection by request id (pkg/stream/sofarpc).
-- A stream of the proxy (pkg/proxy/downstream.go) takes the parts of a request from the stream layer, sends
-- them on an upstream request (pkg/proxy/upstream.go), and sends the response back; a worker
-- (pkg/proxy/event.go) runs its handlers one at a time, from queues of events and of jobs. Timers call it
-- from other goroutines; their calls are taken to fall between the handlers.
--
-- Files:
--   Base          names of the library, integers, strings, copies of slices
--   Buffer        iobuffer.go. A slice is the array that backs it and a length, so that capacity, moves to
--                 the front and reallocation are as in the code. Writing, Appending: one operation each;
--                 Queue: all operations against a list of bytes; Marks: Mark and Restore; Transfer: the
--                 loops of WriteTo, ReadFrom and ReadOnce, with the writer or reader a parameter
--   Serialize     simple.go. The bytes behind a slice in its array are an argument, since a value may
--                 reach into them; a Go map is an association list in the order of its iteration
--   Sofarpc       types.go: the commands as records. Wire: big-endian numbers and the frame. Adapter:
--                 adapter.go. BoltV1, BoltV2: the codecs; Mapping: mapToCmd and EncodeHeaders; Requests,
--                 Responses: round trips. Protocols: protocols.go and boltcommandhandler.go
--   Upstream      host.go. LoadBalancer: loadbalancer.go, with Turns, one host set, and Cycle, all of them.
--                 HealthCheck: healthchecker.go, with Detector, its specification, Steps, and Gauge, the count
--                 of healthy hosts. Cluster: concreteclusters.go and parts of cluster.go and
--                 clustermanager.go; Matching, Updates: the update of a host list; Sharing: the slices that
--                 share an array. Resources: resourcemanager.go. Subsets: subsetlbimpl.go; Tree: the tree as a map;
--                 Members: which subsets there are; Choice: the choice of a host; Hosts: the hosts of a subset,
--                 with Removal, the loop that removes in place, and Update; Selectors: the sets of keys, also
--                 of types/upstream.go. What an entry holds is any type
--   Retry         retrystate.go; Balance: with what other requests do to the resource in between
--   Router        routematcher.go, over any type of virtual hosts; Wildcards: the longest
--                 wildcard, Wildcards/Storing and Configured: those of a configuration; Domains:
--                 the configured domains. Host names are taken to be ASCII. Routes: virtualhostimpl.go,
--                 routeruleimpl.go, configutility.go and httputility.go; Choice: the route of a request by
--                 the configuration; Query: the parameters of a query string. regexp.Compile is a parameter
--   FilterManager filtermanager.go. What the filters answer is a parameter of each call; Order: the order in
--                 which read filters learn of the connection; Writing: which write filters are asked
--   Proxy         downstream.go: the state of a stream, and what it does as effects. Timeouts: util.go, with
--                 Printed, the timeouts that headers set.
--                 Upstream: upstream.go. Downstream, Responses: the handlers of downstream.go. Worker: event.go.
--                 Deletion: the removal of a stream, over all inputs. Response: the response over the inputs
--                 that the stream layer can give, with Live, a stream that goes on, and Dying, one whose end
--                 is queued. Leak, Retrying: what goes wrong. The route, the connection pool and its answer
--                 are arguments of the handlers; a call of a nil object is an outcome, `none`
--   Connection    stream/sofarpc/stream.go and streamhelper.go: the streams of a connection; Routing: the receiver
--                 of a response. The table is a function of the id
--
-- Integers: an int16 or int of the commands is an integer, a byte or an unsigned number a natural number;
-- conversions wrap as Go's do (to_u16, to_u32, to_i16). A byte is a natural number, which no theorem needs
-- to be below 256 except where it says so.
--
-- Fuel: a loop that the code does not bound takes fuel and has an outcome for running out of it. The loop
-- of decodeMap takes as much as there are bytes, since each round takes eight or more; ReadOnce 129, since
-- each round that goes on has read 1024 bytes or more, up to 131072; WriteTo one more than the bytes it
-- holds; the decode loop one more than the requests that it receives; strconv.Itoa one more than the number.
--
-- Not modelled: stream filters (none is configured), logging, the pools that buffers and maps are taken
-- from, the clock (an argument), and the processors behind the command handler, whose calls are events.
-- The CRC32 that boltprotocol.go draws behind a version 2 command is not in the codec, so it has no model.
--
-- The contents of a buffer, b.buf[b.off:], are a list that is empty where the offset is above the length;
-- there Go panics. Only Restore can leave the offset there, so the operations are those of the code where it
-- is not (Inv), and bytes_or_panic is the method Bytes in every state.
pub mod Base
pub mod Buffer
pub mod Serialize
pub mod Sofarpc
pub mod Upstream
pub mod Retry
pub mod Router
pub mod FilterManager
pub mod Proxy
pub mod Connection
