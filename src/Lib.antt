-- ===== src/Lib.antt =====
-- mcp-sdk-go, a Go library for the Model Context Protocol. A client asks a server for tools, resources,
-- prompts and roots; requests go through a chain of transports, one of which retries them; a server
-- lists what it has in pages and tells its subscribers what changed; an access control decides what a
-- user may do. The development models the parts that decide something, as functions from the old
-- state to the new one and what is returned or sent.
--
-- Base: what the modules share. Base.Int is Go's 64-bit `int`, whose sums wrap around; Base.Text a
--   string as its bytes; Base.Dict a map as an association list.
-- Auth.Rbac: pkg/auth/rbac.go, every method of RBACProvider, and RBACConfig of pkg/auth/auth.go. The
--   search of roleHasPermission follows the parents of a role with a shared set of visited roles; its
--   fuel is one level for each role and two more, and it never runs out. Rbac.Search and
--   Rbac.Complete relate the search to the role graph, Rbac.Access the checks, Rbac.Roles the changes
--   of one call, Rbac.History whole histories of calls, Rbac.Enforce the checks made of a
--   context.
-- Auth.ApiKey: pkg/auth/apikey.go, with the types of pkg/auth/auth.go that it uses. Texts are ASCII;
--   the bytes of a new key and the time of a call are inputs. ApiKey.Store has the methods that keep
--   the keys, ApiKey.Checks what is accepted, Cleanup, Creation and Revocation (over Spent) what these
--   operations do to it, Session what a request gets.
-- Auth.Middleware: pkg/auth/middleware.go, a configuration and a cache of tokens. The provider is what
--   Validate answers at each time; Middleware.Vouching is about the cache, Admitted about the decisions.
-- Auth.RateLimit: pkg/auth/ratelimit.go, a state with a bucket for each key; the floats of its buckets
--   and the clock are parameters. RateLimit.Buckets is the specification, one bucket by itself; Keys and
--   Isolation relate the two, Enough is about batches.
-- Protocol: the names, parameters and results of pkg/protocol/mcp.go (Protocol.Names), and
--   pkg/protocol/jsonrpc.go in Protocol.Jsonrpc: its constructors, and in Jsonrpc.Kinds what a text is
--   taken for, batches and their JSON. encoding/json is a parameter, one reading and one writing for
--   each type that is read or written, and Jsonrpc.Written has the laws that are asked of it: an array
--   can be read back if its elements are compact JSON values, as written requests are.
--   Jsonrpc.Reading is about what parsing accepts, with the fields of a message in Jsonrpc.Fields.
-- Server.Endpoint: pkg/server/server.go. A server is a record of its options, its providers and its
--   requests in progress; Endpoint.Offered is what New registers, Handlers the handlers of the
--   requests, Notify the notifications, Requests the tracking of requests, Serve the events that a
--   server meets one after another. A provider is the function it is for its callers. Gate, Cancelling,
--   Wiring and Subscribing are about any sequence of events, through History; subscriptions are those
--   of Server.Subscriptions.
-- Server.Http: pkg/server/http_handler.go. Http.Sessions has the sessions, Replies what a request is
--   and gets, Serve one HTTP request from ServeHTTP to its reply, Streams the events that are written
--   to a stream. The answers of the transport, the clock and the random bytes are inputs of a request.
--   Guard, Validity, Isolation and Ending say what a request may do, Origins whom it may come from,
--   Cleaning what the cleanup leaves.
-- Transport.Stream: the reading of a stream of events in pkg/transport/streamable_http.go (readEvents),
--   line by line; Stream.Buffer is its EventBuffer, Stream.Connection its CircuitBreaker, a state with
--   one transition for each call. Stream.Wire reads what Http.Streams writes.
-- Transport.Breaker: the circuit breaker of pkg/transport/reliability_middleware.go
--   (reliabilityCircuitBreaker), shared by all requests: its calls are events in the order of its lock,
--   each with its time. Breaker.Trip is about its opening, Breaker.Recover about its way back.
-- Transport.Retry: SendRequest, SendNotification and SendBatchRequest of the same file, with
--   isRetryableError and calculateBackoff. What a request meets (answers, cancellations, times, random
--   numbers) is an environment that says it for each attempt; the machine's floats are a parameter of
--   which nothing is assumed. The loop is a recursion on the attempts that are left, MaxRetries + 1 at
--   first. Retry.Attempts takes one attempt apart, Retry.Outcome says how a request ends,
--   Retry.Counting what it calls and what the breaker hears of it.
-- Transport.Layers: pkg/transport/middleware.go and NewTransport of pkg/transport/transport.go, for
--   transports of any type: which layers a configuration asks for, and in which order they stand.
-- Transport.Dispatch: the handlers of BaseTransport in pkg/transport/transport.go, for single messages
--   and batches, with the messages of pkg/protocol/jsonrpc.go. A handler is the outcome that it has for
--   each parameter, a panic included.
-- Transport.Pending: the pending requests of BaseTransport, WaitForResponse, HandleResponse and Cleanup,
--   with the channels between them and the calls that still wait; calls that wait at once are events in
--   any order, and the end of a context ends one wait. Pending.Ready is about the channels,
--   Waiting about the calls that wait, Delivery about what one takes.
-- Pagination: pkg/pagination/pagination.go, with the limits in Pagination.Limits.
-- Server.Cursor, Server.Listing, Server.Labelled, Server.Resources: the providers of
--   pkg/server/providers.go. Base64 and JSON are a parameter with the laws that a decoded encoding is
--   what was encoded. The order in which a range meets a map's entries is a parameter of each call,
--   since Go leaves it open. A panic of a slice expression is a result.
-- Server.Subscriptions: pkg/server/subscriptions.go. The manager, its channel of 100 changes and its
--   goroutine are one state that events change; what the notifier is handed is the output.
--   Subscriptions.Batching is the goroutine, Subscriptions.Covering which URIs a subscription is about,
--   Grouping, Keys, Delivery and Told what a tick sends, Lifetime what happens after Stop.
-- Client.Paging: pkg/client/pagination.go with ListTools of pkg/client/client.go, against the listings
--   of the server, another order of the map at each call (Server.Listing.Shuffled). Paging.Gathered
--   says what the pages are together; the loop has fuel, and one call for each item and one more are
--   enough.
-- Scenarios: runs at small inputs, and the theorems at inputs that meet their hypotheses.
--
-- Not modelled: locks (each method is one step), logging, the wording of errors, the context beyond its
-- cancellation, the inside of JSON, the exchanges of the transports with the network and with the
-- standard streams, observability, bearer tokens, the calls of the client other than its listings, and
-- the schema utilities.
pub mod Base
pub mod Auth
pub mod Transport
pub mod Pagination
pub mod Protocol
pub mod Server
pub mod Client
mod Scenarios
