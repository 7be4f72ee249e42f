-- ===== src/Lib.antt =====
-- The Go client library of angzarr: an event-sourcing framework whose services exchange commands,
-- events and notifications as protobuf messages over gRPC.
--
-- A command reaches a gRPC service (handler.go), which hands it to a router (router.go) or to a type
-- that embeds one of the OO-style bases (aggregate_oo.go, saga_oo.go, pm_oo.go, projector_oo.go). These
-- rebuild the state from the prior events, call the handler that is registered for the message's type,
-- and answer with events, commands or a projection. A rejected command comes back as a notification and
-- is routed to the compensation handler that is registered for its domain and type (compensation.go).
--
-- Which file models which part:
--   Proto         the messages, with the fields that the code uses; the generated Go types are not
--                 part of the repository
--   Errors        errors.go and the errors of handler.go; a failing function gives a `Result`
--   Helpers       helpers.go: type URLs, covers, editions, books, queries, UUIDs
--   Codec         decoding by the protobuf runtime, a parameter
--   Destinations  destinations.go and saga_context.go: sequences for outgoing commands
--   Upcaster      upcaster.go: old event versions
--   Compensation  compensation.go, and the keys of rejected commands
--   Router        router.go: State (StateRouter), Command (CommandRouter), Event (EventRouter), Traits
--                 (the routers over the domain handlers of traits.go)
--   Aggregate     aggregate_oo.go: CommandHandlerBase
--   Saga, ProcessManager, Projector, CloudEvents
--                 saga_oo.go, pm_oo.go, projector_oo.go, cloudevents.go
--   Grpc          handler.go: the services (Traits: over the routers of traits.go), Handlers (what
--                 the servers register), Running and Projectors (the servers' start)
--   Wrappers      wrappers.go
--   Builder, Retry, Validation
--                 builder.go, retry.go, validation.go
--   Client        client.go: endpoints, connections, calls; gRPC and its stubs are the record Rpc
--   Server        server.go: the transport, CreateServer and RunServer
--   Os            what server.go and client.go use of the environment and of files
--   Generator     cmd/angzarr-gen/main.go: Patterns, Source (what is read), Templates (what is written)
--   Features      features/fact_flow.go and features/merge_strategy.go: the simulations behind the
--                 feature files, as machines that their steps drive
--   Tests         runs of the code on small inputs
--
-- How the code is read. A pointer that may be nil is an `Option`, an error result is a `Result`,
-- and a method that writes to its receiver returns the new value. A Go map is an association list
-- (Prelude/Maps) in the order in which a range meets its entries. A `uint32` is a number kept
-- below 2^32 by the remainder that `u32` takes. Handlers are functions of the values that they
-- are given; they do not write to state that they are given to read. Registration by reflection
-- is modelled by what reflection finds: the type's full name and its decoder; its panics are left
-- out. The loops run over lists or count down the attempts that are left, so no fuel is needed.
--
-- A call over the network is a function of the world beyond the process, which it gives back changed
-- or not, so that a call that is not made is one that leaves the world as it is. The environment and
-- the files are a record that the functions of server.go change. The steps of a scenario are a relation
-- on contexts, and what a scenario can reach is its closure.
--
-- Not part of the model: version.go, the floating-point delays of retry.go, what is printed, signals,
-- contexts of calls, the simulations of the other feature files, and the tests. The protobuf runtime,
-- the gRPC library with its stubs and its status package, the UUID package, and of Go's own library
-- the flags, the parser and the formatter of Go, and the joining of paths are parameters. A stream that
-- never ends, and a server that never stops, are left out.
pub mod Prelude
pub mod Proto
pub mod Errors
pub mod Helpers
pub mod Codec
pub mod Destinations
pub mod Upcaster
pub mod Compensation
pub mod Router
pub mod Aggregate
pub mod Client
pub mod Os
pub mod Wrappers
pub mod Saga
pub mod Server
pub mod ProcessManager
pub mod Projector
pub mod CloudEvents
pub mod Features
pub mod Generator
pub mod Grpc
pub mod Builder
pub mod Retry
pub mod Validation
pub mod Tests
