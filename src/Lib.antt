-- ===== src/Lib.antt =====
-- The application interface of a blockchain engine: bapi.go defines what an application implements,
-- package server (server/) wraps an application, enforces the order of its calls and routes its
-- optional capabilities, package local connects an engine to it in the same process and package
-- grpc over a network, example/ holds two applications, a counter and an exchange, and testing/
-- drives an application through a server in tests.
--
-- An engine calls a connection, which passes the call to the server, in the same process or as a
-- message; the server asks its guard (LifecycleGuard), calls the application and records the
-- outcome. The client of package grpc has a guard of its own, which it asks before it sends a
-- message. Every call is an action (Go/Run.antt) on a state: it returns a value, panics, or waits
-- for ever on a mutex, each with the state it leaves. An error is part of the returned value, as in
-- the source.
--
--   Base            native numbers, lists, Boolean tests and the lemmas on them
--   Go              what the source uses of the language and its library: bytes and texts, errors
--                   (errors.go), actions, big-endian numbers, the order of strings, maps, sort.Slice
--   Types           the structs of types/, with the source's fields; uint8 to uint64 are natural
--                   numbers, with % 2^w where the source adds; Types/Time (time.go): the conversions
--   Guard           server/state_machine.go; Guard/Overlap: goroutines between its methods;
--                   Guard/Interleaving: goroutines inside them
--   Interfaces      bapi.go: each interface is a record of actions on the application's state, and
--                   an optional one that is not implemented is none
--   Server          server/server.go: Server (New, Handshake, CheckTx, ExecuteBlock, Commit, Query),
--                   Server/Optional (the other interfaces), Server/Calls (a session of calls),
--                   Server/Journal (the contract of Lifecycle as an automaton over a journal of what
--                   the application sees), Server/Contract and Server/Laws (proofs)
--   Local           local/local.go
--   Engine          sessions of calls over any Connection of bapi.go, each call with its answer
--   Grpc            grpc/: Wire (wire.go), Codec (codec.go), GrpcServer (server.go), Service
--                   (service.go), Client with Wrappers and Accessors (client.go); Delivery (what is
--                   assumed of the network), Calls, Accessors, Sessions and Faults (proofs)
--   Example/Counter example/counter/app.go, with its proofs in Counter/
--   Example/Dex     example/dex/app.go: State, Execute and Transactions (the state and the execution
--                   of transactions), Chain (Lifecycle and Simulator), Oracle (VoteExtender),
--                   Proposals, Snapshots (StateSync), App (the whole, and the builders), Ledger,
--                   Blocks, Accounts, Effects, Determinism, Serving, and the modules below Chain,
--                   Oracle, Proposals and Snapshots (proofs)
--   Testing         testing/: Harness (harness.go), Mock (mock.go), Compliance and Suite
--                   (compliance.go); Live, Counts and Passing (proofs)
--   Tests           the theorems at concrete inputs
--
-- Strings and byte slices are both lists of bytes. A nil slice is told from an empty one only where
-- the source's results differ. encoding/json, crypto/sha256 and the order in which Go visits a map
-- are parameters (the record World; for the counter the function sha256). In package grpc,
-- cramberry is a parameter (the record Cramberry, a pair of functions for each message) and so is
-- google.golang.org/grpc (the record Link: a connection to a peer with a state of its own, which
-- may lose, refuse or change what it carries, and end a stream with any error; Delivers states when
-- it carries all). A channel of chunks, and a stream, is the list of what it delivers, and the
-- goroutine that fills it has delivered all. Loops run over lists or counts; only `%d` takes fuel,
-- one more round than the number, and a number has fewer digits than that (Go/Text/Decimal). In
-- package testing, the test is the list of what was reported to it, and Fatalf ends the run like a
-- panic.
--
-- Guard/Overlap models calls that overlap: each method of the guard is one step, and any number of
-- goroutines make such steps in any order. Guard/Interleaving takes the methods apart: each access
-- to the guard's fields and the beginning and the end of each call of the application is a step.
-- Elsewhere a method of the server or of an application is one step, and calls come one after the
-- other. Not modelled: interleavings inside an application, what package grpc only passes to gRPC
-- (Register, Serve, Stop), contexts and cancellation, and the text that discoverCapabilities logs.
pub mod Base
pub mod Go
pub mod Types
pub mod Guard
pub mod Interfaces
pub mod Server
pub mod Local
pub mod Engine
pub mod Grpc
pub mod Example
pub mod Testing
pub mod Tests
