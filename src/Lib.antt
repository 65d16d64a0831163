-- ===== src/Lib.antt =====
-- kim-gate: a websocket gate of a messaging service. Clients connect to one of several gates; backends
-- push to users, connections, groups or everyone through the gRPC service of any gate.
--
-- A pushing request is checked by internal/rpc/service.go and becomes one event, which
-- internal/cluster/push.go publishes on one of three Redis channels; every gate's subscriber receives it
-- and dispatches it to its own connections. internal/gateway lets a connection in: internal/auth resolves
-- its token to a user id, the hub reads the app from that id, registers the connection as a route in Redis
-- (internal/data/user_route.go) and joins it to its app's group. internal/app polls expired routes and
-- shuts everything down; internal/discovery registers the gate in etcd; internal/config is read by all.
--
-- Files and the code that they model:
--   Text         package strings as far as it is called, and compactStrings of internal/cluster/push.go;
--                HostPort has SplitHostPort and JoinHostPort of package net
--   Effect       error values, results and actions on the state outside the program
--   Time         package time as far as it is called; Format has Duration.String
--   Proto        the messages of proto/kimgate/v1/gateway.pb.go
--   Config       internal/config/config.go: defaults, normalize (Normalize), Validate (Validate), the
--                tables of flags, defaults and variables (Tables), and Load (Load), over viper and pflag
--                (Library); proofs in Laws, Paths, Bindings, Sources, Filled,
--                Settings, Loaded
--   Cluster      internal/cluster/push.go: Channels, Publisher, Subscriber; Routing, Startup, Dispatch
--                and Loop have the proofs on channels, on the constructors, on one event and on the loop
--   Rpc          internal/rpc/service.go: Service (pushing methods), Queries (the others); Requests and
--                Delivery have the proofs on one method and on the path between gates. Server has
--                NewServer and the goroutines of Start of internal/rpc/server.go, Lifetime their steps
--                against Shutdown; proofs on the address in Address, on GetOnline in Online
--   Auth         internal/auth/auth.go, and internal/auth/jwt.go in Jwt; proofs in Provider and RoundTrip
--   Gateway      internal/gateway/app_group.go in AppGroup, the handlers of internal/gateway/gateway.go in
--                Hub, its constructors in Server; proofs in Groups
--   Data         internal/data/data.go in Client; internal/data/user_route.go in Commands (the scripts)
--                and UserRoute (the store); proofs in Keys, Listing, SortedRoutes, Ordering, Expiry,
--                Registration, Routes and Keyspace
--   Tokens       proofs across internal/rpc, internal/auth and internal/gateway
--   Sessions     proofs across internal/gateway, internal/data and internal/rpc
--   Presence     several gates over one Redis, with their hubs and pollers, beside a table of connections;
--                proofs in Simulation and Listing
--   Fanout       several gates over one Redis, with their publishers and receive loops, beside the calls
--                that the replies to requests promise; Losses is the same where connections break and
--                the client tries again; proofs in Steps, Served, Arrivals, Delivery, Bags and Retries
--   App          internal/app/app.go: Poller (one round), Background (the loop of the poller), Done (the
--                goroutines of Start and their channel); Shutdown, with that of internal/rpc/server.go;
--                proofs in Rounds, Draining and Room
--   Discovery    internal/discovery/etcd/registry.go in Registry; proofs in Endpoints and Lifecycle
--   Wiring       wire_gen.go, and main.go in Entry; Process is main with the app that Initialize makes;
--                proofs in Calls, Parts, Gates and Exit
--   Tests        the theorems at concrete inputs, over concrete codecs, Redis servers and token libraries
--
-- Names are those of the code in snake case: `send_to_users` is SendToUsers. A record has the fields of
-- its struct less loggers; a function has a receiver as its first argument, and `none` is a nil pointer or
-- interface. An action takes the state `W` of everything outside the program and returns a result or an
-- error and the state after it. Loggers and contexts are left out.
--
-- A text is the list of the code points of a valid UTF-8 string. A duration is an integer and a time a
-- number of nanoseconds, without the bounds of 64 bits except where `Sub` saturates. A map that was read
-- is a list of pairs in any order. What a subscription receives is the list of what its calls return;
-- where the list ends, the call has not returned.
--
-- The expiry of a hash field by the passing of time is an event of its own in Presence, and is otherwise
-- left to the state between actions: the laws of Redis speak of single commands. The order of routes
-- that have the same id after trimming, which Go leaves open, is that of an insertion sort.
--
-- Code outside the repository is a parameter, with what it documents as a record of laws: protobuf
-- (`Codec`, `CodecLaws`), Redis (`RedisCommands`, `RankingLaws`, `HashLaws`, `KeyspaceLaws`, `Bus`,
-- `Lossy`), the JWT library (`Jwt`, `JwtLaws`), viper and pflag (`Viper`, `ViperLaws`, `FlagLibrary`,
-- `FlagLaws`), xxhash, the local connections (`SignalSender`, `Signalg`), the network (`Network`),
-- gRPC (`GrpcLibrary`) and etcd (`Etcd`, `EtcdLaws`). `Libraries` has all that a gate is made of. A call that may
-- panic returns a `Run`.
--
-- Goroutines are step relations: a step is what a goroutine does under a mutex or on a channel. What other
-- goroutines do while the poller waits is a part of its ticks; during one round nothing else happens.
--
-- Every loop is a structural recursion, except the printing of a number, whose fuel is the number plus one,
-- more than its digits.
--
-- In a process, what goes on while main waits is a parameter (`Waiting`), but for the registration of the
-- gate, which the goroutine of Start makes at any `Moment`, or never. In Rpc/Lifetime the two goroutines
-- take their steps in any order, and nobody else changes the endpoints of etcd. In Fanout no
-- connection to Redis breaks, except in Losses.
--
-- Not modelled: wire.go, which is the input of the generator of wire_gen.go; the generated gRPC stubs,
-- and of the generated messages what the program does not read; ResolverBuilder of
-- internal/discovery/etcd/registry.go, which only calls etcd.
pub mod Prelude
pub mod Text
pub mod Effect
pub mod Proto
pub mod Config
pub mod Cluster
pub mod Time
pub mod Auth
pub mod Gateway
pub mod Data
pub mod Rpc
pub mod Tokens
pub mod Sessions
pub mod Wiring
pub mod Presence
pub mod Fanout
pub mod App
pub mod Discovery
pub mod Tests
