-- ===== src/Lib.antt =====
-- Redis orchestrator: a sidecar beside each Redis instance of a Kubernetes cluster. It learns the
-- state of its own Redis and of its peers, elects a master, promotes or demotes its own Redis, and
-- marks the master's pod with a label. Paths are from the repository's root.
--
-- The parts, and the files that model them:
--   Base, Base/...        strings as lists of bytes, maps as association lists, decimal numbers
--   State, Config         pkg/orchestrator/state/state.go, pkg/config/config.go
--   Outcome, Effects      how a call ends, and what surrounds the process
--   Auth                  pkg/auth/auth.go: SignRequest, ValidateRequest, Middleware
--   Redis/Info            pkg/redis/client.go: parseReplicationInfo
--   Redis/Client          pkg/redis/client.go: NewClient with its options, GetReplicationInfo,
--                         PromoteToMaster, SetReplicaOf, IsHealthy, Close
--   Election/Order        the `less` function of the three calls of sort.Slice
--   Election/Deterministic, Election/Reason
--                         pkg/election/deterministic.go
--   Election/Raft, Election/Raft/Start, Election/Raft/AutoJoin
--                         pkg/election/raft.go: IsLeader, GetLeader, ElectLeader, Stop; Start;
--                         autoJoinCluster
--   Election/Raft/Monitor, Election/Raft/Fsm
--                         pkg/election/raft.go: monitorLeadership; the empty state machine
--   Election/Raft/Handlers
--                         pkg/election/raft_handlers.go
--   Election/Raft/Joining pkg/election/raft_discovery.go
--   Orchestrator          pkg/orchestrator/orchestrator.go: the state; and the interface of
--                         pkg/election/strategy.go, with the laws that its user relies on
--   Orchestrator/Peers    getLocalState, queryPeer, discoverAndQueryPeers, updatePeerStates
--   Orchestrator/Reconcile
--                         reconcile, handleNoMaster, handleSingleMaster, handleSplitBrain,
--                         handleRaftMode
--   Orchestrator/Replication
--                         promoteToMaster, demoteToReplica, checkAndFixReplication
--   Orchestrator/Labels   ensureMasterLabel, removeMasterLabel
--   Orchestrator/Sync     syncState, Run, shutdown
--   Orchestrator/Server   setupHTTPServer, handleStateRequest, handleHealthRequest
--   Orchestrator/LoadBalancer
--                         discoverLoadBalancerIP, matchesSelectorWithPodName
--   Orchestrator/Construction
--                         New; both strategies behind the interface
--   Orchestrator/Cluster  several processes, each with its own surroundings: a round in
--                         Raft mode, a whole cycle of syncState, and schedules of reconcile
--                         in which the pods run one after the other in any order
--   Main                  main.go: the flags, the checks, and the process from its command line
--   Tests                 runs at concrete inputs
-- The modules below a component hold its lemmas and are named for what they prove.
--
-- A program is a function from the history of calls to an outcome and a longer history. go-redis,
-- the Kubernetes API, net/http, hashicorp/raft and the clock are the fields of `Env`: each answer
-- is any function of the history, so that every behaviour of them is covered, errors and stale
-- reads included.
-- encoding/json is a decoder that may refuse, HMAC-SHA256 any function, and an election strategy
-- in `reconcile` any two queries with the laws of the interface. What Redis documents of REPLICAOF
-- is the definition `redis_role`.
--
-- Conventions:
--   - Logging is left out, except where its arguments can panic: the slices of a UID to eight
--     bytes in debug mode. A panic is an outcome.
--   - sort.Slice is a stable insertion sort. The order is total on what it compares, so another
--     sort could differ only among states with the same startup time, name and UID.
--   - `range` over a map goes through the association list in its order; elections are
--     described by what the list holds, not by its order.
--   - Times are natural numbers of nanoseconds; int64 values in auth.go, the port of Redis and
--     the interval of the loop are their bit patterns below 2 ^ 64, with every wrap written out.
--   - Replies of Redis are ASCII, which is what the trimming of spaces reads.
--   - Errors of foreign libraries, and the text of the answer with status 401, are not modelled.
--   - updatePeerStates reads the clock once, and its value is an argument. Loops are recursion on
--     a list, the main loop is recursion on the number of its cycles, the loop of New and that of
--     autoJoinCluster on the attempts that are left, twelve and eighteen at first; no other fuel
--     is needed.
--   - autoJoinCluster and the HTTP server run beside the main loop; each is a program of its own,
--     and the answers of Raft and of the peers, which are any functions of the calls, stand for
--     what the others do meanwhile.
--   - A command line is the list of the flags that it sets, as package flag reads it; a fatal log
--     message is an error with its text.
--
-- Not modelled: the syntax of command lines, the sleeps, and what go-redis does with its options.
pub mod Base
pub mod State
pub mod Config
pub mod Outcome
pub mod Effects
pub mod Auth
pub mod Redis
pub mod Election
pub mod Orchestrator
pub mod Main
mod Tests
