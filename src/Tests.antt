-- ===== src/Tests.antt =====
-- Runs of the model, and each theorem at a concrete input.
mod Auth
mod AutoJoin
mod Construction
mod Cycle
mod Data
mod Election
mod Labels
mod LoadBalancer
mod Main
mod Peers
mod Raft
mod RaftRound
mod Reconcile
mod Redis
mod Schedule
mod Server
mod Start
mod Sync
