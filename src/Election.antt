-- ===== src/Election.antt =====
-- pkg/election: the election order, the deterministic strategy and the Raft strategy.
pub mod Raft
pub mod Order
pub mod Reason
pub mod Deterministic
