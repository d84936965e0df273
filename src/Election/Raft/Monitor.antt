-- ===== src/Election/Raft/Monitor.antt =====
-- pkg/election/raft.go: `monitorLeadership`, ended by the context after so many ticks. It reads
-- Raft for its log only. `raft.NewRaft` has made the Raft that it reads.
use redis_orchestrator.Base.{ℕ, zero, suc, false, not, if◌then◌else◌}
use redis_orchestrator.Base.Text.{Bytes, str_eq}
use redis_orchestrator.Effects.{raft_read, Env, M, pure, perform, ◌>>=◌, ◌>>◌}
use redis_orchestrator.Effects.Acts.{Acts-raft_read}
use redis_orchestrator.Effects.Gentle.{Gentle, Gentle-pure, Gentle-if, Gentle-perform, Gentle-bind}
use redis_orchestrator.Election.Raft.{RaftStrategy, leader_state, is_leader}

module _ (env : Env) (r : RaftStrategy) where
  abbrev report : M (Unit {0})
  report = do
    state ← perform raft_read env.raft_state
    leader ← perform raft_read env.raft_leader
    leads ← is_leader env r
    pure tt

  unfoldable pub monitor_leadership : ℕ → M (Unit {0})
  monitor_leadership zero = pure tt
  monitor_leadership (suc ticks) = do if r.debug then report else pure tt; monitor_leadership ticks

  report-Gentle : Gentle env report
  unfolding is_leader
  report-Gentle =
      Gentle-bind env _ _ (Gentle-perform env raft_read env.raft_state (Acts-raft_read env))
        (λ (state : Bytes).
          Gentle-bind env _ _ (Gentle-perform env raft_read env.raft_leader (Acts-raft_read env))
            (λ (leader : Bytes × Bytes).
              Gentle-bind env (is_leader env r) _
                (Gentle-if env (not r.started) (Gentle-pure env false) (
                  Gentle-bind env _ _
                    (Gentle-perform env raft_read env.raft_state (Acts-raft_read env))
                    (λ s. Gentle-pure env (str_eq s leader_state))))
                (λ leads. Gentle-pure env tt)))

  -- The monitor sends Redis nothing, adds no member and does not panic, in any number of ticks.
  pub monitor_leadership-Gentle : (ticks : ℕ) → Gentle env (monitor_leadership ticks)
  unfolding monitor_leadership
  monitor_leadership-Gentle zero = Gentle-pure env tt
  monitor_leadership-Gentle (suc ticks) =
      Gentle-bind env _ _ (Gentle-if env r.debug report-Gentle (Gentle-pure env tt))
        (λ _. monitor_leadership-Gentle ticks)
