-- ===== src/Orchestrator/Construction/Strategies.antt =====
-- The two strategies of pkg/election behind the interface that `reconcile` uses.
use redis_orchestrator.Base.{
  [], false, not, ◌&&◌, Option, none, some, ◌≡◌, refl, inl, inr, Bool-cases,
}
use redis_orchestrator.Base.Text.{Bytes, codes, str_eq}
use redis_orchestrator.State.{PodState}
use redis_orchestrator.Outcome.{ok, err, message, external}
use redis_orchestrator.Effects.{raft_read, raft_shutdown, Env, History, pure, lift}
use redis_orchestrator.Effects.Acts.{Acts-refl, Acts-raft_read, Acts-raft_shutdown}
use redis_orchestrator.Effects.Gentle.{
  Gentle, Gentle-pure, Gentle-fail, Gentle-if, Gentle-perform, Gentle-bind,
}
use redis_orchestrator.Election.Deterministic
use redis_orchestrator.Election.Deterministic.{DeterministicStrategy}
use redis_orchestrator.Election.Raft
use redis_orchestrator.Election.Raft.{RaftStrategy, leader_state}
use redis_orchestrator.Orchestrator.{Strategy}
use redis_orchestrator.Orchestrator.Construction.{
  ElectionStrategy, deterministic_strategy, raft_strategy,
}

module _ (env : Env) where
  deterministic_get_leader-Gentle :
      (d : DeterministicStrategy) → Gentle env (lift (Deterministic.get_leader d))
  unfolding Deterministic.get_leader
  deterministic_get_leader-Gentle d = known d.current_leader
    where
      known :
          (leader : Option PodState)
          → Gentle {A = Bytes × Bytes} env (
              lift (elim leader [
                | none ↦ err (message (codes "no leader elected"))
                | some l ↦ ok (l.pod_name, l.pod_uid)
              ]))
      known none = Gentle-fail env _
      known (some l) = Gentle-pure env _

  unfoldable pub deterministic_queries : DeterministicStrategy → Strategy env
  unfolding deterministic_get_leader-Gentle
  deterministic_queries d = record {
    is_leader = pure (Deterministic.is_leader d);
    get_leader = lift (Deterministic.get_leader d);
    is_leader_answers = λ h. (Deterministic.is_leader d, refl);
    is_leader_quiet = Acts-refl env;
    get_leader_gentle = deterministic_get_leader-Gentle d;
    stop = lift (Deterministic.stop d);
    stop_gentle = Gentle-pure env tt;
  }

  -- The pod leads if Raft runs and says so.
  raft_is_leader-Gentle : (r : RaftStrategy) → Gentle env (Raft.is_leader env r)
  unfolding Raft.is_leader
  raft_is_leader-Gentle r = Gentle-if env (not r.started) (Gentle-pure env false) (
      Gentle-bind env _ _ (Gentle-perform env _ _ (Acts-raft_read env))
        (λ state. Gentle-pure env (str_eq state leader_state)))

  raft_is_leader_answers :
      (r : RaftStrategy) (h : History)
      → (Raft.is_leader env r h).0 ≡ ok (r.started && str_eq (env.raft_state h) leader_state)
  unfolding Raft.is_leader
  raft_is_leader_answers r h = elim (Bool-cases r.started) [
    | inl s ↦ simp s refl
    | inr s ↦ simp s refl
  ]

  raft_get_leader-Gentle : (r : RaftStrategy) → Gentle env (Raft.get_leader env r)
  unfolding Raft.get_leader
  raft_get_leader-Gentle r = Gentle-if env (not r.started) (Gentle-fail env _) (
      Gentle-bind env _ _ (Gentle-perform env raft_read env.raft_leader (Acts-raft_read env))
        (λ (leader : Bytes × Bytes).
          Gentle-if env (str_eq leader.0 [])
            (Gentle-fail env (message (codes "no Raft leader elected")))
            (Gentle-pure env (Raft.leader_in leader.1 r.all_states))))

  raft_stop-Gentle : (r : RaftStrategy) → Gentle env (Raft.stop env r)
  unfolding Raft.stop
  raft_stop-Gentle r =
      Gentle-if env r.started
        (Gentle-bind env _ _
          (Gentle-perform env raft_shutdown env.raft_shutdown (Acts-raft_shutdown env))
          (λ done. Gentle-if env done (Gentle-pure env tt) (Gentle-fail env external)))
        (Gentle-pure env tt)

  unfoldable pub raft_queries : RaftStrategy → Strategy env
  unfolding raft_is_leader-Gentle raft_is_leader_answers raft_get_leader-Gentle raft_stop-Gentle
  raft_queries r = record {
    is_leader = Raft.is_leader env r;
    get_leader = Raft.get_leader env r;
    is_leader_answers =
        λ h. (r.started && str_eq (env.raft_state h) leader_state, raft_is_leader_answers r h);
    is_leader_quiet = (raft_is_leader-Gentle r).acts;
    get_leader_gentle = raft_get_leader-Gentle r;
    stop = Raft.stop env r;
    stop_gentle = raft_stop-Gentle r;
  }

  -- `o.strategy`
  unfoldable pub queries_of : ElectionStrategy → Strategy env
  queries_of (deterministic_strategy d) = deterministic_queries d
  queries_of (raft_strategy r) = raft_queries r
