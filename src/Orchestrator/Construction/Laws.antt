-- ===== src/Orchestrator/Construction/Laws.antt =====
-- What `New` makes.
use mathlib.Core.Path.{◌≡◌, refl, subst}
use redis_orchestrator.Base.{List, [], ◌∷◌, Option, none, some, ◌⊎◌, inl, inr, ◌≢◌, Bool-cases}
use redis_orchestrator.Base.Text.{Bytes, str_eq, str_eq_iff}
use redis_orchestrator.Config.{
  Config, ElectionMode, election_mode_deterministic, election_mode_raft,
}
use redis_orchestrator.Outcome.{ok, panic}
use redis_orchestrator.Effects.{Pod, pod_get, History, Env, M, pure, perform, ◌>>=◌}
use redis_orchestrator.Orchestrator.{Orchestrator}
use redis_orchestrator.Orchestrator.LoadBalancer.{Service, discover_load_balancer_ip}
use redis_orchestrator.Orchestrator.Peers.{now}
use redis_orchestrator.Effects.Returns.{Returns, Returns-resume, Returns-any}
use redis_orchestrator.Orchestrator.Construction.{
  ElectionStrategy, deterministic_strategy, raft_strategy, choose_strategy, services_for, discover,
  made, node_ip_of, assemble, assemble_found, connect, new,
}

-- The strategy is the one that the mode names; an empty mode is the deterministic one.
abbrev pub Uses : ElectionMode → ElectionStrategy → Type 0
Uses mode (deterministic_strategy d) = (mode ≡ election_mode_deterministic) ⊎ (mode ≡ [])
Uses mode (raft_strategy r) = mode ≡ election_mode_raft

choose_strategy-Uses :
    (cfg : Config) (pod : Pod) (node_ip : Bytes)
    → Returns (Uses cfg.election_mode) (choose_strategy cfg pod node_ip)
unfolding choose_strategy
choose_strategy-Uses cfg pod node_ip =
    elim (Bool-cases (str_eq cfg.election_mode election_mode_deterministic)) [
      | inl d ↦ simp d (inl ((str_eq_iff cfg.election_mode election_mode_deterministic).0 d))
      | inr d ↦ elim (Bool-cases (str_eq cfg.election_mode [])) [
        | inl n ↦ simp (d, n) (inr ((str_eq_iff cfg.election_mode []).0 n))
        | inr n ↦ elim (Bool-cases (str_eq cfg.election_mode election_mode_raft)) [
          | inl r ↦ simp (d, n, r) ((str_eq_iff cfg.election_mode election_mode_raft).0 r)
          | inr r ↦ simp (d, n, r) tt
        ]
      ]
    ]

module _ (env : Env) (list_services : History → Option (List Service)) (cfg : Config) where
  pub services_for-ends :
      (r : Option Pod) (h : History) → (services_for env list_services cfg r h).0 ≢ panic
  services_for-ends none h e = unfold discover_load_balancer_ip in absurd cc
  services_for-ends (some pod) h e = ends (list_services h) e
    where
      ends :
          (l : Option (List Service)) → discover_load_balancer_ip cfg.pod_name (some pod) l ≢ panic
      ends none e = unfold discover_load_balancer_ip in absurd cc
      ends (some l) e = unfold discover_load_balancer_ip in absurd cc

  pub discover-ends : (h : History) → (discover env list_services cfg h).0 ≢ panic
  unfolding discover
  discover-ends h =
      services_for-ends (env.pod_get h cfg.namespace cfg.pod_name)
        (pod_get cfg.namespace cfg.pod_name ∷ h)

  abbrev pub Made : (ElectionStrategy → Type 0) → Orchestrator × ElectionStrategy → Type 0
  Made Chosen (o, strategy) = (o.config ≡ cfg) × (o.peer_states ≡ []) × Chosen strategy

  -- What holds of every strategy that may be chosen holds of the one that `New` returns.
  module _ (Chosen : ElectionStrategy → Type 0)
      (chooses : (pod : Pod) (node_ip : Bytes)
        → Returns Chosen (choose_strategy cfg pod node_ip)) where
    assembled :
        (pod : Pod) (node_ip : Bytes) (k : History)
        → Returns (Made Chosen) (assemble env list_services cfg pod node_ip k).0
    assembled pod node_ip k =
        Returns-resume Chosen (Made Chosen) (choose_strategy cfg pod node_ip)
          (λ chosen. do
            startup_time ← now env
            pure (made env list_services cfg pod chosen startup_time))
          k (chooses pod node_ip) (λ chosen c. (refl, refl, c))

    when_found :
        (reply : Option Pod) (k : History)
        → Returns (Made Chosen) (assemble_found env list_services cfg reply k).0
    when_found none k = tt
    when_found (some pod) k =
        Returns-resume (λ _. Unit) (Made Chosen) (node_ip_of env list_services cfg pod k).0
          (assemble env list_services cfg pod) (node_ip_of env list_services cfg pod k).1
          (Returns-any _) (λ node_ip _. assembled pod node_ip _)

    fetch : M (Orchestrator × ElectionStrategy)
    fetch = do
      reply ←
          perform (pod_get cfg.namespace cfg.pod_name)
            (λ k. env.pod_get k cfg.namespace cfg.pod_name)
      assemble_found env list_services cfg reply

    -- The orchestrator that `New` returns has the given configuration, no states yet, and a
    -- strategy that was chosen.
    pub new-Returns : (h : History) → Returns (Made Chosen) (new env list_services cfg h).0
    unfolding new fetch
    new-Returns h =
        let k = (connect env list_services cfg h).1 in
        Returns-resume (λ _. Unit) (Made Chosen) (connect env list_services cfg h).0 (λ _. fetch) k
          (Returns-any _) (λ _ _. when_found (env.pod_get k cfg.namespace cfg.pod_name) _)

  -- If `New` returns an orchestrator, then it has the given configuration, no states yet, and the
  -- strategy of the election mode, where the empty mode is the deterministic one; so no other mode
  -- is accepted.
  pub new-Made :
      (h h' : History) (o : Orchestrator) (strategy : ElectionStrategy)
      → new env list_services cfg h ≡ (ok (o, strategy), h')
      → (o.config ≡ cfg) × (o.peer_states ≡ []) × Uses cfg.election_mode strategy
  new-Made h h' o strategy e =
      subst (λ r. Returns (Made (Uses cfg.election_mode)) r.0) e
        (new-Returns (Uses cfg.election_mode) (choose_strategy-Uses cfg) h)
