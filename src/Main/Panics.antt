-- ===== src/Main/Panics.antt =====
-- Without debug logging `main` does not panic.
use mathlib.Core.Path.{◌≡◌, refl, ap, ◌∙◌}
use redis_orchestrator.Base.{ℕ, ◌<◌, false, not, List, ◌≢◌}
use redis_orchestrator.Base.Decimal.{two_63}
use redis_orchestrator.Base.Text.{Bytes}
use redis_orchestrator.Config.{Config}
use redis_orchestrator.Outcome.{Outcome, ok, err, panic}
use redis_orchestrator.Effects.{History, resume, wrapping, wrap_outcome}
use redis_orchestrator.Effects.Returns.{Returns}
use redis_orchestrator.Effects.Panics.{
  NoPanic, pure-NoPanic, fail-NoPanic, lift-NoPanic, if-NoPanic, wrapping-NoPanic, >>=-NoPanic,
}
use redis_orchestrator.Election.Deterministic
use redis_orchestrator.Election.Raft.Start.Panics.{start-NoPanic}
use redis_orchestrator.Orchestrator.{Orchestrator}
use redis_orchestrator.Orchestrator.Sync.{run}
use redis_orchestrator.Orchestrator.Sync.Panics.{run-ends}
use redis_orchestrator.Orchestrator.Construction.{
  ElectionStrategy, deterministic_strategy, raft_strategy, new,
}
use redis_orchestrator.Orchestrator.Construction.Strategies.{queries_of}
use redis_orchestrator.Orchestrator.Construction.Laws.{Made, new-Returns}
use redis_orchestrator.Orchestrator.Construction.Panics.{Logs, choose_strategy-Logs, new-NoPanic}
use redis_orchestrator.Main.{
  Host, setting_of, start_strategy, run_with, run_orchestrator, connect_to_cluster, run_configured,
  main,
}
use redis_orchestrator.Main.Flags.{Arg}
use redis_orchestrator.Main.Configure.{configure}
use redis_orchestrator.Main.Configure.Laws.{Resolved, configure-Resolved}
use redis_orchestrator.Main.Laws.{flags}
use redis_orchestrator.Main.Refusal.{Ends, configure-Ends}

-- A configuration that logs no details and whose ticker can be made.
record IsCalm (cfg : Config) : Type 0 where
  pub silent : cfg.debug ≡ false
  pub above : 0 < cfg.sync_interval
  pub below : cfg.sync_interval < two_63

module _ (host : Host) (made : host.directory ≢ panic) (running : host.created ≢ panic)
    (ticks : ℕ) where
  module _ (cfg : Config) (calm : IsCalm cfg) where
    start_strategy-NoPanic :
        (strategy : ElectionStrategy)
        → Logs cfg.debug strategy
        → NoPanic (start_strategy host cfg strategy)
    unfolding start_strategy
    start_strategy-NoPanic (deterministic_strategy d) l =
        >>=-NoPanic _ _ (lift-NoPanic (Deterministic.start d) (λ e. cc))
          (λ _. pure-NoPanic (deterministic_strategy d))
    start_strategy-NoPanic (raft_strategy r) l =
        >>=-NoPanic _ _
          (start-NoPanic (setting_of host cfg) host.codec host.encode_request host.directory
            host.created made running r (l ∙ calm.silent))
          (λ started. pure-NoPanic (raft_strategy started.0))

    run_orchestrator-NoPanic :
        (o : Orchestrator) (strategy : ElectionStrategy)
        → o.config ≡ cfg
        → Logs cfg.debug strategy
        → NoPanic (run_orchestrator host cfg ticks (o, strategy))
    run_orchestrator-NoPanic o strategy same l = record {
      ends = λ h.
          runs (start_strategy host cfg strategy h).0 (start_strategy host cfg strategy h).1
            ((start_strategy-NoPanic strategy l).ends h);
    }
      where
        runs :
            (r : Outcome ElectionStrategy) (k : History)
            → r ≢ panic
            → (run_with host cfg o strategy ticks (r, k)).0 ≢ panic
        runs (ok next) k p q = absurd (
            cc (
              run-ends (setting_of host cfg) (queries_of host.env next) ticks o k
                (rw same calm.silent) (rw same calm.above) (rw same calm.below)))
        runs (err x) k p q = unfold run in cc
        runs panic k p q = p refl

    made-ends :
        (text other : Bytes) (r : Outcome (Orchestrator × ElectionStrategy)) (k : History)
        → Returns (Made host.env host.list_services cfg (Logs cfg.debug)) r
        → r ≢ panic
        → (resume
            (wrap_outcome text r)
            (λ made. wrapping other (run_orchestrator host cfg ticks made))
            k).0
          ≢ panic
    made-ends text other (ok (o, strategy)) k (same, empty, l) p =
        (wrapping-NoPanic other _ (run_orchestrator-NoPanic o strategy same l)).ends k
    made-ends text other (err x) k m p = λ e. cc
    made-ends text other panic k m p = λ e. p refl

    run_configured-NoPanic : NoPanic (run_configured host cfg ticks)
    unfolding run_configured
    run_configured-NoPanic =
        >>=-NoPanic (connect_to_cluster host) _
          (if-NoPanic (not host.in_cluster) (fail-NoPanic _)
            (if-NoPanic (not host.has_client) (fail-NoPanic _) (pure-NoPanic tt)))
          (λ _. record {
            ends = λ h.
                made-ends _ _ (new host.env host.list_services cfg h).0
                  (new host.env host.list_services cfg h).1
                  (new-Returns host.env host.list_services cfg (Logs cfg.debug)
                    (λ pod ip. (choose_strategy-Logs cfg pod ip).0) h)
                  ((new-NoPanic host.env host.list_services cfg).ends h);
          })

  -- Without --debug, and with a positive --sync-interval, the goroutine of `main` does not panic,
  -- whatever the other flags are and whatever Kubernetes, Redis, the peers and Raft answer, if
  -- making the directory and the Raft node do not. Of the goroutines that it starts, the HTTP server
  -- and `autoJoinCluster` among them, this says nothing.
  pub main-NoPanic :
      (args : List Arg) (h : History)
      → (flags host args).cfg.debug ≡ false
      → 0 < (flags host args).cfg.sync_interval
      → (flags host args).cfg.sync_interval < two_63
      → (main host args ticks h).0 ≢ panic
  unfolding main
  main-NoPanic args h silent above below =
      configured (configure host.getenv (flags host args)) refl
        (configure-Ends host.getenv (flags host args))
    where
      calm : (cfg : Config) → Resolved host.getenv (flags host args) cfg → IsCalm cfg
      calm cfg r = record {
        silent = ap (λ (c : Config). c.debug) r.given ∙ silent;
        above = rw r.given above;
        below = rw r.given below;
      }

      configured :
          (r : Outcome Config)
          → configure host.getenv (flags host args) ≡ r
          → Ends r
          → (resume r (λ c. run_configured host c ticks) h).0 ≢ panic
      configured (ok cfg) e p q =
          (run_configured-NoPanic cfg
              (calm cfg (configure-Resolved host.getenv (flags host args) cfg e))).ends
            h q
      configured (err x) e p q = cc
      configured panic e p q = p refl
