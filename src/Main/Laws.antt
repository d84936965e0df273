-- ===== src/Main/Laws.antt =====
-- What the process can do, from its command line on.
use mathlib.Core.Path.{◌≡◌, refl, ap, ◌∙◌, subst}
use redis_orchestrator.Base.{ℕ, ◌+◌, ◌≤◌, true, not, List, ◌⊎◌, inl, inr, arith}
use redis_orchestrator.Base.Text.{Bytes}
use redis_orchestrator.Config.{Config}
use redis_orchestrator.Outcome.{Outcome, ok, err, panic}
use redis_orchestrator.Effects.{History, M, resume, wrapping, wrap_outcome}
use redis_orchestrator.Effects.Acts.{quiet, Acts}
use redis_orchestrator.Effects.Trace.{role_commands, promotions}
use redis_orchestrator.Effects.Quiet.{
  IsQuiet, lift-IsQuiet, pure-IsQuiet, fail-IsQuiet, if-IsQuiet, >>=-IsQuiet,
}
use redis_orchestrator.Election.Deterministic
use redis_orchestrator.Election.Raft.Start.Quiet.{start-IsQuiet}
use redis_orchestrator.Orchestrator.{Orchestrator, Strategy}
use redis_orchestrator.Orchestrator.Sync.{run}
use redis_orchestrator.Orchestrator.Sync.Laws.{run-no_promote, run-role_commands}
use redis_orchestrator.Orchestrator.Construction.{
  ElectionStrategy, deterministic_strategy, raft_strategy, new,
}
use redis_orchestrator.Orchestrator.Construction.Strategies.{queries_of}
use redis_orchestrator.Orchestrator.Construction.Laws.{new-Made}
use redis_orchestrator.Orchestrator.Construction.Quiet.{new-IsQuiet}
use redis_orchestrator.Main.{
  Host, setting_of, start_strategy, run_with, run_orchestrator, connect_to_cluster, run_configured,
  main,
}
use redis_orchestrator.Main.Flags.{Arg, Flags, default_flags, parse}
use redis_orchestrator.Main.Configure.{configure}
use redis_orchestrator.Main.Configure.Laws.{Resolved, configure-Resolved}

-- The configurations of a process that never promotes.
abbrev IsStandby : Config → Type 0
IsStandby cfg = (cfg.no_promote ≡ true) ⊎ (cfg.standalone ≡ true)

-- At most one REPLICAOF for each cycle, and no promotion by a standby.
record Behaves (cfg : Config) (ticks : ℕ) (h h' : History) : Type 0 where
  pub sends : role_commands h' ≤ role_commands h + (1 + ticks)
  pub holds : IsStandby cfg → promotions h' ≡ promotions h

module _ (host : Host) (cfg : Config) (ticks : ℕ) where
  Acts-Behaves : {h h' : History} → Acts host.env quiet h h' → Behaves cfg ticks h h'
  Acts-Behaves a = record { sends = omega (arith, a.sent); holds = λ _. omega (arith, a.asked) }

  Behaves-after :
      {h k h' : History} → Acts host.env quiet h k → Behaves cfg ticks k h' → Behaves cfg ticks h h'
  Behaves-after a b = record {
    sends = omega (arith, a.sent, b.sends);
    holds = λ w. b.holds w ∙ omega (arith, a.asked);
  }

  run-Behaves :
      (queries : Strategy host.env) (started : Outcome (Unit {0})) (o : Orchestrator) (h : History)
      → o.config ≡ cfg
      → Behaves cfg ticks h (run (setting_of host cfg) queries started ticks o h).history
  run-Behaves queries started o h e = record {
    sends = run-role_commands (setting_of host cfg) queries started ticks o h;
    holds = λ w. run-no_promote (setting_of host cfg) queries started ticks o h (rw e w);
  }

  start_strategy-IsQuiet :
      (strategy : ElectionStrategy) → IsQuiet host.env (start_strategy host cfg strategy)
  unfolding start_strategy
  start_strategy-IsQuiet (deterministic_strategy d) =
      >>=-IsQuiet host.env (lift-IsQuiet host.env (Deterministic.start d))
        (λ _. pure-IsQuiet host.env (deterministic_strategy d))
  start_strategy-IsQuiet (raft_strategy r) =
      >>=-IsQuiet host.env
        (start-IsQuiet (setting_of host cfg) host.codec host.encode_request host.directory
          host.created r)
        (λ started. pure-IsQuiet host.env (raft_strategy started.0))

  run_orchestrator-Behaves :
      (o : Orchestrator) (strategy : ElectionStrategy) (h : History)
      → o.config ≡ cfg
      → Behaves cfg ticks h (run_orchestrator host cfg ticks (o, strategy) h).1
  run_orchestrator-Behaves o strategy h e =
      Behaves-after ((start_strategy-IsQuiet strategy).acts h)
        (started (start_strategy host cfg strategy h).0 (start_strategy host cfg strategy h).1)
    where
      started :
          (r : Outcome ElectionStrategy) (k : History)
          → Behaves cfg ticks k (run_with host cfg o strategy ticks (r, k)).1
      started (ok next) k = run-Behaves (queries_of host.env next) (ok tt) o k e
      started (err x) k = run-Behaves (queries_of host.env strategy) (err x) o k e
      started panic k = run-Behaves (queries_of host.env strategy) panic o k e

  connect_to_cluster-IsQuiet : IsQuiet host.env (connect_to_cluster host)
  connect_to_cluster-IsQuiet = if-IsQuiet host.env (not host.in_cluster) (fail-IsQuiet host.env _) (
      if-IsQuiet host.env (not host.has_client) (fail-IsQuiet host.env _)
        (pure-IsQuiet host.env tt))

  -- Behind a made orchestrator the loop runs, and behind a failure nothing.
  made-Behaves :
      (text other : Bytes) (h : History) (r : Outcome (Orchestrator × ElectionStrategy))
      (k : History)
      → new host.env host.list_services cfg h ≡ (r, k)
      → Behaves cfg ticks h
          (resume
            (wrap_outcome text r)
            (λ made. wrapping other (run_orchestrator host cfg ticks made))
            k).1
  made-Behaves text other h r k e =
      behaves r e (subst (λ p. Acts host.env quiet h p.1) e made_quiet)
    where
      made_quiet : Acts host.env quiet h (new host.env host.list_services cfg h).1
      made_quiet = (new-IsQuiet host.env host.list_services cfg).acts h

      behaves :
          (r : Outcome (Orchestrator × ElectionStrategy))
          → new host.env host.list_services cfg h ≡ (r, k)
          → Acts host.env quiet h k
          → Behaves cfg ticks h
              (resume
                (wrap_outcome text r)
                (λ made. wrapping other (run_orchestrator host cfg ticks made))
                k).1
      behaves (ok (o, strategy)) e a =
          let (same, _, _) = new-Made host.env host.list_services cfg h k o strategy e in
          Behaves-after a (run_orchestrator-Behaves o strategy k same)
      behaves (err x) e a = Acts-Behaves a
      behaves panic e a = Acts-Behaves a

  resume-Behaves :
      (r : Outcome (Unit {0})) (f : Unit {0} → M (Unit {0})) (h k : History)
      → Acts host.env quiet h k
      → Behaves cfg ticks k (f tt k).1
      → Behaves cfg ticks h (resume r f k).1
  resume-Behaves (ok tt) f h k a b = Behaves-after a b
  resume-Behaves (err x) f h k a b = Acts-Behaves a
  resume-Behaves panic f h k a b = Acts-Behaves a

  run_configured-Behaves : (h : History) → Behaves cfg ticks h (run_configured host cfg ticks h).1
  unfolding run_configured
  run_configured-Behaves h =
      let k = (connect_to_cluster host h).1 in
      resume-Behaves (connect_to_cluster host h).0 _ h k (connect_to_cluster-IsQuiet.acts h)
        (made-Behaves _ _ k _ _ refl)

-- The flags as the command line leaves them.
abbrev pub flags : Host → List Arg → Flags
flags host args = parse args (default_flags host.getenv)

module _ (host : Host) (args : List Arg) (ticks : ℕ) (h : History) where
  configured-Behaves :
      (r : Outcome Config)
      → configure host.getenv (flags host args) ≡ r
      → (P : Config → Type 0)
      → ((cfg : Config) → Resolved host.getenv (flags host args) cfg → P cfg)
      → ((cfg : Config) × P cfg
          × Behaves cfg ticks h (resume r (λ c. run_configured host c ticks) h).1)
        ⊎ ((resume r (λ c. run_configured host c ticks) h).1 ≡ h)
  configured-Behaves (ok cfg) e P p = inl (
    cfg,
    p cfg (configure-Resolved host.getenv (flags host args) cfg e),
    run_configured-Behaves host cfg ticks h,
  )
  configured-Behaves (err x) e P p = inr refl
  configured-Behaves panic e P p = inr refl

  -- A process with --no-promote or --standalone among its flags never asks Redis to become a
  -- master, whatever its other flags and its surroundings are, until a signal ends it.
  pub main-no_promote :
      ((flags host args).cfg.no_promote ≡ true) ⊎ ((flags host args).cfg.standalone ≡ true)
      → promotions (main host args ticks h).1 ≡ promotions h
  unfolding main
  main-no_promote w =
      elim (configured-Behaves (configure host.getenv (flags host args)) refl IsStandby standby) [
        | inl (cfg, s, b) ↦ b.holds s
        | inr e ↦ ap promotions e
      ]
    where
      standby : (cfg : Config) → Resolved host.getenv (flags host args) cfg → IsStandby cfg
      standby cfg r = elim w [
        | inl n ↦ inl (ap (λ (c : Config). c.no_promote) r.given ∙ n)
        | inr s ↦ inr (ap (λ (c : Config). c.standalone) r.given ∙ s)
      ]

  -- A process that a signal ends after some ticks has sent Redis at most one REPLICAOF for each of
  -- its cycles, of which the first runs before the first tick, whatever its flags are. What it sends
  -- besides, INFO and PING, is not counted.
  pub main-role_commands : role_commands (main host args ticks h).1 ≤ role_commands h + (1 + ticks)
  unfolding main
  main-role_commands =
      elim (configured-Behaves (configure host.getenv (flags host args)) refl (λ _. Unit {0})
        (λ _ _. tt)) [ inl (cfg, _, b) ↦ b.sends | inr e ↦ rw e (omega arith) ]
