-- ===== src/Main.antt =====
-- main.go. A fatal log message ends the process, as an error with its text. What package flag reads
-- of a command line that it accepts is the list of the flags that are set, in their order.
pub mod Flags
pub mod Configure
pub mod Laws
pub mod Refusal
pub mod Panics
use redis_orchestrator.Base.{ℕ, Bool, true, false, List, [], not, if◌then◌else◌, Option}
use redis_orchestrator.Base.Text.{Bytes, codes}
use redis_orchestrator.Config.{Config}
use redis_orchestrator.State.{PodState}
use redis_orchestrator.Outcome.{Outcome, ok, err, panic, wrap, external}
use redis_orchestrator.Effects.{Env, History, M, pure, fail, lift, wrapping, ◌>>=◌, ◌>>◌}
use redis_orchestrator.Auth.{new_authenticator}
use redis_orchestrator.Election.Deterministic
use redis_orchestrator.Election.Raft.Handlers.{AddVoterRequest, Codec}
use redis_orchestrator.Election.Raft.Start
use redis_orchestrator.Orchestrator.{Orchestrator}
use redis_orchestrator.Orchestrator.LoadBalancer.{Service}
use redis_orchestrator.Orchestrator.Peers.{Setting}
use redis_orchestrator.Orchestrator.Sync.{Step, run}
use redis_orchestrator.Orchestrator.Construction.{
  ElectionStrategy, deterministic_strategy, raft_strategy, new,
}
use redis_orchestrator.Orchestrator.Construction.Strategies.{queries_of}
use redis_orchestrator.Main.Flags.{Arg, default_flags, parse}
use redis_orchestrator.Main.Configure.{configure}

-- What surrounds the process: besides what surrounds the orchestrator, the environment variables,
-- whether client-go finds the cluster and makes a client, encoding/json, and what os and
-- hashicorp/raft do before Raft runs.
pub record Host : Type 0 where
  pub env : Env
  pub list_services : History → Option (List Service)
  pub getenv : Bytes → Bytes
  pub in_cluster : Bool
  pub has_client : Bool
  pub hmac : Bytes → Bytes → Bytes
  pub decode_state : Bytes → Option PodState
  pub codec : Codec
  pub encode_request : AddVoterRequest → Bytes
  pub directory : Outcome (Unit {0})
  pub created : Outcome (Unit {0})

module _ (host : Host) where
  abbrev pub setting_of : Config → Setting
  setting_of cfg = record {
    env = host.env;
    hmac = host.hmac;
    authenticator = new_authenticator cfg.shared_secret;
    decode_state = host.decode_state;
  }

  -- `Start` of the strategy.
  unfoldable pub start_strategy : Config → ElectionStrategy → M ElectionStrategy
  start_strategy cfg (deterministic_strategy d) = do
    lift (Deterministic.start d)
    pure (deterministic_strategy d)
  start_strategy cfg (raft_strategy r) = do
    started ←
        Start.start (setting_of cfg) host.codec host.encode_request host.directory host.created r
    pure (raft_strategy started.0)

  -- `Run`, with the strategy as its `Start` left it.
  abbrev pub run_with :
      Config
      → Orchestrator
      → ElectionStrategy
      → ℕ
      → Outcome ElectionStrategy × History
      → Outcome (Unit {0}) × History
  run_with cfg o strategy ticks (ok started, h) =
      let step = run (setting_of cfg) (queries_of host.env started) (ok tt) ticks o h in
      (step.outcome, step.history)
  run_with cfg o strategy ticks (err e, h) =
      let step = run (setting_of cfg) (queries_of host.env strategy) (err e) ticks o h in
      (step.outcome, step.history)
  run_with cfg o strategy ticks (panic, h) =
      let step = run (setting_of cfg) (queries_of host.env strategy) panic ticks o h in
      (step.outcome, step.history)

  abbrev pub run_orchestrator : Config → ℕ → Orchestrator × ElectionStrategy → M (Unit {0})
  run_orchestrator cfg ticks (o, strategy) h =
      run_with cfg o strategy ticks (start_strategy cfg strategy h)

  abbrev pub connect_to_cluster : M (Unit {0})
  connect_to_cluster =
      if not host.in_cluster
      then fail (wrap (codes "Failed to create in-cluster config") external)
      else if not host.has_client
      then fail (wrap (codes "Failed to create Kubernetes client") external)
      else pure tt

  -- Behind the checks of the flags.
  unfoldable pub run_configured : Config → ℕ → M (Unit {0})
  run_configured cfg ticks = do
    connect_to_cluster
    made ← wrapping (codes "Failed to create orchestrator") (new host.env host.list_services cfg)
    wrapping (codes "Orchestrator error") (run_orchestrator cfg ticks made)

  -- `main`, with the flags that are set, and ended by a signal after so many ticks.
  unfoldable pub main : List Arg → ℕ → M (Unit {0})
  main args ticks = do
    cfg ← lift (configure host.getenv (parse args (default_flags host.getenv)))
    run_configured cfg ticks
