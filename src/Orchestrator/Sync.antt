-- ===== src/Orchestrator/Sync.antt =====
-- One cycle of the loop, and the life of the process: `syncState`, `Run`, `shutdown`.
pub mod Gathering
pub mod Shutdown
pub mod Laws
pub mod Panics
pub mod Gathered
use redis_orchestrator.Base.{
  ℕ, suc, zero, [], ◌∷◌, Option, none, some, Bool, true, false, if◌then◌else◌, not, ◌||◌, ◌==◌, ltb,
}
use redis_orchestrator.Base.Decimal.{two_63}
use redis_orchestrator.Base.Text.{codes}
use redis_orchestrator.Base.Dict.{Dict}
use redis_orchestrator.State.{PodState}
use redis_orchestrator.Redis.Client
use redis_orchestrator.Outcome.{Outcome, Error, ok, err, panic, external}
use redis_orchestrator.Effects.{
  redis_close, http_shutdown, History, M, pure, fail, perform, wrapping, wrap_outcome, attempt,
  ◌>>=◌,
}
use redis_orchestrator.Orchestrator.{Orchestrator, Strategy}
use redis_orchestrator.Orchestrator.Peers.{
  Setting, now, get_local_state, discover_and_query_peers, update_peer_states,
}
use redis_orchestrator.Orchestrator.Reconcile.{reconcile}

-- What a stretch of the process leaves: how it ended, the orchestrator, the history.
pub record Step : Type 0 where
  pub outcome : Outcome (Unit {0})
  pub after : Orchestrator
  pub history : History

-- A failed discovery leaves a nil map.
abbrev pub or_nil : Option (Dict PodState) → Dict PodState
or_nil none = []
or_nil (some peers) = peers

-- `time.NewTicker` panics unless the interval is positive; an interval is an int64.
abbrev pub non_positive : ℕ → Bool
non_positive interval = interval == 0 || not (ltb interval two_63)

module _ (s : Setting) (strategy : Strategy s.env) where
  -- All that a cycle reads before it writes the states.
  unfoldable pub gather : Orchestrator → M (PodState × Dict PodState × ℕ)
  gather o = do
    local ← wrapping (codes "failed to get local state") (get_local_state s.env o)
    peers ← attempt (discover_and_query_peers s o)
    t ← now s.env
    pure (local, or_nil peers, t)

  abbrev pub synced : Orchestrator → Outcome (PodState × Dict PodState × ℕ) × History → Step
  synced o (ok (local, peers, t), h) =
      let next = update_peer_states t local peers o in
      let r = reconcile s.env next strategy local h in
      record { outcome = r.0; after = next; history = r.1 }
  synced o (err e, h) = record { outcome = err e; after = o; history = h }
  synced o (panic, h) = record { outcome = panic; after = o; history = h }

  unfoldable pub sync_state : Orchestrator → History → Step
  sync_state o h = synced o (gather o h)

  -- An error of a cycle is logged; a panic ends the process.
  abbrev resume_unless_panic :
      Outcome (Unit {0}) → (Orchestrator → History → Step) → Orchestrator → History → Step
  resume_unless_panic (ok _) next o h = next o h
  resume_unless_panic (err _) next o h = next o h
  resume_unless_panic panic next o h = record { outcome = panic; after = o; history = h }

  abbrev pub unless_panic : Step → (Orchestrator → History → Step) → Step
  unless_panic step next = resume_unless_panic step.outcome next step.after step.history

  -- The loop of `Run` up to the given number of cycles.
  unfoldable pub syncs : ℕ → Orchestrator → History → Step
  syncs zero o h = record { outcome = ok tt; after = o; history = h }
  syncs (suc n) o h = unless_panic (sync_state o h) (syncs n)

  abbrev pub stop_server : M (Unit {0})
  stop_server = do
    done ← perform http_shutdown s.env.http_shutdown
    if done then pure tt else fail external

  -- `shutdown`: the strategy, the HTTP server, and the Redis client, which a witness has not. The
  -- errors are logged.
  abbrev pub stop_all : Bool → M (Unit {0})
  stop_all standalone = do
    _ ← attempt strategy.stop
    _ ← attempt stop_server
    if standalone then pure tt else Client.close s.env

  unfoldable pub shutdown : Orchestrator → History → Step
  shutdown o h = record {
    outcome = (stop_all o.config.standalone h).0;
    after = o;
    history = (stop_all o.config.standalone h).1;
  }

  abbrev pub run_started : Outcome (Unit {0}) → ℕ → Orchestrator → History → Step
  run_started (ok _) ticks o h =
      if non_positive o.config.sync_interval
      then record { outcome = panic; after = o; history = h }
      else unless_panic (syncs (suc ticks) o h) shutdown
  run_started (err e) ticks o h = record { outcome = err e; after = o; history = h }
  run_started panic ticks o h = record { outcome = panic; after = o; history = h }

  -- `Run`, with the outcome of the strategy's `Start`, and cancelled after so many ticks.
  unfoldable pub run : Outcome (Unit {0}) → ℕ → Orchestrator → History → Step
  run started ticks o h =
      run_started (wrap_outcome (codes "failed to start election strategy") started) ticks o h
