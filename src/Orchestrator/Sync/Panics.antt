-- ===== src/Orchestrator/Sync/Panics.antt =====
-- Without debug logging the process runs until it is cancelled.
use redis_orchestrator.Base.{ℕ, zero, suc, ◌<◌, false, ◌≡◌, ◌≢◌, refl, arith}
use redis_orchestrator.Base.Dict.{Dict}
use redis_orchestrator.Base.Decimal.{two_63}
use redis_orchestrator.State.{PodState}
use redis_orchestrator.Outcome.{Outcome, ok, err, panic}
use redis_orchestrator.Effects.{History}
use redis_orchestrator.Orchestrator.{Orchestrator, Strategy}
use redis_orchestrator.Orchestrator.Peers.{Setting, update_peer_states}
use redis_orchestrator.Orchestrator.Reconcile.Panics.{reconcile-NoPanic}
use redis_orchestrator.Orchestrator.Sync.{
  Step, gather, synced, resume_unless_panic, non_positive, sync_state, syncs, shutdown, run,
}
use redis_orchestrator.Orchestrator.Sync.Gathering.{gather-Gentle}
use redis_orchestrator.Orchestrator.Sync.Shutdown.{stop_all-ok}
use redis_orchestrator.Orchestrator.Sync.Laws.{sync_state-config}

module _ (s : Setting) (strategy : Strategy s.env) where
  synced-ends :
      (o : Orchestrator) (r : Outcome (PodState × Dict PodState × ℕ)) (h : History)
      → o.config.debug ≡ false
      → r ≢ panic
      → (synced s strategy o (r, h)).outcome ≢ panic
  synced-ends o (ok (local, peers, t)) h silent p =
      (reconcile-NoPanic s.env (update_peer_states t local peers o)
          (unfold update_peer_states in silent) strategy local).ends
        h
  synced-ends o (err e) h silent p = λ q. cc
  synced-ends o panic h silent p = absurd (p refl)

  sync_state-ends :
      (o : Orchestrator) (h : History)
      → o.config.debug ≡ false
      → (sync_state s strategy o h).outcome ≢ panic
  unfolding sync_state
  sync_state-ends o h silent =
      synced-ends o (gather s strategy o h).0 (gather s strategy o h).1 silent
        ((gather-Gentle s strategy o).ends h)

  resume_unless_panic-ends :
      (r : Outcome (Unit {0})) (next : Orchestrator → History → Step) (o : Orchestrator)
      (h : History)
      → r ≢ panic
      → (next o h).outcome ≡ ok tt
      → (resume_unless_panic s strategy r next o h).outcome ≡ ok tt
  resume_unless_panic-ends (ok _) next o h p e = e
  resume_unless_panic-ends (err _) next o h p e = e
  resume_unless_panic-ends panic next o h p e = absurd (p refl)

  syncs-ends :
      (n : ℕ) (o : Orchestrator) (h : History)
      → o.config.debug ≡ false
      → (syncs s strategy n o h).outcome ≡ ok tt
  unfolding syncs
  syncs-ends zero o h silent = refl
  syncs-ends (suc n) o h silent =
      let first = sync_state s strategy o h in
      resume_unless_panic-ends first.outcome (syncs s strategy n) first.after first.history
        (sync_state-ends o h silent)
        (syncs-ends n first.after first.history (rw (sync_state-config s strategy o h) silent))

  -- Without debug logging, and with a positive --sync-interval, a process whose strategy has
  -- started runs until it is cancelled, and then ends without an error, in any number of ticks and
  -- whatever the surroundings answer: no cycle panics.
  pub run-ends :
      (ticks : ℕ) (o : Orchestrator) (h : History)
      → o.config.debug ≡ false
      → 0 < o.config.sync_interval
      → o.config.sync_interval < two_63
      → (run s strategy (ok tt) ticks o h).outcome ≡ ok tt
  unfolding run shutdown
  run-ends ticks o h silent above below = rw (positive above below) (
      resume_unless_panic-ends _ (shutdown s strategy) _ _
        (λ p. absurd (cc (syncs-ends (suc ticks) o h silent))) (stop_all-ok s strategy _ _))
    where
      positive :
          0 < o.config.sync_interval
          → o.config.sync_interval < two_63
          → non_positive o.config.sync_interval ≡ false
      positive a b = ground arith
