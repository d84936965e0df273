-- ===== src/Orchestrator/Sync/Laws.antt =====
-- What the process can do to Redis in any number of cycles.
use mathlib.Core.Path.{◌≡◌, refl, ◌∙◌}
use redis_orchestrator.Base.{ℕ, suc, zero, ◌+◌, ◌≤◌, true, ◌⊎◌, arith, inl, inr, Bool-cases}
use redis_orchestrator.Base.Decimal.{two_63}
use redis_orchestrator.Base.Dict.{Dict}
use redis_orchestrator.State.{PodState}
use redis_orchestrator.Outcome.{Outcome, ok, err, panic}
use redis_orchestrator.Effects.{History}
use redis_orchestrator.Effects.Acts.{quiet, Acts}
use redis_orchestrator.Effects.Trace.{role_commands, promotions}
use redis_orchestrator.Orchestrator.{Orchestrator, Strategy}
use redis_orchestrator.Orchestrator.Peers.{Setting, update_peer_states}
use redis_orchestrator.Orchestrator.Reconcile.Safety.{reconcile-role_commands, reconcile-no_promote}
use redis_orchestrator.Orchestrator.Sync.{
  Step, gather, synced, resume_unless_panic, sync_state, syncs, shutdown, non_positive, run,
}
use redis_orchestrator.Orchestrator.Sync.Shutdown.{stop_all-Gentle}
use redis_orchestrator.Orchestrator.Sync.Gathering.{gather-Gentle}

-- The states of a process that never promotes.
abbrev IsStandby : Orchestrator → Type 0
IsStandby o = (o.config.no_promote ≡ true) ⊎ (o.config.standalone ≡ true)

-- What a stretch of the process keeps: the configuration, the promotions of a standby, a bound on
-- the commands.
record Keeps (bound : ℕ) (o : Orchestrator) (h : History) (step : Step) : Type 0 where
  pub same : step.after.config ≡ o.config
  pub sends : role_commands step.history ≤ role_commands h + bound
  pub holds : IsStandby o → promotions step.history ≡ promotions h

Keeps-quiet :
    (n : ℕ) (o : Orchestrator) (h h' : History) (r : Outcome (Unit {0}))
    → role_commands h' ≤ role_commands h
    → promotions h' ≡ promotions h
    → Keeps n o h (record { outcome = r; after = o; history = h' })
Keeps-quiet n o h h' r c p = record { same = refl; sends = omega (arith, c); holds = λ _. p }

Keeps-widen :
    {n m : ℕ} {o : Orchestrator} {h : History} {step : Step}
    → n ≤ m
    → Keeps n o h step
    → Keeps m o h step
Keeps-widen le a = record { same = a.same; sends = omega (arith, a.sends, le); holds = a.holds }

Keeps-trans :
    {n m : ℕ} {o : Orchestrator} {h : History} {first second : Step}
    → Keeps n o h first
    → Keeps m first.after first.history second
    → Keeps (n + m) o h second
Keeps-trans a b = record {
  same = b.same ∙ a.same;
  sends = omega (arith, a.sends, b.sends);
  holds = λ w. b.holds (rw a.same w) ∙ a.holds w;
}

module _ (s : Setting) (strategy : Strategy s.env) where
  synced-Keeps :
      (o : Orchestrator) (h : History) (r : Outcome (PodState × Dict PodState × ℕ)) (h' : History)
      → Acts s.env quiet h h'
      → Keeps 1 o h (synced s strategy o (r, h'))
  synced-Keeps o h (ok (local, peers, t)) h' a =
      let next = update_peer_states t local peers o in
      record {
        same = unfold update_peer_states in refl;
        sends = omega (arith, reconcile-role_commands s.env next strategy local h', a.sent);
        holds = λ w. omega (
          arith,
          reconcile-no_promote s.env next strategy local h' (unfold update_peer_states in w),
          a.asked,
        );
      }
  synced-Keeps o h (err e) h' a =
      Keeps-quiet 1 o h h' (err e) (omega (arith, a.sent)) (omega (arith, a.asked))
  synced-Keeps o h panic h' a =
      Keeps-quiet 1 o h h' panic (omega (arith, a.sent)) (omega (arith, a.asked))

  sync_state-Keeps : (o : Orchestrator) (h : History) → Keeps 1 o h (sync_state s strategy o h)
  unfolding sync_state
  sync_state-Keeps o h =
      synced-Keeps o h (gather s strategy o h).0 (gather s strategy o h).1
        ((gather-Gentle s strategy o).acts h)

  pub sync_state-config :
      (o : Orchestrator) (h : History) → (sync_state s strategy o h).after.config ≡ o.config
  sync_state-config o h = (sync_state-Keeps o h).same

  unless_panic-Keeps :
      {n m : ℕ} (o : Orchestrator) (h : History) (r : Outcome (Unit {0})) (o' : Orchestrator)
      (h' : History) (next : Orchestrator → History → Step)
      → Keeps n o h (record { outcome = r; after = o'; history = h' })
      → Keeps m o' h' (next o' h')
      → Keeps (n + m) o h (resume_unless_panic s strategy r next o' h')
  unless_panic-Keeps o h (ok _) o' h' next k f = Keeps-trans k f
  unless_panic-Keeps o h (err _) o' h' next k f = Keeps-trans k f
  unless_panic-Keeps {n} {m} o h panic o' h' next k f = Keeps-widen (omega arith) k

  syncs-Keeps : (n : ℕ) (o : Orchestrator) (h : History) → Keeps n o h (syncs s strategy n o h)
  unfolding syncs
  syncs-Keeps zero o h = Keeps-quiet 0 o h h (ok tt) (omega arith) refl
  syncs-Keeps (suc n) o h =
      let first = sync_state s strategy o h in
      Keeps-widen {n = 1 + n} (omega arith) (
        unless_panic-Keeps o h first.outcome first.after first.history (syncs s strategy n)
          (sync_state-Keeps o h) (syncs-Keeps n first.after first.history))

  shutdown-Keeps : (o : Orchestrator) (h : History) → Keeps 0 o h (shutdown s strategy o h)
  unfolding shutdown
  shutdown-Keeps o h =
      let stopping = (stop_all-Gentle s strategy o.config.standalone).acts h in
      Keeps-quiet 0 o h _ _ (omega (arith, stopping.sent)) (omega (arith, stopping.asked))

  run-Keeps :
      (started : Outcome (Unit {0})) (ticks : ℕ) (o : Orchestrator) (h : History)
      → Keeps (1 + ticks) o h (run s strategy started ticks o h)
  unfolding run
  run-Keeps (ok _) ticks o h =
      let all = syncs s strategy (suc ticks) o h in
      elim (Bool-cases (non_positive o.config.sync_interval)) [
        | inl n ↦ rw n (Keeps-quiet (1 + ticks) o h h panic (omega arith) refl)
        | inr p ↦ rw p (
            Keeps-widen {n = suc ticks + 0} (omega arith) (
              unless_panic-Keeps o h all.outcome all.after all.history (shutdown s strategy)
                (syncs-Keeps (suc ticks) o h) (shutdown-Keeps all.after all.history)))
      ]
  run-Keeps (err e) ticks o h = Keeps-quiet (1 + ticks) o h h _ (omega arith) refl
  run-Keeps panic ticks o h = Keeps-quiet (1 + ticks) o h h panic (omega arith) refl

  -- A process that runs with --no-promote, or as a witness, never asks Redis to become a master,
  -- in any number of cycles and whatever it reads.
  pub run-no_promote :
      (started : Outcome (Unit {0})) (ticks : ℕ) (o : Orchestrator) (h : History)
      → (o.config.no_promote ≡ true) ⊎ (o.config.standalone ≡ true)
      → promotions (run s strategy started ticks o h).history ≡ promotions h
  run-no_promote started ticks o h w = (run-Keeps started ticks o h).holds w

  -- A process that is cancelled after some ticks has sent Redis at most one REPLICAOF for each of its
  -- cycles, of which the first runs before the first tick.
  pub run-role_commands :
      (started : Outcome (Unit {0})) (ticks : ℕ) (o : Orchestrator) (h : History)
      → role_commands (run s strategy started ticks o h).history ≤ role_commands h + (1 + ticks)
  run-role_commands started ticks o h = (run-Keeps started ticks o h).sends

  -- A process whose strategy has started panics before its first cycle if --sync-interval is not
  -- positive.
  pub run-non_positive :
      (ticks : ℕ) (o : Orchestrator) (h : History)
      → (o.config.sync_interval ≡ 0) ⊎ (two_63 ≤ o.config.sync_interval)
      → run s strategy (ok tt) ticks o h ≡ record { outcome = panic; after = o; history = h }
  unfolding run
  run-non_positive ticks o h n = rw (late n) refl
    where
      late :
          (o.config.sync_interval ≡ 0) ⊎ (two_63 ≤ o.config.sync_interval)
          → non_positive o.config.sync_interval ≡ true
      late (inl z) = rw z refl
      late (inr l) = ground arith
