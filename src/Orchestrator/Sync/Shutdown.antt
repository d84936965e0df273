-- ===== src/Orchestrator/Sync/Shutdown.antt =====
-- `shutdown` sends no REPLICAOF, and returns no error.
use redis_orchestrator.Base.{Bool, true, false, ◌≡◌, refl, ◌∙◌, ap, if◌then◌else◌}
use redis_orchestrator.Outcome.{ok, external}
use redis_orchestrator.Redis.Client
use redis_orchestrator.Effects.{http_shutdown, redis_close, History, pure}
use redis_orchestrator.Effects.Acts.{Acts-http_shutdown, Acts-redis_close}
use redis_orchestrator.Effects.Gentle.{
  Gentle, Gentle-pure, Gentle-fail, Gentle-if, Gentle-perform, Gentle-bind, Gentle-attempt,
  attempt-runs,
}
use redis_orchestrator.Orchestrator.{Strategy}
use redis_orchestrator.Orchestrator.Peers.{Setting}
use redis_orchestrator.Orchestrator.Sync.{stop_server, stop_all}

module _ (s : Setting) (strategy : Strategy s.env) where
  stop_server-Gentle : Gentle s.env (stop_server s strategy)
  stop_server-Gentle =
      Gentle-bind s.env _ _
        (Gentle-perform s.env http_shutdown s.env.http_shutdown (Acts-http_shutdown s.env))
        (λ done. Gentle-if s.env done (Gentle-pure s.env tt) (Gentle-fail s.env external))

  -- `shutdown` sends no REPLICAOF.
  pub stop_all-Gentle : (standalone : Bool) → Gentle s.env (stop_all s strategy standalone)
  stop_all-Gentle standalone =
      Gentle-bind s.env _ _ (Gentle-attempt s.env strategy.stop strategy.stop_gentle) (λ _.
        Gentle-bind s.env _ _ (Gentle-attempt s.env (stop_server s strategy) stop_server-Gentle)
          (λ _.
            Gentle-if s.env standalone (Gentle-pure s.env tt)
              (Gentle-perform s.env redis_close (λ h. tt) (Acts-redis_close s.env))))

  -- Whatever fails in it, `shutdown` returns no error.
  pub stop_all-ok : (standalone : Bool) (h : History) → (stop_all s strategy standalone h).0 ≡ ok tt
  stop_all-ok standalone h =
      let (_, _, e) = attempt-runs s.env strategy.stop _ strategy.stop_gentle h in
      let (_, _, f) =
        attempt-runs s.env (stop_server s strategy) _ stop_server-Gentle (strategy.stop h).1 in
      ap (λ r. r.0) e ∙ ap (λ r. r.0) f ∙ closes standalone _
    where
      closes : (b : Bool) (k : History) → ((if b then pure tt else Client.close s.env) k).0 ≡ ok tt
      closes true k = refl
      closes false k = refl
