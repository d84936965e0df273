-- ===== src/Orchestrator/Reconcile/Safety.antt =====
-- What `reconcile` can do to Redis in any surroundings: at most one REPLICAOF, and a promotion only
-- for a pod that is entitled to it.
use mathlib.Core.Bool.{false≢true}
use redis_orchestrator.Base.{
  sym, ◌∙◌, ℕ, ◌+◌, ◌≤◌, ◌<◌, true, false, List, [], ◌∷◌, ◌≡◌, ◌≢◌, ◌⊎◌, inl, inr, refl, arith,
  ◌==◌, Option, none, some, Bool-cases,
}
use redis_orchestrator.Base.Lists.{length, select}
use redis_orchestrator.Base.Text.{str_eq, str_eq_iff}
use redis_orchestrator.Config.{election_mode_raft}
use redis_orchestrator.State.{PodState}
use redis_orchestrator.Outcome.{ok}
use redis_orchestrator.Effects.{Env, History}
use redis_orchestrator.Effects.Acts.{Effect, quiet, promoted, demoted, commands_of, promotions_of}
use redis_orchestrator.Effects.Trace.{role_commands, promotions}
use redis_orchestrator.Election.Order.Agreement.{IsFirst, head-IsFirst, IsFirst-SameKey}
use redis_orchestrator.Orchestrator.{Orchestrator, Strategy}
use redis_orchestrator.Orchestrator.Reconcile.{
  healthy_states, mastering, last_master, with_current_master, handle_masters, reconcile,
}
use redis_orchestrator.Orchestrator.Reconcile.Handlers.{
  Runs, idle-Runs, panic-Runs, handle_no_master-Runs, handle_single_master-Runs,
  handle_split_brain-Runs,
}
use redis_orchestrator.Orchestrator.Reconcile.RaftMode.{handle_raft_mode-Runs}

-- The pod leads: in Raft mode its strategy says so and its Redis is no master yet; otherwise no
-- healthy pod is a master, and its UID is that of the healthy pod that comes first.
abbrev pub Chosen : {env : Env} → Orchestrator → Strategy env → History → PodState → Type 0
Chosen o strategy h local =
    ((o.config.election_mode ≡ election_mode_raft)
      × ((strategy.is_leader h).0 ≡ ok true)
      × (local.is_master ≡ false))
    ⊎ ((o.config.election_mode ≢ election_mode_raft)
        × (select mastering (healthy_states o) ≡ [])
        × ((m : PodState) × IsFirst m (healthy_states o) × (m.pod_uid ≡ o.pod_uid)))

-- The pod may be promoted: it manages a Redis, --no-promote is not set, and it is chosen.
pub record Entitled {env : Env} (o : Orchestrator) (strategy : Strategy env) (h : History)
    (local : PodState) : Type 0 where
  pub manages : o.config.standalone ≡ false
  pub may : o.config.no_promote ≡ false
  pub chosen : Chosen o strategy h local

module _ (env : Env) (o : Orchestrator) (strategy : Strategy env) (local : PodState)
    (h : History) where
  handle_masters-Runs :
      o.config.election_mode ≢ election_mode_raft
      → Runs env
          (Entitled o strategy h local)
          (handle_masters env o strategy (healthy_states o) local)
          h
  handle_masters-Runs ne =
      unfold handle_masters in
      elim (Bool-cases (length (select mastering (healthy_states o)) == 0)) [
        | inl none_masters ↦ simp none_masters (
            handle_no_master-Runs env o (Entitled o strategy h local) h (healthy_states o) local
              (λ s m rest e n u. record {
                manages = s;
                may = n;
                chosen = inr (
                  ne,
                  empty (select mastering (healthy_states o)) none_masters,
                  (m, head-IsFirst _ e, u),
                );
              }))
        | inr some_masters ↦ elim (Bool-cases (length (select mastering (healthy_states o)) == 1)) [
          | inl one ↦ simp (some_masters, one) (single (last_master (healthy_states o)))
          | inr more ↦
              simp (some_masters, more) (handle_split_brain-Runs env o _ h (healthy_states o) local)
        ]
      ]
    where
      single :
          (current : Option PodState)
          → Runs env (Entitled o strategy h local) (with_current_master env o current local) h
      single none = panic-Runs env o _ h
      single (some master) = handle_single_master-Runs env o _ h master local

      empty : (l : List PodState) → (length l == 0) ≡ true → l ≡ []
      empty [] e = refl
      empty (x ∷ l) e = absurd (ground arith)

  -- `reconcile` has one effect on Redis, and a promotion only for a pod that is entitled to it.
  pub reconcile-Runs : Runs env (Entitled o strategy h local) (reconcile env o strategy local) h
  reconcile-Runs =
      unfold reconcile in
      elim (Bool-cases (length (healthy_states o) == 0)) [
        | inl nobody ↦ simp nobody (idle-Runs env o _ h)
        | inr somebody ↦ elim (Bool-cases (str_eq o.config.election_mode election_mode_raft)) [
          | inl raft ↦
              simp (somebody, raft)
                (handle_raft_mode-Runs env o (Entitled o strategy h local) strategy h local
                  (λ s n l m. record {
                    manages = s;
                    may = n;
                    chosen = inl ((str_eq_iff _ _).0 raft, l, m);
                  }))
          | inr other ↦
              simp (somebody, other)
                (handle_masters-Runs (λ e. false≢true (sym other ∙ (str_eq_iff _ _).1 e)))
        ]
      ]

  -- One call of `reconcile` sends Redis at most one REPLICAOF, whatever the surroundings answer.
  pub reconcile-role_commands :
      role_commands (reconcile env o strategy local h).1 ≤ role_commands h + 1
  reconcile-role_commands = let (e, acts, _) = reconcile-Runs in bound e _ acts.sent
    where
      bound : (e : Effect) {n : ℕ} (m : ℕ) → n ≡ commands_of e + m → n ≤ m + 1
      bound quiet m q = omega arith
      bound promoted m q = omega arith
      bound demoted m q = omega arith

  -- If `reconcile` asks Redis to become a master, then the pod manages a Redis, --no-promote is not
  -- set, and the pod is chosen: it is the Raft leader and no master yet; or, outside Raft mode, no
  -- healthy pod is a master and its UID is that of the first healthy pod in the election order.
  pub reconcile-Entitled :
      promotions h < promotions (reconcile env o strategy local h).1 → Entitled o strategy h local
  reconcile-Entitled more = let (e, acts, why) = reconcile-Runs in why (asks e acts.asked more)
    where
      asks : (e : Effect) {n m : ℕ} → n ≡ promotions_of e + m → m < n → e ≡ promoted
      asks quiet q lt = absurd (omega arith)
      asks promoted q lt = refl
      asks demoted q lt = absurd (omega arith)

  -- With --no-promote, and on a witness, `reconcile` never asks Redis to become a master.
  pub reconcile-no_promote :
      (o.config.no_promote ≡ true) ⊎ (o.config.standalone ≡ true)
      → promotions (reconcile env o strategy local h).1 ≡ promotions h
  reconcile-no_promote held =
      let (e, acts, why) = reconcile-Runs in refuse e acts.asked (λ p. why p)
    where
      refuse :
          (e : Effect) {n m : ℕ}
          → n ≡ promotions_of e + m
          → (e ≡ promoted → Entitled o strategy h local)
          → n ≡ m
      refuse quiet q why = omega arith
      refuse demoted q why = omega arith
      refuse promoted q why = absurd (clash (why refl))
        where
          clash : Entitled o strategy h local → ⊥
          clash w = elim held [
            | inl a ↦ false≢true (sym w.may ∙ a)
            | inr a ↦ false≢true (sym w.manages ∙ a)
          ]

  -- While the healthy pod that comes first runs with --no-promote, no pod outside Raft mode that
  -- sees the same healthy pods asks its Redis to become a master: the others wait for it, and it
  -- refuses. This holds also where no healthy pod is a master.
  pub no_promote_blocks :
      {m : PodState}
      → o.config.election_mode ≢ election_mode_raft
      → IsFirst m (healthy_states o)
      → (o.pod_uid ≡ m.pod_uid → o.config.no_promote ≡ true)
      → promotions (reconcile env o strategy local h).1 ≡ promotions h
  no_promote_blocks {m} ne first standby =
      let (e, acts, why) = reconcile-Runs in refuse e acts.asked (λ p. why p)
    where
      clash : Entitled o strategy h local → ⊥
      clash w = elim w.chosen [
        | inl (raft, _, _) ↦ ne raft
        | inr (_, _, (k, among, own)) ↦
            let same =
              IsFirst-SameKey (healthy_states o) (healthy_states o) (λ x. (λ q. q, λ q. q)) among
                first in
            false≢true (sym w.may ∙ standby (sym own ∙ same.pod_uid))
      ]

      refuse :
          (e : Effect) {n m : ℕ}
          → n ≡ promotions_of e + m
          → (e ≡ promoted → Entitled o strategy h local)
          → n ≡ m
      refuse quiet q why = omega arith
      refuse demoted q why = omega arith
      refuse promoted q why = absurd (clash (why refl))
