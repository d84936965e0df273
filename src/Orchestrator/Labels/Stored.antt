-- ===== src/Orchestrator/Labels/Stored.antt =====
-- What the label operations leave in Kubernetes, if nobody else writes the pod meanwhile.
use redis_orchestrator.Base.{
  Bool, true, false, [], ◌∷◌, ◌≡◌, ◌⊎◌, inl, inr, refl, sym, ap, ◌∙◌, none, some, if◌then◌else◌,
  Bool-cases,
}
use redis_orchestrator.Base.Text.{Bytes, str_eq, str_eq_iff}
use redis_orchestrator.Outcome.{Outcome, ok, err, panic}
use redis_orchestrator.Effects.{Pod, pod_get, pod_update, History, Env, M, pure, ◌>>=◌}
use redis_orchestrator.Orchestrator.{Orchestrator, master_label, master_label_value}
use redis_orchestrator.Orchestrator.Labels.{
  updated_pod, label_of, with_master_label, without_master_label, get_pod, update_pod,
  ensure_master_label, remove_master_label,
}
use redis_orchestrator.Orchestrator.Labels.Laws.{
  label_of-with_master_label, label_of-without_master_label,
}

-- The pod as the last update that Kubernetes took left it.
unfoldable pub stored_pod : (History → Bytes → Pod → Bool) → Pod → History → Pod
stored_pod takes start [] = start
stored_pod takes start (pod_update namespace pod ∷ h) =
    if takes h namespace pod then pod else stored_pod takes start h
stored_pod takes start (_ ∷ h) = stored_pod takes start h

-- The label reads as the value, and the others as they did.
abbrev Labelled : Bytes → Pod → Pod → Type 0
Labelled value before after =
    (key : Bytes)
    → label_of key after.labels
      ≡ (if str_eq master_label key then value else label_of key before.labels)

as_it_was :
    (value : Bytes) (pod : Pod) → label_of master_label pod.labels ≡ value → Labelled value pod pod
as_it_was value pod e key = elim (Bool-cases (str_eq master_label key)) [
  | inl same ↦
      rw same (ap (λ k. label_of k pod.labels) (sym ((str_eq_iff master_label key).0 same)) ∙ e)
  | inr other ↦ rw other refl
]

module _ (env : Env) (o : Orchestrator) (start : Pod) where
  -- Kubernetes answers a read with the stored pod, or fails.
  abbrev pub IsFresh : Type 0
  IsFresh =
      (h : History)
      → (env.pod_get h o.config.namespace o.config.pod_name ≡ none)
        ⊎ (env.pod_get h o.config.namespace o.config.pod_name
            ≡ some (stored_pod env.pod_update start h))

  abbrev pub Leaves : Bytes → History → Outcome (Unit {0}) × History → Type 0
  Leaves value h (ok _, h') =
      Labelled value (stored_pod env.pod_update start h) (stored_pod env.pod_update start h')
  Leaves value h (err e, h') =
      stored_pod env.pod_update start h' ≡ stored_pod env.pod_update start h
  Leaves value h (panic, h') = ⊥

  stored-update :
      (namespace : Bytes) (pod : Pod) (k : History)
      → stored_pod env.pod_update start (pod_update namespace pod ∷ k)
        ≡ (if env.pod_update k namespace pod then pod else stored_pod env.pod_update start k)
  unfolding stored_pod
  stored-update namespace pod k = refl

  update_pod-Leaves :
      (value : Bytes) (h k : History) (pod : Pod)
      → Labelled value (stored_pod env.pod_update start h) pod
      → stored_pod env.pod_update start k ≡ stored_pod env.pod_update start h
      → Leaves value h (update_pod env o pod k)
  unfolding update_pod
  update_pod-Leaves value h k pod changed same = go (env.pod_update k o.config.namespace pod) refl
    where
      go :
          (b : Bool)
          → env.pod_update k o.config.namespace pod ≡ b
          → Leaves value h (updated_pod b (pod_update o.config.namespace pod ∷ k))
      go true e = λ key. rw (stored-update o.config.namespace pod k, e) (changed key)
      go false e = rw (stored-update o.config.namespace pod k, e) same

  module _ (fresh : IsFresh) (value : Bytes) (settled : Pod → Bool) (change : Pod → Pod)
      (keeps : (pod : Pod) → settled pod ≡ true → label_of master_label pod.labels ≡ value)
      (changes : (pod : Pod) → Labelled value pod (change pod)) where
    relabel : M (Unit {0})
    relabel = do pod ← get_pod env o; if settled pod then pure tt else update_pod env o (change pod)

    relabel-Leaves : (h : History) → Leaves value h (relabel h)
    unfolding relabel get_pod stored_pod
    relabel-Leaves h = elim (fresh h) [
      | inl e ↦ rw e refl
      | inr e ↦ rw e (elim (Bool-cases (settled (stored_pod env.pod_update start h))) [
        | inl rests ↦ rw rests (as_it_was value (stored_pod env.pod_update start h) (keeps _ rests))
        | inr differs ↦ rw differs (
            update_pod-Leaves value h (pod_get o.config.namespace o.config.pod_name ∷ h)
              (change (stored_pod env.pod_update start h)) (changes _) refl)
      ])
    ]

  -- The value that `ensureMasterLabel` leaves: --no-promote leaves the label alone.
  abbrev pub ensured : History → Bytes
  ensured h =
      if o.config.no_promote
      then label_of master_label (stored_pod env.pod_update start h).labels
      else master_label_value

  ensure-Leaves : (h : History) → IsFresh → Leaves (ensured h) h (ensure_master_label env o h)
  unfolding ensure_master_label relabel
  ensure-Leaves h fresh = elim (Bool-cases o.config.no_promote) [
    | inl standby ↦ simp standby (as_it_was _ (stored_pod env.pod_update start h) refl)
    | inr active ↦ simp active (
        relabel-Leaves fresh master_label_value
          (λ pod. str_eq (label_of master_label pod.labels) master_label_value) with_master_label
          (λ pod. (str_eq_iff (label_of master_label pod.labels) master_label_value).0)
          (λ pod key. label_of-with_master_label key pod) h)
  ]

  -- Let nobody else write the pod, so that a read of it fails or gives what the last update left.
  -- Then `ensureMasterLabel`, if it returns no error, leaves the label reading "master", or as it
  -- was with --no-promote, and `removeMasterLabel` leaves it reading as missing; neither changes
  -- another label. With an error the pod is as it was.
  pub master_label-Leaves :
      (h : History)
      → IsFresh
      → Leaves (ensured h) h (ensure_master_label env o h)
        × Leaves [] h (remove_master_label env o h)
  unfolding remove_master_label relabel
  master_label-Leaves h fresh = (
    ensure-Leaves h fresh,
    relabel-Leaves fresh [] (λ pod. str_eq (label_of master_label pod.labels) [])
        without_master_label (λ pod. (str_eq_iff (label_of master_label pod.labels) []).0)
        (λ pod key. label_of-without_master_label key pod) h,
  )
