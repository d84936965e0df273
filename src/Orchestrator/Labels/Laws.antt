-- ===== src/Orchestrator/Labels/Laws.antt =====
-- The label operations, and that they leave Redis alone.
use redis_orchestrator.Base.{
  Bool, true, false, [], ◌≡◌, inl, inr, arith, Option, none, some, if◌then◌else◌, Option-cases,
}
use redis_orchestrator.Base.Text.{Bytes, codes, str_eq}
use redis_orchestrator.Base.Dict.{lookup-insert, lookup-delete}
use redis_orchestrator.Outcome.{wrap, external}
use redis_orchestrator.Effects.{Pod, Env}
use redis_orchestrator.Effects.Acts.{Acts-pod_get, Acts-pod_update}
use redis_orchestrator.Effects.Gentle.{
  Gentle, Gentle-pure, Gentle-fail, Gentle-if, Gentle-perform, Gentle-bind,
}
use redis_orchestrator.Orchestrator.{Orchestrator, master_label, master_label_value}
use redis_orchestrator.Orchestrator.Labels.{
  found_pod, updated_pod, label_of, with_master_label, without_master_label, get_pod, update_pod,
  ensure_master_label, remove_master_label,
}

-- Setting the master label makes it read "master", and changes no other label.
pub label_of-with_master_label :
    (key : Bytes) (pod : Pod)
    → label_of key (with_master_label pod).labels
      ≡ (if str_eq master_label key then master_label_value else label_of key pod.labels)
unfolding label_of with_master_label
label_of-with_master_label key pod = elim (Option-cases pod.labels) [
  | inl e ↦ rw e (ground (arith, lookup-insert master_label key master_label_value []))
  | inr (labels, e) ↦
      rw e (ground (arith, lookup-insert master_label key master_label_value labels))
]

-- Removing the master label makes it read as missing, and changes no other label.
pub label_of-without_master_label :
    (key : Bytes) (pod : Pod)
    → label_of key (without_master_label pod).labels
      ≡ (if str_eq master_label key then [] else label_of key pod.labels)
unfolding label_of without_master_label
label_of-without_master_label key pod = elim (Option-cases pod.labels) [
  | inl e ↦ rw e (ground arith)
  | inr (labels, e) ↦ rw e (ground (arith, lookup-delete master_label key labels))
]

module _ (env : Env) (o : Orchestrator) where
  get_pod-Gentle : Gentle env (get_pod env o)
  unfolding get_pod
  get_pod-Gentle =
      Gentle-bind env _ _
        (Gentle-perform env _ _ (Acts-pod_get env o.config.namespace o.config.pod_name)) found
    where
      found : (r : Option Pod) → Gentle env (found_pod r)
      found none = Gentle-fail env (wrap (codes "failed to get pod") external)
      found (some pod) = Gentle-pure env pod

  update_pod-Gentle : (pod : Pod) → Gentle env (update_pod env o pod)
  unfolding update_pod
  update_pod-Gentle pod =
      Gentle-bind env _ _ (Gentle-perform env _ _ (Acts-pod_update env o.config.namespace pod))
        updated
    where
      updated : (r : Bool) → Gentle env (updated_pod r)
      updated true = Gentle-pure env tt
      updated false = Gentle-fail env (wrap (codes "failed to update pod label") external)

  pub ensure_master_label-Gentle : Gentle env (ensure_master_label env o)
  ensure_master_label-Gentle =
      unfold ensure_master_label in
      Gentle-if env o.config.no_promote (Gentle-pure env tt) (
        Gentle-bind env (get_pod env o) _ get_pod-Gentle
          (λ pod. Gentle-if env _ (Gentle-pure env tt) (update_pod-Gentle (with_master_label pod))))

  pub remove_master_label-Gentle : Gentle env (remove_master_label env o)
  remove_master_label-Gentle =
      unfold remove_master_label in
      Gentle-bind env (get_pod env o) _ get_pod-Gentle
        (λ pod. Gentle-if env _ (Gentle-pure env tt) (update_pod-Gentle (without_master_label pod)))
