-- ===== src/Orchestrator/Labels.antt =====
-- The label that marks the master's pod: `ensureMasterLabel` and `removeMasterLabel`.
pub mod Laws
pub mod Stored
use redis_orchestrator.Base.{Bool, true, false, List, [], ◌∷◌, Option, none, some, if◌then◌else◌}
use redis_orchestrator.Base.Text.{Bytes, codes, str_eq}
use redis_orchestrator.Base.Dict.{Dict, lookup, insert, delete}
use redis_orchestrator.Outcome.{external, wrap}
use redis_orchestrator.Effects.{Pod, pod_get, pod_update, Env, M, pure, fail, perform, ◌>>=◌}
use redis_orchestrator.Orchestrator.{Orchestrator, master_label, master_label_value}

-- `pod.Labels[key]`: a nil map and a missing key both read as the empty string.
unfoldable pub label_of : Bytes → Option (Dict Bytes) → Bytes
unfolding lookup
label_of key none = []
label_of key (some labels) = elim (lookup key labels) [ none ↦ [] | some value ↦ value ]

-- `if pod.Labels == nil { pod.Labels = make(…) }; pod.Labels[MasterLabel] = MasterLabelValue`
unfoldable pub with_master_label : Pod → Pod
unfolding insert
with_master_label pod = record pod {
  labels = some (
      insert master_label master_label_value
        (elim pod.labels [ none ↦ [] | some labels ↦ labels ]));
}

-- `delete(pod.Labels, MasterLabel)`
unfoldable pub without_master_label : Pod → Pod
unfolding delete
without_master_label pod = record pod {
  labels = elim pod.labels [ none ↦ none | some labels ↦ some (delete master_label labels) ];
}

abbrev found_pod : Option Pod → M Pod
found_pod none = fail (wrap (codes "failed to get pod") external)
found_pod (some pod) = pure pod

abbrev updated_pod : Bool → M (Unit {0})
updated_pod true = pure tt
updated_pod false = fail (wrap (codes "failed to update pod label") external)

module _ (env : Env) (o : Orchestrator) where
  unfoldable pub get_pod : M Pod
  get_pod = do
    found ←
        perform (pod_get o.config.namespace o.config.pod_name)
          (λ h. env.pod_get h o.config.namespace o.config.pod_name)
    found_pod found

  unfoldable pub update_pod : Pod → M (Unit {0})
  update_pod pod = do
    done ←
        perform (pod_update o.config.namespace pod) (λ h. env.pod_update h o.config.namespace pod)
    updated_pod done

  unfoldable pub ensure_master_label : M (Unit {0})
  unfolding get_pod update_pod label_of with_master_label str_eq
  ensure_master_label = if o.config.no_promote then pure tt else do
    pod ← get_pod
    if str_eq (label_of master_label pod.labels) master_label_value
        then pure tt
        else update_pod (with_master_label pod)

  unfoldable pub remove_master_label : M (Unit {0})
  unfolding get_pod update_pod label_of without_master_label str_eq
  remove_master_label = do
    pod ← get_pod
    if str_eq (label_of master_label pod.labels) []
        then pure tt
        else update_pod (without_master_label pod)
