-- ===== src/Orchestrator/LoadBalancer.antt =====
-- The service that gives a pod an external address: `discoverLoadBalancerIP` and
-- `matchesSelectorWithPodName`. What the Kubernetes API answers is an argument; `none` is an error.
pub mod Selector
pub mod Discovery
use redis_orchestrator.Base.{
  List, [], ◌∷◌, Option, none, some, Bool, true, false, not, ◌&&◌, ◌||◌, if◌then◌else◌,
}
use redis_orchestrator.Base.Text.{Bytes, codes, str_eq}
use redis_orchestrator.Base.Dict.{Dict}
use redis_orchestrator.Outcome.{Outcome, ok, err, wrap, external}
use redis_orchestrator.Effects.{Pod}
use redis_orchestrator.Orchestrator.Labels.{label_of}

-- What the code reads of an ingress and of a service.
pub record Ingress : Type 0 where
  pub ip : Bytes
  pub hostname : Bytes

pub record Service : Type 0 where
  pub service_name : Bytes
  pub service_type : Bytes
  pub selector : Dict Bytes
  pub ingress : List Ingress

abbrev pub load_balancer_type : Bytes
load_balancer_type = codes "LoadBalancer"

-- The keys of `podNameSelectorKeys`.
abbrev pub is_pod_name_key : Bytes → Bool
is_pod_name_key key =
    str_eq key (codes "statefulset.kubernetes.io/pod-name")
    || (str_eq key (codes "pod-name") || str_eq key (codes "pod"))

-- What a matching service returns, if its first ingress is missing or has an address.
unfoldable pub address_of : Bytes → List Ingress → Option (Bytes × Bytes)
address_of name [] = some ([], name)
address_of name (first ∷ _) =
    if not (str_eq first.ip [])
    then some (first.ip, name)
    else if not (str_eq first.hostname [])
    then some ([], name)
    else none

abbrev pub or_next : Option (Bytes × Bytes) → Bytes × Bytes → Bytes × Bytes
or_next none next = next
or_next (some found) next = found

module _ (pod_labels : Option (Dict Bytes)) (pod_name : Bytes) where
  -- The first loop: `none` is its early return.
  unfoldable pub check_selectors : Bool → Dict Bytes → Option Bool
  check_selectors matched [] = some matched
  check_selectors matched ((key, value) ∷ selector) =
      if not (str_eq (label_of key pod_labels) value)
      then none
      else check_selectors (matched || (is_pod_name_key key && str_eq value pod_name)) selector

  -- The fallback loop.
  unfoldable pub names_pod : Dict Bytes → Bool
  names_pod [] = false
  names_pod ((key, value) ∷ selector) = if str_eq value pod_name then true else names_pod selector

  abbrev pub or_names_pod : Dict Bytes → Option Bool → Bool
  or_names_pod selector none = false
  or_names_pod selector (some matched) = if matched then true else names_pod selector

  unfoldable pub matches_selector_with_pod_name : Dict Bytes → Bool
  matches_selector_with_pod_name [] = false
  matches_selector_with_pod_name (entry ∷ selector) =
      or_names_pod (entry ∷ selector) (check_selectors false (entry ∷ selector))

  -- The loop over the services.
  unfoldable pub find_service : List Service → Bytes × Bytes
  find_service [] = ([], [])
  find_service (svc ∷ services) =
      let next = find_service services in
      if not (str_eq svc.service_type load_balancer_type)
      then next
      else if not (matches_selector_with_pod_name svc.selector)
      then next
      else or_next (address_of svc.service_name svc.ingress) next

-- The external address, or none yet, and the name of the service.
unfoldable pub discover_load_balancer_ip :
    Bytes → Option Pod → Option (List Service) → Outcome (Bytes × Bytes)
discover_load_balancer_ip pod_name none services = err (wrap (codes "failed to get pod") external)
discover_load_balancer_ip pod_name (some pod) none =
    err (wrap (codes "failed to list services") external)
discover_load_balancer_ip pod_name (some pod) (some services) =
    ok (find_service pod.labels pod_name services)
