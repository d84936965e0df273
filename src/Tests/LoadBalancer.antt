-- ===== src/Tests/LoadBalancer.antt =====
-- A service for one pod.
use mathlib.Core.List.{Memᴰ}
use redis_orchestrator.Base.{[], ◌∷◌, some, ◌≡◌, ◌≢◌, ◌↔◌, refl, true}
use redis_orchestrator.Base.Text.{Bytes, codes, str_eq}
use redis_orchestrator.Base.Dict.{Dict, lookup}
use redis_orchestrator.Outcome.{ok}
use redis_orchestrator.Effects.{Pod}
use redis_orchestrator.Orchestrator.Labels.{label_of}
use redis_orchestrator.Orchestrator.LoadBalancer.{
  Service, load_balancer_type, check_selectors, names_pod, matches_selector_with_pod_name,
  address_of, find_service, discover_load_balancer_ip,
}
use redis_orchestrator.Orchestrator.LoadBalancer.Selector.{
  HasLabels, Names, matches_selector_with_pod_name_iff,
}
use redis_orchestrator.Orchestrator.LoadBalancer.Discovery.{Gives, discover_load_balancer_ip-Gives}
use redis_orchestrator.Tests.Data.{a_pod}

abbrev one_pod : Dict Bytes
one_pod = (codes "pod-name", codes "redis-0") ∷ []

abbrev named_pod : Pod
named_pod = record a_pod { labels = some one_pod }

abbrev outer : Service
outer = record {
  service_name = codes "redis-0-lb";
  service_type = load_balancer_type;
  selector = one_pod;
  ingress = (record { ip = codes "192.0.2.1"; hostname = [] }) ∷ [];
}

matches_selector_with_pod_name_iff_example :
    (matches_selector_with_pod_name named_pod.labels (codes "redis-0") one_pod ≡ true) ↔ (
      HasLabels named_pod.labels (codes "redis-0") one_pod
      × Names named_pod.labels (codes "redis-0") one_pod)
matches_selector_with_pod_name_iff_example =
    matches_selector_with_pod_name_iff named_pod.labels (codes "redis-0") one_pod

some_address : codes "192.0.2.1" ≢ []
some_address e = cc

found :
    discover_load_balancer_ip (codes "redis-0") (some named_pod) (some (outer ∷ []))
    ≡ ok (codes "192.0.2.1", codes "redis-0-lb")
unfolding discover_load_balancer_ip find_service matches_selector_with_pod_name check_selectors
    names_pod address_of label_of lookup str_eq
found = refl

discover_load_balancer_ip-Gives_example :
    (svc : Service) × Memᴰ svc (outer ∷ [])
    × Gives named_pod.labels (codes "redis-0") (codes "192.0.2.1") (codes "redis-0-lb") svc
discover_load_balancer_ip-Gives_example =
    discover_load_balancer_ip-Gives (codes "redis-0") named_pod (outer ∷ []) (codes "192.0.2.1")
      (codes "redis-0-lb") some_address found
