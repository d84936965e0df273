-- ===== src/Orchestrator/Peers/Discovery.antt =====
-- What `discoverAndQueryPeers` returns, whatever the API and the peers answer.
use mathlib.Core.Path.{◌≡◌, refl, subst}
use redis_orchestrator.Base.{
  true, false, List, [], ◌∷◌, Option, none, some, Bool-cases, inl, inr, arith,
}
use redis_orchestrator.Base.Text.{str_eq}
use redis_orchestrator.Base.Dict.{Dict, lookup, lookup-insert}
use redis_orchestrator.Base.Dict.Laws.{IsDict, insert-IsDict}
use redis_orchestrator.State.{PodState}
use redis_orchestrator.Outcome.{ok}
use redis_orchestrator.Effects.Returns.{Returns, Returns-resume, Returns-any}
use redis_orchestrator.Effects.{Pod, History, pod_list, pure, attempt}
use redis_orchestrator.Orchestrator.{Orchestrator}
use redis_orchestrator.Orchestrator.Peers.{
  Setting, query_peer, is_queried, record_peer, visit, query_pods, with_pods,
  discover_and_query_peers,
}

module _ (s : Setting) (o : Orchestrator) where
  -- A map of peers: one entry for each name, none for this pod's own.
  abbrev pub IsPeers : Dict PodState → Type 0
  IsPeers states = IsDict states × (lookup o.config.pod_name states ≡ none)

  is_queried-other :
      (pod : Pod) → is_queried s o pod ≡ true → str_eq pod.pod_name o.config.pod_name ≡ false
  unfolding is_queried
  is_queried-other pod q = ground arith

  record_peer-IsPeers :
      (pod : Pod) (r : Option PodState) (states : Dict PodState)
      → is_queried s o pod ≡ true
      → IsPeers states
      → IsPeers (record_peer s o pod r states)
  record_peer-IsPeers pod none states q p = p
  record_peer-IsPeers pod (some st) states q (d, n) = (
    insert-IsDict pod.pod_name st states d,
    rw (lookup-insert pod.pod_name o.config.pod_name st states, is_queried-other pod q) n,
  )

  visit-IsPeers :
      (pod : Pod) (states : Dict PodState) (h : History)
      → IsPeers states
      → Returns IsPeers (visit s o pod states h).0
  unfolding visit
  visit-IsPeers pod states h p = elim (Bool-cases (is_queried s o pod)) [
    | inl q ↦ rw q (
        Returns-resume (λ _. Unit) IsPeers (attempt (query_peer s pod.pod_ip) h).0
          (λ r. pure (record_peer s o pod r states)) (attempt (query_peer s pod.pod_ip) h).1
          (Returns-any (attempt (query_peer s pod.pod_ip) h).0)
          (λ r _. record_peer-IsPeers pod r states q p))
    | inr q ↦ rw q p
  ]

  query_pods-IsPeers :
      (pods : List Pod) (states : Dict PodState) (h : History)
      → IsPeers states
      → Returns IsPeers (query_pods s o pods states h).0
  unfolding query_pods
  query_pods-IsPeers [] states h p = p
  query_pods-IsPeers (pod ∷ pods) states h p =
      Returns-resume IsPeers IsPeers (visit s o pod states h).0 (query_pods s o pods)
        (visit s o pod states h).1 (visit-IsPeers pod states h p)
        (λ next q. query_pods-IsPeers pods next (visit s o pod states h).1 q)

  with_pods-IsPeers : (r : Option (List Pod)) (h : History) → Returns IsPeers (with_pods s o r h).0
  unfolding lookup
  with_pods-IsPeers none h = tt
  with_pods-IsPeers (some pods) h = query_pods-IsPeers pods [] h (tt, refl)

  -- If `discoverAndQueryPeers` returns a map, then whatever the Kubernetes API listed and the pods
  -- answered, the map has one entry for each name and none under the orchestrator's own name.
  pub discover_and_query_peers-IsPeers :
      (h h' : History) (peers : Dict PodState)
      → discover_and_query_peers s o h ≡ (ok peers, h')
      → IsPeers peers
  unfolding discover_and_query_peers
  discover_and_query_peers-IsPeers h h' peers e =
      subst (λ r. Returns IsPeers r.0) e
        (with_pods-IsPeers (s.env.pod_list h o.config.namespace o.config.label_selector)
          (pod_list o.config.namespace o.config.label_selector ∷ h))
