-- ===== src/Orchestrator/LoadBalancer/Discovery.antt =====
-- Which service gives the address.
use mathlib.Core.Path.{◌≡◌, refl, sym, ap}
use mathlib.Core.List.{Memᴰ}
use redis_orchestrator.Base.{
  List, [], ◌∷◌, Option, none, some, true, ◌≢◌, Bool-cases, inl, inr, ◌⊎◌,
}
use redis_orchestrator.Base.Text.{Bytes, str_eq, str_eq_iff}
use redis_orchestrator.Base.Dict.{Dict}
use redis_orchestrator.Outcome.{ok}
use redis_orchestrator.Effects.{Pod}
use redis_orchestrator.Orchestrator.LoadBalancer.{
  Ingress, Service, load_balancer_type, matches_selector_with_pod_name, address_of, find_service,
  or_next, discover_load_balancer_ip,
}
use redis_orchestrator.Orchestrator.LoadBalancer.Selector.{
  HasLabels, Names, matches_selector_with_pod_name_iff,
}

-- The service is a load balancer for the pod, and its first ingress has the address.
pub record Gives (labels : Option (Dict Bytes)) (pod_name ip name : Bytes) (svc : Service)
    : Type 0 where
  pub named : svc.service_name ≡ name
  pub balances : svc.service_type ≡ load_balancer_type
  pub has : HasLabels labels pod_name svc.selector
  pub names : Names labels pod_name svc.selector
  pub first : (i : Ingress) × (rest : List Ingress) × (svc.ingress ≡ i ∷ rest) × (i.ip ≡ ip)

-- What a service hands on, it hands on under its own name, from its first ingress.
address_of-first :
    (own : Bytes) (ingress : List Ingress) (ip name : Bytes)
    → ip ≢ []
    → address_of own ingress ≡ some (ip, name)
    → (own ≡ name) × ((i : Ingress) × (rest : List Ingress) × (ingress ≡ i ∷ rest) × (i.ip ≡ ip))
unfolding address_of
address_of-first own [] ip name some_ip e = absurd (some_ip cc)
address_of-first own (i ∷ rest) ip name some_ip e = elim (Bool-cases (str_eq i.ip [])) [
  | inr given ↦ let q = rw given at e in (cc, (i, rest, refl, cc))
  | inl missing ↦ elim (Bool-cases (str_eq i.hostname [])) [
    | inr host ↦ let q = rw (missing, host) at e in absurd (some_ip cc)
    | inl neither ↦ let q = rw (missing, neither) at e in absurd cc
  ]
]

module _ (labels : Option (Dict Bytes)) (pod_name : Bytes) where
  here :
      (svc : Service) (next : Bytes × Bytes) (ip name : Bytes)
      → ip ≢ []
      → svc.service_type ≡ load_balancer_type
      → matches_selector_with_pod_name labels pod_name svc.selector ≡ true
      → (r : Option (Bytes × Bytes)) → address_of svc.service_name svc.ingress ≡ r
      → or_next r next ≡ (ip, name)
      → Gives labels pod_name ip name svc ⊎ (next ≡ (ip, name))
  here svc next ip name some_ip t m none a e = inr e
  here svc next ip name some_ip t m (some found) a e =
      let (own, first) =
        address_of-first svc.service_name svc.ingress ip name some_ip (rw a (ap some e)) in
      let (has, names) = (matches_selector_with_pod_name_iff labels pod_name svc.selector).0 m in
      inl (record { named = own; balances = t; has = has; names = names; first = first })

  find_service-Gives :
      (services : List Service) (ip name : Bytes)
      → ip ≢ []
      → find_service labels pod_name services ≡ (ip, name)
      → (svc : Service) × Memᴰ svc services × Gives labels pod_name ip name svc
  unfolding find_service
  find_service-Gives [] ip name some_ip e =
      absurd (some_ip (sym (ap (λ (x : Bytes × Bytes). x.0) e)))
  find_service-Gives (svc ∷ services) ip name some_ip e =
      let rest = find_service-Gives services ip name some_ip in
      elim (Bool-cases (str_eq svc.service_type load_balancer_type)) [
        | inr t ↦ later rest (rw t at e)
        | inl t ↦ elim (Bool-cases (matches_selector_with_pod_name labels pod_name svc.selector)) [
          | inr m ↦ later rest (rw (t, m) at e)
          | inl m ↦
              elim (here svc (find_service labels pod_name services) ip name some_ip
                ((str_eq_iff svc.service_type load_balancer_type).0 t) m
                (address_of svc.service_name svc.ingress) refl (rw (t, m) at e)) [
                  | inl g ↦ (svc, Memᴰ.head refl, g)
                  | inr q ↦ later rest q
                ]
        ]
      ]
    where
      later :
          (find_service labels pod_name services ≡ (ip, name)
            → (x : Service) × Memᴰ x services × Gives labels pod_name ip name x)
          → find_service labels pod_name services ≡ (ip, name)
          → (x : Service) × Memᴰ x (svc ∷ services) × Gives labels pod_name ip name x
      later rest q = let (x, k, g) = rest q in (x, Memᴰ.tail k, g)

-- If an external address is found, then it is that of the first ingress of a service in the
-- namespace that is a load balancer, asks only for labels that the pod has, and names the pod; and
-- the name found with it is that service's.
pub discover_load_balancer_ip-Gives :
    (pod_name : Bytes) (pod : Pod) (services : List Service) (ip name : Bytes)
    → ip ≢ []
    → discover_load_balancer_ip pod_name (some pod) (some services) ≡ ok (ip, name)
    → (svc : Service) × Memᴰ svc services × Gives pod.labels pod_name ip name svc
unfolding discover_load_balancer_ip
discover_load_balancer_ip-Gives pod_name pod services ip name some_ip e =
    find_service-Gives pod.labels pod_name services ip name some_ip cc
