-- ===== src/Tests/Labels.antt =====
-- A pod that gains and loses the label.
use redis_orchestrator.Base.{[], inr, refl, some}
use redis_orchestrator.Effects.{Env}
use redis_orchestrator.Orchestrator.Labels.{ensure_master_label, remove_master_label}
use redis_orchestrator.Orchestrator.Labels.Stored.{
  stored_pod, IsFresh, Leaves, ensured, master_label-Leaves,
}
use redis_orchestrator.Tests.Data.{a_pod, working}
use redis_orchestrator.Tests.Peers.{own}

-- Kubernetes keeps the pod that it was given last.
abbrev keeping : Env
keeping = record working { pod_get = λ h _ _. some (stored_pod working.pod_update a_pod h) }

keeping-IsFresh : IsFresh keeping own a_pod
keeping-IsFresh h = inr refl

master_label-Leaves_example :
    Leaves keeping own a_pod (ensured keeping own a_pod []) [] (ensure_master_label keeping own [])
    × Leaves keeping own a_pod [] [] (remove_master_label keeping own [])
master_label-Leaves_example = master_label-Leaves keeping own a_pod [] keeping-IsFresh
