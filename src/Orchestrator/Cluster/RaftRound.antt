-- ===== src/Orchestrator/Cluster/RaftRound.antt =====
-- A round of a cluster in Raft mode: the masters are the leaders.
use mathlib.Core.List.{Memᴰ}
use redis_orchestrator.Base.{true, List, ◌≡◌, ◌↔◌, refl, sym, ◌∙◌, ap}
use redis_orchestrator.Outcome.{ok}
use redis_orchestrator.Effects.Acts.{IsReliable}
use redis_orchestrator.Effects.Trace.{redis_role}
use redis_orchestrator.Orchestrator.Cluster.{Node, role_after}
use redis_orchestrator.Orchestrator.Reconcile.RaftMode.{Manages, reconcile-leads}

-- The node reaches its Redis, whose role is the one that it reports, and manages it in Raft mode.
pub record Ready (n : Node) : Type 0 where
  pub reliable : IsReliable n.env
  pub manages : Manages n.orchestrator
  pub reported : redis_role n.env n.start n.history ≡ n.local.is_master

-- Whether the node's strategy says that it leads, when `reconcile` asks.
abbrev pub Leads : Node → Type 0
Leads n = (n.strategy.is_leader n.history).0 ≡ ok true

master_iff-Leads : (n : Node) → Ready n → (role_after n ≡ true) ↔ Leads n
master_iff-Leads n ready =
    let (leads, e) = n.strategy.is_leader_answers n.history in
    let role =
      reconcile-leads n.env ready.reliable n.orchestrator ready.manages n.strategy n.start n.local
        n.history leads ready.reported e in
    (λ m. e ∙ ap ok (sym role ∙ m), λ l. cc)

-- Let the ready nodes of a cluster in Raft mode, without --no-promote and debug logging, agree with
-- one node that leads: a node's strategy says that it leads exactly if the node has that one's UID.
-- Then, whatever the roles were, after one round of `reconcile` that node is a master, and a node is
-- a master exactly if it has that UID.
pub raft_one_master :
    (ns : List Node) (leader : Node)
    → Memᴰ leader ns
    → ((n : Node) → Memᴰ n ns → Ready n)
    → ((n : Node) → Memᴰ n ns → Leads n ↔ (leader.orchestrator.pod_uid ≡ n.orchestrator.pod_uid))
    → (role_after leader ≡ true)
      × ((n : Node)
          → Memᴰ n ns
          → (role_after n ≡ true) ↔ (leader.orchestrator.pod_uid ≡ n.orchestrator.pod_uid))
raft_one_master ns leader k ready agree = (
  (master_iff-Leads leader (ready leader k)).1 ((agree leader k).1 refl),
  λ n q.
      let (to, from) = master_iff-Leads n (ready n q) in
      let (out, back) = agree n q in (λ m. out (to m), λ u. from (back u)),
)
