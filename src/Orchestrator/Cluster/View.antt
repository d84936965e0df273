-- ===== src/Orchestrator/Cluster/View.antt =====
-- What a pod sees behind `updatePeerStates`: its own state and those that its peers just sent.
use mathlib.Core.Bool.{false≢true}
use mathlib.Core.List.{Memᴰ}
use mathlib.Core.List.Memᴰ
use redis_orchestrator.Base.{
  ℕ, true, false, [], ◌∷◌, Option, none, some, ◌≡◌, ◌≢◌, ◌↔◌, ◌⊎◌, inl, inr, refl, sym, ap, ◌∙◌,
  Bool-cases,
}
use redis_orchestrator.Base.Text.{Bytes, str_eq, str_eq_iff, str_eq_refl}
use redis_orchestrator.Base.Dict.{Dict, lookup}
use redis_orchestrator.Base.Dict.Laws.{IsDict}
use redis_orchestrator.State.{PodState}
use redis_orchestrator.Orchestrator.{Orchestrator}
use redis_orchestrator.Orchestrator.Peers.{is_stale, update_peer_states}
use redis_orchestrator.Orchestrator.Peers.Update.{
  refreshed, lookup-update_peer_states, update_peer_states-IsDict,
}
use redis_orchestrator.Orchestrator.Reconcile.{states_of}

-- A state is in a map if some name leads to it.
abbrev pub Holds : Dict PodState → PodState → Type 0
Holds m x = (k : Bytes) × (lookup k m ≡ some x)

mem-states_of : (m : Dict PodState) (x : PodState) → IsDict m → Memᴰ x (states_of m) → Holds m x
unfolding states_of lookup
mem-states_of [] x d q = absurd (Memᴰ.not-nil q)
mem-states_of ((j, st) ∷ m) x (n, d) q = elim (Memᴰ.cases_cons q) [
  | inl e ↦ (j, rw (str_eq_refl j) (ap some (sym e)))
  | inr t ↦ let (k, f) = mem-states_of m x d t in (k, rw (differs k f) f)
]
  where
    differs : (k : Bytes) → lookup k m ≡ some x → str_eq j k ≡ false
    differs k f = elim (Bool-cases (str_eq j k)) [
      | inl e ↦ absurd (clash (rw ((str_eq_iff j k).0 e) at n) f)
      | inr e ↦ e
    ]
      where
        clash : lookup k m ≡ none → lookup k m ≡ some x → ⊥
        clash a b = cc

states_of-mem : (m : Dict PodState) (x : PodState) → Holds m x → Memᴰ x (states_of m)
unfolding states_of lookup
states_of-mem [] x (k, e) = absurd (cc)
states_of-mem ((j, st) ∷ m) x (k, e) = elim (Bool-cases (str_eq j k)) [
  | inl own ↦ Memᴰ.head (sym (injective (rw own at e)))
  | inr other ↦ Memᴰ.tail (states_of-mem m x (k, rw other at e))
]
  where
    injective : {a b : PodState} → some a ≡ some b → a ≡ b
    injective e = cc

module _ (t : ℕ) (local : PodState) (peers : Dict PodState) (o : Orchestrator) where
  -- The answers are maps with one entry for each name and none for the own name, and were sent in
  -- the last sixty seconds; every other state that is still remembered is older.
  pub record IsCurrent : Type 0 where
    pub answers : IsDict peers
    pub others : lookup o.config.pod_name peers ≡ none
    pub remembered : IsDict o.peer_states
    pub fresh : (k : Bytes) (x : PodState) → lookup k peers ≡ some x → is_stale t x ≡ false
    pub forgotten :
        (k : Bytes) (x : PodState)
        → lookup k o.peer_states ≡ some x
        → k ≢ o.config.pod_name
        → lookup k peers ≡ none
        → is_stale t x ≡ true

  next : Orchestrator
  next = update_peer_states t local peers o

  module _ (current : IsCurrent) where
    next-own : lookup o.config.pod_name next.peer_states ≡ some local
    unfolding next
    next-own =
        rw
          (
            lookup-update_peer_states t local peers o o.config.pod_name current.answers
                current.others current.remembered,
            str_eq_refl o.config.pod_name,
          )
          refl

    next-other :
        (k : Bytes)
        → str_eq k o.config.pod_name ≡ false
        → lookup k next.peer_states ≡ refreshed k t peers o.peer_states
    unfolding next
    next-other k other =
        rw
          (
            lookup-update_peer_states t local peers o k current.answers current.others
                current.remembered,
            other,
          )
          refl

    -- A peer that answered has the state that it sent, and one that did not has none.
    refreshed-some :
        (k : Bytes) (x : PodState)
        → lookup k peers ≡ some x
        → refreshed k t peers o.peer_states ≡ some x
    refreshed-some k x e = simp (e, current.fresh k x e) refl

    refreshed-none :
        (k : Bytes)
        → str_eq k o.config.pod_name ≡ false
        → lookup k peers ≡ none
        → refreshed k t peers o.peer_states ≡ none
    refreshed-none k other e = gone (lookup k o.peer_states) refl
      where
        gone :
            (r : Option PodState)
            → lookup k o.peer_states ≡ r
            → refreshed k t peers o.peer_states ≡ none
        gone none f = simp (e, f) refl
        gone (some x) f =
            simp
              (e, f, current.forgotten k x f (λ q. false≢true (sym other ∙ (str_eq_iff _ _).1 q)) e)
              refl

    next-Holds : (x : PodState) → Holds next.peer_states x → (x ≡ local) ⊎ Holds peers x
    next-Holds x (k, e) = elim (Bool-cases (str_eq k o.config.pod_name)) [
      | inl own ↦ inl (one (rw ((str_eq_iff _ _).0 own) at e) next-own)
      | inr other ↦ answered (lookup k peers) refl other
    ]
      where
        one : {r : Option PodState} {y : PodState} → r ≡ some x → r ≡ some y → x ≡ y
        one p q = cc

        same : {r : Option PodState} {y : PodState} → r ≡ some x → r ≡ some y → y ≡ x
        same p q = cc

        never : {r : Option PodState} → r ≡ some x → r ≡ none → ⊥
        never p q = cc

        answered :
            (r : Option PodState)
            → lookup k peers ≡ r
            → str_eq k o.config.pod_name ≡ false
            → (x ≡ local) ⊎ Holds peers x
        answered none f other = absurd (never e (next-other k other ∙ refreshed-none k other f))
        answered (some y) f other =
            inr (k, f ∙ ap some (same e (next-other k other ∙ refreshed-some k y f)))

    Holds-next : (x : PodState) → (x ≡ local) ⊎ Holds peers x → Holds next.peer_states x
    Holds-next x (inl e) = (o.config.pod_name, next-own ∙ ap some (sym e))
    Holds-next x (inr (k, e)) = (k, next-other k (other e) ∙ refreshed-some k x e)
      where
        clash : lookup k peers ≡ some x → lookup k peers ≡ none → ⊥
        clash a b = cc

        other : lookup k peers ≡ some x → str_eq k o.config.pod_name ≡ false
        other e = elim (Bool-cases (str_eq k o.config.pod_name)) [
          | inl own ↦
              absurd (clash e (ap (λ j. lookup j peers) ((str_eq_iff _ _).0 own) ∙ current.others))
          | inr f ↦ f
        ]

    -- Behind `updatePeerStates` the pod sees its own state and those that its peers just sent, and
    -- no others.
    pub mem-update_peer_states :
        (x : PodState)
        → Memᴰ x (states_of (update_peer_states t local peers o).peer_states)
          ↔ ((x ≡ local) ⊎ Holds peers x)
    unfolding next
    mem-update_peer_states x = (
      λ q. next-Holds x (
          mem-states_of next.peer_states x
            (update_peer_states-IsDict t local peers o current.remembered) q),
      λ h. states_of-mem next.peer_states x (Holds-next x h),
    )
