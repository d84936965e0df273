-- ===== src/Election/Raft/Leader.antt =====
-- What `ElectLeader` returns under Raft.
use mathlib.Core.Bool.{false≢true}
use mathlib.Core.Path.{◌≡◌, refl, sym, ap, ◌∙◌}
use mathlib.Core.List.{Memᴰ}
use mathlib.Core.List.Memᴰ
use redis_orchestrator.Base.{
  List, [], ◌∷◌, Option, none, some, true, ◌⊎◌, inl, inr, ◌≢◌, Bool-cases,
}
use redis_orchestrator.Base.Text.{Bytes, str_eq, str_eq_iff}
use redis_orchestrator.State.{PodState}
use redis_orchestrator.Outcome.{Outcome, ok, err, panic}
use redis_orchestrator.Effects.{raft_read, History, Env}
use redis_orchestrator.Election.Raft.{
  RaftStrategy, leader_state, is_leader, remember, find_uid, Election, or_local, elect_leader,
}

module _ (env : Env) where
  find_uid-found :
      (uid : Bytes) (states : List PodState) {st : PodState}
      → find_uid uid states ≡ some st
      → Memᴰ st states × (st.pod_uid ≡ uid)
  unfolding find_uid
  find_uid-found uid [] {st} e = absurd cc
  find_uid-found uid (x ∷ states) {st} e = elim (Bool-cases (str_eq x.pod_uid uid)) [
    | inl q ↦
        let same : some x ≡ some st = rw q at e in
        let own : st ≡ x = cc in
        (Memᴰ.head own, ap (λ (y : PodState). y.pod_uid) own ∙ (str_eq_iff x.pod_uid uid).0 q)
    | inr q ↦ let (m, u) = find_uid-found uid states (rw q at e) in (Memᴰ.tail m, u)
  ]

  find_uid-none :
      (uid : Bytes) (states : List PodState)
      → find_uid uid states ≡ none
      → (x : PodState) → Memᴰ x states
      → x.pod_uid ≢ uid
  unfolding find_uid
  find_uid-none uid [] e x m = absurd (Memᴰ.not-nil m)
  find_uid-none uid (y ∷ states) e x m = elim (Bool-cases (str_eq y.pod_uid uid)) [
    | inl q ↦ let found : some y ≡ none = rw q at e in absurd cc
    | inr q ↦ elim (Memᴰ.cases_cons m) [
      | inl own ↦ λ u.
          false≢true
            (sym q ∙ (str_eq_iff y.pod_uid uid).1 (ap (λ (z : PodState). z.pod_uid) (sym own) ∙ u))
      | inr later ↦ find_uid-none uid states (rw q at e) x later
    ]
  ]

  -- What the outcome says of the leader that Raft names.
  abbrev pub Leads : RaftStrategy → List PodState → PodState → History → Outcome Election → Type 0
  Leads r all_states local h (ok (ok st, after)) =
      (after.current_leader ≡ some st)
      × ((env.raft_leader h).0 ≢ [])
      × ((Memᴰ st all_states × (st.pod_uid ≡ (env.raft_leader h).1))
          ⊎ ((st ≡ local) × (env.raft_state (raft_read ∷ h) ≡ leader_state)))
  Leads r all_states local h (ok (err e, after)) =
      (after.current_leader ≡ r.current_leader)
      × (((env.raft_leader h).0 ≡ [])
          ⊎ (((x : PodState) → Memᴰ x all_states → x.pod_uid ≢ (env.raft_leader h).1)
              × (env.raft_state (raft_read ∷ h) ≢ leader_state)))
  Leads r all_states local h (ok (panic, after)) = ⊥
  Leads r all_states local h (err e) = ⊥
  Leads r all_states local h panic = ⊥

  -- Once Raft has been started, `ElectLeader` returns a pod among the candidates whose UID is the
  -- ID of the leader that Raft names, or the local pod if Raft says that this node leads, and keeps
  -- it as the current leader. It returns an error exactly if Raft names no leader, or no candidate
  -- has the leader's ID and this node does not lead; then the current leader stays as it was.
  pub elect_leader-Leads :
      (r : RaftStrategy) (all_states : List PodState) (local : PodState) (h : History)
      → r.started ≡ true
      → Leads r all_states local h (elect_leader env r all_states local h).0
  elect_leader-Leads r all_states local h started =
      unfold elect_leader in
      elim (Bool-cases (str_eq (env.raft_leader h).0 [])) [
        | inl nobody ↦
            simp (started, nobody) (refl, inl ((str_eq_iff (env.raft_leader h).0 []).0 nobody))
        | inr somebody ↦
            let named : (env.raft_leader h).0 ≢ [] =
              λ q. false≢true (sym somebody ∙ (str_eq_iff (env.raft_leader h).0 []).1 q) in
            simp (started, somebody) (found named (find_uid (env.raft_leader h).1 all_states) refl)
      ]
    where
      next : RaftStrategy
      next = record r { started = true; all_states = remember all_states r.all_states }

      found :
          (env.raft_leader h).0 ≢ []
          → (o : Option PodState) → find_uid (env.raft_leader h).1 all_states ≡ o
          → Leads r all_states local h (or_local env next local o (raft_read ∷ h)).0
      found named (some st) e =
          (refl, named, inl (find_uid-found (env.raft_leader h).1 all_states e))
      found named none e =
          unfold is_leader in
          elim (Bool-cases (str_eq (env.raft_state (raft_read ∷ h)) leader_state)) [
            | inl leads ↦ simp leads (
              refl,
              named,
              inr (refl, (str_eq_iff (env.raft_state (raft_read ∷ h)) leader_state).0 leads),
            )
            | inr follows ↦ simp follows (
              refl,
              inr (
                find_uid-none (env.raft_leader h).1 all_states e,
                λ q.
                    false≢true (
                      sym follows ∙ (str_eq_iff (env.raft_state (raft_read ∷ h)) leader_state).1 q),
              ),
            )
          ]
