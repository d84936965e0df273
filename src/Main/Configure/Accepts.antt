-- ===== src/Main/Configure/Accepts.antt =====
-- Which flags main.go accepts, and that one flag changes nothing.
use mathlib.Core.Path.{◌≡◌, refl, sym, ap, ◌∙◌}
use redis_orchestrator.Base.{Bool, true, [], ◌≢◌, ◌↔◌, inl, inr, Bool-cases}
use redis_orchestrator.Base.Text.{Bytes, str_eq, str_eq_iff}
use redis_orchestrator.Config.{
  Config, ElectionMode, election_mode_deterministic, election_mode_raft,
}
use redis_orchestrator.Outcome.{Outcome, ok, ◌>>=◌, >>=-ext}
use redis_orchestrator.Main.Flags.{Flags}
use redis_orchestrator.Main.Configure.{
  check_mode, fill, check_names, bootstraps_by_name, check_raft, check_standalone, configure,
}
use redis_orchestrator.Main.Configure.Laws.{
  ne-str_eq, Selects, Resolved, bootstraps_by_name_lem, configure-Resolved,
}

-- Flags that name a known mode, a pod and its namespace; in Raft mode an address to bind; and a
-- witness only in Raft mode.
pub record IsAcceptable (f : Flags) : Type 0 where
  pub election_mode : (mode : ElectionMode) × Selects f.election_mode mode
  pub pod_name : f.cfg.pod_name ≢ []
  pub namespace : f.cfg.namespace ≢ []
  pub raft_bind_addr : f.election_mode ≡ election_mode_raft → f.cfg.raft_bind_addr ≢ []
  pub standalone : f.cfg.standalone ≡ true → f.election_mode ≡ election_mode_raft

check_mode-Selects :
    (text : Bytes) (mode : ElectionMode) → Selects text mode → check_mode text ≡ ok mode
unfolding check_mode str_eq
check_mode-Selects text mode (inl (e, inl d)) = rw (e, d) refl
check_mode-Selects text mode (inl (e, inr n)) = rw (e, n) refl
check_mode-Selects text mode (inr (e, r)) = rw (e, r) refl

-- Only the text "raft" names the Raft mode.
modes_differ : election_mode_deterministic ≢ election_mode_raft
modes_differ e = cc

names_raft :
    (text : Bytes) (mode : ElectionMode)
    → Selects text mode
    → (mode ≡ election_mode_raft) ↔ (text ≡ election_mode_raft)
names_raft text mode (inl (e, inl d)) = (λ r. d ∙ sym e ∙ r, λ r. e ∙ sym d ∙ r)
names_raft text mode (inl (e, inr n)) = (λ r. absurd (modes_differ (sym e ∙ r)), λ r. absurd (cc))
names_raft text mode (inr (e, r)) = (λ _. r, λ _. e)

check_raft-ok :
    (set : Bool) (cfg : Config)
    → (cfg.election_mode ≡ election_mode_raft → cfg.raft_bind_addr ≢ [])
    → (bootstrap : Bool) × (check_raft set cfg ≡ ok (record cfg { raft_bootstrap = bootstrap }))
unfolding check_raft
check_raft-ok set cfg bound = elim (Bool-cases (str_eq cfg.election_mode election_mode_raft)) [
  | inl r ↦
      (bootstraps_by_name set cfg, simp (r, ne-str_eq _ _ (bound ((str_eq_iff _ _).0 r))) refl)
  | inr r ↦ (cfg.raft_bootstrap, simp r refl)
]

check_standalone-ok :
    (cfg : Config)
    → (cfg.standalone ≡ true → cfg.election_mode ≡ election_mode_raft)
    → check_standalone cfg ≡ ok cfg
unfolding check_standalone
check_standalone-ok cfg witness = elim (Bool-cases cfg.standalone) [
  | inl s ↦ simp (s, (str_eq_iff _ _).1 (witness s)) refl
  | inr s ↦ simp s refl
]

check_names-ok : (cfg : Config) → cfg.pod_name ≢ [] → cfg.namespace ≢ [] → check_names cfg ≡ ok cfg
unfolding check_names
check_names-ok cfg p n = simp (ne-str_eq _ _ p, ne-str_eq _ _ n) refl

check_raft-set : (set other : Bool) (cfg : Config) → check_raft set cfg ≡ check_raft other cfg
unfolding check_raft
check_raft-set set other cfg = elim (Bool-cases (str_eq cfg.election_mode election_mode_raft)) [
  | inl r ↦ elim (Bool-cases (str_eq cfg.raft_bind_addr [])) [
    | inl b ↦ simp (r, b) refl
    | inr b ↦
        simp (r, b)
          (ap (λ (v : Bool). ok (record cfg { raft_bootstrap = v }))
            (bootstraps_by_name_lem set cfg ∙ sym (bootstraps_by_name_lem other cfg)))
  ]
  | inr r ↦ simp r refl
]

module _ (getenv : Bytes → Bytes) (f : Flags) where
  configure-accepts : IsAcceptable f → (cfg : Config) × (configure getenv f ≡ ok cfg)
  unfolding configure
  configure-accepts a =
      let (mode, s) = a.election_mode in
      let (to, from) = names_raft f.election_mode mode s in
      let filled = fill getenv f mode in
      let (bootstrap, e) =
        check_raft-ok f.raft_bootstrap_set filled (λ r. a.raft_bind_addr (to r)) in
      (
        record filled { raft_bootstrap = bootstrap },
        rw (check_mode-Selects f.election_mode mode s) (
            rw (check_names-ok filled a.pod_name a.namespace) (
              rw e (
                check_standalone-ok (record filled { raft_bootstrap = bootstrap })
                  (λ w. from (a.standalone w))))),
      )

  Resolved-IsAcceptable : (cfg : Config) → Resolved getenv f cfg → IsAcceptable f
  Resolved-IsAcceptable cfg r =
      let (to, from) = names_raft f.election_mode cfg.election_mode r.election_mode in
      record {
        election_mode = (cfg.election_mode, r.election_mode);
        pod_name = λ e. r.pod_name (ap (λ (c : Config). c.pod_name) r.given ∙ e);
        namespace = λ e. r.namespace (ap (λ (c : Config). c.namespace) r.given ∙ e);
        raft_bind_addr =
            λ t e. r.raft_bind_addr (from t) (ap (λ (c : Config). c.raft_bind_addr) r.given ∙ e);
        standalone = λ w. to (r.standalone (ap (λ (c : Config). c.standalone) r.given ∙ w));
      }

  -- main.go accepts its flags, whatever the environment is besides, exactly if --election-mode is
  -- deterministic, raft or empty; --pod-name and --namespace, which have their defaults from the
  -- environment, are not empty; --raft-bind is not empty in Raft mode; and --standalone comes with
  -- the Raft mode.
  pub configure_iff : ((cfg : Config) × (configure getenv f ≡ ok cfg)) ↔ IsAcceptable f
  configure_iff =
      (λ (cfg, e). Resolved-IsAcceptable cfg (configure-Resolved getenv f cfg e), configure-accepts)

  -- The flag --raft-bootstrap changes nothing.
  pub configure-raft_bootstrap_set :
      (set : Bool) → configure getenv (record f { raft_bootstrap_set = set }) ≡ configure getenv f
  unfolding configure
  configure-raft_bootstrap_set set = >>=-ext (check_mode f.election_mode) _ _ (λ mode.
      >>=-ext (check_names (fill getenv f mode)) _ _ (λ c.
        ap (λ (d : Outcome Config). d >>= check_standalone)
          (check_raft-set set f.raft_bootstrap_set c)))
