-- ===== src/Main/Configure/Laws.antt =====
-- What a configuration that main.go accepts is, and which flags it accepts.
use mathlib.Core.Bool.{false≢true}
use mathlib.Core.Path.{◌≡◌, refl, sym, ap, ◌∙◌, subst}
use redis_orchestrator.Base.{
  Bool, true, false, not, List, [], ◌++◌, ◌≢◌, ◌↔◌, ◌⊎◌, inl, inr, Bool-cases, if◌then◌else◌,
}
use redis_orchestrator.Base.Text.{Bytes, codes, str_eq, str_eq_iff}
use redis_orchestrator.Config.{
  Config, ElectionMode, election_mode_deterministic, election_mode_raft,
}
use redis_orchestrator.Outcome.{ok}
use redis_orchestrator.Effects.Returns.{Returns, Returns-bind, Returns-imp}
use redis_orchestrator.Main.Flags.{Flags}
use redis_orchestrator.Main.Configure.{
  check_mode, peers_of, or_environment, has_suffix, fill, check_names, bootstraps_by_name,
  check_raft, check_standalone, configure,
}
use redis_orchestrator.Main.Configure.Text.{has_suffix_iff, join_comma, join_comma-split_comma}

str_eq-ne : {a b : Bytes} → str_eq a b ≡ false → a ≢ b
str_eq-ne {a} {b} f e = false≢true (sym f ∙ (str_eq_iff a b).1 e)

pub ne-str_eq : (a b : Bytes) → a ≢ b → str_eq a b ≡ false
ne-str_eq a b n = elim (Bool-cases (str_eq a b)) [
  | inl e ↦ absurd (n ((str_eq_iff a b).0 e))
  | inr f ↦ f
]

-- The mode that the text of --election-mode names; the empty text is the deterministic one.
abbrev pub Selects : Bytes → ElectionMode → Type 0
Selects text mode =
    ((mode ≡ election_mode_deterministic) × ((text ≡ election_mode_deterministic) ⊎ (text ≡ [])))
    ⊎ ((mode ≡ election_mode_raft) × (text ≡ election_mode_raft))

-- A configuration that these flags and this environment give.
pub record Resolved (getenv : Bytes → Bytes) (f : Flags) (cfg : Config) : Type 0 where
  pub pod_name : cfg.pod_name ≢ []
  pub namespace : cfg.namespace ≢ []
  pub election_mode : Selects f.election_mode cfg.election_mode
  pub raft_bind_addr : cfg.election_mode ≡ election_mode_raft → cfg.raft_bind_addr ≢ []
  pub raft_bootstrap :
      cfg.election_mode ≡ election_mode_raft
      → (cfg.raft_bootstrap ≡ true) ↔ ((before : Bytes) × (cfg.pod_name ≡ before ++ codes "-0"))
  pub raft_peers : f.raft_peers_str ≢ [] → join_comma cfg.raft_peers ≡ f.raft_peers_str
  pub standalone : cfg.standalone ≡ true → cfg.election_mode ≡ election_mode_raft
  pub shared_secret :
      cfg.shared_secret ≡ [] → (f.cfg.shared_secret ≡ []) × (getenv (codes "SHARED_SECRET") ≡ [])
  pub given : cfg ≡ record f.cfg {
    election_mode = cfg.election_mode;
    raft_peers = cfg.raft_peers;
    redis_password = cfg.redis_password;
    shared_secret = cfg.shared_secret;
    raft_bootstrap = cfg.raft_bootstrap;
  }

check_mode-Returns : (text : Bytes) → Returns (Selects text) (check_mode text)
unfolding check_mode
check_mode-Returns text = elim (Bool-cases (str_eq text (codes "deterministic"))) [
  | inl d ↦ simp d (inl (refl, inl ((str_eq_iff _ _).0 d)))
  | inr d ↦ elim (Bool-cases (str_eq text [])) [
    | inl n ↦ simp (d, n) (inl (refl, inr ((str_eq_iff _ _).0 n)))
    | inr n ↦ elim (Bool-cases (str_eq text (codes "raft"))) [
      | inl r ↦ simp (d, n, r) (inr (refl, (str_eq_iff _ _).0 r))
      | inr r ↦ simp (d, n, r) tt
    ]
  ]
]

abbrev Named : Config → Config → Type 0
Named cfg c = (c ≡ cfg) × (cfg.pod_name ≢ []) × (cfg.namespace ≢ [])

check_names-Returns : (cfg : Config) → Returns (Named cfg) (check_names cfg)
unfolding check_names
check_names-Returns cfg = elim (Bool-cases (str_eq cfg.pod_name [])) [
  | inl p ↦ simp p tt
  | inr p ↦ elim (Bool-cases (str_eq cfg.namespace [])) [
    | inl n ↦ simp (p, n) tt
    | inr n ↦ simp (p, n) (refl, str_eq-ne p, str_eq-ne n)
  ]
]

abbrev Rafted : Bool → Config → Config → Type 0
Rafted set cfg c =
    (bootstrap : Bool) × (c ≡ record cfg { raft_bootstrap = bootstrap })
    × (cfg.election_mode ≡ election_mode_raft
        → (cfg.raft_bind_addr ≢ []) × (bootstrap ≡ bootstraps_by_name set cfg))

check_raft-Returns : (set : Bool) (cfg : Config) → Returns (Rafted set cfg) (check_raft set cfg)
unfolding check_raft
check_raft-Returns set cfg = elim (Bool-cases (str_eq cfg.election_mode election_mode_raft)) [
  | inl r ↦ elim (Bool-cases (str_eq cfg.raft_bind_addr [])) [
    | inl b ↦ simp (r, b) tt
    | inr b ↦ simp (r, b) (bootstraps_by_name set cfg, refl, λ _. (str_eq-ne b, refl))
  ]
  | inr r ↦ simp r (cfg.raft_bootstrap, refl, λ e. absurd (str_eq-ne r e))
]

abbrev Checked : Config → Config → Type 0
Checked cfg c = (c ≡ cfg) × (cfg.standalone ≡ true → cfg.election_mode ≡ election_mode_raft)

check_standalone-Returns : (cfg : Config) → Returns (Checked cfg) (check_standalone cfg)
unfolding check_standalone
check_standalone-Returns cfg = elim (Bool-cases cfg.standalone) [
  | inl s ↦ elim (Bool-cases (str_eq cfg.election_mode election_mode_raft)) [
    | inl r ↦ simp (s, r) (refl, λ _. (str_eq_iff _ _).0 r)
    | inr r ↦ simp (s, r) tt
  ]
  | inr s ↦ simp s (refl, λ t. absurd (false≢true t))
]

-- The flag has no part in it.
pub bootstraps_by_name_lem :
    (set : Bool) (cfg : Config) → bootstraps_by_name set cfg ≡ has_suffix cfg.pod_name (codes "-0")
bootstraps_by_name_lem set cfg = elim (Bool-cases (has_suffix cfg.pod_name (codes "-0"))) [
  | inl s ↦ rw s (either set)
  | inr s ↦ rw s refl
]
  where
    either : (b : Bool) → (if not b then true else b) ≡ true
    either true = refl
    either false = refl

peers_of-join_comma :
    (text : Bytes) (old : List Bytes) → text ≢ [] → join_comma (peers_of text old) ≡ text
peers_of-join_comma text old n = rw (ne-str_eq text [] n) (join_comma-split_comma [] text)

or_environment-nil :
    (from_env given : Bytes) → or_environment from_env given ≡ [] → (given ≡ []) × (from_env ≡ [])
or_environment-nil from_env given e = elim (Bool-cases (str_eq from_env [])) [
  | inl n ↦ (rw n at e, (str_eq_iff _ _).0 n)
  | inr n ↦ elim (Bool-cases (str_eq given [])) [
    | inl g ↦ absurd (str_eq-ne n (rw (n, g) at e))
    | inr g ↦ absurd (str_eq-ne g (rw (n, g) at e))
  ]
]

module _ (getenv : Bytes → Bytes) (f : Flags) where
  resolves :
      (mode : ElectionMode) (bootstrap : Bool)
      → Selects f.election_mode mode
      → f.cfg.pod_name ≢ []
      → f.cfg.namespace ≢ []
      → (mode ≡ election_mode_raft
          → (f.cfg.raft_bind_addr ≢ [])
            × (bootstrap ≡ bootstraps_by_name f.raft_bootstrap_set (fill getenv f mode)))
      → (f.cfg.standalone ≡ true → mode ≡ election_mode_raft)
      → Resolved getenv f (record (fill getenv f mode) { raft_bootstrap = bootstrap })
  resolves mode bootstrap s p n raft witness = record {
    pod_name = p;
    namespace = n;
    election_mode = s;
    raft_bind_addr = λ e. (raft e).0;
    raft_bootstrap = λ e.
        rw ((raft e).1 ∙ bootstraps_by_name_lem f.raft_bootstrap_set (fill getenv f mode))
          (has_suffix_iff f.cfg.pod_name (codes "-0"));
    raft_peers = peers_of-join_comma f.raft_peers_str f.cfg.raft_peers;
    standalone = witness;
    shared_secret = or_environment-nil (getenv (codes "SHARED_SECRET")) f.cfg.shared_secret;
    given = refl;
  }

  configure-Returns : Returns (Resolved getenv f) (configure getenv f)
  unfolding configure
  configure-Returns =
      Returns-bind _ _ (check_mode f.election_mode) _ (check_mode-Returns f.election_mode)
        (λ mode s.
          Returns-bind _ _ (check_names (fill getenv f mode)) _
            (check_names-Returns (fill getenv f mode))
            (λ c (e, p, n).
              Returns-bind _ _ (check_raft f.raft_bootstrap_set c) check_standalone
                (check_raft-Returns f.raft_bootstrap_set c)
                (λ d (bootstrap, q, raft).
                  Returns-imp (Checked d) _ (check_standalone d)
                    (λ x (same, witness).
                      subst (Resolved getenv f)
                        (sym (
                          same
                          ∙ q
                          ∙ ap (λ (z : Config). record z { raft_bootstrap = bootstrap }) e))
                        (resolves mode bootstrap s p n (rw e at raft) (rw (q, e) at witness)))
                    (check_standalone-Returns d))))

  -- A configuration that main.go accepts has a pod name and a namespace, and the mode that
  -- --election-mode names. In Raft mode its bind address is not empty, and it bootstraps_by_name exactly if
  -- the pod's name ends in -0, whatever --raft-bootstrap says. If --raft-peers is not empty, then
  -- its peers with commas between them are that text. A witness is in Raft mode. The secret is
  -- empty only if the flag and the environment are. Besides the mode, the peers, the password, the
  -- secret and whether it bootstraps_by_name, it is as the flags give it.
  pub configure-Resolved : (cfg : Config) → configure getenv f ≡ ok cfg → Resolved getenv f cfg
  configure-Resolved cfg e = subst (Returns (Resolved getenv f)) e configure-Returns
