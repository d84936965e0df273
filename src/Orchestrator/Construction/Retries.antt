-- ===== src/Orchestrator/Construction/Retries.antt =====
-- Which of its attempts decides the address that `New` waits for.
use mathlib.Core.Bool.{false≢true}
use mathlib.Core.Path.{◌≡◌, refl, sym, ◌∙◌}
use redis_orchestrator.Base.{
  ℕ, suc, zero, ◌<◌, ◌+◌, List, [], ◌==◌, ◌⊎◌, inl, inr, ◌≢◌, Option, Bool-cases, arith, true,
}
use redis_orchestrator.Base.Text.{Bytes, codes, str_eq, str_eq_iff}
use redis_orchestrator.Config.{Config}
use redis_orchestrator.Outcome.{Outcome, ok, err, panic, wrap}
use redis_orchestrator.Effects.{History, Env}
use redis_orchestrator.Orchestrator.LoadBalancer.{Service}
use redis_orchestrator.Orchestrator.Construction.{discover, next_ip, discover_node_ip}
use redis_orchestrator.Orchestrator.Construction.Laws.{discover-ends}

-- An attempt after which `New` tries again: it failed, or found a service without an address.
abbrev pub Waits : Outcome (Bytes × Bytes) → Type 0
Waits (ok (ip, svc_name)) = (ip ≡ []) × (svc_name ≢ [])
Waits (err e) = Unit
Waits panic = ⊥

-- What `New` takes from an attempt that decides, with so many attempts left behind it: the address
-- that it found; the pod's own, if it found no service, or in the last one a service without an
-- address; and the error of the last one.
abbrev pub Decides : Bytes → ℕ → Outcome (Bytes × Bytes) → Outcome Bytes → Type 0
Decides pod_ip left (ok (ip, svc_name)) r =
    ((ip ≢ []) × (r ≡ ok ip)) ⊎ ((ip ≡ []) × ((svc_name ≡ []) ⊎ (left ≡ 0)) × (r ≡ ok pod_ip))
Decides pod_ip left (err e) r =
    (left ≡ 0) × (r ≡ err (wrap (codes "failed to discover LoadBalancer IP after 12 attempts") e))
Decides pod_ip left panic r = ⊥

module _ (env : Env) (list_services : History → Option (List Service)) (cfg : Config)
    (pod_ip : Bytes) where
  -- The history behind so many attempts.
  unfoldable pub behind : ℕ → History → History
  behind zero h = h
  behind (suc n) h = behind n (discover env list_services cfg h).1

  abbrev pub attempt_at : ℕ → History → Outcome (Bytes × Bytes)
  attempt_at n h = (discover env list_services cfg (behind n h)).0

  -- One of the attempts decides, and those before it wait.
  pub record Decided (attempts : ℕ) (h : History) (r : Outcome Bytes × History) : Type 0 where
    pub last : ℕ
    pub left : ℕ
    pub counted : last + suc left ≡ attempts
    pub waited : (i : ℕ) → i < last → Waits (attempt_at i h)
    pub decides : Decides pod_ip left (attempt_at last h) r.0
    pub ran : r.1 ≡ behind (suc last) h

  now-Decided :
      (left : ℕ) (h : History) (r : Outcome Bytes × History)
      → Decides pod_ip left (discover env list_services cfg h).0 r.0
      → r.1 ≡ (discover env list_services cfg h).1
      → Decided (suc left) h r
  unfolding behind
  now-Decided left h r d e = record {
    last = 0;
    left = left;
    counted = omega arith;
    waited = λ i below. absurd (omega (arith, below));
    decides = d;
    ran = e;
  }

  later-Decided :
      (attempts : ℕ) (h : History) (r : Outcome Bytes × History)
      → Waits (discover env list_services cfg h).0
      → Decided attempts (discover env list_services cfg h).1 r
      → Decided (suc attempts) h r
  unfolding behind
  later-Decided attempts h r w d = record {
    last = suc d.last;
    left = d.left;
    counted = omega (arith, d.counted);
    waited = earlier;
    decides = d.decides;
    ran = d.ran;
  }
    where
      earlier : (i : ℕ) → i < suc d.last → Waits (attempt_at i h)
      earlier zero below = w
      earlier (suc i) below = d.waited i (omega (arith, below))

  -- An attempt in front of the others, which may be none.
  module _ (left : ℕ) (h : History) where
    after : History
    after = (discover env list_services cfg h).1

    rest : History → Outcome Bytes × History
    rest = discover_node_ip env list_services cfg left pod_ip

    again :
        (left ≡ 0) ⊎ Decided left after (rest after)
        → (ip svc_name : Bytes) → (discover env list_services cfg h).0 ≡ ok (ip, svc_name)
        → ip ≡ []
        → svc_name ≢ []
        → Decided (suc left) h (rest after)
    unfolding after rest discover_node_ip
    again (inl z) ip svc_name e m w =
        now-Decided left h _ (rw e (inr (m, inr z, rw z refl))) (rw z refl)
    again (inr d) ip svc_name e m w = later-Decided left h _ (rw e (m, w)) d

    next_ip-Decided :
        (left ≡ 0) ⊎ Decided left after (rest after)
        → (d : Outcome (Bytes × Bytes)) → (discover env list_services cfg h).0 ≡ d
        → Decided (suc left) h (next_ip env list_services cfg left pod_ip d rest after)
    unfolding after
    next_ip-Decided others (ok (ip, svc)) e = elim (Bool-cases (str_eq ip [])) [
      | inr given ↦ rw given (
          now-Decided left h _
            (rw e (inl ((λ q. false≢true (sym given ∙ (str_eq_iff ip []).1 q)), refl))) refl)
      | inl missing ↦ elim (Bool-cases (str_eq svc [])) [
        | inl nothing ↦
            rw (missing, nothing)
              (now-Decided left h _
                (rw e
                  (inr ((str_eq_iff ip []).0 missing, inl ((str_eq_iff svc []).0 nothing), refl)))
                refl)
        | inr waits ↦
            rw (missing, waits)
              (again others ip svc e ((str_eq_iff ip []).0 missing)
                (λ q. false≢true (sym waits ∙ (str_eq_iff svc []).1 q)))
      ]
    ]
    next_ip-Decided (inl z) (err x) e = rw (is_last z) (now-Decided left h _ (rw e (z, refl)) refl)
      where
        is_last : left ≡ 0 → (left == 0) ≡ true
        is_last z = ground arith
    next_ip-Decided (inr d) (err x) e = elim (Bool-cases (left == 0)) [
      | inl l ↦ rw l (now-Decided left h _ (rw e (is_zero l, refl)) refl)
      | inr more ↦ rw more (later-Decided left h _ (rw e tt) d)
    ]
      where
        is_zero : (left == 0) ≡ true → left ≡ 0
        is_zero l = ground arith
    next_ip-Decided others panic e = absurd (discover-ends env list_services cfg h e)

  -- With at least one attempt, the attempts for the address run one after the other, each from what
  -- the one before left, and all but the last one that runs failed or found a service without an
  -- address. The last one gives the address: one that it found; the pod's own, if it found no
  -- service, or if no attempt is left and its service has none; or the error, if it failed and no
  -- attempt is left.
  pub discover_node_ip-Decided :
      (left : ℕ) (h : History)
      → Decided (suc left) h (discover_node_ip env list_services cfg (suc left) pod_ip h)
  unfolding discover_node_ip after rest
  discover_node_ip-Decided zero h = next_ip-Decided 0 h (inl refl) _ refl
  discover_node_ip-Decided (suc n) h =
      next_ip-Decided (suc n) h (inr (discover_node_ip-Decided n _)) _ refl

  never_panics :
      (left : ℕ) (d : Outcome (Bytes × Bytes)) (r : Outcome Bytes)
      → Decides pod_ip left d r
      → r ≢ panic
  never_panics left (ok (ip, svc)) r (inl (given, e)) = λ q. cc
  never_panics left (ok (ip, svc)) r (inr (missing, last, e)) = λ q. cc
  never_panics left (err x) r (last, e) = λ q. cc
  never_panics left panic r d = absurd d

  -- No attempt panics, nor do they together.
  pub discover_node_ip-ends :
      (left : ℕ) (h : History)
      → (discover_node_ip env list_services cfg (suc left) pod_ip h).0 ≢ panic
  discover_node_ip-ends left h =
      let decided = discover_node_ip-Decided left h in
      never_panics decided.left (attempt_at decided.last h) _ decided.decides
