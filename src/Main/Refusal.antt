-- ===== src/Main/Refusal.antt =====
-- Flags that main.go refuses end the process before it calls anything.
use redis_orchestrator.Base.{
  ℕ, Bool, true, false, not, ◌||◌, [], List, ◌≡◌, ◌≢◌, inl, inr, if◌then◌else◌, refl,
}
use redis_orchestrator.Base.Text.{Bytes, codes, str_eq}
use redis_orchestrator.Config.{election_mode_raft}
use redis_orchestrator.Outcome.{Outcome, Error, ok, err, panic, Outcome-cases, ◌>>=◌}
use redis_orchestrator.Effects.{History}
use redis_orchestrator.Main.{Host, main}
use redis_orchestrator.Main.Flags.{Arg, Flags, default_flags, parse}
use redis_orchestrator.Main.Configure.{
  check_mode, fill, check_names, check_raft, check_standalone, configure,
}
use redis_orchestrator.Main.Configure.Accepts.{IsAcceptable, configure_iff}

-- A check does not panic.
abbrev pub Ends : {A : Type 0} → Outcome A → Type 0
Ends o = o ≢ panic

ok-Ends : {A : Type 0} (a : A) → Ends (ok a)
ok-Ends a e = cc

err-Ends : {A : Type 0} (e : Error) → Ends {A = A} (err e)
err-Ends x e = cc

if-Ends : {A : Type 0} {m n : Outcome A} (b : Bool) → Ends m → Ends n → Ends (if b then m else n)
if-Ends true p q = p
if-Ends false p q = q

>>=-Ends :
    {A B : Type 0} (o : Outcome A) (f : A → Outcome B)
    → Ends o
    → ((a : A) → Ends (f a))
    → Ends (o >>= f)
>>=-Ends (ok a) f p q = q a
>>=-Ends (err x) f p q = err-Ends x
>>=-Ends panic f p q = absurd (p refl)

-- The checks of the flags do not panic.
pub configure-Ends : (getenv : Bytes → Bytes) (f : Flags) → Ends (configure getenv f)
unfolding configure check_mode check_names check_raft check_standalone
configure-Ends getenv f =
    >>=-Ends (check_mode f.election_mode) _
      (if-Ends (str_eq f.election_mode (codes "deterministic") || str_eq f.election_mode [])
        (ok-Ends _) (if-Ends (str_eq f.election_mode (codes "raft")) (ok-Ends _) (err-Ends _)))
      (λ mode.
        >>=-Ends (check_names (fill getenv f mode)) _
          (if-Ends (str_eq f.cfg.pod_name []) (err-Ends _)
            (if-Ends (str_eq f.cfg.namespace []) (err-Ends _) (ok-Ends _)))
          (λ c.
            >>=-Ends (check_raft f.raft_bootstrap_set c) _
              (if-Ends (str_eq c.election_mode election_mode_raft)
                (if-Ends (str_eq c.raft_bind_addr []) (err-Ends _) (ok-Ends _)) (ok-Ends _))
              (λ d.
                if-Ends d.standalone
                  (if-Ends (not (str_eq d.election_mode election_mode_raft)) (err-Ends _)
                    (ok-Ends _))
                  (ok-Ends _))))

-- A process whose flags are not acceptable ends with an error, and has called nothing: no
-- Kubernetes API, no Redis, no peer.
pub main-refused :
    (host : Host) (args : List Arg) (ticks : ℕ) (h : History)
    → (IsAcceptable (parse args (default_flags host.getenv)) → ⊥)
    → (why : Error) × (main host args ticks h ≡ (err why, h))
unfolding main
main-refused host args ticks h refused =
    let flags = parse args (default_flags host.getenv) in
    elim (Outcome-cases (configure host.getenv flags)) [
      | inl (cfg, e) ↦ absurd (refused ((configure_iff host.getenv flags).0 (cfg, e)))
      | inr (inl (x, e)) ↦ (x, rw e refl)
      | inr (inr e) ↦ absurd (configure-Ends host.getenv flags e)
    ]
