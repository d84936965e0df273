-- ===== src/Effects/Acts.antt =====
-- What a step did to the local Redis: nothing, one promotion, or one demotion.
use redis_orchestrator.Base.{ℕ, ◌+◌, Bool, true, false, List, ◌∷◌, ◌≡◌, refl, arith}
use redis_orchestrator.Base.Text.{Bytes}
use redis_orchestrator.Effects.{
  Pod, HttpRequest, redis_info, redis_ping, redis_do, redis_close, pod_get, pod_update, pod_list,
  http_do, read_clock, raft_read, raft_bootstrap, raft_shutdown, http_shutdown, service_list,
  History, Env,
}
use redis_orchestrator.Effects.Trace.{is_promotion, role_commands, promotions, redis_role}

pub data Effect : Type 0 where
  quiet promoted demoted : Effect

abbrev pub commands_of : Effect → ℕ
commands_of quiet = 0
commands_of promoted = 1
commands_of demoted = 1

abbrev pub promotions_of : Effect → ℕ
promotions_of promoted = 1
promotions_of _ = 0

abbrev pub role_of : Effect → Bool → Bool
role_of quiet role = role
role_of promoted role = true
role_of demoted role = false

-- Every command reaches Redis and succeeds.
abbrev pub IsReliable : Env → Type 0
IsReliable env = (h : History) (args : List Bytes) → env.redis_do h args ≡ true

pub record Acts (env : Env) (e : Effect) (h h' : History) : Type 0 where
  pub sent : role_commands h' ≡ commands_of e + role_commands h
  pub asked : promotions h' ≡ promotions_of e + promotions h
  pub role :
      IsReliable env → (start : Bool) → redis_role env start h' ≡ role_of e (redis_role env start h)

module _ (env : Env) where
  pub Acts-refl : (h : History) → Acts env quiet h h
  Acts-refl h = record { sent = omega arith; asked = omega arith; role = λ _ _. refl }

  pub Acts-trans :
      {e : Effect} {h h' h'' : History} → Acts env quiet h h' → Acts env e h' h'' → Acts env e h h''
  Acts-trans {e} a b = record {
    sent = omega (arith, a.sent, b.sent);
    asked = omega (arith, a.asked, b.asked);
    role = λ r start. rw (b.role r start, a.role r start);
  }

  pub trans-Acts :
      {e : Effect} {h h' h'' : History} → Acts env e h h' → Acts env quiet h' h'' → Acts env e h h''
  trans-Acts {e} a b = record {
    sent = omega (arith, a.sent, b.sent);
    asked = omega (arith, a.asked, b.asked);
    role = λ r start. rw (b.role r start, a.role r start);
  }

  -- Reads of Redis, and calls of Kubernetes.
  pub Acts-redis_info : (h : History) → Acts env quiet h (redis_info ∷ h)
  unfolding role_commands promotions redis_role
  Acts-redis_info h = record { sent = omega arith; asked = omega arith; role = λ _ _. refl }

  pub Acts-pod_get :
      (namespace name : Bytes) (h : History) → Acts env quiet h (pod_get namespace name ∷ h)
  unfolding role_commands promotions redis_role
  Acts-pod_get namespace name h = record {
    sent = omega arith;
    asked = omega arith;
    role = λ _ _. refl;
  }

  pub Acts-pod_update :
      (namespace : Bytes) (pod : Pod) (h : History)
      → Acts env quiet h (pod_update namespace pod ∷ h)
  unfolding role_commands promotions redis_role
  Acts-pod_update namespace pod h = record {
    sent = omega arith;
    asked = omega arith;
    role = λ _ _. refl;
  }

  pub Acts-promoted :
      (args : List Bytes) (h : History)
      → is_promotion args ≡ true
      → Acts env promoted h (redis_do args ∷ h)
  unfolding role_commands promotions redis_role
  Acts-promoted args h e = record {
    sent = omega arith;
    asked = ground arith;
    role = λ r start. rw (r h args, e);
  }

  pub Acts-demoted :
      (args : List Bytes) (h : History)
      → is_promotion args ≡ false
      → Acts env demoted h (redis_do args ∷ h)
  unfolding role_commands promotions redis_role
  Acts-demoted args h e = record {
    sent = omega arith;
    asked = ground arith;
    role = λ r start. rw (r h args, e);
  }

  pub Acts-redis_ping : (h : History) → Acts env quiet h (redis_ping ∷ h)
  unfolding role_commands promotions redis_role
  Acts-redis_ping h = record { sent = omega arith; asked = omega arith; role = λ _ _. refl }

  pub Acts-redis_close : (h : History) → Acts env quiet h (redis_close ∷ h)
  unfolding role_commands promotions redis_role
  Acts-redis_close h = record { sent = omega arith; asked = omega arith; role = λ _ _. refl }

  pub Acts-read_clock : (h : History) → Acts env quiet h (read_clock ∷ h)
  unfolding role_commands promotions redis_role
  Acts-read_clock h = record { sent = omega arith; asked = omega arith; role = λ _ _. refl }

  pub Acts-pod_list :
      (namespace selector : Bytes) (h : History)
      → Acts env quiet h (pod_list namespace selector ∷ h)
  unfolding role_commands promotions redis_role
  Acts-pod_list namespace selector h = record {
    sent = omega arith;
    asked = omega arith;
    role = λ _ _. refl;
  }

  pub Acts-http_do : (req : HttpRequest) (h : History) → Acts env quiet h (http_do req ∷ h)
  unfolding role_commands promotions redis_role
  Acts-http_do req h = record { sent = omega arith; asked = omega arith; role = λ _ _. refl }

  pub Acts-raft_read : (h : History) → Acts env quiet h (raft_read ∷ h)
  unfolding role_commands promotions redis_role
  Acts-raft_read h = record { sent = omega arith; asked = omega arith; role = λ _ _. refl }

  -- What `shutdown` calls besides Redis.
  pub Acts-raft_shutdown : (h : History) → Acts env quiet h (raft_shutdown ∷ h)
  unfolding role_commands promotions redis_role
  Acts-raft_shutdown h = record { sent = omega arith; asked = omega arith; role = λ _ _. refl }

  pub Acts-http_shutdown : (h : History) → Acts env quiet h (http_shutdown ∷ h)
  unfolding role_commands promotions redis_role
  Acts-http_shutdown h = record { sent = omega arith; asked = omega arith; role = λ _ _. refl }

  pub Acts-raft_bootstrap :
      (id address : Bytes) (h : History) → Acts env quiet h (raft_bootstrap id address ∷ h)
  unfolding role_commands promotions redis_role
  Acts-raft_bootstrap id address h = record {
    sent = omega arith;
    asked = omega arith;
    role = λ _ _. refl;
  }

  pub Acts-service_list :
      (namespace : Bytes) (h : History) → Acts env quiet h (service_list namespace ∷ h)
  unfolding role_commands promotions redis_role
  Acts-service_list namespace h = record {
    sent = omega arith;
    asked = omega arith;
    role = λ _ _. refl;
  }
