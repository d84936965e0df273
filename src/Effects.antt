-- ===== src/Effects.antt =====
-- What surrounds the orchestrator: Redis behind go-redis, the Kubernetes API, the peers behind
-- net/http, the clock, and hashicorp/raft. None of them is code of this repository, so each is a
-- parameter: its answer is any function of the calls made so far. A call that can change something,
-- or whose answer can change, is kept in the history, newest first.
pub mod Acts
pub mod Gentle
pub mod Returns
pub mod Quiet
pub mod Panics
pub mod Trace
use redis_orchestrator.Base.{ℕ, Bool, true, false, List, [], ◌∷◌, Option, none, some, if◌then◌else◌}
use redis_orchestrator.Base.Text.{Bytes}
use redis_orchestrator.Base.Dict.{Dict}
use redis_orchestrator.Outcome.{Outcome, Error, wrap, external, ok, err, panic}

-- What the code reads of a Kubernetes pod; `labels` may be a nil map.
pub record Pod : Type 0 where
  pub pod_name : Bytes
  pub phase : Bytes
  pub pod_ip : Bytes
  pub uid : Bytes
  pub labels : Option (Dict Bytes)

pub record HttpRequest : Type 0 where
  pub method : Bytes
  pub url_host : Bytes
  pub url_path : Bytes
  pub headers : Dict Bytes
  pub body : Bytes

pub record HttpResponse : Type 0 where
  pub status_code : ℕ
  pub body : Bytes

-- What the code reads of a member of the Raft cluster. The state of Raft is its `String()`.
pub data Suffrage : Type 0 where
  voter nonvoter staging : Suffrage

pub record RaftServer : Type 0 where
  pub server_id : Bytes
  pub address : Bytes
  pub suffrage : Suffrage

pub data Call : Type 0 where
  redis_info : Call
  redis_ping : Call
  redis_do : List Bytes → Call
  redis_close : Call
  pod_get : Bytes → Bytes → Call
  pod_update : Bytes → Pod → Call
  pod_list : Bytes → Bytes → Call
  http_do : HttpRequest → Call
  read_clock : Call
  service_list : Bytes → Call
  raft_read : Call
  raft_add : Suffrage → Bytes → Bytes → Call
  raft_bootstrap : Bytes → Bytes → Call
  raft_shutdown : Call
  http_shutdown : Call

abbrev pub History : Type 0
History = List Call

-- The answers. `none` and `false` are an error.
pub record Env : Type 0 where
  pub redis_info : History → Option Bytes
  pub redis_ping : History → Bool
  pub redis_do : History → List Bytes → Bool
  pub pod_get : History → Bytes → Bytes → Option Pod
  pub pod_update : History → Bytes → Pod → Bool
  pub pod_list : History → Bytes → Bytes → Option (List Pod)
  pub http_do : History → HttpRequest → Option HttpResponse
  pub read_clock : History → ℕ
  pub raft_state : History → Bytes
  pub raft_last_index : History → ℕ
  pub raft_leader : History → Bytes × Bytes
  pub raft_shutdown : History → Bool
  pub http_shutdown : History → Bool
  pub raft_configuration : History → Option (List RaftServer)
  pub raft_add : History → Suffrage → Bytes → Bytes → Bool

-- A program: its outcome, and the history behind it.
abbrev pub M {ℓ} : Type ℓ → Type ℓ
M A = History → Outcome A × History

abbrev pub pure {ℓ} : {A : Type ℓ} → A → M A
pure a h = (ok a, h)

abbrev pub fail {ℓ} : {A : Type ℓ} → Error → M A
fail e h = (err e, h)

-- A call of the surroundings.
abbrev pub perform {ℓ} : {A : Type ℓ} → Call → (History → A) → M A
perform c answer h = (ok (answer h), c ∷ h)

abbrev pub resume {ℓ κ} : {A : Type ℓ} {B : Type κ} → Outcome A → (A → M B) → M B
resume (ok a) f h = f a h
resume (err e) f h = (err e, h)
resume panic f h = (panic, h)

infixl 5 ◌>>=◌ ◌>>◌
abbrev pub ◌>>=◌ {ℓ κ} : {A : Type ℓ} {B : Type κ} → M A → (A → M B) → M B
◌>>=◌ m f h = resume (m h).0 f (m h).1

abbrev pub ◌>>◌ {ℓ} : {B : Type ℓ} → M (Unit {0}) → M B → M B
m >> k = m >>= λ _. k

-- A step that only logging needs: it may panic, and its value is dropped.
abbrev pub lift {ℓ} : {A : Type ℓ} → Outcome A → M A
lift o h = (o, h)

-- `if err != nil { return fmt.Errorf("text: %w", err) }`
abbrev pub wrap_outcome {ℓ} : {A : Type ℓ} → Bytes → Outcome A → Outcome A
wrap_outcome text (ok a) = ok a
wrap_outcome text (err e) = err (wrap text e)
wrap_outcome text panic = panic

abbrev pub wrapping {ℓ} : {A : Type ℓ} → Bytes → M A → M A
wrapping text m h = (wrap_outcome text (m h).0, (m h).1)

-- `if err != nil { log }`: the error is a value.
abbrev pub caught {ℓ} : {A : Type ℓ} → Outcome A → Outcome (Option A)
caught (ok a) = ok (some a)
caught (err e) = ok none
caught panic = panic

abbrev pub attempt {ℓ} : {A : Type ℓ} → M A → M (Option A)
attempt m h = (caught (m h).0, (m h).1)
