-- ===== src/Main/Configure.antt =====
-- From the flags to the configuration: the checks of main.go, and what it takes from the
-- environment.
pub mod Text
pub mod Laws
pub mod Accepts
use redis_orchestrator.Base.{
  ℕ, Bool, true, false, not, ◌&&◌, ◌||◌, List, [], ◌∷◌, ◌++◌, ◌==◌, if◌then◌else◌,
}
use redis_orchestrator.Base.Text.{Bytes, codes, str_eq}
use redis_orchestrator.Config.{
  Config, ElectionMode, election_mode_deterministic, election_mode_raft,
}
use redis_orchestrator.Outcome.{Outcome, ok, err, message, ◌>>=◌}
use redis_orchestrator.Main.Flags.{Flags}

-- The `switch` on --election-mode.
unfoldable pub check_mode : Bytes → Outcome ElectionMode
check_mode mode =
    if str_eq mode (codes "deterministic") || str_eq mode []
    then ok election_mode_deterministic
    else if str_eq mode (codes "raft")
    then ok election_mode_raft
    else err (
        message (
          codes "Invalid election mode: "
          ++ (mode ++ codes " (must be 'deterministic' or 'raft')")))

-- `strings.Split(s, ",")`, with the part read so far.
unfoldable pub split_comma : Bytes → Bytes → List Bytes
split_comma cur [] = cur ∷ []
split_comma cur (c ∷ s) = elim (c == b',') [
  | true ↦ cur ∷ split_comma [] s
  | false ↦ split_comma (cur ++ c ∷ []) s
]

abbrev pub peers_of : Bytes → List Bytes → List Bytes
peers_of raft_peers_str raft_peers =
    if not (str_eq raft_peers_str []) then split_comma [] raft_peers_str else raft_peers

-- A value of the environment is taken where the flag is empty.
abbrev pub or_environment : Bytes → Bytes → Bytes
or_environment from_env given =
    if not (str_eq from_env []) && str_eq given [] then from_env else given

-- `strings.HasSuffix`
unfoldable pub has_suffix : Bytes → Bytes → Bool
has_suffix [] suffix = str_eq [] suffix
has_suffix (c ∷ s) suffix = str_eq (c ∷ s) suffix || has_suffix s suffix

abbrev pub fill : (Bytes → Bytes) → Flags → ElectionMode → Config
fill getenv f mode = record f.cfg {
  election_mode = mode;
  raft_peers = peers_of f.raft_peers_str f.cfg.raft_peers;
  redis_password = or_environment (getenv (codes "REDIS_PASSWORD")) f.cfg.redis_password;
  shared_secret = or_environment (getenv (codes "SHARED_SECRET")) f.cfg.shared_secret;
}

unfoldable pub check_names : Config → Outcome Config
check_names cfg =
    if str_eq cfg.pod_name []
    then err (message (codes "POD_NAME is required"))
    else if str_eq cfg.namespace []
    then err (message (codes "POD_NAMESPACE is required"))
    else ok cfg

-- Pod 0 bootstraps_by_name.
abbrev pub bootstraps_by_name : Bool → Config → Bool
bootstraps_by_name raft_bootstrap_set cfg =
    if has_suffix cfg.pod_name (codes "-0")
    then (if not raft_bootstrap_set then true else raft_bootstrap_set)
    else false

unfoldable pub check_raft : Bool → Config → Outcome Config
check_raft raft_bootstrap_set cfg =
    if str_eq cfg.election_mode election_mode_raft
    then (if str_eq cfg.raft_bind_addr []
        then err (message (codes "--raft-bind is required for Raft mode"))
        else ok (record cfg { raft_bootstrap = bootstraps_by_name raft_bootstrap_set cfg }))
    else ok cfg

unfoldable pub check_standalone : Config → Outcome Config
check_standalone cfg =
    if cfg.standalone
    then (if not (str_eq cfg.election_mode election_mode_raft)
        then err (message (codes "--standalone mode requires --election-mode=raft"))
        else ok cfg)
    else ok cfg

unfoldable pub configure : (Bytes → Bytes) → Flags → Outcome Config
configure getenv f = do
  mode ← check_mode f.election_mode
  named ← check_names (fill getenv f mode)
  cfg ← check_raft f.raft_bootstrap_set named
  check_standalone cfg
