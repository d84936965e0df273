-- ===== src/Tests/Main.antt =====
-- Command lines in a pod whose environment names it.
use redis_orchestrator.Base.{
  ◌+◌, ◌≤◌, true, List, [], ◌∷◌, some, none, ◌≡◌, ◌≢◌, ◌↔◌, inl, inr, refl, if◌then◌else◌, arith,
}
use redis_orchestrator.Base.Text.{Bytes, codes, str_eq}
use redis_orchestrator.Config.{Config, election_mode_raft}
use redis_orchestrator.Outcome.{Error, ok, err, panic}
use redis_orchestrator.Effects.Trace.{role_commands, promotions}
use redis_orchestrator.Main.{Host, main}
use redis_orchestrator.Main.Flags.{Arg, Flags, default_flags, set_flag, parse}
use redis_orchestrator.Main.Configure.{
  check_mode, has_suffix, split_comma, check_names, check_raft, check_standalone, configure,
}
use redis_orchestrator.Main.Configure.Laws.{Resolved, configure-Resolved}
use redis_orchestrator.Main.Configure.Accepts.{
  IsAcceptable, configure_iff, configure-raft_bootstrap_set,
}
use redis_orchestrator.Main.Laws.{main-no_promote, main-role_commands}
use redis_orchestrator.Main.Panics.{main-NoPanic}
use redis_orchestrator.Main.Refusal.{main-refused}
use redis_orchestrator.Tests.Data.{older, working}
use redis_orchestrator.Tests.Raft.{codec}

abbrev getenv : Bytes → Bytes
getenv name =
    if str_eq name (codes "POD_NAME")
    then codes "redis-0"
    else if str_eq name (codes "POD_NAMESPACE")
    then codes "default"
    else []

abbrev host : Host
host = record {
  env = working;
  list_services = λ h. none;
  getenv = getenv;
  in_cluster = true;
  has_client = true;
  hmac = λ secret text. text;
  decode_state = λ body. some older;
  codec = codec;
  encode_request = λ request. request.id;
  directory = ok tt;
  created = ok tt;
}

abbrev standby_args : List Arg
standby_args = Arg.debug true ∷ Arg.no_promote true ∷ []

main-no_promote_example : promotions (main host standby_args 3 []).1 ≡ promotions []
main-no_promote_example =
    main-no_promote host standby_args 3 [] (unfold parse set_flag default_flags in inl refl)

main-role_commands_example : role_commands (main host [] 3 []).1 ≤ role_commands [] + (1 + 3)
main-role_commands_example = main-role_commands host [] 3 []

abbrev wrong_args : List Arg
wrong_args = Arg.election_mode (codes "paxos") ∷ []

refused : IsAcceptable (parse wrong_args (default_flags getenv)) → ⊥
unfolding parse set_flag default_flags
refused a = elim a.election_mode.1 [
  | inl p ↦ elim p.1 [ inl d ↦ cc | inr n ↦ cc ]
  | inr p ↦ absurd (cc p.1)
]

main-refused_example : (why : Error) × (main host wrong_args 3 [] ≡ (err why, []))
main-refused_example = main-refused host wrong_args 3 [] refused

-- A witness of the pod redis-0, with two peers.
abbrev witness_args : List Arg
witness_args =
    Arg.election_mode (codes "raft")
    ∷ Arg.standalone true
    ∷ Arg.raft_peers (codes "redis-1:7000,redis-2:7000")
    ∷ []

abbrev witness_flags : Flags
witness_flags = parse witness_args (default_flags getenv)

abbrev witness_config : Config
witness_config = record (default_flags getenv).cfg {
  election_mode = election_mode_raft;
  raft_peers = codes "redis-1:7000" ∷ codes "redis-2:7000" ∷ [];
  raft_bootstrap = true;
  standalone = true;
}

configured : configure getenv witness_flags ≡ ok witness_config
unfolding configure check_mode check_names check_raft check_standalone has_suffix split_comma parse
    set_flag default_flags str_eq
configured = refl

configure-Resolved_example : Resolved getenv witness_flags witness_config
configure-Resolved_example = configure-Resolved getenv witness_flags witness_config configured

configure_iff_example :
    ((cfg : Config) × (configure getenv witness_flags ≡ ok cfg)) ↔ IsAcceptable witness_flags
configure_iff_example = configure_iff getenv witness_flags

configure-raft_bootstrap_set_example :
    configure getenv (record witness_flags { raft_bootstrap_set = true })
    ≡ configure getenv witness_flags
configure-raft_bootstrap_set_example = configure-raft_bootstrap_set getenv witness_flags true

main-NoPanic_example : (main host [] 3 []).0 ≢ panic
unfolding parse default_flags
main-NoPanic_example =
    main-NoPanic host (λ e. cc) (λ e. cc) 3 [] [] refl (omega arith) (omega arith)
