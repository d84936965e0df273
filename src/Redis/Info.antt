-- ===== src/Redis/Info.antt =====
-- `parseReplicationInfo`. The reply of INFO is ASCII text, in which `strings.TrimSpace` trims the
-- six blanks below.
pub mod Laws
pub mod Lines
use redis_orchestrator.Base.{
  ℕ, Bool, true, false, ◌&&◌, ◌||◌, List, [], ◌∷◌, ◌++◌, ◌==◌, if◌then◌else◌, Option, none, some,
}
use redis_orchestrator.Base.Text.{Bytes, codes, str_eq}
use redis_orchestrator.Base.Decimal.{parse_int}
use redis_orchestrator.Outcome.{Outcome, message, ok, err}

pub record ReplicationInfo : Type 0 where
  pub role : Bytes
  pub master_host : Bytes
  pub master_port : ℕ
  pub connected_slaves : ℕ
  pub master_link_status : Bytes

abbrev pub empty_info : ReplicationInfo
empty_info = record {
  role = [];
  master_host = [];
  master_port = 0;
  connected_slaves = 0;
  master_link_status = [];
}

-- `strings.Split(s, "\r\n")`, with the part read so far.
unfoldable pub split_lines : Bytes → Bytes → List Bytes
split_lines cur [] = cur ∷ []
split_lines cur (c ∷ []) = (cur ++ c ∷ []) ∷ []
split_lines cur (c ∷ d ∷ s) = elim (c == b'\r' && d == b'\n') [
  | true ↦ cur ∷ split_lines [] s
  | false ↦ split_lines (cur ++ c ∷ []) (d ∷ s)
]

-- `strings.SplitN(line, ":", 2)`; `none` where it has one part.
unfoldable pub split_colon : Bytes → Bytes → Option (Bytes × Bytes)
split_colon before [] = none
split_colon before (c ∷ s) =
    if c == b':' then some (before, s) else split_colon (before ++ c ∷ []) s

unfoldable pub is_space : ℕ → Bool
is_space c = c == b' ' || c == b'\t' || c == b'\n' || c == 0x0b || c == 0x0c || c == b'\r'

unfoldable pub trim_left : Bytes → Bytes
unfolding is_space
trim_left [] = []
trim_left (c ∷ s) = if is_space c then trim_left s else c ∷ s

trim_tail : ℕ → Bytes → Bytes
unfolding is_space
trim_tail c [] = if is_space c then [] else c ∷ []
trim_tail c (d ∷ s) = c ∷ d ∷ s

unfoldable pub trim_right : Bytes → Bytes
unfolding trim_tail
trim_right [] = []
trim_right (c ∷ s) = trim_tail c (trim_right s)

unfoldable pub trim_space : Bytes → Bytes
unfolding trim_left trim_right
trim_space s = trim_right (trim_left s)

-- A number that does not parse leaves the field as it is.
abbrev number_or : ℕ → Bytes → ℕ
number_or old value = elim (parse_int value) [ none ↦ old | some n ↦ n ]

-- The `switch key`.
unfoldable pub set_field : Bytes → Bytes → ReplicationInfo → ReplicationInfo
set_field key value r =
    if str_eq key (codes "role")
    then record r { role = value }
    else if str_eq key (codes "master_host")
    then record r { master_host = value }
    else if str_eq key (codes "master_port")
    then record r { master_port = number_or r.master_port value }
    else if str_eq key (codes "connected_slaves")
    then record r { connected_slaves = number_or r.connected_slaves value }
    else if str_eq key (codes "master_link_status")
    then record r { master_link_status = value }
    else r

-- `line == "" || strings.HasPrefix(line, "#")`
abbrev pub is_skipped : Bytes → Bool
is_skipped [] = true
is_skipped (c ∷ s) = c == b'#'

-- The two parts of a line, if there are two.
abbrev pub read_pair : Option (Bytes × Bytes) → ReplicationInfo → ReplicationInfo
read_pair none r = r
read_pair (some (key, value)) r = set_field (trim_space key) (trim_space value) r

-- One round of the loop.
unfoldable pub read_line : Bytes → ReplicationInfo → ReplicationInfo
read_line line r = if is_skipped line then r else read_pair (split_colon [] line) r

unfoldable pub read_lines : List Bytes → ReplicationInfo → ReplicationInfo
read_lines [] r = r
read_lines (line ∷ lines) r = read_lines lines (read_line line r)

abbrev pub missing_role : Bytes
missing_role = codes "could not parse role from replication info"

unfoldable pub parse_replication_info : Bytes → Outcome ReplicationInfo
parse_replication_info info =
    let result = read_lines (split_lines [] info) empty_info in
    if str_eq result.role [] then err (message missing_role) else ok result
