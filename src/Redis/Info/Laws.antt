-- ===== src/Redis/Info/Laws.antt =====
-- The parser against a reading of the reply as lines: the last line with a field's key wins.
use mathlib.Core.Bool.{false≢true}
use redis_orchestrator.Base.{
  true, false, List, [], ◌∷◌, ◌≡◌, ◌≢◌, inl, inr, refl, sym, ◌∙◌, arith, if◌then◌else◌, Option,
  none, some, Bool-cases,
}
use redis_orchestrator.Base.Text.{Bytes, codes, str_eq, str_eq_iff}
use redis_orchestrator.Outcome.{Outcome, message, ok, err, panic}
use redis_orchestrator.Redis.Info.{
  ReplicationInfo, empty_info, split_colon, trim_space, set_field, is_skipped, read_pair, read_line,
  read_lines, missing_role, parse_replication_info,
}
use redis_orchestrator.Redis.Info.Lines.{join_lines, AllNoReturn, split_lines-join_lines}

abbrev value_if : Bytes → Option (Bytes × Bytes) → Option Bytes
value_if key none = none
value_if key (some (k, v)) = if str_eq (trim_space k) key then some (trim_space v) else none

-- The value that a line gives to a key: not a comment, not empty, and the key in front of the
-- first colon, both sides trimmed.
abbrev pub value_of : Bytes → Bytes → Option Bytes
value_of key line = if is_skipped line then none else value_if key (split_colon [] line)

abbrev or_earlier : Option Bytes → Option Bytes → Option Bytes
or_earlier (some later) earlier = some later
or_earlier none earlier = earlier

-- The value in the last line that gives one.
abbrev pub last_value : Bytes → List Bytes → Option Bytes
last_value key [] = none
last_value key (line ∷ lines) = or_earlier (last_value key lines) (value_of key line)

abbrev pub value_or : Bytes → Option Bytes → Bytes
value_or old none = old
value_or old (some value) = value

keys_apart : (key a b : Bytes) → str_eq a b ≡ false → str_eq key a ≡ true → str_eq key b ≡ false
keys_apart key a b d e = rw ((str_eq_iff key a).0 e) d

set_field-role :
    (key value : Bytes) (r : ReplicationInfo)
    → (set_field key value r).role ≡ (if str_eq key (codes "role") then value else r.role)
unfolding set_field
set_field-role key value r = ground arith

set_field-master_link_status :
    (key value : Bytes) (r : ReplicationInfo)
    → (set_field key value r).master_link_status
      ≡ (if str_eq key (codes "master_link_status") then value else r.master_link_status)
unfolding set_field
set_field-master_link_status key value r =
    let apart = λ (a : Bytes). keys_apart key a (codes "master_link_status") in
    ground (
      arith,
      apart (codes "role") (unfold str_eq in refl),
      apart (codes "master_host") (unfold str_eq in refl),
      apart (codes "master_port") (unfold str_eq in refl),
      apart (codes "connected_slaves") (unfold str_eq in refl),
    )

read_pair-role :
    (pair : Option (Bytes × Bytes)) (r : ReplicationInfo)
    → (read_pair pair r).role ≡ value_or r.role (value_if (codes "role") pair)
read_pair-role none r = refl
read_pair-role (some (key, value)) r = rw set_field-role (ground arith)

read_pair-master_link_status :
    (pair : Option (Bytes × Bytes)) (r : ReplicationInfo)
    → (read_pair pair r).master_link_status
      ≡ value_or r.master_link_status (value_if (codes "master_link_status") pair)
read_pair-master_link_status none r = refl
read_pair-master_link_status (some (key, value)) r = rw set_field-master_link_status (ground arith)

read_line-role :
    (line : Bytes) (r : ReplicationInfo)
    → (read_line line r).role ≡ value_or r.role (value_of (codes "role") line)
unfolding read_line
read_line-role line r = elim (Bool-cases (is_skipped line)) [
  | inl e ↦ simp e
  | inr e ↦ simp e (read_pair-role (split_colon [] line) r)
]

read_line-master_link_status :
    (line : Bytes) (r : ReplicationInfo)
    → (read_line line r).master_link_status
      ≡ value_or r.master_link_status (value_of (codes "master_link_status") line)
unfolding read_line
read_line-master_link_status line r = elim (Bool-cases (is_skipped line)) [
  | inl e ↦ simp e
  | inr e ↦ simp e (read_pair-master_link_status (split_colon [] line) r)
]

value_or-or_earlier :
    (old : Bytes) (later earlier : Option Bytes)
    → value_or (value_or old earlier) later ≡ value_or old (or_earlier later earlier)
value_or-or_earlier old none earlier = refl
value_or-or_earlier old (some v) earlier = refl

-- Reading lines leaves in `Role` the value of the last line with the key "role", and in
-- `MasterLinkStatus` that of the last line with the key "master_link_status".
pub read_lines-last_value :
    (lines : List Bytes) (r : ReplicationInfo)
    → ((read_lines lines r).role ≡ value_or r.role (last_value (codes "role") lines))
      × ((read_lines lines r).master_link_status
          ≡ value_or r.master_link_status (last_value (codes "master_link_status") lines))
unfolding read_lines
read_lines-last_value [] r = (refl, refl)
read_lines-last_value (line ∷ lines) r =
    let (role, link) = read_lines-last_value lines (read_line line r) in
    (
      role ∙ rw read_line-role (value_or-or_earlier _ (last_value (codes "role") lines) _),
      link
          ∙ rw read_line-master_link_status
              (value_or-or_earlier _ (last_value (codes "master_link_status") lines) _),
    )

-- What the reply says: the role is required.
abbrev pub Says : List Bytes → Outcome ReplicationInfo → Type 0
Says lines (ok info) =
    (info.role ≢ [])
    × (info.role ≡ value_or [] (last_value (codes "role") lines))
    × (info.master_link_status ≡ value_or [] (last_value (codes "master_link_status") lines))
Says lines (err e) =
    (e ≡ message missing_role) × (value_or [] (last_value (codes "role") lines) ≡ [])
Says lines panic = ⊥

-- For a reply of lines that hold no carriage return: parsing fails exactly if no line gives the
-- role or the last one that does leaves it empty; otherwise the role and the link status are those
-- of the last lines that give them, where comments and lines without a colon give nothing.
pub parse_replication_info-Says :
    (line : Bytes) (lines : List Bytes)
    → AllNoReturn (line ∷ lines)
    → Says (line ∷ lines) (parse_replication_info (join_lines (line ∷ lines)))
parse_replication_info-Says line lines h =
    unfold parse_replication_info in
    rw (split_lines-join_lines line lines h)
      (finish (read_lines (line ∷ lines) empty_info) facts.0 facts.1)
  where
    facts :
        ((read_lines (line ∷ lines) empty_info).role
          ≡ value_or [] (last_value (codes "role") (line ∷ lines)))
        × ((read_lines (line ∷ lines) empty_info).master_link_status
            ≡ value_or [] (last_value (codes "master_link_status") (line ∷ lines)))
    facts = read_lines-last_value (line ∷ lines) empty_info

    finish :
        (info : ReplicationInfo)
        → info.role ≡ value_or [] (last_value (codes "role") (line ∷ lines))
        → info.master_link_status
          ≡ value_or [] (last_value (codes "master_link_status") (line ∷ lines))
        → Says (line ∷ lines) (if str_eq info.role [] then err (message missing_role) else ok info)
    finish info p q = elim (Bool-cases (str_eq info.role [])) [
      | inl e ↦ simp e (refl, sym p ∙ (str_eq_iff info.role []).0 e)
      | inr e ↦ simp e ((λ z. false≢true (sym e ∙ (str_eq_iff info.role []).1 z)), p, q)
    ]
