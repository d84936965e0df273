-- ===== src/Main/Configure/Text.antt =====
-- `strings.HasSuffix` and `strings.Split` at a comma, by what they say of a text.
use mathlib.Core.List.{append-nil, append_assoc}
use mathlib.Core.Path.{◌≡◌, refl, sym, ap, ◌∙◌}
use redis_orchestrator.Base.{
  ℕ, Bool, true, false, ◌||◌, List, [], ◌∷◌, ◌++◌, ◌==◌, ◌↔◌, inl, inr, arith, Bool-cases,
}
use redis_orchestrator.Base.Text.{Bytes, str_eq, str_eq_iff}
use redis_orchestrator.Main.Configure.{split_comma, has_suffix}

or_true : (b : Bool) → (b || true) ≡ true
or_true b = ground arith

-- A suffix is the end of a text.
has_suffix-append : (before suffix : Bytes) → has_suffix (before ++ suffix) suffix ≡ true
unfolding has_suffix
has_suffix-append [] [] = (str_eq_iff [] []).1 refl
has_suffix-append [] (c ∷ s) = rw ((str_eq_iff (c ∷ s) (c ∷ s)).1 refl) refl
has_suffix-append (c ∷ before) suffix = rw (has_suffix-append before suffix) (or_true _)

has_suffix-parts :
    (s suffix : Bytes) → has_suffix s suffix ≡ true → (before : Bytes) × (s ≡ before ++ suffix)
unfolding has_suffix
has_suffix-parts [] suffix h = ([], (str_eq_iff [] suffix).0 h)
has_suffix-parts (c ∷ s) suffix h = elim (Bool-cases (str_eq (c ∷ s) suffix)) [
  | inl e ↦ ([], (str_eq_iff (c ∷ s) suffix).0 e)
  | inr n ↦
      let (before, e) = has_suffix-parts s suffix (rw n at h) in (c ∷ before, ap (λ t. c ∷ t) e)
]

pub has_suffix_iff :
    (s suffix : Bytes) → (has_suffix s suffix ≡ true) ↔ ((before : Bytes) × (s ≡ before ++ suffix))
has_suffix_iff s suffix =
    (has_suffix-parts s suffix, λ (before, e). rw e (has_suffix-append before suffix))

-- The parts, with commas between them.
pub join_comma : List Bytes → Bytes
join_comma [] = []
join_comma (part ∷ []) = part
join_comma (part ∷ other ∷ parts) = part ++ (b',' ∷ join_comma (other ∷ parts))

split_comma-at :
    (cur : Bytes) (c : ℕ) (s : Bytes)
    → (c == b',') ≡ true
    → split_comma cur (c ∷ s) ≡ cur ∷ split_comma [] s
unfolding split_comma
split_comma-at cur c s e = ground arith

split_comma-other :
    (cur : Bytes) (c : ℕ) (s : Bytes)
    → (c == b',') ≡ false
    → split_comma cur (c ∷ s) ≡ split_comma (cur ++ c ∷ []) s
unfolding split_comma
split_comma-other cur c s e = ground arith

split_comma-cons :
    (cur s : Bytes) → (first : Bytes) × (rest : List Bytes) × (split_comma cur s ≡ first ∷ rest)
split_comma-cons cur [] = unfold split_comma in (cur, [], refl)
split_comma-cons cur (c ∷ s) = elim (Bool-cases (c == b',')) [
  | inl e ↦ (cur, split_comma [] s, split_comma-at cur c s e)
  | inr e ↦
      let (first, rest, q) = split_comma-cons (cur ++ c ∷ []) s in
      (first, rest, split_comma-other cur c s e ∙ q)
]

join_comma-cons :
    (part first : Bytes) (rest parts : List Bytes)
    → parts ≡ first ∷ rest
    → join_comma (part ∷ parts) ≡ part ++ (b',' ∷ join_comma parts)
join_comma-cons part first rest parts e = unfold join_comma in rw e refl

-- They are the text again.
pub join_comma-split_comma : (cur s : Bytes) → join_comma (split_comma cur s) ≡ cur ++ s
join_comma-split_comma cur [] = unfold split_comma join_comma in sym (append-nil cur)
join_comma-split_comma cur (c ∷ s) = elim (Bool-cases (c == b',')) [
  | inl e ↦
      let (first, rest, q) = split_comma-cons [] s in
      rw (split_comma-at cur c s e) (
        join_comma-cons cur first rest (split_comma [] s) q
        ∙ ap (λ t. cur ++ t) (rw (join_comma-split_comma [] s) (ground arith)))
  | inr e ↦
      rw (split_comma-other cur c s e)
        (join_comma-split_comma (cur ++ c ∷ []) s ∙ append_assoc cur (c ∷ []) s)
]
