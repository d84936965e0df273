-- ===== src/Base/Dict/Laws.antt =====
-- Dictionaries with one entry for each key.
use mathlib.Core.Path.{◌≡◌, refl}
use mathlib.Core.Logic.{inl, inr}
use mathlib.Core.Bool.{Bool, true, false}
use mathlib.Core.Option.{Option, none, some}
use mathlib.Core.List.{[], ◌∷◌}
use native.Mathlib.Omega.{arith}
use redis_orchestrator.Base.Tests.{if◌then◌else◌, Bool-cases}
use redis_orchestrator.Base.Text.{Bytes, str_eq, str_eq_iff}
use redis_orchestrator.Base.Lists.{select}
use redis_orchestrator.Base.Dict.{Dict, lookup, insert, lookup-insert}

module _ {ℓ} {V : Type ℓ} where
  abbrev pub IsDict : Dict V → Type ℓ
  IsDict [] = Unit
  IsDict ((k, v) ∷ m) = (lookup k m ≡ none) × IsDict m

  pub insert-IsDict : (k : Bytes) (v : V) (m : Dict V) → IsDict m → IsDict (insert k v m)
  unfolding insert lookup
  insert-IsDict k v [] d = (refl, tt)
  insert-IsDict k v ((j, w) ∷ m) (n, d) = elim (Bool-cases (str_eq j k)) [
    | inl e ↦ rw e (n, d)
    | inr e ↦ rw e (absent e, insert-IsDict k v m d)
  ]
    where
      absent : str_eq j k ≡ false → lookup j (insert k v m) ≡ none
      absent e = ground (arith, lookup-insert k j v m, str_eq_iff k j, str_eq_iff j k)

  abbrev pub filter_value : (V → Bool) → Option V → Option V
  filter_value keep none = none
  filter_value keep (some v) = if keep v then some v else none

  filter_value-if :
      (keep : V → Bool) (b : Bool) (v : V) (r : Option V)
      → filter_value keep (if b then some v else r)
        ≡ (if b then (if keep v then some v else none) else filter_value keep r)
  filter_value-if keep true v r = refl
  filter_value-if keep false v r = refl

  -- Selecting from a dictionary is selecting from each of its values.
  pub lookup-select :
      (keep : Bytes × V → Bool) (k : Bytes) (m : Dict V)
      → IsDict m
      → lookup k (select keep m) ≡ filter_value (λ v. keep (k, v)) (lookup k m)
  unfolding lookup select
  lookup-select keep k [] d = refl
  lookup-select keep k ((j, v) ∷ m) (n, d) = elim (Bool-cases (str_eq j k)) [
    | inl e ↦ ground (arith, lookup-select keep k m d, n, (str_eq_iff j k).0 e, e)
    | inr e ↦ elim (Bool-cases (keep (j, v))) [
      | inl kept ↦ rw (kept, e) (lookup-select keep k m d)
      | inr dropped ↦ rw (dropped, e) (lookup-select keep k m d)
    ]
  ]

  select-absent :
      (keep : Bytes × V → Bool) (k : Bytes) (m : Dict V)
      → lookup k m ≡ none
      → lookup k (select keep m) ≡ none
  unfolding lookup select
  select-absent keep k [] n = refl
  select-absent keep k ((j, v) ∷ m) n = ground (arith, select-absent keep k m)

  pub select-IsDict : (keep : Bytes × V → Bool) (m : Dict V) → IsDict m → IsDict (select keep m)
  unfolding select
  select-IsDict keep [] d = tt
  select-IsDict keep ((j, v) ∷ m) (n, d) = elim (Bool-cases (keep (j, v))) [
    | inl kept ↦ rw kept (select-absent keep j m n, select-IsDict keep m d)
    | inr dropped ↦ rw dropped (select-IsDict keep m d)
  ]
