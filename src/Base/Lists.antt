-- ===== src/Base/Lists.antt =====
-- Lengths by native numbers, and membership in the lists that the code filters and sorts.
use Prim.Native.Nat.{ℕ, suc}
use mathlib.Core.Path.{◌≡◌, refl}
use mathlib.Core.Logic.{◌↔◌, inl, inr}
use mathlib.Core.Bool.{Bool, true}
use mathlib.Core.List.{List, [], ◌∷◌, Memᴰ}
use mathlib.Core.List.Memᴰ
use redis_orchestrator.Base.Tests.{if◌then◌else◌, Bool-cases}

module _ {ℓ} {A : Type ℓ} where
  abbrev pub length : List A → ℕ
  length [] = 0
  length (x ∷ xs) = suc (length xs)

  -- Two lists hold the same elements, in any order.
  abbrev pub SameMembers : List A → List A → Type ℓ
  SameMembers l r = (x : A) → Memᴰ x l ↔ Memᴰ x r

  -- The loop `for _, x := range xs { if keep(x) { out = append(out, x) } }`.
  unfoldable pub select : (A → Bool) → List A → List A
  select keep [] = []
  select keep (x ∷ xs) = if keep x then x ∷ select keep xs else select keep xs

  pub mem-select :
      (keep : A → Bool) (xs : List A) {x : A}
      → Memᴰ x (select keep xs)
      → Memᴰ x xs × (keep x ≡ true)
  unfolding select
  mem-select keep [] m = absurd (Memᴰ.not-nil m)
  mem-select keep (y ∷ xs) {x} m = elim (Bool-cases (keep y)) [
    | inl kept ↦ elim (Memᴰ.cases_cons (rw kept at m)) [
      | inl e ↦ (Memᴰ.head e, rw e kept)
      | inr t ↦ let (n, k) = mem-select keep xs t in (Memᴰ.tail n, k)
    ]
    | inr dropped ↦ let (n, k) = mem-select keep xs (rw dropped at m) in (Memᴰ.tail n, k)
  ]

  pub select-mem :
      (keep : A → Bool) (xs : List A) {x : A} → Memᴰ x xs → keep x ≡ true → Memᴰ x (select keep xs)
  unfolding select
  select-mem keep [] m k = absurd (Memᴰ.not-nil m)
  select-mem keep (y ∷ xs) (Memᴰ.head e) k = rw (← e, k) (Memᴰ.head refl)
  select-mem keep (y ∷ xs) (Memᴰ.tail m) k = elim (Bool-cases (keep y)) [
    | inl kept ↦ rw kept (Memᴰ.tail (select-mem keep xs m k))
    | inr dropped ↦ rw dropped (select-mem keep xs m k)
  ]
