-- ===== src/Base/Text.antt =====
-- Go strings as lists of bytes: equality, the lexicographic order of `<`, and slicing.
use Prim.Native.Char.{code}
use Prim.Native.String.{String}
use Prim.Native.Nat.{ℕ, zero, suc}
use mathlib.Core.Path.{◌≡◌, refl}
use mathlib.Core.Logic.{◌↔◌}
use mathlib.Core.Bool.{Bool, true, false, ◌&&◌}
use mathlib.Core.Option
use mathlib.Core.Option.{Option, none, some}
use mathlib.Core.List.{List, [], ◌∷◌}
use native.Mathlib.Omega.{arith}
use redis_orchestrator.Base.Tests.{ltb, ◌==◌, if◌then◌else◌}

abbrev pub Bytes : Type 0
Bytes = List ℕ

-- The bytes of an ASCII literal.
abbrev pub codes : String → Bytes
codes String.[] = []
codes (String.◌∷◌ c s) = code c ∷ codes s

unfoldable pub str_eq : Bytes → Bytes → Bool
str_eq [] [] = true
str_eq (x ∷ xs) (y ∷ ys) = x == y && str_eq xs ys
str_eq _ _ = false

-- `a < b` on strings.
unfoldable pub str_ltb : Bytes → Bytes → Bool
str_ltb [] [] = false
str_ltb [] (y ∷ ys) = true
str_ltb (x ∷ xs) [] = false
str_ltb (x ∷ xs) (y ∷ ys) = if ltb x y then true else if ltb y x then false else str_ltb xs ys

-- `s[:n]`; `none` is the run-time panic of a bound past the end.
unfoldable pub slice_to : ℕ → Bytes → Option Bytes
slice_to zero s = some []
slice_to (suc n) [] = none
slice_to (suc n) (c ∷ s) = Option.map (◌∷◌ c) (slice_to n s)

pub str_eq_iff : (a b : Bytes) → (str_eq a b ≡ true) ↔ (a ≡ b)
unfolding str_eq
str_eq_iff (x ∷ a) (y ∷ b) = ground (arith, str_eq_iff a b)
str_eq_iff _ _ = ground arith

pub str_eq_refl : (a : Bytes) → str_eq a a ≡ true
str_eq_refl a = (str_eq_iff a a).1 refl

pub str_ltb_irrefl : (a : Bytes) → str_ltb a a ≡ false
unfolding str_ltb
str_ltb_irrefl [] = refl
str_ltb_irrefl (x ∷ a) = ground (arith, str_ltb_irrefl a)

pub str_ltb_asymm : (a b : Bytes) → str_ltb a b ≡ true → str_ltb b a ≡ false
unfolding str_ltb
str_ltb_asymm (x ∷ a) (y ∷ b) h = ground (arith, str_ltb_asymm a b)
str_ltb_asymm _ _ h = ground arith

-- "Not less" is transitive.
pub str_ltb_trans :
    (a b c : Bytes) → str_ltb b a ≡ false → str_ltb c b ≡ false → str_ltb c a ≡ false
unfolding str_ltb
str_ltb_trans (x ∷ a) (y ∷ b) (z ∷ c) h k = ground (arith, str_ltb_trans a b c)
str_ltb_trans (x ∷ a) (y ∷ b) [] h k = ground arith
str_ltb_trans (x ∷ a) [] c h k = ground arith
str_ltb_trans [] b [] h k = refl
str_ltb_trans [] b (z ∷ c) h k = refl

pub str_ltb_connex : (a b : Bytes) → str_ltb a b ≡ false → str_ltb b a ≡ false → a ≡ b
unfolding str_ltb
str_ltb_connex (x ∷ a) (y ∷ b) h k = ground (arith, str_ltb_connex a b)
str_ltb_connex _ _ h k = ground arith
