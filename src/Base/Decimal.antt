-- ===== src/Base/Decimal.antt =====
-- `strconv.Itoa`, `FormatInt` and `ParseInt` to base ten. An int64 is its two's complement bit
-- pattern, a number below 2 ^ 64.
pub mod Laws
use Prim.Native.Nat.{ℕ, zero, suc, ◌+◌, ◌-◌, ◌*◌, ◌/◌, ◌%◌, ◌^◌}
use mathlib.Core.Bool.{Bool, true, false, ◌&&◌}
use mathlib.Core.Option.{Option, none, some}
use mathlib.Core.List.{List, [], ◌∷◌}
use redis_orchestrator.Base.Tests.{ltb, leb, ◌==◌, if◌then◌else◌}
use redis_orchestrator.Base.Text.{Bytes}

abbrev pub two_63 : ℕ
two_63 = 2 ^ 63

abbrev pub two_64 : ℕ
two_64 = 2 ^ 64

-- The digits of `n` in front of `out`; `n` itself bounds their number.
unfoldable pub digits : ℕ → ℕ → Bytes → Bytes
digits zero n out = out
digits (suc fuel) n out =
    let more = digits fuel (n / 10) ((b'0' + n % 10) ∷ out) in if n == 0 then out else more

unfoldable pub itoa : ℕ → Bytes
unfolding digits
itoa n = if n == 0 then b'0' ∷ [] else digits n n []

unfoldable pub format_int : ℕ → Bytes
unfolding itoa
format_int x = if ltb x two_63 then itoa x else b'-' ∷ itoa (two_64 - x)

abbrev pub is_digit : ℕ → Bool
is_digit c = leb b'0' c && leb c b'9'

-- The number that digits spell behind `n`.
unfoldable pub scan : Bytes → ℕ → Option ℕ
scan [] n = some n
scan (c ∷ s) n = if is_digit c then scan s (n * 10 + (c - b'0')) else none

unfoldable pub scan_digits : Bytes → Option ℕ
unfolding scan
scan_digits [] = none
scan_digits (c ∷ s) = scan (c ∷ s) 0

abbrev then_int : Option ℕ → (ℕ → Option ℕ) → Option ℕ
then_int none f = none
then_int (some n) f = f n

abbrev positive : ℕ → Option ℕ
positive n = if ltb n two_63 then some n else none

abbrev negative : ℕ → Option ℕ
negative n = if leb n two_63 then some ((two_64 - n) % two_64) else none

-- A sign, digits, and a value within the range of int64; anything else is an error.
unfoldable pub parse_int : Bytes → Option ℕ
unfolding scan_digits
parse_int [] = none
parse_int (c ∷ s) =
    if c == b'-'
    then then_int (scan_digits s) negative
    else if c == b'+'
    then then_int (scan_digits s) positive
    else then_int (scan_digits (c ∷ s)) positive
