-- ===== src/Base/Decimal/Laws.antt =====
-- Printed numbers are digits, and are read back.
use redis_orchestrator.Base.Tests.{ltb, ◌==◌, Bool-cases}
use redis_orchestrator.Base.Text.{Bytes}
use redis_orchestrator.Base.Decimal.{
  digits, itoa, format_int, is_digit, scan, scan_digits, parse_int, negative, two_63, two_64,
}
use Prim.Native.Nat.{ℕ, zero, suc, ◌+◌, ◌-◌, ◌/◌, ◌%◌, ◌≤◌, ◌<◌}
use mathlib.Core.Path.{◌≡◌, refl, ◌∙◌, ap}
use mathlib.Core.Logic.{◌≢◌, inl, inr}
use mathlib.Core.Bool.{true, false}
use mathlib.Core.Option.{some}
use mathlib.Core.List.{[], ◌∷◌}
use native.Mathlib.Omega.{arith}

-- The bytes are digits, and there is one.
abbrev pub AllDigits : Bytes → Type 0
AllDigits [] = Unit
AllDigits (c ∷ s) = (is_digit c ≡ true) × AllDigits s

digits-AllDigits : (fuel n : ℕ) (out : Bytes) → AllDigits out → AllDigits (digits fuel n out)
unfolding digits
digits-AllDigits zero n out h = h
digits-AllDigits (suc fuel) n out h =
    ground (arith, digits-AllDigits fuel (n / 10) ((b'0' + n % 10) ∷ out))

pub itoa-AllDigits : (n : ℕ) → AllDigits (itoa n)
unfolding itoa
itoa-AllDigits n = ground (arith, digits-AllDigits n n [] tt)

-- With enough fuel the digits of `n` scan, behind nothing, to `n` in front of what follows.
scan-digits : (fuel n : ℕ) (out : Bytes) → n ≤ fuel → scan (digits fuel n out) 0 ≡ scan out n
unfolding digits
scan-digits zero n out h = ap (scan out) (omega arith)
scan-digits (suc fuel) n out h = elim (Bool-cases (n == 0)) [
  | inl e ↦ rw e (ap (scan out) (ground arith))
  | inr e ↦ rw e (scan-digits fuel (n / 10) ((b'0' + n % 10) ∷ out) (ground arith) ∙ last n out)
]
  where
    last : (n : ℕ) (out : Bytes) → scan ((b'0' + n % 10) ∷ out) (n / 10) ≡ scan out n
    last n out = unfold scan in ground arith

scan_digits-scan : (s : Bytes) → s ≢ [] → scan_digits s ≡ scan s 0
unfolding scan_digits
scan_digits-scan [] h = absurd (h refl)
scan_digits-scan (c ∷ s) h = refl

digits-ne-nil : (fuel n : ℕ) (out : Bytes) → out ≢ [] → digits fuel n out ≢ []
unfolding digits
digits-ne-nil zero n out h = h
digits-ne-nil (suc fuel) n out h =
    ground (arith, digits-ne-nil fuel (n / 10) ((b'0' + n % 10) ∷ out))

positive_digits-ne-nil : (fuel n : ℕ) → n ≤ fuel → n ≢ 0 → digits fuel n [] ≢ []
unfolding digits
positive_digits-ne-nil zero n h k = absurd (omega arith)
positive_digits-ne-nil (suc fuel) n h k =
    ground (arith, digits-ne-nil fuel (n / 10) ((b'0' + n % 10) ∷ []))

itoa-ne-nil : (n : ℕ) → itoa n ≢ []
unfolding itoa
itoa-ne-nil n = ground (arith, positive_digits-ne-nil n n)

scan_digits-itoa : (n : ℕ) → scan_digits (itoa n) ≡ some n
scan_digits-itoa n = scan_digits-scan (itoa n) (itoa-ne-nil n) ∙ whole n
  where
    whole : (n : ℕ) → scan (itoa n) 0 ≡ some n
    whole n = unfold itoa scan in ground (arith, scan-digits n n [])

-- A digit is no sign.
digit_tests : (c : ℕ) → is_digit c ≡ true → ((c == b'-') ≡ false) × ((c == b'+') ≡ false)
digit_tests c h = ground arith

parse_int_unsigned :
    (s : Bytes) {n : ℕ} → AllDigits s → scan_digits s ≡ some n → n < two_63 → parse_int s ≡ some n
parse_int_unsigned [] a e h = absurd (unfold scan_digits in ground arith)
parse_int_unsigned (c ∷ s) {n} (d, _) e h =
    let (minus, plus) = digit_tests c d in unfold parse_int in rw (minus, plus, e) (ground arith)

negative_back : (x : ℕ) → x < two_64 → ltb x two_63 ≡ false → negative (two_64 - x) ≡ some x
negative_back x h e = ground arith

parse_int-negative :
    (s : Bytes) {n x : ℕ}
    → scan_digits s ≡ some n
    → negative n ≡ some x
    → parse_int (b'-' ∷ s) ≡ some x
unfolding parse_int
parse_int-negative s e h = rw e h

-- Every int64 is read back from its decimal print.
pub parse_int-format_int : (x : ℕ) → x < two_64 → parse_int (format_int x) ≡ some x
unfolding format_int
parse_int-format_int x h = elim (Bool-cases (ltb x two_63)) [
  | inl e ↦
      rw e (parse_int_unsigned (itoa x) (itoa-AllDigits x) (scan_digits-itoa x) (ground arith))
  | inr e ↦
      rw e (
        parse_int-negative (itoa (two_64 - x)) (scan_digits-itoa (two_64 - x))
          (negative_back x h e))
]
