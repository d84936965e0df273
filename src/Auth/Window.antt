-- ===== src/Auth/Window.antt =====
-- The arithmetic of `ValidateRequest`: where it is exact, and where it wraps.
use redis_orchestrator.Base.{ℕ, ◌+◌, ◌^◌, ◌≤◌, ◌<◌, false, ◌≡◌, ◌↔◌, refl, arith}
use redis_orchestrator.Base.Decimal.{two_63}
use redis_orchestrator.Auth.{skew, outside_window}

-- Between times whose distance is below nine billion seconds, the test is exact.
pub outside_window-exact : (d : ℕ) → d < 9000000000 → (outside_window d ≡ false) ↔ (d ≤ 30)
unfolding outside_window
outside_window-exact d h = (λ e. ground arith, λ e. ground arith)

pub skew-le :
    (now timestamp bound : ℕ)
    → now < two_63
    → timestamp < two_63
    → (skew now timestamp ≤ bound) ↔ ((now ≤ timestamp + bound) × (timestamp ≤ now + bound))
unfolding skew
skew-le now timestamp bound h k = (λ e. (ground arith, ground arith), λ e. ground arith)

pub wrapped : (now : ℕ) → now < 9000000000 → outside_window (skew now (now + 2 ^ 55)) ≡ false
wrapped now h = unfold outside_window in rw distance refl
  where
    distance : skew now (now + 2 ^ 55) ≡ 2 ^ 55
    distance = unfold skew in ground arith
