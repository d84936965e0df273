-- ===== src/Election/Order/Laws.antt =====
-- `pod_less` is a strict order whose ties agree in startup time, name and UID.
use redis_orchestrator.Base.{true, false, ◌≡◌, arith}
use redis_orchestrator.Base.Text.{
  str_eq_iff, str_ltb_irrefl, str_ltb_asymm, str_ltb_trans, str_ltb_connex,
}
use redis_orchestrator.State.{PodState}
use redis_orchestrator.Election.Order.{pod_less}

-- What the election reads of two pods is the same.
pub record SameKey (a b : PodState) : Type 0 where
  pub startup_time : a.startup_time ≡ b.startup_time
  pub pod_name : a.pod_name ≡ b.pod_name
  pub pod_uid : a.pod_uid ≡ b.pod_uid

pub pod_less_irrefl : (a : PodState) → pod_less a a ≡ false
unfolding pod_less
pod_less_irrefl a = ground (arith, str_eq_iff a.pod_name a.pod_name, str_ltb_irrefl a.pod_uid)

pub pod_less_asymm : (a b : PodState) → pod_less a b ≡ true → pod_less b a ≡ false
unfolding pod_less
pod_less_asymm a b h = ground (
  arith,
  str_eq_iff a.pod_name b.pod_name,
  str_eq_iff b.pod_name a.pod_name,
  str_ltb_asymm a.pod_uid b.pod_uid,
  str_ltb_asymm a.pod_name b.pod_name,
)

-- "Does not come before" is transitive.
pub pod_less_trans :
    (a b c : PodState) → pod_less b a ≡ false → pod_less c b ≡ false → pod_less c a ≡ false
unfolding pod_less
pod_less_trans a b c h k = ground (
  arith,
  str_eq_iff b.pod_name a.pod_name,
  str_eq_iff c.pod_name b.pod_name,
  str_eq_iff c.pod_name a.pod_name,
  str_ltb_trans a.pod_uid b.pod_uid c.pod_uid,
  str_ltb_trans a.pod_name b.pod_name c.pod_name,
  str_ltb_connex a.pod_name b.pod_name,
  str_ltb_connex b.pod_name c.pod_name,
  str_ltb_connex a.pod_name c.pod_name,
)

pub pod_less_connex : (a b : PodState) → pod_less a b ≡ false → pod_less b a ≡ false → SameKey a b
unfolding pod_less
pod_less_connex a b h k = ground (
  arith,
  str_eq_iff a.pod_name b.pod_name,
  str_eq_iff b.pod_name a.pod_name,
  str_ltb_connex a.pod_uid b.pod_uid,
  str_ltb_connex a.pod_name b.pod_name,
)
