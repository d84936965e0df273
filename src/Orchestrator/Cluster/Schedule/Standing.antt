-- ===== src/Orchestrator/Cluster/Schedule/Standing.antt =====
-- What one step keeps: which pod comes first, and the roles of the pods that have run.
use mathlib.Core.Bool.{false≢true}
use mathlib.Core.List.{Memᴰ}
use mathlib.Core.List.Memᴰ
use redis_orchestrator.Base.{
  Bool, true, false, List, [], ◌∷◌, ◌≡◌, ◌≢◌, ◌⊎◌, inl, inr, refl, sym, ap, ◌∙◌, Bool-cases,
}
use redis_orchestrator.Base.Text.{Bytes, str_eq, str_eq_iff}
use redis_orchestrator.Base.Lists.{select, select-mem, mem-select}
use redis_orchestrator.State.{PodState}
use redis_orchestrator.Election.Order.{pod_less}
use redis_orchestrator.Election.Order.Laws.{pod_less_irrefl}
use redis_orchestrator.Election.Order.Agreement.{IsFirst}
use redis_orchestrator.Orchestrator.Reconcile.{mastering}
use redis_orchestrator.Orchestrator.Reconcile.Masters.{contenders, or_else}
use redis_orchestrator.Orchestrator.Cluster.Schedule.{with_role, set_role, UniqueUids}

pub with_role-uid :
    (uid : Bytes) (b : Bool) (p : PodState) → (with_role uid b p).pod_uid ≡ p.pod_uid
with_role-uid uid b p = elim (Bool-cases (str_eq p.pod_uid uid)) [
  | inl e ↦ rw e refl
  | inr e ↦ rw e refl
]

-- The order does not look at the roles.
pod_less-with_role :
    (uid : Bytes) (b : Bool) (x y : PodState)
    → pod_less (with_role uid b x) (with_role uid b y) ≡ pod_less x y
unfolding pod_less
pod_less-with_role uid b x y = elim (Bool-cases (str_eq x.pod_uid uid)) [
  | inl e ↦ elim (Bool-cases (str_eq y.pod_uid uid)) [
    | inl d ↦ simp (e, d) refl
    | inr d ↦ simp (e, d) refl
  ]
  | inr e ↦ elim (Bool-cases (str_eq y.pod_uid uid)) [
    | inl d ↦ simp (e, d) refl
    | inr d ↦ simp (e, d) refl
  ]
]

-- The pod with this UID comes first: among the masters, or among all pods if there is no master.
pub data Standing (uid : Bytes) (ps : List PodState) : Type 0 where
  ruling :
      (m : PodState)
      → Memᴰ m ps
      → m.pod_uid ≡ uid
      → m.is_master ≡ true
      → ((x : PodState) → Memᴰ x ps → x.is_master ≡ true → pod_less x m ≡ false)
      → Standing uid ps
  vacant :
      (m : PodState)
      → Memᴰ m ps
      → m.pod_uid ≡ uid
      → ((x : PodState) → Memᴰ x ps → x.is_master ≡ false)
      → ((x : PodState) → Memᴰ x ps → pod_less x m ≡ false)
      → Standing uid ps

not_both : {b : Bool} → b ≡ false → b ≡ true → ⊥
not_both f t = false≢true (sym f ∙ t)

pub IsFirst-Standing :
    {m : PodState} (ps : List PodState) → IsFirst m (contenders ps) → Standing m.pod_uid ps
IsFirst-Standing {m} ps first = go (select mastering ps) refl first
  where
    go :
        (masters : List PodState)
        → select mastering ps ≡ masters
        → IsFirst m (or_else masters ps)
        → Standing m.pod_uid ps
    go [] e f =
        vacant m f.candidate refl
          (λ x k. elim (Bool-cases x.is_master) [
            | inl t ↦ absurd (Memᴰ.not-nil (rw e at (select-mem mastering ps k t)))
            | inr n ↦ n
          ])
          f.least
    go (y ∷ masters) e f =
        let (k, t) = mem-select mastering ps (rw e f.candidate) in
        ruling m k refl t (λ x q r. f.least x (rw e at (select-mem mastering ps q r)))

pub Standing-IsFirst :
    {uid : Bytes} (ps : List PodState)
    → Standing uid ps
    → (m : PodState) × IsFirst m (contenders ps) × (m.pod_uid ≡ uid)
Standing-IsFirst {uid} ps s = go s (select mastering ps) refl
  where
    go :
        Standing uid ps
        → (masters : List PodState) → select mastering ps ≡ masters
        → (m : PodState) × IsFirst m (or_else masters ps) × (m.pod_uid ≡ uid)
    go (ruling m k u t least) [] e = absurd (Memᴰ.not-nil (rw e at (select-mem mastering ps k t)))
    go (ruling m k u t least) (y ∷ masters) e = (
      m,
      record {
        candidate = rw e at (select-mem mastering ps k t);
        least = λ x q. let (j, r) = mem-select mastering ps (rw e q) in least x j r;
      },
      u,
    )
    go (vacant m k u none_rules least) [] e = (m, record { candidate = k; least = least }, u)
    go (vacant m k u none_rules least) (y ∷ masters) e =
        let (j, r) = mem-select mastering ps (rw e (Memᴰ.head refl)) in
        absurd (not_both (none_rules y j) r)

-- A step of the pod with the UID `w`, whose role becomes that of the pod that comes first.
module _ (uid w : Bytes) (ps : List PodState) (unique : UniqueUids ps) where
  abbrev leads : Bool
  leads = str_eq uid w

  abbrev after : PodState → PodState
  after = with_role w leads

  after-own : (p : PodState) → p.pod_uid ≡ w → (after p).is_master ≡ leads
  after-own p e = rw ((str_eq_iff p.pod_uid w).1 e) refl

  after-other : (p : PodState) → str_eq p.pod_uid w ≡ false → after p ≡ p
  after-other p e = rw e refl

  pub set_role-UniqueUids : UniqueUids (set_role w leads ps)
  set_role-UniqueUids x y j k e =
      let (a, p, f) = Memᴰ.of_map after ps j in
      let (b, q, g) = Memᴰ.of_map after ps k in
      let same = unique a b p q (
        sym (with_role-uid w leads a)
        ∙ ap (λ (z : PodState). z.pod_uid) f
        ∙ e
        ∙ ap (λ (z : PodState). z.pod_uid) (sym g)
        ∙ with_role-uid w leads b) in
      sym f ∙ ap after same ∙ g

  -- A master behind the step leads, or was a master before and is another pod.
  after_master :
      (y : PodState)
      → (after y).is_master ≡ true
      → ((y.pod_uid ≡ w) × (leads ≡ true)) ⊎ ((y.pod_uid ≢ w) × (y.is_master ≡ true))
  after_master y t = elim (Bool-cases (str_eq y.pod_uid w)) [
    | inl own ↦ let e = (str_eq_iff _ _).0 own in inl (e, sym (after-own y e) ∙ t)
    | inr other ↦ inr (
      λ e. not_both other ((str_eq_iff _ _).1 e),
      sym (ap (λ (z : PodState). z.is_master) (after-other y other)) ∙ t,
    )
  ]

  -- The pod that comes first still does, and rules if it is the one that ran.
  ruling-after :
      (m : PodState)
      → Memᴰ m ps
      → m.pod_uid ≡ uid
      → (after m).is_master ≡ true
      → ((y : PodState) → Memᴰ y ps → (after y).is_master ≡ true → pod_less y m ≡ false)
      → Standing uid (set_role w leads ps)
  ruling-after m k u t least =
      ruling (after m) (Memᴰ.map after k) (with_role-uid w leads m ∙ u) t (λ x q r.
        let (y, p, e) = Memᴰ.of_map after ps q in
        rw (← e) (pod_less-with_role w leads y m ∙ least y p (rw e r)))

  least-after :
      (m : PodState)
      → Memᴰ m ps
      → m.pod_uid ≡ uid
      → ((y : PodState) → Memᴰ y ps → y.is_master ≡ true → pod_less y m ≡ false)
      → (y : PodState) → Memᴰ y ps
      → (after y).is_master ≡ true
      → pod_less y m ≡ false
  least-after m k u least y p t = elim (after_master y t) [
    | inl (e, l) ↦
        let same = unique y m p k (e ∙ sym ((str_eq_iff uid w).0 l) ∙ sym u) in
        rw same (pod_less_irrefl m)
    | inr (_, r) ↦ least y p r
  ]

  rules-if_leads : (m : PodState) → m.pod_uid ≡ uid → leads ≡ true → (after m).is_master ≡ true
  rules-if_leads m u l = after-own m (u ∙ (str_eq_iff uid w).0 l) ∙ l

  keeps-if_not : (m : PodState) → m.pod_uid ≡ uid → leads ≡ false → after m ≡ m
  keeps-if_not m u n = after-other m (rw u n)

  pub set_role-Standing : Standing uid ps → Standing uid (set_role w leads ps)
  set_role-Standing (ruling m k u t least) =
      ruling-after m k u (role (Bool-cases leads)) (least-after m k u least)
    where
      role : (leads ≡ true) ⊎ (leads ≡ false) → (after m).is_master ≡ true
      role (inl l) = rules-if_leads m u l
      role (inr n) = ap (λ (z : PodState). z.is_master) (keeps-if_not m u n) ∙ t
  set_role-Standing (vacant m k u none_rules least) = elim (Bool-cases leads) [
    | inl l ↦ ruling-after m k u (rules-if_leads m u l) (least-after m k u (λ y p _. least y p))
    | inr n ↦
        vacant (after m) (Memᴰ.map after k) (with_role-uid w leads m ∙ u)
          (λ x q. let (y, p, e) = Memᴰ.of_map after ps q in rw (← e) (stays y p n))
          (λ x q.
            let (y, p, e) = Memᴰ.of_map after ps q in
            rw (← e) (pod_less-with_role w leads y m ∙ least y p))
  ]
    where
      stays : (y : PodState) → Memᴰ y ps → leads ≡ false → (after y).is_master ≡ false
      stays y p n = elim (Bool-cases (after y).is_master) [
        | inr f ↦ f
        | inl t ↦ elim (after_master y t) [
          | inl (_, l) ↦ absurd (not_both n l)
          | inr (_, r) ↦ absurd (not_both (none_rules y p) r)
        ]
      ]

  -- The pods that have run have the role that they should have.
  pub set_role-settled :
      (uids : List Bytes)
      → ((y : PodState) → Memᴰ y ps → Memᴰ y.pod_uid uids → y.is_master ≡ str_eq uid y.pod_uid)
      → (x : PodState) → Memᴰ x (set_role w leads ps)
      → Memᴰ x.pod_uid (w ∷ uids)
      → x.is_master ≡ str_eq uid x.pod_uid
  set_role-settled uids settled x q ran =
      let (y, p, e) = Memᴰ.of_map after ps q in rw (← e) (role y p (rw (← e) at ran))
    where
      earlier :
          (y : PodState)
          → str_eq y.pod_uid w ≡ false
          → Memᴰ (after y).pod_uid (w ∷ uids)
          → Memᴰ y.pod_uid uids
      earlier y other r = elim (Memᴰ.cases_cons (rw (with_role-uid w leads y) at r)) [
        | inl e ↦ absurd (not_both other ((str_eq_iff _ _).1 e))
        | inr t ↦ t
      ]

      role :
          (y : PodState)
          → Memᴰ y ps
          → Memᴰ (after y).pod_uid (w ∷ uids)
          → (after y).is_master ≡ str_eq uid (after y).pod_uid
      role y p r = elim (Bool-cases (str_eq y.pod_uid w)) [
        | inl own ↦
            let e = (str_eq_iff y.pod_uid w).0 own in
            after-own y e ∙ ap (str_eq uid) (sym (with_role-uid w leads y ∙ e))
        | inr other ↦ rw (after-other y other) (settled y p (earlier y other r))
      ]
