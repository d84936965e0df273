-- ===== src/Orchestrator/LoadBalancer/Selector.antt =====
-- What a selector that matches is.
use mathlib.Core.Path.{◌≡◌, refl, sym, ap, ◌∙◌}
use mathlib.Core.List.{Memᴰ}
use mathlib.Core.List.Memᴰ
use redis_orchestrator.Base.{
  [], ◌∷◌, Option, none, some, Bool, true, false, ◌&&◌, ◌||◌, if◌then◌else◌, ◌↔◌, arith, Bool-cases,
  inl, inr,
}
use redis_orchestrator.Base.Text.{Bytes, str_eq, str_eq_iff}
use redis_orchestrator.Base.Dict.{Dict}
use redis_orchestrator.Orchestrator.Labels.{label_of}
use redis_orchestrator.Orchestrator.LoadBalancer.{
  is_pod_name_key, check_selectors, names_pod, or_names_pod, matches_selector_with_pod_name,
}

module _ (pod_labels : Option (Dict Bytes)) (pod_name : Bytes) where
  -- The pod has every label that the selector asks for.
  abbrev pub HasLabels : Dict Bytes → Type 0
  HasLabels [] = Unit
  HasLabels ((key, value) ∷ selector) = (label_of key pod_labels ≡ value) × HasLabels selector

  -- One of the values is the pod's name.
  abbrev pub Names : Dict Bytes → Type 0
  Names selector = (key : Bytes) × Memᴰ (key, pod_name) selector

  unfoldable has_labels : Dict Bytes → Bool
  has_labels [] = true
  has_labels ((key, value) ∷ selector) =
      str_eq (label_of key pod_labels) value && has_labels selector

  -- A key for pod names asks for this pod's name.
  unfoldable keyed : Dict Bytes → Bool
  keyed [] = false
  keyed ((key, value) ∷ selector) = (is_pod_name_key key && str_eq value pod_name) || keyed selector

  check_selectors_lem :
      (matched : Bool) (selector : Dict Bytes)
      → check_selectors pod_labels pod_name matched selector
        ≡ (if has_labels selector then some (matched || keyed selector) else none)
  unfolding check_selectors has_labels keyed
  check_selectors_lem matched [] = ground arith
  check_selectors_lem matched ((key, value) ∷ selector) =
      let here = is_pod_name_key key && str_eq value pod_name in
      elim (Bool-cases (str_eq (label_of key pod_labels) value)) [
        | inl e ↦
            rw (e, check_selectors_lem (matched || here) selector)
              (regroup (has_labels selector) matched here (keyed selector))
        | inr e ↦ rw e refl
      ]
    where
      regroup :
          (labels a b c : Bool)
          → (if labels then some ((a || b) || c) else none)
            ≡ (if labels then some (a || (b || c)) else none)
      regroup labels true b c = refl
      regroup labels false b c = refl

  keyed-names_pod :
      (selector : Dict Bytes)
      → keyed selector ≡ true
      → names_pod pod_labels pod_name selector ≡ true
  unfolding keyed names_pod
  keyed-names_pod [] e = absurd (ground arith)
  keyed-names_pod ((key, value) ∷ selector) e = elim (Bool-cases (str_eq value pod_name)) [
    | inl q ↦ rw q refl
    | inr q ↦
        rw q (keyed-names_pod selector (later (is_pod_name_key key) (keyed selector) (rw q at e)))
  ]
    where
      later : (a b : Bool) → ((a && false) || b) ≡ true → b ≡ true
      later a b h = ground arith

  has_labels_iff : (selector : Dict Bytes) → (has_labels selector ≡ true) ↔ HasLabels selector
  unfolding has_labels
  has_labels_iff [] = (λ e. tt, λ t. refl)
  has_labels_iff ((key, value) ∷ selector) =
      ground (arith, str_eq_iff (label_of key pod_labels) value, has_labels_iff selector)

  names_pod-Names :
      (selector : Dict Bytes) → names_pod pod_labels pod_name selector ≡ true → Names selector
  unfolding names_pod
  names_pod-Names [] e = absurd (ground arith)
  names_pod-Names ((key, value) ∷ selector) e = elim (Bool-cases (str_eq value pod_name)) [
    | inl q ↦ (key, Memᴰ.head (rw ((str_eq_iff value pod_name).0 q) refl))
    | inr q ↦ let (k, m) = names_pod-Names selector (rw q at e) in (k, Memᴰ.tail m)
  ]

  names-names_pod :
      (selector : Dict Bytes) (key : Bytes)
      → Memᴰ (key, pod_name) selector
      → names_pod pod_labels pod_name selector ≡ true
  unfolding names_pod
  names-names_pod [] key m = absurd (Memᴰ.not-nil m)
  names-names_pod ((own, value) ∷ selector) key (Memᴰ.head e) =
      rw ((str_eq_iff value pod_name).1 (sym (ap (λ (x : Bytes × Bytes). x.1) e))) refl
  names-names_pod ((own, value) ∷ selector) key (Memᴰ.tail m) =
      elim (Bool-cases (str_eq value pod_name)) [
        | inl q ↦ rw q refl
        | inr q ↦ rw q (names-names_pod selector key m)
      ]

  decided :
      (selector : Dict Bytes) (labels key names : Bool)
      → (key ≡ true → names_pod pod_labels pod_name selector ≡ true)
      → names_pod pod_labels pod_name selector ≡ names
      → or_names_pod pod_labels pod_name selector (if labels then some (false || key) else none)
        ≡ (labels && names)
  decided selector false key names k n = refl
  decided selector true true names k n = sym (k refl) ∙ n
  decided selector true false names k n = n

  matches_lem :
      (selector : Dict Bytes)
      → matches_selector_with_pod_name pod_labels pod_name selector
        ≡ (has_labels selector && names_pod pod_labels pod_name selector)
  unfolding matches_selector_with_pod_name
  matches_lem [] = unfold names_pod has_labels in refl
  matches_lem (entry ∷ selector) = rw (check_selectors_lem false (entry ∷ selector)) (
      decided (entry ∷ selector) (has_labels (entry ∷ selector)) (keyed (entry ∷ selector)) _
        (keyed-names_pod (entry ∷ selector)) refl)

  -- A selector matches a pod exactly if the pod has every label that it asks for, a missing label
  -- reading as the empty string, and one of its values, under any key, is the pod's name. So the
  -- keys for pod names make no difference, nor does the order of the map.
  pub matches_selector_with_pod_name_iff :
      (selector : Dict Bytes)
      → (matches_selector_with_pod_name pod_labels pod_name selector ≡ true)
        ↔ (HasLabels selector × Names selector)
  matches_selector_with_pod_name_iff selector = rw (matches_lem selector) (
    (λ e. ((has_labels_iff selector).0 (ground arith), names_pod-Names selector (ground arith))),
    (λ (l, (key, m)).
        ground (arith, (has_labels_iff selector).1 l, names-names_pod selector key m)),
  )
