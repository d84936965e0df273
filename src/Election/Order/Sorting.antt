-- ===== src/Election/Order/Sorting.antt =====
-- What `sort.Slice` promises, for every comparison whose "not less" is transitive.
use mathlib.Core.List.{Memᴰ}
use mathlib.Core.List.Memᴰ
use redis_orchestrator.Base.{Bool, true, false, List, [], ◌∷◌, ◌≡◌, ◌⊎◌, inl, inr, Bool-cases}
use redis_orchestrator.Base.Lists.{SameMembers}
use redis_orchestrator.Election.Order.{insert_sorted, sort_onto, sort_slice}

-- The comparison of a sort.
pub record IsOrder {ℓ} {A : Type ℓ} (less : A → A → Bool) : Type ℓ where
  pub asymm : (a b : A) → less a b ≡ true → less b a ≡ false
  pub trans : (a b c : A) → less b a ≡ false → less c b ≡ false → less c a ≡ false

module _ {ℓ} {A : Type ℓ} (less : A → A → Bool) where
  -- Nothing in the list comes before `a`.
  abbrev pub IsBelow : A → List A → Type ℓ
  IsBelow a l = (x : A) → Memᴰ x l → less x a ≡ false

  -- No element comes before one in front of it.
  abbrev pub IsSorted : List A → Type ℓ
  IsSorted [] = Unit
  IsSorted (x ∷ l) = IsBelow x l × IsSorted l

module _ {ℓ} {A : Type ℓ} (less : A → A → Bool) where
  insert_sorted-mem :
      (x : A) (l : List A) {z : A} → Memᴰ z (insert_sorted less x l) → (z ≡ x) ⊎ Memᴰ z l
  unfolding insert_sorted
  insert_sorted-mem x [] m = inl (Memᴰ.eq_of_singleton m)
  insert_sorted-mem x (y ∷ l) {z} m = elim (Bool-cases (less x y)) [
    | inl h ↦ Memᴰ.cases_cons (rw h at m)
    | inr h ↦ elim (Memᴰ.cases_cons (rw h at m)) [
      | inl e ↦ inr (Memᴰ.head e)
      | inr t ↦ elim (insert_sorted-mem x l t) [ inl e ↦ inl e | inr n ↦ inr (Memᴰ.tail n) ]
    ]
  ]

  mem-insert_sorted :
      (x : A) (l : List A) {z : A} → (z ≡ x) ⊎ Memᴰ z l → Memᴰ z (insert_sorted less x l)
  unfolding insert_sorted
  mem-insert_sorted x [] (inl e) = Memᴰ.head e
  mem-insert_sorted x [] (inr m) = absurd (Memᴰ.not-nil m)
  mem-insert_sorted x (y ∷ l) h = elim (Bool-cases (less x y)) [
    | inl before ↦ rw before (elim h [ inl e ↦ Memᴰ.head e | inr m ↦ Memᴰ.tail m ])
    | inr after ↦ rw after (elim h [
      | inl e ↦ Memᴰ.tail (mem-insert_sorted x l (inl e))
      | inr m ↦ elim (Memᴰ.cases_cons m) [
        | inl e ↦ Memᴰ.head e
        | inr t ↦ Memᴰ.tail (mem-insert_sorted x l (inr t))
      ]
    ])
  ]

  sort_onto-mem :
      (xs out : List A) {z : A} → Memᴰ z (sort_onto less xs out) → Memᴰ z xs ⊎ Memᴰ z out
  unfolding sort_onto
  sort_onto-mem [] out m = inr m
  sort_onto-mem (x ∷ xs) out m = elim (sort_onto-mem xs (insert_sorted less x out) m) [
    | inl t ↦ inl (Memᴰ.tail t)
    | inr n ↦ elim (insert_sorted-mem x out n) [ inl e ↦ inl (Memᴰ.head e) | inr t ↦ inr t ]
  ]

  mem-sort_onto :
      (xs out : List A) {z : A} → Memᴰ z xs ⊎ Memᴰ z out → Memᴰ z (sort_onto less xs out)
  unfolding sort_onto
  mem-sort_onto [] out (inl m) = absurd (Memᴰ.not-nil m)
  mem-sort_onto [] out (inr m) = m
  mem-sort_onto (x ∷ xs) out (inl m) =
      mem-sort_onto xs _
        (elim (Memᴰ.cases_cons m) [ inl e ↦ inr (mem-insert_sorted x out (inl e)) | inr t ↦ inl t ])
  mem-sort_onto (x ∷ xs) out (inr m) = mem-sort_onto xs _ (inr (mem-insert_sorted x out (inr m)))

  -- The sort loses and invents nothing.
  pub sort_slice-SameMembers : (l : List A) → SameMembers (sort_slice less l) l
  unfolding sort_slice
  sort_slice-SameMembers l x = (
    λ m. elim (sort_onto-mem l [] m) [ inl n ↦ n | inr n ↦ absurd (Memᴰ.not-nil n) ],
    λ m. mem-sort_onto l [] (inl m),
  )

  module _ (o : IsOrder less) where
    insert_sorted-IsSorted :
        (x : A) (l : List A) → IsSorted less l → IsSorted less (insert_sorted less x l)
    unfolding insert_sorted
    insert_sorted-IsSorted x [] s = (λ z m. absurd (Memᴰ.not-nil m), tt)
    insert_sorted-IsSorted x (y ∷ l) (below, s) = elim (Bool-cases (less x y)) [
      | inl h ↦ rw h (
        λ z m. elim (Memᴰ.cases_cons m) [
          | inl e ↦ rw e (o.asymm x y h)
          | inr t ↦ o.trans x y z (o.asymm x y h) (below z t)
        ],
        (below, s),
      )
      | inr h ↦ rw h (
        λ z m. elim (insert_sorted-mem x l m) [ inl e ↦ rw e h | inr t ↦ below z t ],
        insert_sorted-IsSorted x l s,
      )
    ]

    sort_onto-IsSorted :
        (xs out : List A) → IsSorted less out → IsSorted less (sort_onto less xs out)
    unfolding sort_onto
    sort_onto-IsSorted [] out s = s
    sort_onto-IsSorted (x ∷ xs) out s = sort_onto-IsSorted xs _ (insert_sorted-IsSorted x out s)

    pub sort_slice-IsSorted : (l : List A) → IsSorted less (sort_slice less l)
    unfolding sort_slice
    sort_slice-IsSorted l = sort_onto-IsSorted l [] tt
