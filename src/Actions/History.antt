-- ===== src/Actions/History.antt =====
-- eva/src/actmgr.rs: the history that clients see, by filter, and its clean-up.
use eva.Base.{
  ℕ, zero, suc, ◌+◌, ◌-◌, ◌≤◌, some, true, ◌||◌, ltb, leb, ◌≡◌, arith, [], ◌∷◌, List, Bool-cases,
  refl, ◌⊎◌, if◌then◌else◌, inl, inr, or_else,
}
use eva.Base.Dict.{get, Distinct, values, values-In, In-values}
use eva.Base.Eq.{nat-Eq}
use eva.Base.Lists.{
  In, length, drop, retain, length-drop, In-retain, In-retain_intro, In-cons_inv, here, there,
}
use eva.Common.{Common}
use eva.Actions.{
  StatusCodes, Uuid, Action, Filter, Manager, cleanup_action_history, matches, place, sort, latest,
  get_actions_filtered, default_filter_limit,
}
use eva.Actions.Retained.{kept, get-retain_values}

module _ ⦃c : Common⦄ where
  In-place : (a x : Action) (xs : List Action) → In x (place a xs) → In x (a ∷ xs)
  unfolding place
  In-place a x [] h = h
  In-place a x (b ∷ bs) h = elim (Bool-cases (leb a.started b.started)) [
    | inl y ↦ rw y at h
    | inr n ↦ elim (In-cons_inv (rw n at h)) [
      | inl e ↦ there (here e)
      | inr k ↦ elim (In-cons_inv (In-place a x bs k)) [ inl e ↦ here e | inr q ↦ there (there q) ]
    ]
  ]

  place-In : (a x : Action) (xs : List Action) → In x (a ∷ xs) → In x (place a xs)
  unfolding place
  place-In a x [] h = h
  place-In a x (b ∷ bs) h = elim (Bool-cases (leb a.started b.started)) [
    | inl y ↦ rw y h
    | inr n ↦ rw n (elim (In-cons_inv h) [
      | inl e ↦ there (place-In a x bs (here e))
      | inr k ↦ elim (In-cons_inv k) [ inl e ↦ here e | inr q ↦ there (place-In a x bs (there q)) ]
    ])
  ]

  In-sort : (x : Action) (xs : List Action) → In x (sort xs) → In x xs
  unfolding sort
  In-sort x [] h = h
  In-sort x (a ∷ xs) h = elim (In-cons_inv (In-place a x (sort xs) h)) [
    | inl e ↦ here e
    | inr k ↦ there (In-sort x xs k)
  ]

  sort-In : (x : Action) (xs : List Action) → In x xs → In x (sort xs)
  unfolding sort
  sort-In x [] h = h
  sort-In x (a ∷ xs) h = elim (In-cons_inv h) [
    | inl e ↦ place-In a x (sort xs) (here e)
    | inr k ↦ place-In a x (sort xs) (there (sort-In x xs k))
  ]

  In-drop : (n : ℕ) (x : Action) (xs : List Action) → In x (drop n xs) → In x xs
  In-drop zero x xs h = h
  In-drop (suc n) x [] h = h
  In-drop (suc n) x (a ∷ xs) h = there (In-drop n x xs h)

  In-latest : (n : ℕ) (x : Action) (xs : List Action) → In x (latest n xs) → In x xs
  unfolding latest
  In-latest n x xs h = elim (Bool-cases (ltb n (length xs))) [
    | inl y ↦ In-drop _ x xs (rw y at h)
    | inr k ↦ rw k at h
  ]

  length-latest : (n : ℕ) (xs : List Action) → length (latest n xs) ≤ n
  unfolding latest
  length-latest n xs = ground (arith, length-drop (length xs - n) xs)

  length-place : (a : Action) (xs : List Action) → length (place a xs) ≡ suc (length xs)
  unfolding place
  length-place a [] = refl
  length-place a (b ∷ bs) = ground (arith, length-place a bs)

  length-sort : (xs : List Action) → length (sort xs) ≡ length xs
  unfolding sort
  length-sort [] = refl
  length-sort (a ∷ xs) = omega (arith, length-place a (sort xs), length-sort xs)

  length-latest-sort :
      (n : ℕ) (xs : List Action)
      → length (latest n (sort xs)) ≡ (if ltb n (length xs) then n else length xs)
  unfolding latest
  length-latest-sort n xs =
      ground (arith, length-drop (length (sort xs) - n) (sort xs), length-sort xs)

  latest-all : (n : ℕ) (xs : List Action) → length xs ≤ n → latest n xs ≡ xs
  unfolding latest
  latest-all n xs h = ground arith

  abbrev pub IsOldestFirst : List Action → Type 0
  IsOldestFirst [] = Unit
  IsOldestFirst (a ∷ xs) = ((b : Action) → In b xs → a.started ≤ b.started) × IsOldestFirst xs

  place-IsOldestFirst :
      (a : Action) (xs : List Action) → IsOldestFirst xs → IsOldestFirst (place a xs)
  unfolding place
  place-IsOldestFirst a [] s = (λ b h. elim h [ ], tt)
  place-IsOldestFirst a (b ∷ bs) s = elim (Bool-cases (leb a.started b.started)) [
    | inl y ↦ rw y (
      (λ x h. elim (In-cons_inv h) [
        | inl e ↦ ground (arith, e, y)
        | inr k ↦ ground (arith, s.0 x k, y)
      ]),
      s,
    )
    | inr n ↦ rw n (
      (λ x h. elim (In-cons_inv (In-place a x bs h)) [
        | inl e ↦ ground (arith, e, n)
        | inr k ↦ s.0 x k
      ]),
      place-IsOldestFirst a bs s.1,
    )
  ]

  sort-IsOldestFirst : (xs : List Action) → IsOldestFirst (sort xs)
  unfolding sort
  sort-IsOldestFirst [] = tt
  sort-IsOldestFirst (a ∷ xs) = place-IsOldestFirst a (sort xs) (sort-IsOldestFirst xs)

  drop-IsOldestFirst : (n : ℕ) (xs : List Action) → IsOldestFirst xs → IsOldestFirst (drop n xs)
  drop-IsOldestFirst zero xs s = s
  drop-IsOldestFirst (suc n) [] s = s
  drop-IsOldestFirst (suc n) (a ∷ xs) s = drop-IsOldestFirst n xs s.1

  latest-IsOldestFirst : (n : ℕ) (xs : List Action) → IsOldestFirst xs → IsOldestFirst (latest n xs)
  unfolding latest
  latest-IsOldestFirst n xs s = elim (Bool-cases (ltb n (length xs))) [
    | inl y ↦ rw y (drop-IsOldestFirst _ xs s)
    | inr k ↦ rw k s
  ]

  -- an action of an ordered list is in what is left of it, or not later than any that is
  drop-latest :
      (n : ℕ) (a : Action) (xs : List Action)
      → IsOldestFirst xs
      → In a xs
      → In a (drop n xs) ⊎ ((b : Action) → In b (drop n xs) → a.started ≤ b.started)
  drop-latest zero a xs s h = inl h
  drop-latest (suc n) a [] s h = inl h
  drop-latest (suc n) a (x ∷ xs) s h = elim (In-cons_inv h) [
    | inl e ↦ inr (λ b m. ground (arith, e, s.0 b (In-drop n b xs m)))
    | inr k ↦ drop-latest n a xs s.1 k
  ]

  latest-sort-latest :
      (n : ℕ) (a : Action) (xs : List Action)
      → In a xs
      → In a (latest n (sort xs))
        ⊎ ((b : Action) → In b (latest n (sort xs)) → a.started ≤ b.started)
  unfolding latest
  latest-sort-latest n a xs h = elim (Bool-cases (ltb n (length (sort xs)))) [
    | inl y ↦ rw y (drop-latest _ a (sort xs) (sort-IsOldestFirst xs) (sort-In a xs h))
    | inr k ↦ rw k (inl (sort-In a xs h))
  ]

module _ ⦃c : Common⦄ (codes : StatusCodes) where
  open c use {Value, F64}

  -- Where no UUID stands twice, a clean-up keeps an action exactly if it is recent or has not
  -- finished, and changes none that it keeps.
  cleanup_lem :
      (m : Manager) (t : ℕ) (u : Uuid)
      → Distinct m.actions
      → get u (cleanup_action_history codes m t).actions
        ≡ kept
            (λ a. ltb t (a.started + m.keep_for) || ltb a.status codes.completed)
            (get u m.actions)
  unfolding cleanup_action_history
  cleanup_lem m t u d = get-retain_values _ u m.actions d

  -- Where no UUID stands twice, the filtered history has as many actions as match the filter, or
  -- as the limit if that is less, the oldest first; each of them is stored and matches the filter,
  -- and a stored action that matches is left out only if it was started no later than any of them.
  pub get_actions_filtered_sound :
      (m : Manager) (f : Filter) (now : F64)
      → Distinct m.actions
      → let result = get_actions_filtered codes m f now in
        let limit = or_else f.limit default_filter_limit in
        let found = length (retain (λ a. matches codes f a now) (values m.actions)) in
        (length result ≡ (if ltb limit found then limit else found))
        × IsOldestFirst result
        × ((a : Action)
            → In a result
            → ((u : Uuid) × (get u m.actions ≡ some a)) × (matches codes f a now ≡ true))
        × ((u : Uuid) (a : Action)
            → get u m.actions ≡ some a
            → matches codes f a now ≡ true
            → In a result ⊎ ((b : Action) → In b result → a.started ≤ b.started))
  unfolding get_actions_filtered
  get_actions_filtered_sound m f now d = (
    length-latest-sort _ _,
    latest-IsOldestFirst _ _ (sort-IsOldestFirst _),
    λ a h.
        let (k, q) =
          In-retain (λ x. matches codes f x now) (values m.actions)
            (In-sort a _ (In-latest _ a _ h)) in
        (In-values m.actions d k, q),
    λ u a h k. latest-sort-latest _ a _ (In-retain_intro _ (values-In u m.actions h) k),
  )

  -- When the actions that match are no more than the limit, the filtered history has each of them.
  get_actions_filtered_complete :
      (m : Manager) (f : Filter) (now : F64) (u : Uuid) (a : Action)
      → length (sort (retain (λ x. matches codes f x now) (values m.actions)))
        ≤ or_else f.limit default_filter_limit
      → get u m.actions ≡ some a
      → matches codes f a now ≡ true
      → In a (get_actions_filtered codes m f now)
  unfolding get_actions_filtered
  get_actions_filtered_complete m f now u a b h k =
      rw (latest-all _ _ b) (sort-In a _ (In-retain_intro _ (values-In u m.actions h) k))
