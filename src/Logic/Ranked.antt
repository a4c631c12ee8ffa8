-- ===== src/Logic/Ranked.antt =====
-- svc/controller-lm/src/main.rs: which rules a state reaches, in the order of their priorities.
use eva.Base.{
  ℕ, ◌+◌, ◌≤◌, ◌<◌, ap, Bool, true, false, leb, ◌≡◌, ◌≢◌, refl, sym, arith, Bool-cases, inl, inr,
  ◌⊎◌, EResult, ok, List, [], ◌∷◌,
}
use eva.Base.Lists.{In, here, there, In-cons_inv, not-In_nil}
use eva.Common.{Common}
use eva.Logic.{Rule, Sdk, place, sort, numbered}

module _ ⦃c : Common⦄ (sdk : Sdk) where
  abbrev pub is_stop : EResult Bool → Bool
  is_stop (ok false) = true
  is_stop _ = false

  -- No two rules have the same priority, and every later rule has a higher one.
  abbrev pub IsRanked : List Rule → Type 0
  IsRanked [] = Unit
  IsRanked (r ∷ rs) = ((q : Rule) → In q rs → r.priority < q.priority) × IsRanked rs

  abbrev pub HasNoTies : List Rule → Type 0
  HasNoTies [] = Unit
  HasNoTies (r ∷ rs) = ((q : Rule) → In q rs → r.priority ≢ q.priority) × HasNoTies rs

  In-place : (r q : Rule) (rs : List Rule) → (q ≡ r) ⊎ In q rs → In q (place sdk r rs)
  unfolding place
  In-place r q [] (inl e) = here (sym e)
  In-place r q [] (inr h) = absurd (not-In_nil h)
  In-place r q (x ∷ xs) h = elim (Bool-cases (leb r.priority x.priority)) [
    | inl y ↦ rw y (elim h [ inl e ↦ here (sym e) | inr m ↦ there m ])
    | inr n ↦ rw n (elim h [
      | inl e ↦ there (In-place r q xs (inl e))
      | inr m ↦ elim (In-cons_inv m) [ inl e ↦ here e | inr k ↦ there (In-place r q xs (inr k)) ]
    ])
  ]

  In-place_inv : (r q : Rule) (rs : List Rule) → In q (place sdk r rs) → (q ≡ r) ⊎ In q rs
  unfolding place
  In-place_inv r q [] h = elim (In-cons_inv h) [ inl e ↦ inl (sym e) | inr m ↦ inr m ]
  In-place_inv r q (x ∷ xs) h = elim (Bool-cases (leb r.priority x.priority)) [
    | inl y ↦ elim (In-cons_inv (rw y at h)) [ inl e ↦ inl (sym e) | inr m ↦ inr m ]
    | inr n ↦ elim (In-cons_inv (rw n at h)) [
      | inl e ↦ inr (here e)
      | inr m ↦ elim (In-place_inv r q xs m) [ inl e ↦ inl e | inr k ↦ inr (there k) ]
    ]
  ]

  pub In-sort : (q : Rule) (rs : List Rule) → In q rs → In q (sort sdk rs)
  unfolding sort
  In-sort q [] h = h
  In-sort q (r ∷ rs) h = elim (In-cons_inv h) [
    | inl e ↦ In-place r q (sort sdk rs) (inl (sym e))
    | inr m ↦ In-place r q (sort sdk rs) (inr (In-sort q rs m))
  ]

  pub In-sort_inv : (q : Rule) (rs : List Rule) → In q (sort sdk rs) → In q rs
  unfolding sort
  In-sort_inv q [] h = h
  In-sort_inv q (r ∷ rs) h = elim (In-place_inv r q (sort sdk rs) h) [
    | inl e ↦ here (sym e)
    | inr m ↦ there (In-sort_inv q rs m)
  ]

  place-IsRanked :
      (r : Rule) (rs : List Rule)
      → ((q : Rule) → In q rs → r.priority ≢ q.priority)
      → IsRanked rs
      → IsRanked (place sdk r rs)
  unfolding place
  place-IsRanked r [] apart d = (λ q h. absurd (not-In_nil h), tt)
  place-IsRanked r (x ∷ xs) apart d = elim (Bool-cases (leb r.priority x.priority)) [
    | inl y ↦ rw y (
      λ q h. elim (In-cons_inv h) [
        | inl e ↦ rw (← e) (ground (arith, y, apart x (here refl)))
        | inr m ↦ ground (arith, y, d.0 q m)
      ],
      d,
    )
    | inr n ↦ rw n (
      λ q h. elim (In-place_inv r q xs h) [ inl e ↦ rw e (ground (arith, n)) | inr m ↦ d.0 q m ],
      place-IsRanked r xs (λ q m. apart q (there m)) d.1,
    )
  ]

  pub sort-IsRanked : (rs : List Rule) → HasNoTies rs → IsRanked (sort sdk rs)
  unfolding sort
  sort-IsRanked [] d = tt
  sort-IsRanked (r ∷ rs) d =
      place-IsRanked r (sort sdk rs) (λ q h. d.0 q (In-sort_inv q rs h)) (sort-IsRanked rs d.1)

-- Rules of a configuration, as `main` numbers them.
module _ ⦃c : Common⦄ (sdk : Sdk) where
  numbered-le : (i : ℕ) (rs : List Rule) (q : Rule) → In q (numbered i rs) → i ≤ q.priority
  unfolding numbered
  numbered-le i [] q h = absurd (not-In_nil h)
  numbered-le i (r ∷ rs) q h = elim (In-cons_inv h) [
    | inl e ↦ omega (arith, ap (λ (x : Rule). x.priority) e)
    | inr m ↦ omega (arith, numbered-le (i + 1) rs q m)
  ]

  -- No two rules of a configuration have the same priority.
  HasNoTies-numbered : (i : ℕ) (rs : List Rule) → HasNoTies sdk (numbered i rs)
  unfolding numbered
  HasNoTies-numbered i [] = tt
  HasNoTies-numbered i (r ∷ rs) =
      (λ q m e. omega (arith, numbered-le (i + 1) rs q m), HasNoTies-numbered (i + 1) rs)
