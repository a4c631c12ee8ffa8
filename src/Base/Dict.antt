-- ===== src/Base/Dict.antt =====
-- `HashMap` as an association list: at most the order of iteration is chosen by the model.
use mathlib.Core.Path.{◌≡◌, refl, ap}
use mathlib.Core.Bool.{Bool, true, false}
use mathlib.Core.Logic.{inl, inr}
use mathlib.Core.Option.{Option, none, some}
use mathlib.Core.List.{List, [], ◌∷◌}
use native.Mathlib.Omega.{arith}
use eva.Base.Tests.{is_some, if◌then◌else◌, Bool-cases}
use eva.Base.Eq.{Eq, ◌==◌, beq_refl, beq→≡, beq-sym}
use eva.Base.Lists.{In, here, there, not-In_nil, In-cons_inv}

abbrev pub Dict {ℓ κ} : Type ℓ → Type κ → Type (ℓ ⊔ κ)
Dict K V = List (K × V)

module _ {ℓ κ} {K : Type ℓ} {V : Type κ} where
  unfoldable pub values : Dict K V → List V
  values [] = []
  values ((k, v) ∷ m) = v ∷ values m

  unfoldable pub keys : Dict K V → List K
  keys [] = []
  keys ((k, v) ∷ m) = k ∷ keys m

  unfoldable pub is_empty : Dict K V → Bool
  is_empty [] = true
  is_empty (_ ∷ _) = false

module _ {ℓ κ} {K : Type ℓ} {V : Type κ} ⦃e : Eq K⦄ where
  unfoldable pub get : K → Dict K V → Option V
  get k [] = none
  get k ((j, v) ∷ m) = if j == k then some v else get k m

  unfoldable pub contains_key : K → Dict K V → Bool
  contains_key k [] = false
  contains_key k ((j, v) ∷ m) = if j == k then true else contains_key k m

  unfoldable pub remove : K → Dict K V → Dict K V
  remove key [] = []
  remove key ((j, old) ∷ rest) = if j == key then remove key rest else (j, old) ∷ remove key rest

  unfoldable pub insert : K → V → Dict K V → Dict K V
  insert key new [] = (key, new) ∷ []
  insert key new ((j, old) ∷ rest) =
      if j == key then (key, new) ∷ rest else (j, old) ∷ insert key new rest

  pub get-insert :
      (k j : K) (v : V) (m : Dict K V) → get j (insert k v m) ≡ (if k == j then some v else get j m)
  unfolding get insert
  get-insert key j new [] = refl
  get-insert key j new ((i, old) ∷ rest) =
      ground (arith, get-insert key j new rest, e.decides i j, e.decides key j, e.decides i key)

  pub get-remove :
      (k j : K) (m : Dict K V) → get j (remove k m) ≡ (if k == j then none else get j m)
  unfolding get remove
  get-remove k j [] = ground arith
  get-remove k j ((i, w) ∷ m) =
      ground (arith, e.decides k j, e.decides i k, e.decides i j, get-remove k j m)

  pub get-is_empty : (k : K) (m : Dict K V) → is_empty m ≡ true → get k m ≡ none
  unfolding get is_empty
  get-is_empty k [] h = refl
  get-is_empty k (x ∷ m) h = cc

  pub is_empty-insert : (k : K) (v : V) (m : Dict K V) → is_empty (insert k v m) ≡ false
  unfolding insert is_empty
  is_empty-insert k v [] = refl
  is_empty-insert k v ((j, w) ∷ m) = ground arith

  pub contains_key-get : (k : K) (m : Dict K V) → contains_key k m ≡ is_some (get k m)
  unfolding get contains_key
  contains_key-get k [] = refl
  contains_key-get k ((j, v) ∷ m) = ground (arith, contains_key-get k m)

  -- No key stands twice.
  abbrev pub Distinct : Dict K V → Type (ℓ ⊔ κ)
  Distinct [] = Unit
  Distinct ((k, v) ∷ m) = (get k m ≡ none) × Distinct m

  pub Distinct-insert : (k : K) (v : V) (m : Dict K V) → Distinct m → Distinct (insert k v m)
  unfolding insert get
  Distinct-insert k v [] d = (refl, tt)
  Distinct-insert k v ((j, w) ∷ m) d = elim (Bool-cases (j == k)) [
    | inl y ↦ rw y (rw (← beq→≡ j k y) (d.0), d.1)
    | inr n ↦ rw n (rw (get-insert k j v m) (rw (beq-sym j k n) d.0), Distinct-insert k v m d.1)
  ]

  pub Distinct-remove : (k : K) (m : Dict K V) → Distinct m → Distinct (remove k m)
  unfolding remove
  Distinct-remove k [] d = tt
  Distinct-remove k ((j, w) ∷ m) d = elim (Bool-cases (j == k)) [
    | inl y ↦ rw y (Distinct-remove k m d.1)
    | inr n ↦ rw n (rw (get-remove k j m) (rw (beq-sym j k n) d.0), Distinct-remove k m d.1)
  ]

  pub In-values :
      (m : Dict K V) {v : V} → Distinct m → In v (values m) → (k : K) × (get k m ≡ some v)
  unfolding get values
  In-values [] d h = absurd (not-In_nil h)
  In-values ((j, w) ∷ m) d h = elim (In-cons_inv h) [
    | inl e ↦ (j, rw (beq_refl j) (ap some e))
    | inr r ↦ let (k, g) = In-values m d.1 r in (k, ground (arith, d.0, e.decides j k))
  ]

  pub values-In : (k : K) (m : Dict K V) {v : V} → get k m ≡ some v → In v (values m)
  unfolding get values
  values-In k [] h = cc
  values-In k ((j, w) ∷ m) h = elim (Bool-cases (j == k)) [
    | inl y ↦ here (ground (arith, h))
    | inr n ↦ there (values-In k m (rw n at h))
  ]
