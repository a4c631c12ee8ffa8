-- ===== src/Base/Lists.antt =====
-- Lists over the native numbers, and filters and membership by recursion.
use Prim.Native.Nat.{ℕ, zero, suc, ◌-◌}
use mathlib.Core.Path.{◌≡◌, refl}
use mathlib.Core.Bool.{Bool, true, false}
use mathlib.Core.Logic.{◌⊎◌, inl, inr}
use mathlib.Core.List.{List, [], ◌∷◌, ◌++◌}
use native.Mathlib.Omega.{arith}
use eva.Base.Tests.{if◌then◌else◌, Bool-cases}

-- Membership that keeps its place.
pub data In {ℓ} {A : Type ℓ} (a : A) : List A → Type ℓ where
  here : {x : A} {xs : List A} → x ≡ a → In a (x ∷ xs)
  there : {x : A} {xs : List A} → In a xs → In a (x ∷ xs)

module _ {ℓ} {A : Type ℓ} where
  abbrev pub length : List A → ℕ
  length [] = 0
  length (x ∷ xs) = suc (length xs)

  abbrev pub drop : ℕ → List A → List A
  drop zero xs = xs
  drop (suc n) [] = []
  drop (suc n) (x ∷ xs) = drop n xs

  -- `Iterator::filter` by a Boolean test.
  unfoldable pub retain : (A → Bool) → List A → List A
  retain p [] = []
  retain p (x ∷ xs) = let rest = retain p xs in if p x then x ∷ rest else rest

  pub length-drop : (n : ℕ) (xs : List A) → length (drop n xs) ≡ length xs - n
  length-drop zero xs = omega arith
  length-drop (suc n) [] = omega arith
  length-drop (suc n) (x ∷ xs) = omega (arith, length-drop n xs)

  pub In-append_left : {a : A} {xs : List A} (ys : List A) → In a xs → In a (xs ++ ys)
  In-append_left ys (here e) = here e
  In-append_left ys (there h) = there (In-append_left ys h)

  pub In-append_right : {a : A} (xs : List A) {ys : List A} → In a ys → In a (xs ++ ys)
  In-append_right [] h = h
  In-append_right (x ∷ xs) h = there (In-append_right xs h)

  pub In-append_inv : {a : A} (xs : List A) {ys : List A} → In a (xs ++ ys) → In a xs ⊎ In a ys
  In-append_inv [] h = inr h
  In-append_inv (x ∷ xs) (here e) = inl (here e)
  In-append_inv (x ∷ xs) (there h) = elim (In-append_inv xs h) [
    | inl l ↦ inl (there l)
    | inr r ↦ inr r
  ]

  pub In-cons_inv : {a x : A} {xs : List A} → In a (x ∷ xs) → (x ≡ a) ⊎ In a xs
  In-cons_inv (here e) = inl e
  In-cons_inv (there h) = inr h

  pub retain-true :
      (p : A → Bool) (x : A) (xs : List A) → p x ≡ true → retain p (x ∷ xs) ≡ x ∷ retain p xs
  unfolding retain
  retain-true p x xs h = rw h

  pub retain-false :
      (p : A → Bool) (x : A) (xs : List A) → p x ≡ false → retain p (x ∷ xs) ≡ retain p xs
  unfolding retain
  retain-false p x xs h = rw h

  retain-nil : (p : A → Bool) → retain p [] ≡ []
  unfolding retain
  retain-nil p = refl

  pub not-In_nil : {a : A} → In a [] → ⊥
  not-In_nil m = elim m [ ]

  pub In-retain : (p : A → Bool) {a : A} (xs : List A) → In a (retain p xs) → In a xs × (p a ≡ true)
  In-retain p {a} [] h =
      let h' : In a (retain p []) = h in absurd (not-In_nil (rw (retain-nil p) at h'))
  In-retain p {a} (x ∷ xs) h = elim (Bool-cases (p x)) [
    | inl t ↦ elim (In-cons_inv (rw (retain-true p x xs t) at h)) [
      | inl e ↦ (here e, rw (← e) t)
      | inr r ↦ let (m, q) = In-retain p xs r in (there m, q)
    ]
    | inr f ↦ let (m, q) = In-retain p xs (rw (retain-false p x xs f) at h) in (there m, q)
  ]

  pub In-retain_intro :
      (p : A → Bool) {a : A} {xs : List A} → In a xs → p a ≡ true → In a (retain p xs)
  In-retain_intro p (here {x} {xs} e) t = rw (retain-true p x xs (rw e t)) (here e)
  In-retain_intro p (there {x} {xs} h) t = elim (Bool-cases (p x)) [
    | inl y ↦ rw (retain-true p x xs y) (there (In-retain_intro p h t))
    | inr n ↦ rw (retain-false p x xs n) (In-retain_intro p h t)
  ]
