-- ===== src/Acls/Combine.antt =====
-- svc/aaa-acl/src/main.rs: what a combined field holds.
use eva.Base.{
  String, Option, none, some, Bool, false, ◌||◌, if◌then◌else◌, ◌≡◌, refl, List, [], ◌∷◌, arith,
  is_some, Bool-cases, inl, inr,
}
use eva.Base.Eq.{Eq, ◌==◌, string-Eq, beq→≡}
use eva.Base.Dict.{Dict, get, insert, get-insert, Distinct}
use eva.Acls.{contains, extend, collect, merge, collect_map, form_field, form_ops}

module _ {A : Type 0} ⦃e : Eq A⦄ where
  pub contains-extend :
      (x : A) (set xs : List A) → contains x (extend set xs) ≡ (contains x set || contains x xs)
  unfolding contains extend
  contains-extend x set [] = ground arith
  contains-extend x set (y ∷ ys) = elim (Bool-cases (contains y set)) [
    | inl t ↦ rw t (rw (contains-extend x set ys) (ground (arith, t, e.decides x y)))
    | inr f ↦ rw f (rw (contains-extend x (y ∷ set) ys) (ground arith))
  ]

  pub contains-collect : (x : A) (xs : List A) → contains x (collect xs) ≡ contains x xs
  unfolding collect contains
  contains-collect x xs = contains-extend x [] xs

abbrev pub holds : {A : Type 0} ⦃e : Eq A⦄ → A → Option (List A) → Bool
unfolding contains
holds x none = false
holds x (some xs) = contains x xs

module _ {Value : Type 0} where
  abbrev pub IsMap : Option (Dict String (List Value)) → Type 0
  IsMap none = Unit
  IsMap (some f) = Distinct ⦃e = string-Eq⦄ f

module _ {Value : Type 0} ⦃v : Eq Value⦄ where
  unfoldable pub listed : String → Value → Dict String (List Value) → Bool
  unfolding get contains
  listed k x f = holds x (get ⦃e = string-Eq⦄ k f)

  pub listed-insert :
      (k j : String) (x : Value) (vals : List Value) (f : Dict String (List Value))
      → listed j x (insert ⦃e = string-Eq⦄ k vals f)
        ≡ (if ◌==◌ ⦃e = string-Eq⦄ k j then contains x vals else listed j x f)
  unfolding listed
  listed-insert k j x vals f = rw (get-insert ⦃e = string-Eq⦄ k j vals f) (ground arith)

  listed-cons :
      (k j : String) (x : Value) (vals : List Value) (f : Dict String (List Value))
      → listed j x ((k, vals) ∷ f)
        ≡ (if ◌==◌ ⦃e = string-Eq⦄ k j then contains x vals else listed j x f)
  unfolding listed get
  listed-cons k j x vals f = ground arith

  listed-none :
      (j : String) (x : Value) (f : Dict String (List Value))
      → get ⦃e = string-Eq⦄ j f ≡ none
      → listed j x f ≡ false
  unfolding listed
  listed-none j x f h = rw h refl

  listed-some :
      (j : String) (x : Value) (f : Dict String (List Value)) {set : List Value}
      → get ⦃e = string-Eq⦄ j f ≡ some set
      → listed j x f ≡ contains x set
  unfolding listed
  listed-some j x f h = rw h refl

  pub listed-nil : (j : String) (x : Value) → listed j x [] ≡ false
  unfolding listed get
  listed-nil j x = refl

  -- one turn of the loop of `merge`
  listed-step :
      (k j : String) (x : Value) (vals : List Value) (f : Dict String (List Value))
      → listed j x (elim (get ⦃e = string-Eq⦄ k f) [
        | some set ↦ insert ⦃e = string-Eq⦄ k (extend set vals) f
        | none ↦ insert ⦃e = string-Eq⦄ k (collect vals) f
      ])
        ≡ (listed j x f || listed j x ((k, vals) ∷ []))
  listed-step k j x vals f = go (get ⦃e = string-Eq⦄ k f) refl
    where
      go :
          (o : Option (List Value))
          → get ⦃e = string-Eq⦄ k f ≡ o
          → listed j x (elim o [
            | some set ↦ insert ⦃e = string-Eq⦄ k (extend set vals) f
            | none ↦ insert ⦃e = string-Eq⦄ k (collect vals) f
          ])
            ≡ (listed j x f || listed j x ((k, vals) ∷ []))
      go (some set) h = ground (
        arith,
        listed-insert k j x (extend set vals) f,
        contains-extend x set vals,
        listed-cons k j x vals [],
        listed-nil j x,
        listed-some k x f h,
        beq→≡ ⦃e = string-Eq⦄ k j,
      )
      go none h = ground (
        arith,
        listed-insert k j x (collect vals) f,
        contains-collect x vals,
        listed-cons k j x vals [],
        listed-nil j x,
        listed-none k x f h,
        beq→≡ ⦃e = string-Eq⦄ k j,
      )

  pub listed-merge :
      (j : String) (x : Value) (r f : Dict String (List Value))
      → Distinct ⦃e = string-Eq⦄ r
      → listed j x (merge r f) ≡ (listed j x f || listed j x r)
  unfolding merge
  listed-merge j x [] f d = ground (arith, listed-nil j x)
  listed-merge j x ((k, vals) ∷ rest) f d =
      rw (listed-merge j x rest _ d.1, listed-step k j x vals f)
        (ground (
          arith,
          listed-cons k j x vals rest,
          listed-cons k j x vals [],
          listed-nil j x,
          listed-none k x rest d.0,
          beq→≡ ⦃e = string-Eq⦄ k j,
        ))

  pub listed-collect_map :
      (j : String) (x : Value) (r f : Dict String (List Value))
      → Distinct ⦃e = string-Eq⦄ r
      → listed j x (collect_map r f)
        ≡ (if is_some (get ⦃e = string-Eq⦄ j r) then listed j x r else listed j x f)
  unfolding collect_map get
  listed-collect_map j x [] f d = refl
  listed-collect_map j x ((k, vals) ∷ rest) f d =
      rw
        (
          listed-collect_map j x rest (insert ⦃e = string-Eq⦄ k (collect vals) f) d.1,
          listed-insert k j x (collect vals) f,
          contains-collect x vals,
          listed-cons k j x vals rest,
        )
        (ground (arith, d.0, beq→≡ ⦃e = string-Eq⦄ k j))

  -- what an optional field lists under a key
  unfoldable pub grants : Option (Dict String (List Value)) → String → Value → Bool
  unfolding listed
  grants none k x = false
  grants (some f) k x = listed k x f

  pub grants-form_field :
      (src dst : Option (Dict String (List Value))) (k : String) (x : Value)
      → IsMap src
      → grants (form_field src dst) k x ≡ (grants dst k x || grants src k x)
  unfolding form_field grants
  grants-form_field none dst k x d = ground arith
  grants-form_field (some r) (some f) k x d = listed-merge k x r f d
  grants-form_field (some r) none k x d =
      rw (listed-collect_map k x r [] d) (ground (arith, listed-nil k x, listed-none k x r))

  pub some-form_field :
      (src dst : Option (Dict String (List Value)))
      → is_some (form_field src dst) ≡ (is_some dst || is_some src)
  unfolding form_field
  some-form_field none dst = ground arith
  some-form_field (some r) (some f) = refl
  some-form_field (some r) none = refl

pub holds-form_ops :
    (src dst : Option (List String)) (x : String)
    → holds ⦃e = string-Eq⦄ x (form_ops src dst)
      ≡ (holds ⦃e = string-Eq⦄ x dst || holds ⦃e = string-Eq⦄ x src)
unfolding form_ops
holds-form_ops none dst x = ground arith
holds-form_ops (some ops) (some f) x = contains-extend ⦃e = string-Eq⦄ x f ops
holds-form_ops (some ops) none x = contains-collect ⦃e = string-Eq⦄ x ops
