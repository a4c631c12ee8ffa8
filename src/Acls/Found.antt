-- ===== src/Acls/Found.antt =====
-- svc/aaa-acl/src/main.rs: the lists that stand under ids, and what each alone and all together
-- grant.
use eva.Base.{
  String, Option, none, some, Bool, true, false, ◌||◌, ◌&&◌, ◌≡◌, ◌≢◌, refl, sym, ap, ◌∙◌, List, [],
  ◌∷◌, arith, is_some,
}
use eva.Base.Eq.{Eq, string-Eq, beq_refl}
use eva.Base.Dict.{Dict, get}
use eva.Acls.{Acl, contains, from_acls, from_acl, ids_of}
use eva.Acls.Service.{IdOrList, single, multiple}
use eva.Acls.Combine.{grants, IsMap, grants-form_field, holds, holds-form_ops}
use eva.Acls.Fields.{Field, field, data_field, AllMaps, any, from_acls-grants}

abbrev pub ids_in : IdOrList → List String
ids_in (single i) = i ∷ []
ids_in (multiple ids) = ids

module _ {Value : Type 0} where
  abbrev pub look : Dict String (Acl Value) → List String → List (Acl Value)
  look acls [] = []
  look acls (i ∷ rest) = elim (get ⦃e = string-Eq⦄ i acls) [
    | some a ↦ a ∷ look acls rest
    | none ↦ look acls rest
  ]

  abbrev pub all_known : Dict String (Acl Value) → List String → Bool
  all_known acls [] = true
  all_known acls (i ∷ rest) = is_some (get ⦃e = string-Eq⦄ i acls) && all_known acls rest

  -- whether one of the ids is that of a list with a property
  abbrev pub some_known : (Acl Value → Bool) → Dict String (Acl Value) → List String → Bool
  some_known p acls [] = false
  some_known p acls (i ∷ rest) = elim (get ⦃e = string-Eq⦄ i acls) [
    | some a ↦ p a || some_known p acls rest
    | none ↦ some_known p acls rest
  ]

  -- every field of every stored list is a map
  abbrev pub StoredMaps : Dict String (Acl Value) → Type 0
  StoredMaps acls =
      (i : String) (a : Acl Value)
      → get ⦃e = string-Eq⦄ i acls ≡ some a
      → (f : Field) → IsMap (field f a)

  pub any-look :
      (p : Acl Value → Bool) (acls : Dict String (Acl Value)) (ids : List String)
      → any p (look acls ids) ≡ some_known p acls ids
  any-look p acls [] = refl
  any-look p acls (i ∷ rest) = ground (arith, any-look p acls rest)

  pub some_known-none :
      (p : Acl Value → Bool) (acls : Dict String (Acl Value)) (i : String)
      → get ⦃e = string-Eq⦄ i acls ≡ none
      → some_known p acls (i ∷ []) ≡ false
  some_known-none p acls i h = rw (h, some_known) refl

  pub some_known-some :
      (p : Acl Value → Bool) (acls : Dict String (Acl Value)) (i : String) {a : Acl Value}
      → get ⦃e = string-Eq⦄ i acls ≡ some a
      → some_known p acls (i ∷ []) ≡ p a
  some_known-some p acls i h = rw (h, some_known) (ground arith)

  pub look-AllMaps :
      (acls : Dict String (Acl Value)) (ids : List String)
      → StoredMaps acls
      → AllMaps (look acls ids)
  look-AllMaps acls [] h = tt
  look-AllMaps acls (i ∷ rest) h = go (get ⦃e = string-Eq⦄ i acls) refl (look-AllMaps acls rest h)
    where
      go :
          (o : Option (Acl Value))
          → get ⦃e = string-Eq⦄ i acls ≡ o
          → AllMaps (look acls rest)
          → AllMaps (elim o [ some a ↦ a ∷ look acls rest | none ↦ look acls rest ])
      go (some a) e m = (h i a e, m)
      go none e m = m

module _ {Value : Type 0} ⦃v : Eq Value⦄ where
  pub field-from_acl :
      (f : Field) (k : String) (x : Value) (a : Acl Value)
      → IsMap (field f a)
      → grants (data_field f (from_acl a)) k x ≡ grants (field f a) k x
  unfolding from_acl grants
  field-from_acl Field.read k x a h = grants-form_field a.read none k x h
  field-from_acl Field.write k x a h = grants-form_field a.write none k x h
  field-from_acl Field.deny_read k x a h = grants-form_field a.deny_read none k x h
  field-from_acl Field.deny_write k x a h = grants-form_field a.deny_write none k x h
  field-from_acl Field.meta k x a h = grants-form_field a.meta none k x h

  pub rest-from_acl :
      (x : String) (a : Acl Value)
      → holds ⦃e = string-Eq⦄ x (from_acl a).ops ≡ holds ⦃e = string-Eq⦄ x a.ops
  unfolding from_acl
  rest-from_acl x a = holds-form_ops a.ops none x ∙ ground arith

  pub sources-from_acls :
      (xs : List (Acl Value))
      → AllMaps xs
      → (any (λ _. true) xs ≡ false → (from_acls xs).sources ≡ [])
        × (any (λ _. true) xs ≡ true → (from_acls xs).sources ≢ [])
  unfolding from_acls contains
  sources-from_acls [] m = (λ _. refl, λ h. cc)
  sources-from_acls (a ∷ rest) m = (
    λ h. cc,
    λ _ e.
        let h : contains ⦃e = string-Eq⦄ a.id (from_acls (a ∷ rest)).sources
            ≡ contains ⦃e = string-Eq⦄ a.id (ids_of (a ∷ rest)) =
          (from_acls-grants (a ∷ rest) m).3 a.id in
        let g : contains ⦃e = string-Eq⦄ a.id (ids_of (a ∷ rest))
            ≡ contains ⦃e = string-Eq⦄ a.id [] =
          sym h ∙ ap (contains ⦃e = string-Eq⦄ a.id) e in
        ground (arith, beq_refl ⦃e = string-Eq⦄ a.id, g),
  )
