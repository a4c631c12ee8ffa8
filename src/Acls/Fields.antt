-- ===== src/Acls/Fields.antt =====
-- svc/aaa-acl/src/main.rs: a combined list against the lists of which it is made.
use eva.Base.{String, Option, Bool, false, ◌||◌, ◌≡◌, refl, ◌∙◌, List, [], ◌∷◌, arith, is_some}
use eva.Base.Eq.{Eq, string-Eq}
use eva.Base.Dict.{Dict}
use eva.Acls.{
  Acl, AclData, contains, form_field, place, add_acl, add_acls, default_data, from_acls, ids_of,
  sort,
}
use eva.Acls.Combine.{
  holds, grants, IsMap, grants-form_field, holds-form_ops, contains-extend, some-form_field,
}

pub data Field : Type 0 where
  read write deny_read deny_write meta : Field

module _ {Value : Type 0} where
  abbrev pub field : Field → Acl Value → Option (Dict String (List Value))
  field read a = a.read
  field write a = a.write
  field deny_read a = a.deny_read
  field deny_write a = a.deny_write
  field meta a = a.meta

  abbrev pub data_field : Field → AclData Value → Option (Dict String (List Value))
  data_field read d = d.read
  data_field write d = d.write
  data_field deny_read d = d.deny_read
  data_field deny_write d = d.deny_write
  data_field meta d = d.meta

  -- every field of every list is a map
  abbrev pub AllMaps : List (Acl Value) → Type 0
  AllMaps [] = Unit
  AllMaps (a ∷ rest) = ((f : Field) → IsMap (field f a)) × AllMaps rest

  abbrev pub any : (Acl Value → Bool) → List (Acl Value) → Bool
  any p [] = false
  any p (a ∷ rest) = p a || any p rest

contains-place :
    (x a : String) (xs : List String)
    → contains ⦃e = string-Eq⦄ x (place a xs) ≡ contains ⦃e = string-Eq⦄ x (a ∷ xs)
unfolding contains place
contains-place x a [] = refl
contains-place x a (b ∷ rest) = ground (arith, contains-place x a rest)

contains-sort :
    (x : String) (xs : List String)
    → contains ⦃e = string-Eq⦄ x (sort xs) ≡ contains ⦃e = string-Eq⦄ x xs
unfolding sort contains
contains-sort x [] = refl
contains-sort x (a ∷ rest) = rw (contains-place x a (sort rest)) (rw (contains-sort x rest) refl)

module _ {Value : Type 0} ⦃v : Eq Value⦄ where
  data_field-add_acl :
      (f : Field) (d : AclData Value) (a : Acl Value)
      → data_field f (add_acl d a) ≡ form_field (field f a) (data_field f d)
  unfolding add_acl
  data_field-add_acl read d a = refl
  data_field-add_acl write d a = refl
  data_field-add_acl deny_read d a = refl
  data_field-add_acl deny_write d a = refl
  data_field-add_acl meta d a = refl

  grants-add_acls :
      (f : Field) (k : String) (x : Value) (acls : List (Acl Value)) (d : AclData Value)
      → AllMaps acls
      → grants (data_field f (add_acls d acls)) k x
        ≡ (grants (data_field f d) k x || any (λ a. grants (field f a) k x) acls)
  unfolding add_acls
  grants-add_acls f k x [] d m = ground arith
  grants-add_acls f k x (a ∷ rest) d m =
      rw
        (
          grants-add_acls f k x rest (add_acl d a) m.1,
          data_field-add_acl f d a,
          grants-form_field (field f a) (data_field f d) k x (m.0 f),
        )
        (ground arith)

  some-add_acls :
      (f : Field) (acls : List (Acl Value)) (d : AclData Value)
      → is_some (data_field f (add_acls d acls))
        ≡ (is_some (data_field f d) || any (λ a. is_some (field f a)) acls)
  unfolding add_acls
  some-add_acls f [] d = ground arith
  some-add_acls f (a ∷ rest) d =
      rw
        (
          some-add_acls f rest (add_acl d a),
          data_field-add_acl f d a,
          some-form_field (field f a) (data_field f d),
        )
        (ground arith)

  holds-add_acls :
      (x : String) (acls : List (Acl Value)) (d : AclData Value)
      → holds ⦃e = string-Eq⦄ x (add_acls d acls).ops
        ≡ (holds ⦃e = string-Eq⦄ x d.ops || any (λ a. holds ⦃e = string-Eq⦄ x a.ops) acls)
  unfolding add_acls add_acl
  holds-add_acls x [] d = ground arith
  holds-add_acls x (a ∷ rest) d =
      rw (holds-add_acls x rest (add_acl d a), holds-form_ops a.ops d.ops x) (ground arith)

  admin-add_acls :
      (acls : List (Acl Value)) (d : AclData Value)
      → (add_acls d acls).admin ≡ (d.admin || any (λ a. a.admin) acls)
  unfolding add_acls add_acl
  admin-add_acls [] d = ground arith
  admin-add_acls (a ∷ rest) d = rw (admin-add_acls rest (add_acl d a)) (ground arith)

  data_field-from_acls :
      (f : Field) (acls : List (Acl Value))
      → data_field f (from_acls acls) ≡ data_field f (add_acls default_data acls)
  unfolding from_acls
  data_field-from_acls read acls = refl
  data_field-from_acls write acls = refl
  data_field-from_acls deny_read acls = refl
  data_field-from_acls deny_write acls = refl
  data_field-from_acls meta acls = refl

  pub grants-default :
      (f : Field) (k : String) (x : Value) → grants (data_field f default_data) k x ≡ false
  unfolding grants
  grants-default f k x = ground arith

  -- Where the fields of the lists are maps, the combined list grants in each field, and as an
  -- operation, exactly what one of them grants, has a field exactly if one of them has it, names as
  -- sources exactly their ids, and is an administrator's exactly if one of them is.
  pub from_acls-grants :
      (acls : List (Acl Value))
      → AllMaps acls
      → ((f : Field) (k : String) (x : Value)
          → grants (data_field f (from_acls acls)) k x ≡ any (λ a. grants (field f a) k x) acls)
        × ((f : Field)
            → is_some (data_field f (from_acls acls)) ≡ any (λ a. is_some (field f a)) acls)
        × ((x : String)
            → holds ⦃e = string-Eq⦄ x (from_acls acls).ops
              ≡ any (λ a. holds ⦃e = string-Eq⦄ x a.ops) acls)
        × ((x : String)
            → contains ⦃e = string-Eq⦄ x (from_acls acls).sources
              ≡ contains ⦃e = string-Eq⦄ x (ids_of acls))
        × ((from_acls acls).admin ≡ any (λ a. a.admin) acls)
  unfolding from_acls contains
  from_acls-grants acls m = (
    λ f k x.
        rw
          (
            data_field-from_acls f acls,
            grants-add_acls f k x acls default_data m,
            grants-default f k x,
          )
          refl,
    λ f. rw (data_field-from_acls f acls, some-add_acls f acls default_data) (ground arith),
    λ x. holds-add_acls x acls default_data,
    λ x. contains-extend ⦃e = string-Eq⦄ x [] (sort (ids_of acls)) ∙ contains-sort x (ids_of acls),
    admin-add_acls acls default_data,
  )
