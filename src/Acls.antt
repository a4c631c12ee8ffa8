-- ===== src/Acls.antt =====
-- svc/aaa-acl/src/main.rs: access control lists, and how several are combined to one. A HashSet is
-- a list; the values of the lists are a parameter with an equality.
pub mod Service
pub mod Combine
pub mod Fields
pub mod Found
pub mod Formatted
pub mod Deployed
use Prim.Native.String.{◌++◌, compare}
use Prim.Native.Nat.{Ordering}
use eva.Base.{
  String, Option, none, some, Bool, true, false, ◌||◌, if◌then◌else◌, List, [], ◌∷◌, map,
}
use eva.Base.Eq.{Eq, ◌==◌, string-Eq}
use eva.Base.Dict.{Dict, get, insert}

module _ {A : Type 0} ⦃e : Eq A⦄ where
  unfoldable pub contains : A → List A → Bool
  contains x [] = false
  contains x (y ∷ ys) = x == y || contains x ys

  -- `for val in v { set.insert(val) }`
  unfoldable pub extend : List A → List A → List A
  unfolding contains
  extend set [] = set
  extend set (x ∷ xs) = extend (if contains x set then set else x ∷ set) xs

  -- `iter().collect()`
  unfoldable pub collect : List A → List A
  unfolding extend
  collect xs = extend [] xs

pub record Acl (Value : Type 0) : Type 0 where
  pub id : String
  pub admin : Bool
  pub read : Option (Dict String (List Value))
  pub write : Option (Dict String (List Value))
  pub deny_read : Option (Dict String (List Value))
  pub deny_write : Option (Dict String (List Value))
  pub ops : Option (List String)
  pub meta : Option (Dict String (List Value))

pub record AclData (Value : Type 0) : Type 0 where
  pub id : String
  pub sources : List String
  pub admin : Bool
  pub read : Option (Dict String (List Value))
  pub write : Option (Dict String (List Value))
  pub deny_read : Option (Dict String (List Value))
  pub deny_write : Option (Dict String (List Value))
  pub ops : Option (List String)
  pub meta : Option (Dict String (List Value))

abbrev pub leb_string : String → String → Bool
leb_string a b = elim (compare a b) [ Ordering.gt ↦ false | _ ↦ true ]

unfoldable pub place : String → List String → List String
place a [] = a ∷ []
place a (b ∷ rest) = let more = place a rest in if leb_string a b then a ∷ b ∷ rest else b ∷ more

-- `ids.sort()`
unfoldable pub sort : List String → List String
unfolding place
sort [] = []
sort (a ∷ rest) = place a (sort rest)

-- `ids.join("+")`
unfoldable pub join : List String → String
join [] = ""
join (a ∷ []) = a
join (a ∷ b ∷ rest) = a ++ "+" ++ join (b ∷ rest)

unfoldable pub form_ops : Option (List String) → Option (List String) → Option (List String)
unfolding extend collect
form_ops none dst = dst
form_ops (some ops) (some f) = some (extend ⦃e = string-Eq⦄ f ops)
form_ops (some ops) none = some (collect ⦃e = string-Eq⦄ ops)

module _ {Value : Type 0} ⦃v : Eq Value⦄ where
  -- `AclData::default`
  abbrev pub default_data : AclData Value
  default_data = record {
    id = "";
    sources = [];
    admin = false;
    read = none;
    write = none;
    deny_read = none;
    deny_write = none;
    ops = none;
    meta = none;
  }

  -- the loop over a field that stands already: the sets of known keys are extended
  unfoldable pub merge :
      Dict String (List Value) → Dict String (List Value) → Dict String (List Value)
  unfolding extend collect
  merge [] f = f
  merge ((k, vals) ∷ rest) f = merge rest (elim (get ⦃e = string-Eq⦄ k f) [
    | some set ↦ insert ⦃e = string-Eq⦄ k (extend set vals) f
    | none ↦ insert ⦃e = string-Eq⦄ k (collect vals) f
  ])

  -- a field collected anew
  unfoldable pub collect_map :
      Dict String (List Value) → Dict String (List Value) → Dict String (List Value)
  unfolding collect
  collect_map [] f = f
  collect_map ((k, vals) ∷ rest) f = collect_map rest (insert ⦃e = string-Eq⦄ k (collect vals) f)

  -- `form_field!`
  unfoldable pub form_field :
      Option (Dict String (List Value))
      → Option (Dict String (List Value))
      → Option (Dict String (List Value))
  unfolding merge collect_map
  form_field none dst = dst
  form_field (some r) (some f) = some (merge r f)
  form_field (some r) none = some (collect_map r [])

  -- the body of the loop in `From<Vec<&Acl>>`
  unfoldable pub add_acl : AclData Value → Acl Value → AclData Value
  unfolding form_field form_ops
  add_acl d acl = record d {
    admin = acl.admin || d.admin;
    read = form_field acl.read d.read;
    write = form_field acl.write d.write;
    deny_read = form_field acl.deny_read d.deny_read;
    deny_write = form_field acl.deny_write d.deny_write;
    ops = form_ops acl.ops d.ops;
    meta = form_field acl.meta d.meta;
  }

  unfoldable pub add_acls : AclData Value → List (Acl Value) → AclData Value
  unfolding add_acl
  add_acls d [] = d
  add_acls d (acl ∷ rest) = add_acls (add_acl d acl) rest

  abbrev pub ids_of : List (Acl Value) → List String
  ids_of acls = map (λ (a : Acl Value). a.id) acls

  -- `From<Vec<&Acl>> for AclData`
  unfoldable pub from_acls : List (Acl Value) → AclData Value
  unfolding add_acls sort join extend
  from_acls acls = record (add_acls default_data acls) {
    id = join (sort (ids_of acls));
    sources = extend ⦃e = string-Eq⦄ [] (sort (ids_of acls));
  }

  -- `From<&Acl> for AclData`
  unfoldable pub from_acl : Acl Value → AclData Value
  unfolding form_field form_ops
  from_acl acl = record {
    id = acl.id;
    sources = acl.id ∷ [];
    admin = acl.admin;
    read = form_field acl.read none;
    write = form_field acl.write none;
    deny_read = form_field acl.deny_read none;
    deny_write = form_field acl.deny_write none;
    ops = form_ops acl.ops none;
    meta = form_field acl.meta none;
  }
