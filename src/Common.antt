-- ===== src/Common.antt =====
-- What the node core takes from the crates eva_common, regex and submap and from `f64`, none of
-- which is in the repository: types, operations, and the laws that the theorems rely on.
use eva.Base.{ℕ, String, ◌≡◌, Bool, true, false, Option, List}
use eva.Base.Eq.{Eq}
use eva.Base.Int.{ℤ}

-- `eva_common::ItemKind`: the four kinds over which eva/src/items.rs matches without a wildcard.
pub data ItemKind : Type 0 where
  unit sensor lvar lmacro : ItemKind

pub record Common : Type 1 where
  -- f64: comparisons and arithmetic as the language has them
  pub F64 : Type 0
  pub f64_zero : F64
  pub f64_of_nat : ℕ → F64
  pub f64_eq : F64 → F64 → Bool
  pub f64_lt : F64 → F64 → Bool
  pub f64_add : F64 → F64 → F64
  pub f64_sub : F64 → F64 → F64
  pub f64_mul : F64 → F64 → F64
  pub f64_div : F64 → F64 → F64
  -- eva_common::IEID, made of a boot id and a monotonic time
  pub Ieid : Type 0
  pub ieid_new : ℕ → ℕ → Ieid
  pub ieid_lt : Ieid → Ieid → Bool
  -- eva_common::value::Value
  pub Value : Type 0
  pub value_eq : Value → Value → Bool
  pub value_unit : Value
  pub value_default : Value
  pub value_u8 : ℕ → Value
  pub value_f64 : F64 → Value
  pub value_i64 : ℤ → Value
  pub value_bytes : List ℕ → Value
  pub as_bytes : Value → Option (List ℕ)
  pub to_f64 : Value → Option F64
  pub to_i64 : Value → Option ℤ
  -- eva_common::logic::Range
  pub Range : Type 0
  pub range_matches : Range → F64 → Bool
  -- eva_common::events::Force, of which the core compares two values
  pub Force : Type 0
  pub is_force_none : Force → Bool
  pub is_force_full : Force → Bool
  -- eva_common::OID: equality is that of keys, and kind and full id determine the OID
  pub OID : Type 0
  pub oid_eq : Eq OID
  pub kind : OID → ItemKind
  pub full_id : OID → String
  pub as_str : OID → String
  pub oid_ext : (a b : OID) → kind a ≡ kind b → full_id a ≡ full_id b → a ≡ b
  -- eva_common::acl::{OIDMask, OIDMaskList}; no chunks is the mask of everything
  pub OIDMask : Type 0
  pub mask_kind : OIDMask → Option ItemKind
  pub mask_chunks : OIDMask → Option (List String)
  pub mask_matches : OIDMask → OID → Bool
  pub OIDMaskList : Type 0
  pub oid_masks : OIDMaskList → List OIDMask
  pub list_matches : OIDMaskList → OID → Bool
  -- the prefixes of formula and regex chunks, the formula test of submap, and regexes, which may
  -- fail to compile
  pub strip_formula : String → Option String
  pub formula_matches : String → String → Bool
  pub strip_regex : String → Option String
  pub Regex : Type 0
  pub regex_new : String → Option Regex
  pub is_match : Regex → String → Bool

instance abbrev pub oid-Eq : ⦃c : Common⦄ → Eq (c.OID)
oid-Eq ⦃c⦄ = c.oid_eq

abbrev pub kind_eq : ItemKind → ItemKind → Bool
kind_eq ItemKind.unit ItemKind.unit = true
kind_eq ItemKind.sensor ItemKind.sensor = true
kind_eq ItemKind.lvar ItemKind.lvar = true
kind_eq ItemKind.lmacro ItemKind.lmacro = true
kind_eq _ _ = false
