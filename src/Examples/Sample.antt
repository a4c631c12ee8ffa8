-- ===== src/Examples/Sample.antt =====
-- An instance of `Common`: times and numbers are naturals, a value is a number or nothing, a range
-- an upper bound, an OID its kind and its full id.
use eva.Base.{
  ℕ, ◌+◌, ◌-◌, ◌*◌, ◌/◌, String, Option, none, some, Bool, true, false, ◌&&◌, ◌||◌, ltb, leb,
  nat_eq, str_eq, ◌≡◌, ◌↔◌, refl, ap, List, arith, str_eq_iff,
}
use eva.Base.Eq.{option_eq, option_eq_iff, nat-Eq}
use eva.Base.Int.{ℤ, pos, negsuc}
use eva.Common.{Common, ItemKind, kind_eq}
use eva.Items.ItemMap.View.{kind_eq→≡}
use eva.Items.State.{in_range}
use eva.Items.State.Raw.{RangesRespectEq}

abbrev pub Oid : Type 0
Oid = ItemKind × String

abbrev same_oid : Oid → Oid → Bool
same_oid (k, s) (l, t) = kind_eq k l && str_eq s t

same_kind : (k : ItemKind) → kind_eq k k ≡ true
same_kind ItemKind.unit = refl
same_kind ItemKind.sensor = refl
same_kind ItemKind.lvar = refl
same_kind ItemKind.lmacro = refl

pub same_oid_iff : (a b : Oid) → (same_oid a b ≡ true) ↔ (a ≡ b)
same_oid_iff (k, s) (l, t) = (
  λ h. ground (arith, kind_eq→≡ k l, str_eq_iff s t, h),
  λ h.
      ground (arith, ap (λ (x : Oid). x.0) h, ap (λ (x : Oid). x.1) h, same_kind k, str_eq_iff s s),
)

pub pair_ext : (a b : Oid) → a.0 ≡ b.0 → a.1 ≡ b.1 → a ≡ b
pair_ext a b h k = cc

abbrev as_int : Option ℕ → Option ℤ
as_int none = none
as_int (some n) = some (pos n)

abbrev of_int : ℤ → Option ℕ
of_int (pos n) = some n
of_int (negsuc n) = some 0

instance abbrev pub sample : Common
sample = record {
  F64 = ℕ;
  f64_zero = 0;
  f64_of_nat = λ n. n;
  f64_eq = nat_eq;
  f64_lt = ltb;
  f64_add = λ a b. a + b;
  f64_sub = λ a b. a - b;
  f64_mul = λ a b. a * b;
  f64_div = λ a b. a / b;
  Ieid = ℕ × ℕ;
  ieid_new = λ a b. (a, b);
  ieid_lt = λ a b. ltb a.0 b.0 || (nat_eq a.0 b.0 && ltb a.1 b.1);
  Value = Option ℕ;
  value_eq = option_eq;
  value_unit = none;
  value_default = none;
  value_u8 = λ n. some n;
  value_f64 = λ n. some n;
  value_i64 = of_int;
  value_bytes = λ _. none;
  as_bytes = λ _. none;
  to_f64 = λ v. v;
  to_i64 = as_int;
  Range = ℕ;
  range_matches = λ r v. leb v r;
  Force = ℕ;
  is_force_none = λ f. nat_eq f 0;
  is_force_full = λ f. nat_eq f 2;
  OID = Oid;
  oid_eq = record { same = same_oid; decides = same_oid_iff };
  kind = λ o. o.0;
  full_id = λ o. o.1;
  as_str = λ o. o.1;
  oid_ext = pair_ext;
  OIDMask = Option ItemKind × Option (List String);
  mask_kind = λ m. m.0;
  mask_chunks = λ m. m.1;
  mask_matches = λ m o. true;
  OIDMaskList = List (Option ItemKind × Option (List String));
  oid_masks = λ l. l;
  list_matches = λ l o. true;
  strip_formula = λ _. none;
  formula_matches = λ f s. false;
  strip_regex = λ _. none;
  Regex = String;
  regex_new = λ s. some s;
  is_match = λ r s. str_eq r s;
}

pub sample-RangesRespectEq : RangesRespectEq ⦃c = sample⦄
unfolding in_range
sample-RangesRespectEq r v w h = ap (in_range ⦃c = sample⦄ r) ((option_eq_iff v w).0 h)
