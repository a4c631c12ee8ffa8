-- ===== src/Core/Lvars.antt =====
-- `lvar_op` of eva/src/core.rs: what the operations make of the state of an lvar.
use eva.Base.{zero, suc, ◌≤◌, some, true, false, if◌then◌else◌, ◌≡◌, ok, or_else, arith}
use eva.Base.Int.{ℤ, pos, negsuc, int_eq, succ_int, pred_int}
use eva.Common.{Common}
use eva.Items.State.{ItemState, force_set_state, force_set_value}
use eva.Core.{LvarOp, apply_op, i64_max, i64_min}

-- a number that `i64` has
abbrev pub IsI64 : ℤ → Type 0
IsI64 (pos n) = n ≤ 9223372036854775807
IsI64 (negsuc n) = n ≤ 9223372036854775807

succ_int-IsI64 : (v : ℤ) → IsI64 v → int_eq v i64_max ≡ false → IsI64 (succ_int v)
succ_int-IsI64 (pos n) b h = ground arith
succ_int-IsI64 (negsuc zero) b h = omega arith
succ_int-IsI64 (negsuc (suc n)) b h = omega arith

pred_int-IsI64 : (v : ℤ) → IsI64 v → int_eq v i64_min ≡ false → IsI64 (pred_int v)
pred_int-IsI64 (pos zero) b h = omega arith
pred_int-IsI64 (pos (suc n)) b h = omega arith
pred_int-IsI64 (negsuc n) b h = ground arith

module _ ⦃c : Common⦄ where
  open c use {Value, to_i64, value_i64, F64, Ieid}

  -- Where the value of an lvar reads as a number of i64, an increment or a decrement that is
  -- answered with a value has stored that value, the next or the previous number and one of i64;
  -- at the ends of the range the state stays as it was.
  pub apply_op-IsI64 :
      (s : ItemState) (ieid : Ieid) (now : F64)
      → IsI64 (or_else (to_i64 s.value) (pos 0))
      → let v = or_else (to_i64 s.value) (pos 0) in
        let up = apply_op LvarOp.increment s ieid now in
        let down = apply_op LvarOp.decrement s ieid now in
        ((out : Value)
          → up.1 ≡ ok (some out)
          → (up.0.value ≡ out) × (out ≡ value_i64 (succ_int v)) × IsI64 (succ_int v))
        × ((out : Value)
            → down.1 ≡ ok (some out)
            → (down.0.value ≡ out) × (out ≡ value_i64 (pred_int v)) × IsI64 (pred_int v))
        × ((int_eq v i64_max ≡ true) → up.0 ≡ s)
        × ((int_eq v i64_min ≡ true) → down.0 ≡ s)
  unfolding apply_op force_set_value
  apply_op-IsI64 s ieid now b = (
    λ out h. ground (arith, succ_int-IsI64 (or_else (to_i64 s.value) (pos 0)) b),
    λ out h. ground (arith, pred_int-IsI64 (or_else (to_i64 s.value) (pos 0)) b),
    λ h. ground arith,
    λ h. ground arith,
  )

  -- A toggle sets the status to 1 if it is 0 and to 0 otherwise, so that two restore a status that
  -- is 0 or 1, and both keep the value.
  toggle-toggle :
      (s : ItemState) (i j : Ieid) (t u : F64)
      → let once = (apply_op LvarOp.toggle s i t).0 in
        let twice = (apply_op LvarOp.toggle once j u).0 in
        (twice.value ≡ s.value)
        × (twice.status ≡ (if int_eq s.status (pos 0) then pos 0 else pos 1))
        × (once.status ≡ (if int_eq s.status (pos 0) then pos 1 else pos 0))
  unfolding apply_op force_set_state
  toggle-toggle s i j t u = ground arith
