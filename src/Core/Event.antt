-- ===== src/Core/Event.antt =====
-- `process_raw_state` of eva/src/core.rs up to `process_modified`, and `calc_delta`. The whole of
-- `process_raw_state` is in Core.Event.React.
pub mod React
use eva.Base.{
  ℕ, Option, none, some, Bool, not, ◌&&◌, ◌||◌, if◌then◌else◌, EResult, ok, err, or_else, busy,
  List,
}
use eva.Base.Int.{ℤ, pos, int_eq}
use eva.Base.Eq.{string-Eq}
use eva.Common.{Common, ItemKind, kind_eq}
use eva.Items.State.{ItemState, RawStateEvent, set_from_raw}
use eva.Items.Data.{Item}
use eva.Items.Inventory.{World}
use eva.Core.{Announced, InstantSave, prepare_state_data, put_state}

module _ ⦃c : Common⦄ where
  open c use {
    OID, OIDMask, kind, Value, value_eq, value_unit, value_i64, to_i64, to_f64, F64, f64_zero,
    f64_lt, f64_add, f64_sub, f64_mul, f64_div, Ieid, OIDMaskList, list_matches, Force,
    is_force_none, is_force_full,
  }

  pub data OnNegativeDelta : Type 0 where
    skip reset process : OnNegativeDelta
    overflow : F64 → F64 → OnNegativeDelta

  pub data OnModifiedError : Type 0 where
    skip reset process : OnModifiedError

  pub record SetOther : Type 0 where
    pub masks : List OIDMask
    pub status : ℤ
    pub value : Option Value

  pub record SetOtherValueDelta : Type 0 where
    pub oid : OID
    pub period : Option F64
    pub on_negative : OnNegativeDelta
    pub on_error : OnModifiedError

  -- eva_common::events::OnModifiedOwned
  pub data OnModified : Type 0 where
    set_other : SetOther → OnModified
    set_other_value_delta : SetOtherValueDelta → OnModified

  unfoldable pub calc_delta : F64 → F64 → OnNegativeDelta → F64
  calc_delta current prev (OnNegativeDelta.overflow floor ceil) =
      if f64_lt current prev
      then f64_add (f64_sub ceil prev) (f64_sub current floor)
      else f64_sub current prev
  calc_delta current prev _ = f64_sub current prev

  abbrev over_period : F64 → F64 → Option F64 → F64 → Option F64
  over_period d now none t = some d
  over_period d now (some period) t =
      if f64_lt f64_zero (f64_sub now t)
      then some (f64_mul (f64_div d period) (f64_sub now t))
      else none

  unfoldable pub delta_of : Option OnModified → Option Value → ItemState → F64 → Option F64
  unfolding calc_delta
  delta_of (some (set_other_value_delta om)) (some value) s now =
      if value_eq s.value value_unit
      then none
      else over_period
          (calc_delta (or_else (to_f64 value) f64_zero) (or_else (to_f64 s.value) f64_zero)
            om.on_negative)
          now om.period s.t
  delta_of _ _ s now = none

  -- what `process_raw_state` hands on: the announcement, whether the state was really modified, and
  -- the delta for `process_modified`
  pub record Processed : Type 0 where
    pub announced : Announced
    pub really_modified : Bool
    pub delta : Option F64

  abbrev announce_raw :
      World → InstantSave → Item → Force → Option F64 → ItemState × Bool → World × Option Processed
  announce_raw w save item force delta (s, modified) = (
    put_state item s w,
    if modified || not (is_force_none force)
        then some (record {
          announced = prepare_state_data save item s;
          really_modified = modified;
          delta = delta;
        })
        else none,
  )

  -- `process_raw_state` up to the reaction that the event may ask for
  unfoldable pub set_raw_state :
      World
      → InstantSave
      → Item
      → RawStateEvent
      → Option OnModified
      → ℕ
      → ℕ
      → F64
      → World × EResult (Option Processed)
  unfolding prepare_state_data delta_of
  set_raw_state w save item raw on_modified boot_id ns now = elim item.source [
    | some _ ↦ (w, err busy)
    | none ↦
        if not (w.cells item.addr).enabled && not (is_force_full raw.force)
        then (w, ok none)
        else elim (w.cells item.addr).state [
          | none ↦ (w, ok none)
          | some s ↦
              if kind_eq (kind item.oid) ItemKind.lvar
                && int_eq s.status (pos 0)
                && is_force_none raw.force
              then (w, ok none)
              else (let (w', p) =
                    announce_raw w save item raw.force (delta_of on_modified raw.value s now)
                      (set_from_raw s raw item.logic boot_id ns now) in
                  (w', ok p))
        ]
  ]
