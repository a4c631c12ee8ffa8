-- ===== src/Items/State/Raw.antt =====
-- eva/src/items.rs, `set_from_raw` and `apply_logic`: what an event leaves behind on every branch.
use eva.Base.{ℕ, refl, ◌≡◌, ◌↔◌, Option, none, some, true, false, not, ◌||◌, if◌then◌else◌, arith}
use eva.Base.Int.{ℤ, int_eq, int_eq_iff}
use eva.Common.{Common}
use eva.Items.State.{
  ItemState, RawStateEvent, Logic, item_status_error, in_range, validate_logic, compared_match,
  wanted_status, wanted_value, apply_value, put_value, put_time, set_from_raw, apply_logic,
  generate, range_of, validate_range,
}

module _ ⦃c : Common⦄ where
  open c use {F64, Value, value_eq, Range, is_force_none}

  -- No range tells equal values apart.
  abbrev pub RangesRespectEq : Type 0
  RangesRespectEq = (r : Range) (v w : Value) → value_eq v w ≡ true → in_range r v ≡ in_range r w

  -- The status is an error, or the value satisfies the item's logic.
  abbrev pub IsConsistent : Option Logic → ItemState → Type 0
  IsConsistent logic s =
      (int_eq s.status item_status_error || validate_logic (some s.value) logic) ≡ true

  validate_none :
      (r : Option Range) (w : Value)
      → validate_range r none ≡ true
      → validate_range r (some w) ≡ true
  unfolding validate_range
  validate_none none w h = refl
  validate_none (some r) w h = cc

  module _ (law : RangesRespectEq) where
    validate_range-eq :
        (r : Option Range) (v w : Value)
        → value_eq v w ≡ true
        → validate_range r (some v) ≡ validate_range r (some w)
    unfolding validate_range
    validate_range-eq none v w h = refl
    validate_range-eq (some r) v w h = law r v w h

    put_value-valid :
        (s : ItemState) (value : Option Value) (logic : Option Logic)
        → validate_logic value logic ≡ true
        → validate_logic (some (put_value s value).0.value) logic ≡ true
    unfolding validate_logic
    put_value-valid s none logic h = validate_none (range_of logic) s.value h
    put_value-valid s (some v) logic h =
        ground (arith, validate_range-eq (range_of logic) s.value v)

    status-put_value :
        (s : ItemState) (value : Option Value) → (put_value s value).0.status ≡ s.status
    status-put_value s none = refl
    status-put_value s (some v) = ground arith

    apply_value-IsConsistent :
        (s : ItemState) (status : ℤ) (value : Option Value) (logic : Option Logic)
        → IsConsistent logic (apply_value s status value logic).0
    unfolding apply_value
    apply_value-IsConsistent s status value logic = ground (
      arith,
      put_value-valid (record s { status = status }) value logic,
      status-put_value (record s { status = status }) value,
    )

    put_time-IsConsistent :
        (s : ItemState) (t : Option F64) (logic : Option Logic)
        → IsConsistent logic s
        → IsConsistent logic (put_time s t).0
    put_time-IsConsistent s none logic h = h
    put_time-IsConsistent s (some t) logic h = ground arith

    -- Where no range tells equal values apart, an item has, after any raw event, the error status
    -- or a value that its logic accepts, whatever its state was before.
    pub set_from_raw-IsConsistent :
        (s : ItemState) (raw : RawStateEvent) (logic : Option Logic) (boot_id ns : ℕ) (time : F64)
        → IsConsistent logic (set_from_raw s raw logic boot_id ns time).0
    unfolding set_from_raw
    set_from_raw-IsConsistent s raw logic boot_id ns time = ground (
      arith,
      apply_value-IsConsistent s (wanted_status s raw) (wanted_value s raw) logic,
      put_time-IsConsistent (apply_value s (wanted_status s raw) (wanted_value s raw) logic).0 raw.t
          logic,
    )

  put_value-unchanged :
      (s : ItemState) (value : Option Value)
      → (put_value s value).1 ≡ false
      → (put_value s value).0 ≡ s
  put_value-unchanged s none h = refl
  put_value-unchanged s (some v) h = ground arith

  apply_value-unchanged :
      (s : ItemState) (status : ℤ) (value : Option Value) (logic : Option Logic)
      → (apply_value s status value logic).1 ≡ false
      → (apply_value s status value logic).0 ≡ s
  unfolding apply_value
  apply_value-unchanged s status value logic h =
      ground (
        arith,
        int_eq_iff s.status status,
        put_value-unchanged (record s { status = status }) value,
      )

  put_time-unchanged :
      (s : ItemState) (t : Option F64) → (put_time s t).1 ≡ false → (put_time s t).0 ≡ s
  put_time-unchanged s none h = refl
  put_time-unchanged s (some t) h = ground arith

  -- An event that is not forced and is reported as no modification leaves the state as it was.
  set_from_raw-unchanged :
      (s : ItemState) (raw : RawStateEvent) (logic : Option Logic) (boot_id ns : ℕ) (time : F64)
      → is_force_none raw.force ≡ true
      → (set_from_raw s raw logic boot_id ns time).1 ≡ false
      → (set_from_raw s raw logic boot_id ns time).0 ≡ s
  unfolding set_from_raw
  set_from_raw-unchanged s raw logic boot_id ns time f h = ground (
    arith,
    apply_value-unchanged s (wanted_status s raw) (wanted_value s raw) logic,
    put_time-unchanged (apply_value s (wanted_status s raw) (wanted_value s raw) logic).0 raw.t,
  )

  put_value-frame :
      (s : ItemState) (value : Option Value)
      → let r = (put_value s value).0 in
        (r.status ≡ s.status) × (r.ieid ≡ s.ieid) × (r.act ≡ s.act) × (r.t ≡ s.t)
  put_value-frame s none = (refl, refl, refl, refl)
  put_value-frame s (some v) = ground arith

  apply_value-frame :
      (s : ItemState) (status : ℤ) (value : Option Value) (logic : Option Logic)
      → let r = (apply_value s status value logic).0 in
        (r.ieid ≡ s.ieid) × (r.act ≡ s.act) × (r.t ≡ s.t)
  unfolding apply_value
  apply_value-frame s status value logic =
      ground (arith, put_value-frame (record s { status = status }) value)

  put_time-frame :
      (s : ItemState) (t : Option F64)
      → let r = (put_time s t).0 in
        (r.status ≡ s.status) × (r.value ≡ s.value) × (r.ieid ≡ s.ieid) × (r.act ≡ s.act)
  put_time-frame s none = (refl, refl, refl, refl)
  put_time-frame s (some v) = ground arith

  -- A new IEID is generated exactly when the event is reported as a modification or is forced, an
  -- event that has no time of its own then sets the current one, and the action counter stays.
  set_from_raw_stamp :
      (s : ItemState) (raw : RawStateEvent) (logic : Option Logic) (boot_id ns : ℕ) (time : F64)
      → let r = set_from_raw s raw logic boot_id ns time in
        (r.0.ieid ≡ (if r.1 || not (is_force_none raw.force) then generate boot_id ns else s.ieid))
        × (r.0.act ≡ s.act)
        × (raw.t ≡ none → r.0.t ≡ (if r.1 || not (is_force_none raw.force) then time else s.t))
  unfolding set_from_raw
  set_from_raw_stamp s raw logic boot_id ns time = ground (
    arith,
    apply_value-frame s (wanted_status s raw) (wanted_value s raw) logic,
    put_time-frame (apply_value s (wanted_status s raw) (wanted_value s raw) logic).0 raw.t,
  )

  -- With a failed comparison and nothing given for that case, the item gets the error status and
  -- keeps its value.
  set_from_raw_mismatch :
      (s : ItemState) (raw : RawStateEvent) (logic : Option Logic) (boot_id ns : ℕ) (time : F64)
      → compared_match s raw ≡ false
      → raw.status_else ≡ none
      → raw.value_else ≡ none
      → let r = set_from_raw s raw logic boot_id ns time in
        (r.0.status ≡ item_status_error) × (r.0.value ≡ s.value)
  unfolding set_from_raw apply_value wanted_status wanted_value
  set_from_raw_mismatch s raw logic boot_id ns time m se ve = ground (
    arith,
    put_time-frame (apply_value s (wanted_status s raw) (wanted_value s raw) logic).0 raw.t,
  )

  -- An event that asks for a status other than the error and whose value is out of range is
  -- reported as a modification even where the item has the error status already: status and value
  -- stay, and the IEID is new.
  set_from_raw_out_of_range :
      (s : ItemState) (raw : RawStateEvent) (logic : Option Logic) (boot_id ns : ℕ) (time : F64)
      → s.status ≡ item_status_error
      → int_eq (wanted_status s raw) item_status_error ≡ false
      → validate_logic (wanted_value s raw) logic ≡ false
      → let r = set_from_raw s raw logic boot_id ns time in
        (r.1 ≡ true)
        × (r.0.status ≡ s.status)
        × (r.0.value ≡ s.value)
        × (r.0.ieid ≡ generate boot_id ns)
  unfolding set_from_raw apply_value
  set_from_raw_out_of_range s raw logic boot_id ns time e w v = ground (
    arith,
    put_time-frame (apply_value s (wanted_status s raw) (wanted_value s raw) logic).0 raw.t,
  )

  -- Applying the logic leaves a state that has the error status or a value that the logic accepts,
  -- reports exactly whether it was not so before, and does nothing the second time.
  apply_logic_lem :
      (s : ItemState) (logic : Option Logic) (boot_id ns : ℕ) (now : F64) (ns' : ℕ) (now' : F64)
      → let r = apply_logic s logic boot_id ns now in
        IsConsistent logic r.0
        × ((r.1 ≡ false) ↔ IsConsistent logic s)
        × (apply_logic r.0 logic boot_id ns' now' ≡ (r.0, false))
  unfolding apply_logic
  apply_logic_lem s logic boot_id ns now ns' now' =
      (ground arith, (λ h. ground arith, λ h. ground arith), ground arith)
