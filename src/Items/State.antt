-- ===== src/Items/State.antt =====
-- eva/src/items.rs: `ItemState`, `Logic`, and the methods that change a state. The time stamps that
-- the code reads from the clock are arguments: `ns` of `monotonic_ns`, `now` of `Time::now`.
pub mod Raw
use eva.Base.{
  ℕ, zero, suc, ◌+◌, Option, none, some, Bool, true, false, not, ◌&&◌, ◌||◌, if◌then◌else◌, or_else,
}
use eva.Base.Int.{ℤ, pos, negsuc, int_eq}
use eva.Common.{Common, ItemKind, kind_eq}

-- ITEM_STATUS_ERROR
abbrev pub item_status_error : ℤ
item_status_error = negsuc 0

module _ ⦃c : Common⦄ where
  open c use {
    F64, f64_zero, f64_eq, Ieid, ieid_new, Value, value_eq, value_unit, to_f64, as_bytes, Range,
    range_matches, Force, is_force_none,
  }

  pub record ItemState : Type 0 where
    pub status : ℤ
    pub value : Value
    pub act : Option ℕ
    pub ieid : Ieid
    pub t : F64

  pub record Logic : Type 0 where
    pub range : Option Range

  -- eva_common::events::RawStateEventOwned, the fields that the core reads
  pub record RawStateEvent : Type 0 where
    pub status : ℤ
    pub value : Option Value
    pub status_compare : Option ℤ
    pub value_compare : Option Value
    pub status_else : Option ℤ
    pub value_else : Option Value
    pub t : Option F64
    pub force : Force

  -- eva_common::events::ReplicationState
  pub record ReplicationState : Type 0 where
    pub status : ℤ
    pub value : Value
    pub act : Option ℕ
    pub ieid : Ieid
    pub t : F64

  abbrev pub generate : ℕ → ℕ → Ieid
  generate boot_id ns = ieid_new boot_id ns

  unfoldable pub in_range : Range → Value → Bool
  in_range range v = elim (to_f64 v) [ none ↦ false | some val ↦ range_matches range val ]

  abbrev pub range_of : Option Logic → Option Range
  range_of none = none
  range_of (some l) = l.range

  unfoldable pub validate_range : Option Range → Option Value → Bool
  validate_range none value = true
  validate_range (some range) none = false
  validate_range (some range) (some v) = in_range range v

  unfoldable pub validate_logic : Option Value → Option Logic → Bool
  validate_logic value logic = validate_range (range_of logic) value

  unfoldable pub new0 : Ieid → ItemKind → F64 → ItemState
  new0 ieid tp now = record {
    status = pos 1;
    value = value_unit;
    act = if kind_eq tp ItemKind.unit then some 0 else none;
    ieid = ieid;
    t = now;
  }

  unfoldable pub mark_failed : ItemState → Ieid → F64 → ItemState × Bool
  mark_failed s ieid now =
      if int_eq s.status item_status_error
      then (s, false)
      else (record s { status = item_status_error; ieid = ieid; t = now }, true)

  unfoldable pub force_set_state : ItemState → Option ℤ → Option Value → Ieid → F64 → ItemState
  force_set_state s status value ieid now = record s {
    status = or_else status s.status;
    value = or_else value s.value;
    ieid = ieid;
    t = now;
  }

  unfoldable pub force_set_value : ItemState → Value → Ieid → F64 → ItemState
  force_set_value s value ieid now = record s { value = value; ieid = ieid; t = now }

  abbrev decremented : Option ℕ → Option ℕ
  decremented none = none
  decremented (some zero) = some 0
  decremented (some (suc a)) = some a

  abbrev incremented : Option ℕ → Option ℕ
  incremented none = some 1
  incremented (some a) = some (a + 1)

  unfoldable pub act_decr : ItemState → Ieid → F64 → ItemState
  act_decr s ieid now = record s { act = decremented s.act; ieid = ieid; t = now }

  unfoldable pub act_incr : ItemState → Ieid → F64 → ItemState
  act_incr s ieid now = record s { act = incremented s.act; ieid = ieid; t = now }

  abbrev present : Option ℕ → Option ℕ → Option ℕ
  present none old = old
  present (some a) old = some a

  unfoldable pub set_from_rs : ItemState → ReplicationState → ItemState
  set_from_rs s rpl = record {
    status = rpl.status;
    value = rpl.value;
    act = present rpl.act s.act;
    ieid = rpl.ieid;
    t = rpl.t;
  }

  abbrev status_agrees : Option ℤ → ℤ → Bool
  status_agrees none s = true
  status_agrees (some v) s = int_eq v s

  abbrev value_agrees : Option Value → Value → Bool
  value_agrees none w = true
  value_agrees (some v) w = value_eq v w

  -- `compared_match`
  unfoldable pub compared_match : ItemState → RawStateEvent → Bool
  compared_match s raw =
      status_agrees raw.status_compare s.status && value_agrees raw.value_compare s.value

  -- the status and the value that the event asks for, after the comparison
  unfoldable pub wanted_status : ItemState → RawStateEvent → ℤ
  unfolding compared_match
  wanted_status s raw =
      if compared_match s raw then raw.status else or_else raw.status_else item_status_error

  unfoldable pub wanted_value : ItemState → RawStateEvent → Option Value
  unfolding compared_match
  wanted_value s raw = if compared_match s raw then raw.value else raw.value_else

  abbrev pub put_value : ItemState → Option Value → ItemState × Bool
  put_value s none = (s, false)
  put_value s (some v) = if value_eq s.value v then (s, false) else (record s { value = v }, true)

  -- status and value, or the mark of a value out of range
  unfoldable pub apply_value : ItemState → ℤ → Option Value → Option Logic → ItemState × Bool
  apply_value s status value logic =
      if int_eq status item_status_error || validate_logic value logic
      then (let (s', changed) = put_value (record s { status = status }) value in
          (s', not (int_eq s.status status) || changed))
      else (record s { status = item_status_error }, true)

  abbrev pub put_time : ItemState → Option F64 → ItemState × Bool
  put_time s none = (s, false)
  put_time s (some t) =
      if not (f64_eq t f64_zero) && not (f64_eq s.t t)
      then (record s { t = t }, true)
      else (s, false)

  unfoldable pub set_from_raw :
      ItemState → RawStateEvent → Option Logic → ℕ → ℕ → F64 → ItemState × Bool
  set_from_raw s raw logic boot_id ns time =
      let (s1, m1) = apply_value s (wanted_status s raw) (wanted_value s raw) logic in
      let (s2, m2) = put_time s1 raw.t in
      let modified = m1 || m2 in
      if modified || not (is_force_none raw.force)
      then (
        record s2 { ieid = generate boot_id ns; t = elim raw.t [ none ↦ time | some _ ↦ s2.t ] },
        modified,
      )
      else (s2, false)

  unfoldable pub apply_logic : ItemState → Option Logic → ℕ → ℕ → F64 → ItemState × Bool
  apply_logic s logic boot_id ns now =
      if int_eq s.status item_status_error || validate_logic (some s.value) logic
      then (s, false)
      else (record s { status = item_status_error; ieid = generate boot_id ns; t = now }, true)
