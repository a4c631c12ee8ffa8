-- ===== src/Core.antt =====
-- eva/src/core.rs: the handlers of the core that change the states of items and the sources. The
-- clock (`ns`, `now`) and the answers of the bus are arguments; an event that is announced on the
-- bus is a result.
pub mod Lvars
pub mod Raw
pub mod Destroy
pub mod Event
pub mod Locks
pub mod Replicated
pub mod Remote
pub mod Deploy
use eva.Base.{
  ℕ, String, Option, none, some, Bool, true, false, not, ◌&&◌, ◌||◌, if◌then◌else◌, EResult, ok,
  err, or_else, not_implemented, not_found, access, core_error, busy, invalid_data, List, [], ◌∷◌,
  str_eq,
}
use eva.Base.Int.{ℤ, pos, negsuc, int_eq, succ_int, pred_int}
use eva.Base.Eq.{string-Eq}
use eva.Base.Dict.{Dict, contains_key, insert, remove, keys}
use eva.Common.{Common, ItemKind, kind_eq}
use eva.Items.State.{
  ItemState, RawStateEvent, force_set_state, force_set_value, generate, set_from_raw,
}
use eva.Items.Data.{Item, ItemCell, Source, SourceCell, DbState, is_bytes}
use eva.Items.Inventory.{
  World, Inventory, put_cell, put_flags, get_item, get_items_by_source, remove_item, create_item,
  get_or_create_source,
}

abbrev pub i64_max : ℤ
i64_max = pos 9223372036854775807

abbrev pub i64_min : ℤ
i64_min = negsuc 9223372036854775807

pub data AutoCreate : Type 0 where
  strict : Bool → AutoCreate
  by_single_sender : String → AutoCreate
  by_sender : List String → AutoCreate

-- `contains` and `ends_with` are those of `str`.
module _ (contains ends_with : String → String → Bool) where
  unfoldable pub sender_allowed_auto_create_strict : String → Bool
  sender_allowed_auto_create_strict sender =
      contains sender ".controller."
      || contains sender ".llc."
      || contains sender ".plc."
      || ends_with sender ".plc"
      || ends_with sender ".program"

  abbrev any_of : (String → Bool) → List String → Bool
  any_of p [] = false
  any_of p (s ∷ rest) = p s || any_of p rest

  unfoldable pub allowed : AutoCreate → String → Bool
  unfolding sender_allowed_auto_create_strict
  allowed (strict v) sender = v && sender_allowed_auto_create_strict sender
  allowed (by_single_sender v) sender = str_eq v "*" || str_eq v "#" || contains sender v
  allowed (by_sender v) sender =
      any_of (λ s. str_eq s "*" || str_eq s "#") v || any_of (λ s. contains sender s) v

-- `inv_process`: the sources whose inventory is being processed
unfoldable pub lock_source : Dict String (Unit {0}) → String → Dict String (Unit {0}) × Bool
lock_source locks source_id =
    if contains_key ⦃e = string-Eq⦄ source_id locks
    then (locks, false)
    else (insert ⦃e = string-Eq⦄ source_id tt locks, true)

unfoldable pub unlock_source : Dict String (Unit {0}) → String → Dict String (Unit {0})
unlock_source locks source_id = remove ⦃e = string-Eq⦄ source_id locks

module _ ⦃c : Common⦄ where
  open c use {
    OID, kind, Value, value_eq, value_unit, value_i64, to_i64, to_f64, F64, f64_zero, f64_lt,
    f64_add, f64_sub, f64_mul, f64_div, Ieid, OIDMaskList, list_matches, Force, is_force_none,
    is_force_full,
  }

  pub data LvarOp : Type 0 where
    set : Option ℤ → Option Value → LvarOp
    reset clear toggle increment decrement : LvarOp

  pub data InstantSave : Type 0 where
    always : Bool → InstantSave
    by_mask : OIDMaskList → InstantSave

  abbrev save_matches : InstantSave → OID → Bool
  save_matches (always v) oid = v
  save_matches (by_mask mask) oid = list_matches mask oid

  -- what a handler announces: the state, and the copy for the database where it is saved at once
  pub record Announced : Type 0 where
    pub oid : OID
    pub state : ItemState
    pub saved : Option DbState

  -- `prepare_state_data`
  unfoldable pub prepare_state_data : InstantSave → Item → ItemState → Announced
  prepare_state_data save item s = record {
    oid = item.oid;
    state = s;
    saved =
        if is_bytes s.value
        then none
        else if save_matches save item.oid
        then some (record { status = s.status; value = s.value; ieid = s.ieid; t = s.t })
        else none;
  }

  -- the match on the operation in `lvar_op`, for the state under the lock
  unfoldable pub apply_op : LvarOp → ItemState → Ieid → F64 → ItemState × EResult (Option Value)
  apply_op (set status value) s ieid now = (force_set_state s status value ieid now, ok none)
  apply_op reset s ieid now = (force_set_state s (some (pos 1)) none ieid now, ok none)
  apply_op clear s ieid now = (force_set_state s (some (pos 0)) none ieid now, ok none)
  apply_op toggle s ieid now = (
    force_set_state s (some (if int_eq s.status (pos 0) then pos 1 else pos 0)) none ieid now,
    ok none,
  )
  apply_op increment s ieid now =
      let val = or_else (to_i64 s.value) (pos 0) in
      if int_eq val i64_max
      then (s, err invalid_data)
      else (let value = value_i64 (succ_int val) in
          (force_set_value s value ieid now, ok (some value)))
  apply_op decrement s ieid now =
      let val = or_else (to_i64 s.value) (pos 0) in
      if int_eq val i64_min
      then (s, err invalid_data)
      else (let value = value_i64 (pred_int val) in
          (force_set_value s value ieid now, ok (some value)))

  abbrev pub put_state : Item → ItemState → World → World
  put_state item s w = put_cell item.addr (record (w.cells item.addr) { state = some s }) w

  abbrev announce_op :
      World
      → InstantSave
      → Item
      → ItemState × EResult (Option Value)
      → World × Option Announced × EResult (Option Value)
  announce_op w save item (s, err e) = (w, none, err e)
  announce_op w save item (s, ok v) =
      (put_state item s w, some (prepare_state_data save item s), ok v)

  -- `lvar_op` for an item that is found: `call` is the answer of the service of a remote one
  unfoldable pub lvar_op_on :
      World
      → InstantSave
      → (Source → LvarOp → EResult (Option Value))
      → Item
      → LvarOp
      → Ieid
      → F64
      → World × Option Announced × EResult (Option Value)
  unfolding prepare_state_data
  lvar_op_on w save call item op ieid now =
      if not (w.cells item.addr).enabled then (w, none, err access) else elim item.source [
        | some source ↦ (w, none, call source op)
        | none ↦ elim (w.cells item.addr).state [
          | none ↦ (w, none, err core_error)
          | some s ↦ announce_op w save item (apply_op op s ieid now)
        ]
      ]

  -- `get_or_crete_lvar` where the sender may create: `kept` is the answer of the database service
  abbrev created_lvar : EResult (Unit {0}) → World × EResult Item → World × Option Item
  created_lvar kept (w, err e) = (w, none)
  created_lvar (ok _) (w, ok item) = (w, some item)
  created_lvar (err _) (w, ok item) = (w, none)

  unfoldable pub get_or_create_lvar :
      World → OID → Bool → EResult (Unit {0}) → ℕ → ℕ → F64 → World × Option Item
  get_or_create_lvar w oid may_create kept boot_id ns now = elim (get_item w.inv oid) [
    | some lvar ↦ (w, some lvar)
    | none ↦
        if may_create
        then created_lvar kept (create_item w oid (some (generate boot_id ns)) none now)
        else (w, none)
  ]

  -- the announcement of a created lvar precedes and has its blank state; it is left out
  unfoldable pub lvar_op :
      World
      → InstantSave
      → (Source → LvarOp → EResult (Option Value))
      → OID
      → LvarOp
      → Bool
      → EResult (Unit {0})
      → ℕ
      → ℕ
      → F64
      → World × Option Announced × EResult (Option Value)
  unfolding get_or_create_lvar lvar_op_on
  lvar_op w save call oid op may_create kept boot_id ns now =
      if not (kind_eq (kind oid) ItemKind.lvar)
      then (w, none, err not_implemented)
      else (let (w', found) = get_or_create_lvar w oid may_create kept boot_id ns now in
          elim found [
            | none ↦ (w', none, err not_found)
            | some lvar ↦ lvar_op_on w' save call lvar op (generate boot_id ns) now
          ])

  -- the loop of `destroy_source`
  unfoldable pub remove_all : Inventory → List OID → Inventory
  remove_all inv [] = inv
  remove_all inv (oid ∷ rest) = remove_all (remove_item inv oid).0 rest

  abbrev keys_of : Option (Dict OID Item) → List OID
  keys_of none = []
  keys_of (some items) = keys items

  -- `destroy_source` once it holds the lock of the source, without the table of nodes; no other
  -- handler runs between the removals
  unfoldable pub destroy_source : World → String → World
  unfolding remove_all
  destroy_source w source_id =
      let (w1, source) = get_or_create_source w source_id "" in
      let w2 = put_flags source.addr (record (w1.flags source.addr) { destroyed = true }) w1 in
      record w2 { inv = remove_all w2.inv (keys_of (get_items_by_source w2.inv source_id)) }
