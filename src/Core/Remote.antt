-- ===== src/Core/Remote.antt =====
-- `process_remote_inventory` of eva/src/core.rs: the inventory that a replication service brings for
-- a source. `to_rs` is the conversion of an item of it to a state, of eva_common; no other handler
-- runs between the steps.
pub mod Changes
pub mod Kept
pub mod Missing
pub mod Synced
use Prim.Native.Char.{code}
use eva.Base.{
  String, Option, none, some, Bool, true, false, not, ◌&&◌, ◌||◌, if◌then◌else◌, EResult, ok, err,
  Error, invalid_params, List, [], ◌∷◌, ◌++◌, nat_eq, is_some,
}
use eva.Base.Dict.{Dict, get, keys, values, contains_key}
use eva.Common.{Common, ItemKind, kind_eq}
use eva.Items.State.{ItemState, ReplicationState, set_from_rs}
use eva.Items.Data.{Item, ItemCell, Source, ReplicationInventoryItem}
use eva.Items.Inventory.{
  World, Inventory, put_cell, remove_item, get_items_by_source, get_or_create_source,
  append_remote_item,
}
use eva.Core.{put_state, lock_source, unlock_source}

module _ ⦃c : Common⦄ where
  open c use {OID, oid_eq, kind, Value, value_eq, ieid_lt}

  -- `check_state`
  unfoldable pub check_state : ReplicationInventoryItem → Bool
  check_state item = elim (kind item.oid) [
    | ItemKind.lvar ↦ not (is_some item.act || not (is_some item.ieid) || not (is_some item.t))
    | ItemKind.sensor ↦ not (is_some item.act || not (is_some item.ieid) || not (is_some item.t))
    | ItemKind.lmacro ↦ not (
        is_some item.status
        || is_some item.value
        || is_some item.act
        || is_some item.ieid
        || is_some item.t)
    | ItemKind.unit ↦ not (not (is_some item.ieid) || not (is_some item.t))
  ]

  -- a RemoteStateEvent, as it is announced
  pub record RemoteStateEvent : Type 0 where
    pub oid : OID
    pub state : ReplicationState
    pub node : String
    pub connected : Bool

  abbrev remote_event : OID → Source → Bool → ItemState → RemoteStateEvent
  remote_event oid source online s = record {
    oid = oid;
    state = record { status = s.status; value = s.value; act = s.act; ieid = s.ieid; t = s.t };
    node = source.node;
    connected = online;
  }

  abbrev pub meta_eq : Option Value → Option Value → Bool
  meta_eq none none = true
  meta_eq (some a) (some b) = value_eq a b
  meta_eq _ _ = false

  abbrev pub starts_with_dot : String → Bool
  starts_with_dot String.[] = false
  starts_with_dot (String.◌∷◌ ch rest) = nat_eq (code ch) b'.'

  module _ (to_rs : ReplicationInventoryItem → EResult ReplicationState) (source : Source)
      (online : Bool) where
    -- what an item that was put into the inventory announces
    abbrev announced : World → OID → Option ItemState → List RemoteStateEvent
    announced w oid none = []
    announced w oid (some s) =
        if kind_eq (kind oid) ItemKind.lmacro then [] else remote_event oid source online s ∷ []

    abbrev appended : World × EResult Item → World × List RemoteStateEvent
    appended (w, err e) = (w, [])
    appended (w, ok item) = (w, announced w item.oid (w.cells item.addr).state)

    unfoldable pub add_remote : World → ReplicationInventoryItem → World × List RemoteStateEvent
    add_remote w remote = appended (append_remote_item w remote source)

    -- an item of a source that had none
    unfoldable pub add_checked : World → ReplicationInventoryItem → World × List RemoteStateEvent
    unfolding check_state add_remote
    add_checked w remote = if check_state remote then add_remote w remote else (w, [])

    abbrev newer :
        World → Item → ItemState → EResult ReplicationState → World × List RemoteStateEvent
    newer w ex s (err e) = (w, [])
    newer w ex s (ok rs) =
        if ieid_lt s.ieid rs.ieid
        then (
          put_state ex (set_from_rs s rs) w,
          remote_event ex.oid source online (set_from_rs s rs) ∷ [],
        )
        else (w, [])

    abbrev pub set_enabled : Item → Bool → World → World
    set_enabled ex enabled w = put_cell ex.addr (record (w.cells ex.addr) { enabled = enabled }) w

    -- an item whose metadata stayed: only its state is updated
    unfoldable pub update_state :
        World → Item → ReplicationInventoryItem → World × List RemoteStateEvent
    unfolding check_state
    update_state w ex remote =
        if check_state remote && not (kind_eq (kind remote.oid) ItemKind.lmacro)
        then elim (w.cells ex.addr).state [ none ↦ (w, []) | some s ↦ newer w ex s (to_rs remote) ]
        else (w, [])

    unfoldable pub update_existing :
        World → Item → ReplicationInventoryItem → World × List RemoteStateEvent
    unfolding add_remote update_state
    update_existing w ex remote = elim ex.source [
      | none ↦ (w, [])
      | some _ ↦
          if meta_eq ex.meta remote.meta
          then update_state (set_enabled ex remote.enabled w) ex remote
          else add_remote w remote
    ]

    unfoldable pub process_item :
        Dict OID Item → World → ReplicationInventoryItem → World × List RemoteStateEvent
    unfolding update_existing add_remote
    process_item existing w remote = elim (get ⦃e = oid_eq⦄ remote.oid existing) [
      | some ex ↦ update_existing w ex remote
      | none ↦ add_remote w remote
    ]

    -- a loop over the items, which ends once the source is destroyed
    unfoldable pub each :
        (World → ReplicationInventoryItem → World × List RemoteStateEvent)
        → World
        → List ReplicationInventoryItem
        → World × List RemoteStateEvent
    each step w [] = (w, [])
    each step w (remote ∷ rest) =
        let (w', events) = step w remote in
        let (w'', more) = each step w' rest in
        if (w.flags source.addr).destroyed then (w, []) else (w'', events ++ more)

    -- the loop that removes what the node no longer has
    unfoldable pub remove_missing : Dict OID ReplicationInventoryItem → World → List OID → World
    remove_missing remote_inv w [] = w
    remove_missing remote_inv w (oid ∷ rest) =
        let kept = remove_missing remote_inv w rest in
        let gone = remove_missing remote_inv (record w { inv = (remove_item w.inv oid).0 }) rest in
        if (w.flags source.addr).destroyed
        then w
        else if contains_key ⦃e = oid_eq⦄ oid remote_inv
        then kept
        else gone

    unfoldable pub process_items :
        World
        → Option (Dict OID Item)
        → Dict OID ReplicationInventoryItem
        → Bool
        → World × List RemoteStateEvent
    unfolding remove_missing each process_item add_checked
    process_items w none remote_inv quick = each add_checked w (values remote_inv)
    process_items w (some existing) remote_inv quick =
        each (process_item existing)
          (if quick then w else remove_missing remote_inv w (keys existing)) (values remote_inv)

  pub record Processed : Type 0 where
    pub world : World
    pub locks : Dict String (Unit {0})
    pub events : List RemoteStateEvent
    pub result : EResult (Unit {0})

  abbrev pub unchanged : World → Dict String (Unit {0}) → EResult (Unit {0}) → Processed
  unchanged w locks r = record { world = w; locks = locks; events = []; result = r }

  unfoldable pub process_remote_inventory :
      (ReplicationInventoryItem → EResult ReplicationState)
      → World
      → Dict String (Unit {0})
      → Dict OID ReplicationInventoryItem
      → String
      → String
      → Bool
      → Processed
  unfolding process_items
  process_remote_inventory to_rs w locks remote_inv source_id sender quick =
      let (locked, free) = lock_source locks source_id in
      let existing = get_items_by_source w.inv source_id in
      let (w', source) = get_or_create_source w source_id sender in
      let (w'', events) =
        process_items to_rs source (w'.flags source.addr).online w' existing remote_inv quick in
      if starts_with_dot source_id
      then unchanged w locks (err invalid_params)
      else if not quick && not free
      then unchanged w locks (ok tt)
      else record {
        world = w'';
        locks = if quick then locks else unlock_source locked source_id;
        events = events;
        result = ok tt;
      }
