-- ===== src/Items/Inventory.antt =====
-- eva/src/items.rs: `Inventory`, the item map with its index by source, and the operations on it.
-- `World` is an inventory with the heap of the cells that its `Arc`s share.
pub mod Index
pub mod Sources
pub mod Refines
pub mod Removal
pub mod Replaced
use eva.Base.{
  ℕ, zero, suc, ◌+◌, String, Option, none, some, Bool, true, false, not, ◌&&◌, if◌then◌else◌,
  EResult, ok, err, ◌>>=◌, ok_or, or_else, invalid_data, List, [], ◌∷◌, ◌++◌, nat_eq, is_some,
}
use eva.Base.Eq.{Eq, string-Eq, option-Eq}
use eva.Base.Dict.{Dict, get, insert, remove, is_empty, values}
use eva.Base.Lists.{length}
use eva.Common.{Common, ItemKind, kind_eq}
use eva.Items.State.{ItemState, new0, generate}
use eva.Items.Data.{
  Item, ItemCell, Source, SourceCell, ItemConfigData, StateData, ReplicationInventoryItem, split,
  check_item_data, from_repl_item,
}
use eva.Items.Filter.{Filter, NodeFilter, any_item}
use eva.Items.ItemMap
use eva.Items.ItemMap.{ItemMap}

-- Equality of the keys of the index by source.
unfoldable pub node_eq : Eq (Option String)
node_eq = option-Eq ⦃e = string-Eq⦄

module _ ⦃c : Common⦄ where
  open c use {OID, oid_eq, kind, full_id, Ieid, F64, Value, OIDMask, OIDMaskList, oid_masks}

  pub record Inventory : Type 0 where
    pub items : ItemMap
    pub items_by_source : Dict (Option String) (Dict OID Item)
    pub sources : Dict String Source

  abbrev pub empty_inventory : Inventory
  empty_inventory = record { items = ItemMap.empty_map; items_by_source = []; sources = [] }

  abbrev pub source_node : Item → Option String
  source_node item = elim item.source [ none ↦ none | some s ↦ some s.node ]

  abbrev pub items_of : Option String → Inventory → Option (Dict OID Item)
  items_of node inv = get ⦃e = node_eq⦄ node inv.items_by_source

  abbrev with_items : Option String → Dict OID Item → Inventory → Inventory
  with_items node items inv = record inv {
    items_by_source = insert ⦃e = node_eq⦄ node items inv.items_by_source;
  }

  abbrev with_source : Option Source → Inventory → Inventory
  with_source none inv = inv
  with_source (some s) inv = record inv { sources = insert ⦃e = string-Eq⦄ s.node s inv.sources }

  -- the item goes into the index; a source that has no entry yet gets one
  unfoldable pub index_item : Inventory → Item → Inventory
  index_item inv item = elim (items_of (source_node item) inv) [
    | some items ↦ with_items (source_node item) (insert ⦃e = oid_eq⦄ item.oid item items) inv
    | none ↦
        with_source item.source
          (with_items (source_node item) (insert ⦃e = oid_eq⦄ item.oid item []) inv)
  ]

  abbrev indexed : Inventory → Item → ItemMap × EResult (Unit {0}) → Inventory × EResult Item
  indexed inv item (m, ok _) = (index_item (record inv { items = m }) item, ok item)
  indexed inv item (m, err e) = (record inv { items = m }, err e)

  unfoldable pub append_item : Inventory → Item → Bool → Inventory × EResult Item
  append_item inv item replace = indexed inv item (ItemMap.append inv.items item replace)

  unfoldable pub get_item : Inventory → OID → Option Item
  get_item inv oid = ItemMap.get inv.items oid

  -- the source of a node goes with its last item
  abbrev without_source : Option String → Inventory → Inventory
  without_source none inv = inv
  without_source (some node) inv = record inv { sources = remove ⦃e = string-Eq⦄ node inv.sources }

  abbrev shrink : Option String → Dict OID Item → Inventory → Inventory
  shrink node items inv =
      if is_empty items
      then without_source node
          (record inv { items_by_source = remove ⦃e = node_eq⦄ node inv.items_by_source })
      else with_items node items inv

  unfoldable pub unindex_item : Inventory → Item → Inventory
  unindex_item inv item = elim (items_of (source_node item) inv) [
    | none ↦ inv
    | some items ↦ shrink (source_node item) (remove ⦃e = oid_eq⦄ item.oid items) inv
  ]

  abbrev unindexed : Inventory → ItemMap × Option Item → Inventory × Option Item
  unindexed inv (m, none) = (record inv { items = m }, none)
  unindexed inv (m, some item) = (unindex_item (record inv { items = m }) item, some item)

  unfoldable pub remove_item : Inventory → OID → Inventory × Option Item
  remove_item inv oid = unindexed inv (ItemMap.remove inv.items oid)

  unfoldable pub get_items_by_mask : Inventory → OIDMask → Filter → Bool → List Item
  get_items_by_mask inv mask filter include_stateless =
      ItemMap.get_by_mask inv.items mask filter include_stateless

  unfoldable pub get_items_by_source : Inventory → String → Option (Dict OID Item)
  get_items_by_source inv source_id = items_of (some source_id) inv

  abbrev values_of : Option (Dict OID Item) → List Item
  values_of none = []
  values_of (some items) = values items

  unfoldable pub list_local_items : Inventory → List Item
  list_local_items inv = values_of (items_of none inv)

  -- `InventoryStats`, the local node under its alias
  unfoldable pub stats : String → Dict (Option String) (Dict OID Item) → List (String × ℕ) × ℕ
  stats local_alias [] = ([], 0)
  stats local_alias ((src, items) ∷ rest) =
      let (sources, n) = stats local_alias rest in
      ((or_else src local_alias, length items) ∷ sources, length items + n)

  -- The heap: the cell of each item and of each source, and the next free address.
  pub record World : Type 0 where
    pub inv : Inventory
    pub cells : ℕ → ItemCell
    pub flags : ℕ → SourceCell
    pub next : ℕ

  abbrev pub put_cell : ℕ → ItemCell → World → World
  put_cell a cell w = record w { cells = λ b. if nat_eq a b then cell else w.cells b }

  abbrev pub put_flags : ℕ → SourceCell → World → World
  put_flags a cell w = record w { flags = λ b. if nat_eq a b then cell else w.flags b }

  abbrev pub fresh_flags : SourceCell
  fresh_flags = record { online = true; destroyed = false }

  -- `create_source`
  unfoldable pub create_source : World → String → String → World × Source
  create_source w source_id svc = (
    record (put_flags w.next fresh_flags w) { next = w.next + 1 },
    record { addr = w.next; node = source_id; svc = svc },
  )

  unfoldable pub get_or_create_source : World → String → String → World × Source
  unfolding create_source
  get_or_create_source w source_id svc = elim (get ⦃e = string-Eq⦄ source_id w.inv.sources) [
    | none ↦ create_source w source_id svc
    | some source ↦ (w, source)
  ]

  abbrev pub set_online : Option Source → Bool → World → World
  set_online none online w = w
  set_online (some source) online w =
      put_flags source.addr (record (w.flags source.addr) { online = online }) w

  unfoldable pub mark_source_online : World → String → Bool → World
  mark_source_online w source_id online =
      set_online (get ⦃e = string-Eq⦄ source_id w.inv.sources) online w

  -- a new `Arc` with its cell, put into the inventory
  abbrev append_arc : World → Item → ItemCell → Bool → World × EResult Item
  append_arc w item cell replace =
      let (inv, r) = append_item w.inv item replace in
      (record (put_cell w.next cell w) { inv = inv; next = w.next + 1 }, r)

  -- the state cell of the item with an OID, if it is there and has one
  abbrev state_at : World → Option Item → Option ItemState
  state_at w none = none
  state_at w (some item) = (w.cells item.addr).state

  unfoldable pub get_or_generate_state : World → OID → ℕ → ℕ → F64 → ItemState
  get_or_generate_state w oid boot_id ns now =
      or_else (state_at w (get_item w.inv oid)) (new0 (generate boot_id ns) (kind oid) now)

  -- the configured status, value and time over a state
  unfoldable pub configured : ItemState → ItemKind → StateData → ItemState
  configured s tp sd = record s {
    status = or_else sd.status s.status;
    value = or_else sd.value s.value;
    t = or_else sd.t s.t;
    act = if kind_eq tp ItemKind.unit then some 0 else s.act;
  }

  unfoldable pub append_item_from_config_data :
      World → ItemConfigData → ℕ → ℕ → F64 → World × EResult Item
  unfolding split
  append_item_from_config_data w config boot_id ns now =
      let (item, cell, sd) = split config w.next in
      elim (check_item_data (kind item.oid) item.action item.logic) [
        | err e ↦ (w, err e)
        | ok _ ↦
            append_arc w item
              (if kind_eq (kind item.oid) ItemKind.lmacro then cell else record cell {
                state = some (
                    configured (get_or_generate_state w item.oid boot_id ns now) (kind item.oid)
                      sd);
              })
              true
      ]

  -- `append_item_from_value`: `parsed` is what serde makes of the configuration, an item that has no
  -- source, and `state` what the database has kept
  abbrev loaded_state :
      ItemKind → Option ItemState → Option ItemState → ℕ → ℕ → F64 → Option ItemState
  loaded_state tp old (some st) boot_id ns now =
      some (if kind_eq tp ItemKind.unit then record st { act = some 0 } else st)
  loaded_state tp (some old) none boot_id ns now = some old
  loaded_state tp none none boot_id ns now =
      if kind_eq tp ItemKind.lmacro then none else some (new0 (generate boot_id ns) tp now)

  abbrev loaded :
      World → OID → Item → ItemCell → Option ItemState → ℕ → ℕ → F64 → World × EResult Item
  loaded w oid item cell state boot_id ns now =
      if not (oid_eq.same item.oid oid)
      then (w, err invalid_data)
      else elim (check_item_data (kind item.oid) item.action item.logic) [
        | err e ↦ (w, err e)
        | ok _ ↦
            append_arc w (record item { addr = w.next; source = none })
              (record cell { state = loaded_state (kind item.oid) cell.state state boot_id ns now })
              true
      ]

  unfoldable pub append_item_from_value :
      World
      → OID
      → EResult (Item × ItemCell)
      → Option ItemState
      → ℕ
      → ℕ
      → F64
      → World × EResult Item
  append_item_from_value w oid parsed state boot_id ns now = elim parsed [
    | err e ↦ (w, err e)
    | ok (item, cell) ↦ loaded w oid item cell state boot_id ns now
  ]

  -- an item without content, local or of a source
  abbrev blank_item : ℕ → OID → Option Source → Item
  blank_item addr oid source = record {
    addr = addr;
    oid = oid;
    meta = none;
    source = source;
    logic = none;
    action = none;
  }

  abbrev blank_cell : OID → Option Ieid → F64 → EResult ItemCell
  blank_cell oid ieid now =
      if kind_eq (kind oid) ItemKind.lmacro
      then ok (record { state = none; enabled = true })
      else ok_or ieid invalid_data >>= λ i.
          ok (record { state = some (new0 i (kind oid) now); enabled = true })

  abbrev source_for : World → Option (String × String) → World × Option Source
  source_for w none = (w, none)
  source_for w (some (source_id, svc)) =
      let (w', s) = get_or_create_source w source_id svc in (w', some s)

  unfoldable pub create_item :
      World → OID → Option Ieid → Option (String × String) → F64 → World × EResult Item
  create_item w oid ieid from now =
      let (w', source) = source_for w from in
      elim (blank_cell oid ieid now) [
        | err e ↦ (w', err e)
        | ok cell ↦ append_arc w' (blank_item w'.next oid source) cell false
      ]

  unfoldable pub append_remote_item :
      World → ReplicationInventoryItem → Source → World × EResult Item
  append_remote_item w remote_item source = elim (from_repl_item remote_item source w.next) [
    | err e ↦ (w, err e)
    | ok (item, cell) ↦ append_arc w item cell true
  ]

  -- `HashSet<Item>`, whose hash is that of the OID
  abbrev add_item : Item → List Item → List Item
  add_item i [] = i ∷ []
  add_item i (j ∷ js) = if oid_eq.same i.oid j.oid then j ∷ js else j ∷ add_item i js

  add_items : List Item → List Item → List Item
  add_items [] acc = acc
  add_items (i ∷ is) acc = add_items is (add_item i acc)

  by_masks : Inventory → List OIDMask → Filter → List Item → List Item
  by_masks inv [] filter acc = acc
  by_masks inv (mask ∷ masks) filter acc =
      by_masks inv masks filter (add_items (get_items_by_mask inv mask filter false) acc)

  unfoldable pub list_items_with_states : Inventory → OIDMaskList → Option NodeFilter → List Item
  unfolding by_masks add_items
  list_items_with_states inv mask_list source_id =
      by_masks inv (oid_masks mask_list) (record any_item { node = source_id }) []
