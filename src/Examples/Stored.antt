-- ===== src/Examples/Stored.antt =====
-- The item map and the inventory, with one local and one remote item.
use eva.Base.{none, some, true, false, if◌then◌else◌, ◌≡◌, ◌↔◌, refl, ok, [], ◌∷◌}
use eva.Base.Eq.{◌==◌}
use eva.Base.Lists.{In}
use eva.Common.{ItemKind, oid-Eq}
use eva.Items.Data.{Item, Source}
use eva.Items.Filter.{any_item, matches}
use eva.Items.ItemMap
use eva.Items.ItemMap.View.{get-empty_map}
use eva.Items.ItemMap.Masks.{mask_selects}
use eva.Items.ItemMap.Search.{get_by_mask_iff}
use eva.Items.Inventory.{
  Inventory, World, empty_inventory, node_eq, get_item, append_item, remove_item,
  get_items_by_source, fresh_flags,
}
use eva.Items.Inventory.Index.{by_source}
use eva.Items.Inventory.Refines.{IsIndexed, empty_inventory-IsIndexed, append_item-IsIndexed}
use eva.Items.Inventory.Removal.{remove_item-IsIndexed}
use eva.Items.Inventory.Replaced.{append_item_stale}
use eva.Core.{destroy_source}
use eva.Core.Destroy.{unless_of, destroy_source_lem}
use eva.Examples.Sample.{Oid, sample}

abbrev temp_oid : Oid
temp_oid = (ItemKind.sensor, "room/temp")

abbrev temp : Item
temp = record { addr = 1; oid = temp_oid; meta = none; source = none; logic = none; action = none }

abbrev far : Source
far = record { addr = 7; node = "plant"; svc = "eva.repl.1" }

-- the same OID, from a node
abbrev far_temp : Item
far_temp = record {
  addr = 2;
  oid = temp_oid;
  meta = none;
  source = some far;
  logic = none;
  action = none;
}

empty_item : (oid : Oid) → get_item empty_inventory oid ≡ none
unfolding get_item
empty_item oid = get-empty_map oid

abbrev stock : Inventory
stock = (append_item empty_inventory temp false).0

stock_lem :
    IsIndexed stock
    × ((oid : Oid)
        → get_item stock oid
          ≡ (if temp.oid == oid then some temp else get_item empty_inventory oid))
stock_lem =
    let (_, v, found) =
      append_item-IsIndexed empty_inventory empty_inventory-IsIndexed temp false
        (rw (empty_item temp_oid) refl) (rw (empty_item temp_oid) refl) in
    (v, found)

get-stock : get_item stock temp_oid ≡ some temp
get-stock = stock_lem.1 temp_oid

-- the remote item alone
abbrev remote : Inventory
remote = (append_item empty_inventory far_temp false).0

remote-IsIndexed : IsIndexed remote
remote-IsIndexed =
    (append_item-IsIndexed empty_inventory empty_inventory-IsIndexed far_temp false
      (rw (empty_item temp_oid) refl) (rw (empty_item temp_oid) refl)).1

abbrev remote_world : World
remote_world = record {
  inv = remote;
  cells = λ a. record { state = none; enabled = true };
  flags = λ a. fresh_flags;
  next = 8;
}

get_by_mask_iff_example :
    In temp (
      ItemMap.get_by_mask stock.items
        (some ItemKind.sensor, some ("room" ∷ "#" ∷ []))
        any_item
        false)
    ↔ (ItemMap.get stock.items temp_oid ≡ some temp)
      × (mask_selects (some ItemKind.sensor, some ("room" ∷ "#" ∷ [])) false temp_oid ≡ true)
      × (matches any_item temp ≡ true)
get_by_mask_iff_example =
    get_by_mask_iff stock.items (some ItemKind.sensor, some ("room" ∷ "#" ∷ [])) any_item false temp
      stock_lem.0.map

append_item-IsIndexed_example :
    ((append_item stock temp true).1 ≡ ok temp)
    × IsIndexed (append_item stock temp true).0
    × ((oid : Oid)
        → get_item (append_item stock temp true).0 oid
          ≡ (if temp.oid == oid then some temp else get_item stock oid))
unfolding node_eq
append_item-IsIndexed_example =
    append_item-IsIndexed stock stock_lem.0 temp true (rw get-stock refl) (rw get-stock refl)

remove_item-IsIndexed_example :
    ((remove_item stock temp_oid).1 ≡ get_item stock temp_oid)
    × IsIndexed (remove_item stock temp_oid).0
    × ((oid : Oid)
        → get_item (remove_item stock temp_oid).0 oid
          ≡ (if temp_oid == oid then none else get_item stock oid))
remove_item-IsIndexed_example = remove_item-IsIndexed stock temp_oid stock_lem.0

destroy_source_lem_example :
    IsIndexed (destroy_source remote_world "plant").inv
    × (get_items_by_source (destroy_source remote_world "plant").inv "plant" ≡ none)
    × ((oid : Oid)
        → get_item (destroy_source remote_world "plant").inv oid
          ≡ unless_of "plant" (get_item remote oid))
destroy_source_lem_example = destroy_source_lem remote_world "plant" remote-IsIndexed

append_item_stale_example :
    (get_item (append_item stock far_temp true).0 temp_oid ≡ some far_temp)
    × (by_source (append_item stock far_temp true).0 none temp_oid ≡ some temp)
append_item_stale_example =
    append_item_stale stock far_temp temp stock_lem.0 get-stock (unfold node_eq in refl)
