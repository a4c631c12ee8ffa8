-- ===== src/Items/Inventory/Refines.antt =====
-- `Inventory` of eva/src/items.rs as a plain map from OIDs to items, with the index by source as a
-- view of it.
use eva.Base.{
  String, Option, none, some, Bool, true, false, not, ◌&&◌, if◌then◌else◌, ◌≡◌, refl, ◌∙◌, subst,
  ok, err, duplicate, arith, is_some, Bool-cases, inl, inr,
}
use eva.Base.Eq.{◌==◌}
use eva.Base.Dict.{Dict, get, is_empty, is_empty-insert}
use eva.Common.{Common, oid-Eq}
use eva.Items.Data.{Item}
use eva.Items.ItemMap
use eva.Items.ItemMap.View.{IsWfMap, append_lem, append_duplicate, empty_map-IsWfMap, get-empty_map}
use eva.Items.Inventory.{
  Inventory, empty_inventory, node_eq, source_node, items_of, index_item, append_item, get_item,
}
use eva.Items.Inventory.Index.{
  by_source, entry, items_of-index_item, by_source-index_item, items-index_item,
}
use eva.Items.Inventory.Sources.{source_of, source_of-index_item}

module _ ⦃c : Common⦄ where
  open c use {OID, oid_eq}

  -- an item, seen from a node
  abbrev pub at_node : Option String → Option Item → Option Item
  at_node n none = none
  at_node n (some i) = if node_eq.same (source_node i) n then some i else none

  pub record IsIndexed (inv : Inventory) : Type 0 where
    pub map : IsWfMap inv.items
    pub index : (n : Option String) (oid : OID) → by_source inv n oid ≡ at_node n (get_item inv oid)
    pub filled :
        (n : Option String) (d : Dict OID Item) → items_of n inv ≡ some d → is_empty d ≡ false
    pub known : (s : String) → is_some (source_of s inv) ≡ is_some (items_of (some s) inv)

  empty_get : (oid : OID) → get_item empty_inventory oid ≡ none
  unfolding get_item
  empty_get oid = get-empty_map oid

  pub empty_inventory-IsIndexed : IsIndexed empty_inventory
  unfolding get get_item
  empty_inventory-IsIndexed = record {
    map = empty_map-IsWfMap;
    index = λ n oid. rw (empty_get oid);
    filled = λ n d h. cc;
    known = λ s. refl;
  }

  pub append_item_eq :
      (inv : Inventory) (item : Item) (replace : Bool)
      → (ItemMap.append inv.items item replace).1 ≡ ok tt
      → append_item inv item replace ≡ (
        index_item (record inv { items = (ItemMap.append inv.items item replace).0 }) item,
        ok item,
      )
  unfolding append_item
  append_item_eq inv item replace h = ground arith

  -- what stands at one node is not seen from another
  not_elsewhere :
      (at n : Option String) (o : Option Item)
      → node_eq.same at n ≡ false
      → at_node at o ≡ o
      → at_node n o ≡ none
  not_elsewhere at n none d h = refl
  not_elsewhere at n (some j) d h =
      ground (arith, node_eq.decides (source_node j) at, node_eq.decides (source_node j) n)

  module _ (inv : Inventory) (v : IsIndexed inv) where
    -- the index after the map and the index have taken the item
    module _ (item : Item) (inv' : Inventory)
        (same_index : inv'.items_by_source ≡ inv.items_by_source)
        (same_sources : inv'.sources ≡ inv.sources)
        (found : (oid : OID)
          → get_item inv' oid ≡ (if oid_eq.same item.oid oid then some item else get_item inv oid))
        (place : at_node (source_node item) (get_item inv item.oid) ≡ get_item inv item.oid) where
      get_item-index_item : (oid : OID) → get_item (index_item inv' item) oid ≡ get_item inv' oid
      unfolding get_item
      get_item-index_item oid = rw (items-index_item inv' item)

      index_appended :
          (n : Option String) (oid : OID)
          → by_source (index_item inv' item) n oid ≡ at_node n (get_item (index_item inv' item) oid)
      index_appended n oid = elim (Bool-cases (oid_eq.same item.oid oid)) [
        | inl y ↦
            let e : item.oid ≡ oid = (oid_eq.decides item.oid oid).0 y in
            rw
              (
                get_item-index_item oid,
                found oid,
                by_source-index_item inv' item n oid,
                y,
                same_index,
              )
              (elim (Bool-cases (node_eq.same (source_node item) n)) [
                | inl s ↦ rw s
                | inr d ↦ rw d (
                    subst (λ o. by_source inv n o ≡ none) e
                      (v.index n item.oid
                        ∙ not_elsewhere (source_node item) n (get_item inv item.oid) d place))
              ])
        | inr d ↦
            rw
              (
                get_item-index_item oid,
                found oid,
                by_source-index_item inv' item n oid,
                d,
                same_index,
              )
              (elim (Bool-cases (node_eq.same (source_node item) n)) [
                | inl s ↦ rw s (v.index n oid)
                | inr s ↦ rw s (v.index n oid)
              ])
      ]

      filled_appended :
          (n : Option String) (d : Dict OID Item)
          → items_of n (index_item inv' item) ≡ some d
          → is_empty d ≡ false
      filled_appended n d h = ground (
        arith,
        same_index,
        items_of-index_item inv' item n,
        is_empty-insert ⦃e = oid_eq⦄ item.oid item (entry (source_node item) inv'),
        v.filled n d,
      )

      known_appended :
          (s : String)
          → is_some (source_of s (index_item inv' item))
            ≡ is_some (items_of (some s) (index_item inv' item))
      known_appended s = ground (
        arith,
        same_index,
        same_sources,
        source_of-index_item inv' item s,
        items_of-index_item inv' item (some s),
        v.known s,
        node_eq.decides (source_node item) (some s),
      )

    -- In an inventory that is in step with its index by source, appending an item that is new, or
    -- that replaces one of the same node with leave to replace, succeeds, keeps the index by
    -- source in step with the item map, and changes what is found at the OID of the item and
    -- nowhere else.
    pub append_item-IsIndexed :
        (item : Item) (replace : Bool)
        → (is_some (get_item inv item.oid) && not replace) ≡ false
        → at_node (source_node item) (get_item inv item.oid) ≡ get_item inv item.oid
        → ((append_item inv item replace).1 ≡ ok item)
          × IsIndexed (append_item inv item replace).0
          × ((oid : OID)
              → get_item (append_item inv item replace).0 oid
                ≡ (if item.oid == oid then some item else get_item inv oid))
    append_item-IsIndexed item replace fresh place =
        let (done, m, found) = append_lem inv.items v.map item replace (unfold get_item in fresh) in
        let inv' : Inventory = record inv { items = (ItemMap.append inv.items item replace).0 } in
        let found' : (oid : OID)
            → get_item inv' oid
              ≡ (if oid_eq.same item.oid oid then some item else get_item inv oid) =
          unfold get_item in found in
        rw (append_item_eq inv item replace done) (
          refl,
          record {
            map = rw (items-index_item inv' item) m;
            index = index_appended item inv' refl refl found' place;
            filled = filled_appended item inv' refl refl found' place;
            known = known_appended item inv' refl refl found' place;
          },
          λ oid. get_item-index_item item inv' refl refl found' place oid ∙ found' oid,
        )

    -- In an inventory that is in step with its index by source, without leave to replace, an item
    -- whose OID is registered is refused, and the inventory stays.
    append_item_duplicate :
        (item : Item)
        → is_some (get_item inv item.oid) ≡ true
        → append_item inv item false ≡ (inv, err duplicate)
    unfolding append_item get_item
    append_item_duplicate item h = rw (append_duplicate inv.items v.map item h)
