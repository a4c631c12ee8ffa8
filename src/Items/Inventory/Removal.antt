-- ===== src/Items/Inventory/Removal.antt =====
-- `remove_item` of eva/src/items.rs, against the map and its index by source.
use eva.Base.{
  String, Option, none, some, false, if◌then◌else◌, ◌≡◌, refl, sym, ◌∙◌, ap, subst, arith, is_some,
  Bool-cases, inl, inr,
}
use eva.Base.Eq.{◌==◌}
use eva.Base.Dict.{Dict, is_empty}
use eva.Common.{Common, oid-Eq}
use eva.Items.Data.{Item}
use eva.Items.ItemMap
use eva.Items.ItemMap.View.{IsWfMap, remove_lem}
use eva.Items.ItemMap.Masks.{oid-get}
use eva.Items.Inventory.{
  Inventory, node_eq, source_node, items_of, unindex_item, remove_item, get_item,
}
use eva.Items.Inventory.Index.{
  by_source, items-unindex_item, by_source-unindex_item, items_of-unindex_item,
}
use eva.Items.Inventory.Sources.{source_of, source_of-unindex_item}
use eva.Items.Inventory.Refines.{IsIndexed, at_node}

module _ ⦃c : Common⦄ where
  open c use {OID, oid_eq}

  remove_item_eq :
      (inv : Inventory) (oid : OID) (item : Item)
      → (ItemMap.remove inv.items oid).1 ≡ some item
      → remove_item inv oid
        ≡ (unindex_item (record inv { items = (ItemMap.remove inv.items oid).0 }) item, some item)
  unfolding remove_item
  remove_item_eq inv oid item h = ground arith

  remove_item-none :
      (inv : Inventory) (oid : OID)
      → (ItemMap.remove inv.items oid).1 ≡ none
      → remove_item inv oid ≡ (record inv { items = (ItemMap.remove inv.items oid).0 }, none)
  unfolding remove_item
  remove_item-none inv oid h = ground arith

  module _ (inv : Inventory) (v : IsIndexed inv) (gone : OID) (inv' : Inventory)
      (same_index : inv'.items_by_source ≡ inv.items_by_source)
      (same_sources : inv'.sources ≡ inv.sources) (map : IsWfMap inv'.items)
      (found : (oid : OID)
        → get_item inv' oid ≡ (if oid_eq.same gone oid then none else get_item inv oid)) where
    -- nothing was registered, and nothing changes
    IsIndexed-absent : get_item inv gone ≡ none → IsIndexed inv'
    IsIndexed-absent absent = record {
      map = map;
      index = λ n oid. rw (same, same_index) (v.index n oid);
      filled = λ n d h. v.filled n d (rw same_index at h);
      known = λ s. rw (same_index, same_sources) (v.known s);
    }
      where
        same : (oid : OID) → get_item inv' oid ≡ get_item inv oid
        same oid = ground (arith, found oid, oid_eq.decides gone oid, absent)

    module _ (item : Item) (own : item.oid ≡ gone) (present : get_item inv gone ≡ some item) where
      get_item-unindex_item :
          (oid : OID) → get_item (unindex_item inv' item) oid ≡ get_item inv' oid
      unfolding get_item
      get_item-unindex_item oid = rw (items-unindex_item inv' item)

      index_removed :
          (n : Option String) (oid : OID)
          → by_source (unindex_item inv' item) n oid
            ≡ at_node n (get_item (unindex_item inv' item) oid)
      index_removed n oid = elim (Bool-cases (oid_eq.same gone oid)) [
        | inl y ↦
            rw
              (
                get_item-unindex_item oid,
                found oid,
                by_source-unindex_item inv' item n oid,
                y,
                same_index,
              )
              (elim (Bool-cases (node_eq.same (source_node item) n)) [
                | inl s ↦ rw (s, own, y)
                | inr d ↦ rw d (
                    subst (λ o. by_source inv n o ≡ none) ((oid_eq.decides gone oid).0 y)
                      (v.index n gone ∙ (ap (at_node n) present ∙ (rw d))))
              ])
        | inr d ↦
            rw
              (
                get_item-unindex_item oid,
                found oid,
                by_source-unindex_item inv' item n oid,
                own,
                d,
                same_index,
              )
              (elim (Bool-cases (node_eq.same (source_node item) n)) [
                | inl s ↦ rw s (v.index n oid)
                | inr s ↦ rw s (v.index n oid)
              ])
      ]

      filled_removed :
          (n : Option String) (d : Dict OID Item)
          → items_of n (unindex_item inv' item) ≡ some d
          → is_empty d ≡ false
      filled_removed n d h =
          ground (arith, same_index, items_of-unindex_item inv' item n, v.filled n d)

      known_removed :
          (s : String)
          → is_some (source_of s (unindex_item inv' item))
            ≡ is_some (items_of (some s) (unindex_item inv' item))
      known_removed s = ground (
        arith,
        same_index,
        same_sources,
        source_of-unindex_item inv' item s,
        items_of-unindex_item inv' item (some s),
        v.known s,
        node_eq.decides (source_node item) (some s),
      )

      IsIndexed-removed : IsIndexed (unindex_item inv' item)
      IsIndexed-removed = record {
        map = rw (items-unindex_item inv' item) map;
        index = index_removed;
        filled = filled_removed;
        known = known_removed;
      }

  -- What a removal returns, keeps and changes.
  abbrev Removes : Inventory → OID → Type 0
  Removes inv gone =
      ((remove_item inv gone).1 ≡ get_item inv gone)
      × IsIndexed (remove_item inv gone).0
      × ((oid : OID)
          → get_item (remove_item inv gone).0 oid
            ≡ (if gone == oid then none else get_item inv oid))

  remove_item-Removes :
      (inv : Inventory) (gone : OID) (o : Option Item)
      → IsIndexed inv
      → get_item inv gone ≡ o
      → Removes inv gone
  remove_item-Removes inv gone o v e = go o e (unfold get_item in e)
    where
      r :
          ((ItemMap.remove inv.items gone).1 ≡ ItemMap.get inv.items gone)
          × IsWfMap (ItemMap.remove inv.items gone).0
          × ((oid : OID)
              → ItemMap.get (ItemMap.remove inv.items gone).0 oid
                ≡ (if gone == oid then none else ItemMap.get inv.items oid))
      r = remove_lem inv.items v.map gone

      inv' : Inventory
      inv' = record inv { items = (ItemMap.remove inv.items gone).0 }

      found :
          (oid : OID)
          → get_item inv' oid ≡ (if oid_eq.same gone oid then none else get_item inv oid)
      found = unfold get_item in r.2

      go :
          (o' : Option Item)
          → get_item inv gone ≡ o'
          → ItemMap.get inv.items gone ≡ o'
          → Removes inv gone
      go none e' f =
          rw (remove_item-none inv gone (r.0 ∙ f))
            (sym e', IsIndexed-absent inv v gone inv' refl refl r.1 found e', found)
      go (some item) e' f = rw (remove_item_eq inv gone item (r.0 ∙ f)) (
        sym e',
        IsIndexed-removed inv v gone inv' refl refl r.1 found item (oid-get inv.items v.map gone f)
            e',
        λ oid.
            get_item-unindex_item inv v gone inv' refl refl r.1 found item
              (oid-get inv.items v.map gone f) e' oid
            ∙ found oid,
      )

  -- In an inventory that is in step with its index by source, removing returns what was found at
  -- the OID, keeps the index by source and the list of sources in step with the item map, and
  -- clears that OID and no other.
  pub remove_item-IsIndexed :
      (inv : Inventory) (gone : OID)
      → IsIndexed inv
      → ((remove_item inv gone).1 ≡ get_item inv gone)
        × IsIndexed (remove_item inv gone).0
        × ((oid : OID)
            → get_item (remove_item inv gone).0 oid
              ≡ (if gone == oid then none else get_item inv oid))
  remove_item-IsIndexed inv gone v = remove_item-Removes inv gone (get_item inv gone) v refl
