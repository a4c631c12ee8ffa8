-- ===== src/Items/Inventory/Replaced.antt =====
-- What `append_item` makes of an OID that is registered from another node.
use eva.Base.{some, Bool, true, false, not, ◌&&◌, ◌≡◌, refl, ◌∙◌, ap, is_some}
use eva.Base.Eq.{beq_refl}
use eva.Common.{Common, oid-Eq}
use eva.Items.Data.{Item}
use eva.Items.ItemMap
use eva.Items.ItemMap.View.{append_lem}
use eva.Items.Inventory.{Inventory, node_eq, source_node, append_item, get_item}
use eva.Items.Inventory.Index.{by_source, by_source-index_item, items-index_item}
use eva.Items.Inventory.Refines.{IsIndexed, at_node, append_item_eq}

module _ ⦃c : Common⦄ where
  open c use {OID, oid_eq}

  -- In an inventory that is in step with its index by source, when an item replaces one of another
  -- node, the inventory finds the new item while the index by source still lists the old one under
  -- its node.
  pub append_item_stale :
      (inv : Inventory) (item old : Item)
      → IsIndexed inv
      → get_item inv item.oid ≡ some old
      → node_eq.same (source_node item) (source_node old) ≡ false
      → (get_item (append_item inv item true).0 item.oid ≡ some item)
        × (by_source (append_item inv item true).0 (source_node old) item.oid ≡ some old)
  append_item_stale inv item old v present differ =
      let (done, m, found) =
        append_lem inv.items v.map item true (always (is_some (ItemMap.get inv.items item.oid))) in
      let there : by_source inv (source_node old) item.oid ≡ some old =
        v.index (source_node old) item.oid
        ∙ (ap (at_node (source_node old)) present
            ∙ (rw (beq_refl ⦃e = node_eq⦄ (source_node old)))) in
      rw (append_item_eq inv item true done) (
        unfold get_item in
            rw
              (items-index_item (record inv { items = (ItemMap.append inv.items item true).0 })
                item)
              (found item.oid ∙ (rw (beq_refl ⦃e = oid_eq⦄ item.oid))),
        by_source-index_item (record inv { items = (ItemMap.append inv.items item true).0 }) item
              (source_node old) item.oid
            ∙ (rw differ there),
      )
    where
      always : (b : Bool) → (b && not true) ≡ false
      always true = refl
      always false = refl
