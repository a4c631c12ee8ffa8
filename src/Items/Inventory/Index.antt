-- ===== src/Items/Inventory/Index.antt =====
-- The index by source: what `append_item` and `remove_item` make of it, and when it agrees with the
-- item map.
use eva.Base.{String, Option, none, some, ◌&&◌, if◌then◌else◌, ◌≡◌, refl, arith, or_else, []}
use eva.Base.Eq.{string-Eq}
use eva.Base.Dict.{Dict, get, insert, remove, is_empty, get-insert, get-remove, get-is_empty}
use eva.Common.{Common}
use eva.Items.Data.{Item, Source}
use eva.Items.Inventory.{
  Inventory, node_eq, source_node, items_of, with_items, with_source, index_item, unindex_item,
  shrink,
}

module _ ⦃c : Common⦄ where
  open c use {OID, oid_eq}

  abbrev in_dict : Option (Dict OID Item) → OID → Option Item
  in_dict none oid = none
  in_dict (some items) oid = get ⦃e = oid_eq⦄ oid items

  -- The item that the index holds for a node under an OID.
  abbrev pub by_source : Inventory → Option String → OID → Option Item
  by_source inv node oid = in_dict (items_of node inv) oid

  items_of-with_source :
      (s : Option Source) (n : Option String) (inv : Inventory)
      → items_of n (with_source s inv) ≡ items_of n inv
  items_of-with_source none n inv = refl
  items_of-with_source (some s) n inv = refl

  items_of-with_items :
      (node n : Option String) (d : Dict OID Item) (inv : Inventory)
      → items_of n (with_items node d inv)
        ≡ (if node_eq.same node n then some d else items_of n inv)
  items_of-with_items node n d inv = get-insert ⦃e = node_eq⦄ node n d inv.items_by_source

  abbrev pub entry : Option String → Inventory → Dict OID Item
  entry n inv = or_else (items_of n inv) []

  pub items_of-index_item :
      (inv : Inventory) (item : Item) (n : Option String)
      → items_of n (index_item inv item) ≡ (
          if node_eq.same (source_node item) n
          then some (insert ⦃e = oid_eq⦄ item.oid item (entry (source_node item) inv))
          else items_of n inv)
  unfolding index_item
  items_of-index_item inv item n = ground (
    arith,
    items_of-with_source item.source n
        (with_items (source_node item) (insert ⦃e = oid_eq⦄ item.oid item []) inv),
    items_of-with_items (source_node item) n (insert ⦃e = oid_eq⦄ item.oid item []) inv,
    items_of-with_items (source_node item) n
        (insert ⦃e = oid_eq⦄ item.oid item (entry (source_node item) inv)) inv,
  )

  get-entry :
      (n : Option String) (inv : Inventory) (oid : OID)
      → get ⦃e = oid_eq⦄ oid (entry n inv) ≡ by_source inv n oid
  get-entry n inv oid = go (items_of n inv)
    where
      go : (o : Option (Dict OID Item)) → get ⦃e = oid_eq⦄ oid (or_else o []) ≡ in_dict o oid
      go none = unfold get in refl
      go (some d) = refl

  -- Indexing an item sets its place under its node, and no other.
  pub by_source-index_item :
      (inv : Inventory) (item : Item) (n : Option String) (oid : OID)
      → by_source (index_item inv item) n oid ≡ (
          if node_eq.same (source_node item) n && oid_eq.same item.oid oid
          then some item
          else by_source inv n oid)
  by_source-index_item inv item n oid = ground (
    arith,
    items_of-index_item inv item n,
    get-insert ⦃e = oid_eq⦄ item.oid oid item (entry (source_node item) inv),
    get-entry (source_node item) inv oid,
    node_eq.decides (source_node item) n,
  )

  pub items_of-shrink :
      (node n : Option String) (d : Dict OID Item) (inv : Inventory)
      → items_of n (shrink node d inv)
        ≡ (if node_eq.same node n then (if is_empty d then none else some d) else items_of n inv)
  items_of-shrink none n d inv =
      ground (
        arith,
        items_of-with_items none n d inv,
        get-remove ⦃e = node_eq⦄ none n inv.items_by_source,
      )
  items_of-shrink (some s) n d inv = ground (
    arith,
    items_of-with_items (some s) n d inv,
    get-remove ⦃e = node_eq⦄ (some s) n inv.items_by_source,
  )

  pub items-index_item : (inv : Inventory) (item : Item) → (index_item inv item).items ≡ inv.items
  unfolding index_item
  items-index_item inv item = ground arith

  pub items-unindex_item :
      (inv : Inventory) (item : Item) → (unindex_item inv item).items ≡ inv.items
  unfolding unindex_item
  items-unindex_item inv item = ground arith

  -- Taking an item out of the index clears its place under its node, and no other.
  pub by_source-unindex_item :
      (inv : Inventory) (item : Item) (n : Option String) (oid : OID)
      → by_source (unindex_item inv item) n oid ≡ (
          if node_eq.same (source_node item) n && oid_eq.same item.oid oid
          then none
          else by_source inv n oid)
  unfolding unindex_item
  by_source-unindex_item inv item n oid = go (items_of (source_node item) inv) refl
    where
      go :
          (o : Option (Dict OID Item))
          → items_of (source_node item) inv ≡ o
          → by_source
              (elim o [
                | none ↦ inv
                | some items ↦ shrink (source_node item) (remove ⦃e = oid_eq⦄ item.oid items) inv
              ])
              n
              oid
            ≡ (if node_eq.same (source_node item) n && oid_eq.same item.oid oid
                then none
                else by_source inv n oid)
      go none e = ground (arith, node_eq.decides (source_node item) n)
      go (some d) e = ground (
        arith,
        items_of-shrink (source_node item) n (remove ⦃e = oid_eq⦄ item.oid d) inv,
        node_eq.decides (source_node item) n,
        get-remove ⦃e = oid_eq⦄ item.oid oid d,
        get-is_empty ⦃e = oid_eq⦄ oid (remove ⦃e = oid_eq⦄ item.oid d),
      )

  -- the entry of an item's node after the item has left it
  abbrev pub left_entry : Item → Option (Dict OID Item) → Option (Dict OID Item)
  left_entry item none = none
  left_entry item (some d) =
      if is_empty (remove ⦃e = oid_eq⦄ item.oid d)
      then none
      else some (remove ⦃e = oid_eq⦄ item.oid d)

  pub items_of-unindex_item :
      (inv : Inventory) (item : Item) (n : Option String)
      → items_of n (unindex_item inv item) ≡ (
          if node_eq.same (source_node item) n
          then left_entry item (items_of (source_node item) inv)
          else items_of n inv)
  unfolding unindex_item
  items_of-unindex_item inv item n = go (items_of (source_node item) inv) refl
    where
      go :
          (o : Option (Dict OID Item))
          → items_of (source_node item) inv ≡ o
          → items_of n (elim o [
            | none ↦ inv
            | some items ↦ shrink (source_node item) (remove ⦃e = oid_eq⦄ item.oid items) inv
          ])
            ≡ (if node_eq.same (source_node item) n then left_entry item o else items_of n inv)
      go none e = ground (arith, node_eq.decides (source_node item) n)
      go (some d) e = items_of-shrink (source_node item) n (remove ⦃e = oid_eq⦄ item.oid d) inv
