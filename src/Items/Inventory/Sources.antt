-- ===== src/Items/Inventory/Sources.antt =====
-- The table of sources of the inventory of eva/src/items.rs, against the index by source.
use eva.Base.{
  String, Option, none, some, not, ◌&&◌, ◌||◌, ◌≡◌, refl, arith, is_some, str_eq_iff, [],
}
use eva.Base.Eq.{string-Eq}
use eva.Base.Dict.{Dict, get, insert, remove, get-insert, get-remove}
use eva.Common.{Common}
use eva.Items.Data.{Item, Source}
use eva.Items.Inventory.{
  Inventory, node_eq, source_node, items_of, with_items, with_source, index_item, unindex_item,
  without_source, shrink,
}
use eva.Items.Inventory.Index.{left_entry}

module _ ⦃c : Common⦄ where
  open c use {OID, oid_eq}

  abbrev pub source_of : String → Inventory → Option Source
  source_of s inv = get ⦃e = string-Eq⦄ s inv.sources

  abbrev node_of : Option Source → Option String
  node_of none = none
  node_of (some s) = some s.node

  node_of-source_node : (item : Item) → node_of item.source ≡ source_node item
  node_of-source_node item = go item.source
    where
      go : (s : Option Source) → node_of s ≡ (elim s [ none ↦ none | some t ↦ some t.node ])
      go none = refl
      go (some s) = refl

  source_of-with_source :
      (src : Option Source) (s : String) (inv : Inventory)
      → is_some (source_of s (with_source src inv))
        ≡ (is_some (source_of s inv) || node_eq.same (node_of src) (some s))
  source_of-with_source none s inv = ground (arith, node_eq.decides none (some s))
  source_of-with_source (some src) s inv = ground (
    arith,
    get-insert ⦃e = string-Eq⦄ src.node s src inv.sources,
    str_eq_iff src.node s,
    node_eq.decides (some src.node) (some s),
  )

  pub source_of-index_item :
      (inv : Inventory) (item : Item) (s : String)
      → is_some (source_of s (index_item inv item)) ≡ (
          is_some (source_of s inv)
          || (node_eq.same (source_node item) (some s)
              && not (is_some (items_of (source_node item) inv))))
  unfolding index_item
  source_of-index_item inv item s = ground (
    arith,
    source_of-with_source item.source s
        (with_items (source_node item) (insert ⦃e = oid_eq⦄ item.oid item []) inv),
    node_of-source_node item,
  )

  source_of-without_source :
      (n : Option String) (s : String) (inv : Inventory)
      → is_some (source_of s (without_source n inv))
        ≡ (is_some (source_of s inv) && not (node_eq.same n (some s)))
  source_of-without_source none s inv = ground (arith, node_eq.decides none (some s))
  source_of-without_source (some k) s inv = ground (
    arith,
    get-remove ⦃e = string-Eq⦄ k s inv.sources,
    str_eq_iff k s,
    node_eq.decides (some k) (some s),
  )

  pub source_of-unindex_item :
      (inv : Inventory) (item : Item) (s : String)
      → is_some (source_of s (unindex_item inv item)) ≡ (
          is_some (source_of s inv)
          && not (
              node_eq.same (source_node item) (some s)
              && (is_some (items_of (source_node item) inv)
                  && not (is_some (left_entry item (items_of (source_node item) inv))))))
  unfolding unindex_item
  source_of-unindex_item inv item s = go (items_of (source_node item) inv)
    where
      go :
          (o : Option (Dict OID Item))
          → is_some (
              source_of s (elim o [
                | none ↦ inv
                | some items ↦ shrink (source_node item) (remove ⦃e = oid_eq⦄ item.oid items) inv
              ]))
            ≡ (is_some (source_of s inv)
                && not (
                    node_eq.same (source_node item) (some s)
                    && (is_some o && not (is_some (left_entry item o)))))
      go none = ground arith
      go (some d) = ground (
        arith,
        source_of-without_source (source_node item) s (record inv {
          items_by_source = remove ⦃e = node_eq⦄ (source_node item) inv.items_by_source;
        }),
      )
